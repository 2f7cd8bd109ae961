-- ===== src/World/Transaction/Admission.antt =====
-- The admission checks of crates/world/src/transaction.rs decide a predicate on transactions.
use rintawa.Prelude.{
  ℕ, ◌≡◌, ◌≢◌, ◌↔◌, refl, ◌&&◌, false, List, [], ◌∷◌, map, ok, for_each, any, All, arith, ◌==◌,
}
use rintawa.World.Ids.{SchemaKey, SchemaKind, Json}
use rintawa.World.Errors.{WorldError, WorldResult, duplicate_event_id, duplicate_effect_job_id}
use rintawa.World.Schema.{SchemaRegistry, validate_payload, require_kind}
use rintawa.World.Schema.Registry.{IsKind, require_kind_iff}
use rintawa.World.Authority.{ControlScope, any_command, exact_schemas}
use rintawa.World.State.{
  WorldMutation, create_entity, create_relation, set_facet, remove_facet, grant_control,
}
use rintawa.World.Transaction.{
  WorldTransaction, WorldEventDraft, EffectJobDraft, is_empty, reject_duplicates, validate_scope,
  validate_mutation, validate_event, validate_effect, validate_schemas,
}

-- No identifier of the list stands in `seen` or twice in the list.
abbrev pub Fresh : List ℕ → List ℕ → Type 0
Fresh seen [] = Unit
Fresh seen (id ∷ ids) = (any (λ s. s == id) seen ≡ false) × Fresh (id ∷ seen) ids

-- The schema registry accepts the payload under the schema, which has the kind.
abbrev pub Accepts : SchemaRegistry → SchemaKey → SchemaKind → Json → Type 0
Accepts r key kind payload = validate_payload r key kind payload ≡ ok tt

abbrev pub IsScope : SchemaRegistry → ControlScope → Type 0
IsScope r any_command = Unit
IsScope r (exact_schemas schemas) =
    (schemas ≢ []) × All (λ s. IsKind r s SchemaKind.command) schemas

abbrev pub IsMutation : SchemaRegistry → WorldMutation → Type 0
IsMutation r (create_entity e) = IsKind r e.schema SchemaKind.entity
IsMutation r (create_relation e) = IsKind r e.schema SchemaKind.relation
IsMutation r (set_facet f) = Accepts r f.schema SchemaKind.facet f.payload
IsMutation r (remove_facet target schema) = IsKind r schema SchemaKind.facet
IsMutation r (grant_control g) = IsScope r g.scope
IsMutation r _ = Unit

-- What makes a transaction admissible: it holds something, names no event or effect job twice, and each
-- of its parts has registered schemas of the right kind and payloads that these accept.
pub record IsAdmissible (r : SchemaRegistry) (t : WorldTransaction) : Type 0 where
  pub nonempty : ¬ ((t.mutations ≡ []) × (t.events ≡ []) × (t.effects ≡ []))
  pub events_once : Fresh [] (map (λ e. e.id) t.events)
  pub effects_once : Fresh [] (map (λ e. e.id) t.effects)
  pub mutations : All (IsMutation r) t.mutations
  pub events : All (λ e. Accepts r e.schema SchemaKind.event e.payload) t.events
  pub effects : All (λ e. Accepts r e.schema SchemaKind.effect e.payload) t.effects

for_each_iff {ℓ κ} :
    {A : Type ℓ} (f : A → WorldResult (Unit {0})) (P : A → Type κ) (xs : List A)
    → ((x : A) → (f x ≡ ok tt) ↔ P x)
    → (for_each f xs ≡ ok tt) ↔ All P xs
unfolding for_each
for_each_iff f P [] iff = (λ _. tt, λ _. refl)
for_each_iff f P (x ∷ xs) iff =
    let ih = for_each_iff f P xs iff in
    (
      λ h. ((iff x).0 (ground arith), ih.0 (ground arith)),
      λ h. let e = (iff x).1 h.0 in let e' = ih.1 h.1 in ground arith,
    )

reject_duplicates_iff :
    (duplicate : ℕ → WorldError) (seen ids : List ℕ)
    → (reject_duplicates duplicate seen ids ≡ ok tt) ↔ Fresh seen ids
unfolding reject_duplicates
reject_duplicates_iff duplicate seen [] = (λ _. tt, λ _. refl)
reject_duplicates_iff duplicate seen (id ∷ ids) =
    let ih = reject_duplicates_iff duplicate (id ∷ seen) ids in
    (
      λ h. (ground arith, ih.0 (ground arith)),
      λ h. let e = ih.1 h.1 in let e' = h.0 in ground arith,
    )

validate_scope_iff :
    (r : SchemaRegistry) (scope : ControlScope) → (validate_scope r scope ≡ ok tt) ↔ IsScope r scope
unfolding validate_scope
validate_scope_iff r any_command = (λ _. tt, λ _. refl)
validate_scope_iff r (exact_schemas []) = (λ h. absurd (ground arith), λ h. absurd (h.0 refl))
validate_scope_iff r (exact_schemas (s ∷ rest)) =
    let ih =
      for_each_iff (λ k. require_kind r k SchemaKind.command) (λ k. IsKind r k SchemaKind.command)
        (s ∷ rest) (λ k. require_kind_iff r k SchemaKind.command) in
    (λ h. (λ e. cc, ih.0 h), λ h. ih.1 h.1)

validate_mutation_iff :
    (r : SchemaRegistry) (m : WorldMutation) → (validate_mutation r m ≡ ok tt) ↔ IsMutation r m
unfolding validate_mutation
validate_mutation_iff r (create_entity e) = require_kind_iff r e.schema SchemaKind.entity
validate_mutation_iff r (create_relation e) = require_kind_iff r e.schema SchemaKind.relation
validate_mutation_iff r (set_facet f) = (λ h. h, λ h. h)
validate_mutation_iff r (remove_facet target schema) = require_kind_iff r schema SchemaKind.facet
validate_mutation_iff r (grant_control g) = validate_scope_iff r g.scope
validate_mutation_iff r _ = (λ _. tt, λ _. refl)

-- The checks in the order of the code, each with its result.
record Passes (t : WorldTransaction) (r : SchemaRegistry) : Type 0 where
  nonempty : (is_empty t.mutations && is_empty t.events && is_empty t.effects) ≡ false
  events_once : reject_duplicates duplicate_event_id [] (map (λ e. e.id) t.events) ≡ ok tt
  effects_once : reject_duplicates duplicate_effect_job_id [] (map (λ e. e.id) t.effects) ≡ ok tt
  mutations : for_each (validate_mutation r) t.mutations ≡ ok tt
  events : for_each (validate_event r) t.events ≡ ok tt
  effects : for_each (validate_effect r) t.effects ≡ ok tt

validate_schemas-Passes :
    (t : WorldTransaction) (r : SchemaRegistry) → validate_schemas t r ≡ ok tt → Passes t r
unfolding validate_schemas
validate_schemas-Passes t r h = ground arith

Passes-validate_schemas :
    (t : WorldTransaction) (r : SchemaRegistry) → Passes t r → validate_schemas t r ≡ ok tt
unfolding validate_schemas
Passes-validate_schemas t r p = ground arith

validate_event_iff :
    (r : SchemaRegistry) (e : WorldEventDraft)
    → (validate_event r e ≡ ok tt) ↔ Accepts r e.schema SchemaKind.event e.payload
unfolding validate_event
validate_event_iff r e = (λ h. h, λ h. h)

validate_effect_iff :
    (r : SchemaRegistry) (e : EffectJobDraft)
    → (validate_effect r e ≡ ok tt) ↔ Accepts r e.schema SchemaKind.effect e.payload
unfolding validate_effect
validate_effect_iff r e = (λ h. h, λ h. h)

nonempty_iff :
    (t : WorldTransaction)
    → ((is_empty t.mutations && is_empty t.events && is_empty t.effects) ≡ false)
      ↔ (¬ ((t.mutations ≡ []) × (t.events ≡ []) × (t.effects ≡ [])))
unfolding is_empty
nonempty_iff t = (λ h e. ground arith, λ h. ground arith)

module _ (t : WorldTransaction) (r : SchemaRegistry) where
  mutations_iff :
      (for_each (validate_mutation r) t.mutations ≡ ok tt) ↔ All (IsMutation r) t.mutations
  mutations_iff =
      for_each_iff (validate_mutation r) (IsMutation r) t.mutations (validate_mutation_iff r)

  events_iff :
      (for_each (validate_event r) t.events ≡ ok tt)
      ↔ All (λ e. Accepts r e.schema SchemaKind.event e.payload) t.events
  events_iff =
      for_each_iff (validate_event r) (λ e. Accepts r e.schema SchemaKind.event e.payload) t.events
        (validate_event_iff r)

  effects_iff :
      (for_each (validate_effect r) t.effects ≡ ok tt)
      ↔ All (λ e. Accepts r e.schema SchemaKind.effect e.payload) t.effects
  effects_iff =
      for_each_iff (validate_effect r) (λ e. Accepts r e.schema SchemaKind.effect e.payload)
        t.effects (validate_effect_iff r)

  IsAdmissible-of_Passes : Passes t r → IsAdmissible r t
  IsAdmissible-of_Passes p = record {
    nonempty = (nonempty_iff t).0 p.nonempty;
    events_once =
        (reject_duplicates_iff duplicate_event_id [] (map (λ e. e.id) t.events)).0 p.events_once;
    effects_once =
        (reject_duplicates_iff duplicate_effect_job_id [] (map (λ e. e.id) t.effects)).0
          p.effects_once;
    mutations = mutations_iff.0 p.mutations;
    events = events_iff.0 p.events;
    effects = effects_iff.0 p.effects;
  }

  Passes-of_IsAdmissible : IsAdmissible r t → Passes t r
  Passes-of_IsAdmissible a = record {
    nonempty = (nonempty_iff t).1 a.nonempty;
    events_once =
        (reject_duplicates_iff duplicate_event_id [] (map (λ e. e.id) t.events)).1 a.events_once;
    effects_once =
        (reject_duplicates_iff duplicate_effect_job_id [] (map (λ e. e.id) t.effects)).1
          a.effects_once;
    mutations = mutations_iff.1 a.mutations;
    events = events_iff.1 a.events;
    effects = effects_iff.1 a.effects;
  }

-- `validate_schemas` succeeds exactly on the admissible transactions.
pub validate_schemas_iff :
    (t : WorldTransaction) (r : SchemaRegistry) → (validate_schemas t r ≡ ok tt) ↔ IsAdmissible r t
validate_schemas_iff t r = (
  λ h. IsAdmissible-of_Passes t r (validate_schemas-Passes t r h),
  λ a. Passes-validate_schemas t r (Passes-of_IsAdmissible t r a),
)
