-- ===== src/World/Schema/Registry.antt =====
-- What the schema registry of crates/world/src/schema.rs guarantees to its users.
use rintawa.Prelude.{
  ◌≡◌, ◌⊎◌, refl, sym, ◌∙◌, subst, ite, if_pos, if_neg, none, some, Option-cases, Result-cases, ok,
  inl, inr, arith, ◌↔◌, get, insert, get-insert, get-insert_self, get-insert_ne,
}
use rintawa.World.Ids.{SchemaKey, SchemaKey-discrete, SchemaKind, Json}
use rintawa.World.Schema.{
  SchemaDefinition, Validator, JsonSchema, SchemaRegistration, registered, already_present,
  SchemaRegistry, lookup, register, require_kind, verdict, validate_payload,
}

-- `key` names a definition of the kind.
pub record IsKind (r : SchemaRegistry) (key : SchemaKey) (kind : SchemaKind) : Type 0 where
  pub found : SchemaDefinition
  pub at_key : lookup r key ≡ some found
  pub of_kind : found.kind ≡ kind

-- Every definition stands under its own key, with the validator that its schema compiles to.
pub record IsCompiled (js : JsonSchema) (r : SchemaRegistry) (key : SchemaKey)
    (d : SchemaDefinition) : Type 0 where
  pub own_key : d.key ≡ key
  pub validator : Validator
  pub compiles : js.validator_for d.definition ≡ ok validator
  pub stored : get SchemaKey-discrete key r.validators ≡ some validator

abbrev pub IsWellFormed : JsonSchema → SchemaRegistry → Type 0
IsWellFormed js r =
    (key : SchemaKey) (d : SchemaDefinition) → lookup r key ≡ some d → IsCompiled js r key d

IsKind-of_ok :
    (r : SchemaRegistry) (key : SchemaKey) (kind : SchemaKind)
    → require_kind r key kind ≡ ok tt
    → IsKind r key kind
unfolding require_kind
IsKind-of_ok r key kind h = elim (Option-cases (lookup r key)) [
  | inl missing ↦ absurd (ground arith)
  | inr (d, found) ↦ record { found = d; at_key = found; of_kind = ground arith }
]

ok_of_IsKind :
    (r : SchemaRegistry) (key : SchemaKey) (kind : SchemaKind)
    → IsKind r key kind
    → require_kind r key kind ≡ ok tt
unfolding require_kind
ok_of_IsKind r key kind k = let e = k.at_key in let e' = k.of_kind in ground arith

pub require_kind_iff :
    (r : SchemaRegistry) (key : SchemaKey) (kind : SchemaKind)
    → (require_kind r key kind ≡ ok tt) ↔ IsKind r key kind
require_kind_iff r key kind = (IsKind-of_ok r key kind, ok_of_IsKind r key kind)

abbrev after_new : SchemaRegistry → SchemaDefinition → Validator → SchemaRegistry
after_new r d v = record {
  definitions = insert SchemaKey-discrete d.key d r.definitions;
  validators = insert SchemaKey-discrete d.key v r.validators;
}

-- The two ways in which a registration succeeds.
register_cases :
    (js : JsonSchema) (r : SchemaRegistry) (d : SchemaDefinition) (r' : SchemaRegistry)
    (a : SchemaRegistration)
    → register js r d ≡ ok (r', a)
    → ((r' ≡ r) × (lookup r d.key ≡ some d) × (a ≡ already_present))
      ⊎ ((v : Validator) × (lookup r d.key ≡ none)
          × (js.validator_for d.definition ≡ ok v)
          × (a ≡ registered)
          × (r' ≡ after_new r d v))
unfolding register
register_cases js r d r' a h = elim (Option-cases (lookup r d.key)) [
  | inl fresh ↦ elim (Result-cases (js.validator_for d.definition)) [
    | inl (v, compiles) ↦ inr (v, fresh, compiles, ground arith, ground arith)
    | inr (e, refused) ↦ absurd (ground arith)
  ]
  | inr (existing, found) ↦ inl (ground arith, ground arith, ground arith)
]

-- After a successful registration the key names the registered definition, and every other key names
-- what it named before: a registration never replaces a definition.
lookup-register :
    (js : JsonSchema) (r : SchemaRegistry) (d : SchemaDefinition) {r' : SchemaRegistry}
    {a : SchemaRegistration} (key : SchemaKey)
    → register js r d ≡ ok (r', a)
    → lookup r' key ≡ ite (SchemaKey-discrete d.key key) (some d) (lookup r key)
unfolding lookup
lookup-register js r d {r'} {a} key h = elim (register_cases js r d r' a h) [
  | inl (same, found, again) ↦ elim (SchemaKey-discrete d.key key) [
    | yes p ↦ rw (if_pos _ p, same, ← p) found
    | no p ↦ rw (if_neg _ p, same)
  ]
  | inr (v, fresh, compiles, new, e) ↦
      rw e (get-insert SchemaKey-discrete d.key key d r.definitions)
]

-- After a successful registration, registering the same definition again changes nothing and reports so.
register_twice :
    (js : JsonSchema) (r : SchemaRegistry) (d : SchemaDefinition) {r' : SchemaRegistry}
    {a : SchemaRegistration}
    → register js r d ≡ ok (r', a)
    → register js r' d ≡ ok (r', already_present)
unfolding register
register_twice js r d {r'} {a} h =
    let e = lookup-register js r d d.key h in
    let found = e ∙ if_pos (SchemaKey-discrete d.key d.key) refl _ _ in ground arith

after_new-IsWellFormed :
    (js : JsonSchema) (r : SchemaRegistry) (d : SchemaDefinition) (v : Validator)
    → IsWellFormed js r
    → js.validator_for d.definition ≡ ok v
    → IsWellFormed js (after_new r d v)
unfolding lookup
after_new-IsWellFormed js r d v w compiles key d' h = elim (SchemaKey-discrete d.key key) [
  | yes p ↦
      let e : d ≡ d' = cc (get-insert_self SchemaKey-discrete d.key d r.definitions) in
      subst (λ x. IsCompiled js (after_new r d v) key x) e
        (record {
          own_key = p;
          validator = v;
          compiles = compiles;
          stored = rw (← p) (get-insert_self SchemaKey-discrete d.key v r.validators);
        })
  | no p ↦
      let c = w key d' (sym (get-insert_ne SchemaKey-discrete d.key key d r.definitions p) ∙ h) in
      record {
        own_key = c.own_key;
        validator = c.validator;
        compiles = c.compiles;
        stored = get-insert_ne SchemaKey-discrete d.key key v r.validators p ∙ c.stored;
      }
]

-- A successful registration keeps a well-formed registry well formed, for whatever `jsonschema` compiles.
register-IsWellFormed :
    (js : JsonSchema) (r : SchemaRegistry) (d : SchemaDefinition) {r' : SchemaRegistry}
    {a : SchemaRegistration}
    → IsWellFormed js r
    → register js r d ≡ ok (r', a)
    → IsWellFormed js r'
register-IsWellFormed js r d {r'} {a} w h = elim (register_cases js r d r' a h) [
  | inl (same, found, again) ↦ rw same w
  | inr (v, fresh, compiles, new, e) ↦ rw e (after_new-IsWellFormed js r d v w compiles)
]

-- In a well-formed registry a payload of a registered schema of the right kind is judged by the
-- validator that the schema compiles to, and by nothing else.
validate_payload-verdict :
    (js : JsonSchema) (r : SchemaRegistry) (key : SchemaKey) (kind : SchemaKind) (payload : Json)
    → IsWellFormed js r
    → (k : IsKind r key kind)
    → (v : Validator) × (js.validator_for k.found.definition ≡ ok v)
      × (validate_payload r key kind payload ≡ verdict key (v payload))
unfolding validate_payload
validate_payload-verdict js r key kind payload w k =
    let c = w key k.found k.at_key in
    let e = ok_of_IsKind r key kind k in (c.validator, c.compiles, rw e (rw c.stored))
