-- ===== src/World/Transaction.antt =====
-- crates/world/src/transaction.rs: transaction drafts, the admission checks of a transaction, and the
-- records that a commit leaves.
pub mod Admission
use rintawa.Prelude.{
  ℕ, Bool, true, false, ◌&&◌, not, List, [], ◌∷◌, Option, none, some, map, ok, err, ◌>>=◌, ◌>>◌,
  guard, for_each, any, ◌==◌, if◌then◌else◌,
}
use rintawa.World.Ids.{
  SchemaKey, SchemaKind, PrincipalId, WorldId, CommandId, CorrelationId, WorldEventId, EffectJobId,
  UnixTimeMillis, Json,
}
use rintawa.World.Errors.{
  ActorRef, WorldError, WorldResult, empty_transaction, duplicate_event_id, duplicate_effect_job_id,
  empty_control_scope,
}
use rintawa.World.Schema.{SchemaRegistry, require_kind, validate_payload}
use rintawa.World.Authority.{ControlScope, any_command, exact_schemas}
use rintawa.World.State.{
  WorldMutation, create_entity, delete_entity, create_relation, delete_relation, set_facet,
  remove_facet, grant_control, revoke_control,
}
use rintawa.World.Command.{CausationRef}

abbrev pub world_mutation_format_version : ℕ
world_mutation_format_version = 1

pub record WorldEventDraft : Type 0 where
  pub id : WorldEventId
  pub schema : SchemaKey
  pub payload : Json

pub record EffectJobDraft : Type 0 where
  pub id : EffectJobId
  pub schema : SchemaKey
  pub payload : Json

pub record WorldTransaction : Type 0 where
  pub mutations : List WorldMutation
  pub events : List WorldEventDraft
  pub effects : List EffectJobDraft

unfoldable pub is_empty {ℓ} : {A : Type ℓ} → List A → Bool
is_empty [] = true
is_empty (x ∷ xs) = false

-- `if !ids.insert(id) { return Err(..) }` for each identifier in turn; `seen` is the `HashSet`.
unfoldable pub reject_duplicates : (ℕ → WorldError) → List ℕ → List ℕ → WorldResult (Unit {0})
unfolding any
reject_duplicates duplicate seen [] = ok tt
reject_duplicates duplicate seen (id ∷ ids) = do
  guard (not (any (λ s. s == id) seen)) (duplicate id)
  reject_duplicates duplicate (id ∷ seen) ids

-- The schemas of an exact control scope.
validate_scope : SchemaRegistry → ControlScope → WorldResult (Unit {0})
unfolding is_empty for_each require_kind
validate_scope schemas any_command = ok tt
validate_scope schemas (exact_schemas command_schemas) = do
  guard (not (is_empty command_schemas)) empty_control_scope
  for_each (λ command_schema. require_kind schemas command_schema SchemaKind.command)
      command_schemas

-- The body of the loop over the mutations.
unfoldable pub validate_mutation : SchemaRegistry → WorldMutation → WorldResult (Unit {0})
unfolding require_kind validate_payload validate_scope
validate_mutation schemas (create_entity e) = require_kind schemas e.schema SchemaKind.entity
validate_mutation schemas (delete_entity id) = ok tt
validate_mutation schemas (create_relation r) = require_kind schemas r.schema SchemaKind.relation
validate_mutation schemas (delete_relation id) = ok tt
validate_mutation schemas (set_facet f) =
    validate_payload schemas f.schema SchemaKind.facet f.payload
validate_mutation schemas (remove_facet target schema) =
    require_kind schemas schema SchemaKind.facet
validate_mutation schemas (grant_control g) = validate_scope schemas g.scope
validate_mutation schemas (revoke_control id) = ok tt

unfoldable pub validate_event : SchemaRegistry → WorldEventDraft → WorldResult (Unit {0})
unfolding validate_payload
validate_event schemas event = validate_payload schemas event.schema SchemaKind.event event.payload

unfoldable pub validate_effect : SchemaRegistry → EffectJobDraft → WorldResult (Unit {0})
unfolding validate_payload
validate_effect schemas effect =
    validate_payload schemas effect.schema SchemaKind.effect effect.payload

unfoldable pub validate_schemas : WorldTransaction → SchemaRegistry → WorldResult (Unit {0})
unfolding is_empty reject_duplicates for_each validate_mutation validate_event validate_effect
validate_schemas t schemas = do
  guard (not (is_empty t.mutations && is_empty t.events && is_empty t.effects)) empty_transaction
  reject_duplicates duplicate_event_id [] (map (λ e. e.id) t.events)
  reject_duplicates duplicate_effect_job_id [] (map (λ e. e.id) t.effects)
  for_each (validate_mutation schemas) t.mutations
  for_each (validate_event schemas) t.events
  for_each (validate_effect schemas) t.effects

pub data CommitDisposition : Type 0 where
  committed already_committed : CommitDisposition

pub record CommitReceipt : Type 0 where
  pub disposition : CommitDisposition
  pub command_id : CommandId
  pub position : ℕ
  pub event_ids : List WorldEventId
  pub effect_job_ids : List EffectJobId

pub record StoredWorldMutation : Type 0 where
  pub commit_position : ℕ
  pub mutation_index : ℕ
  pub format_version : ℕ
  pub mutation : WorldMutation

pub record CommandProvenance : Type 0 where
  pub command_id : CommandId
  pub command_schema : SchemaKey
  pub principal : PrincipalId
  pub actor : ActorRef
  pub causation : Option CausationRef
  pub correlation_id : CorrelationId
  pub effective_at : Option UnixTimeMillis
  pub recorded_at : UnixTimeMillis

pub record StoredWorldEvent : Type 0 where
  pub world_id : WorldId
  pub id : WorldEventId
  pub commit_position : ℕ
  pub event_index : ℕ
  pub provenance : CommandProvenance
  pub schema : SchemaKey
  pub payload : Json

pub record StoredEffectJob : Type 0 where
  pub world_id : WorldId
  pub id : EffectJobId
  pub commit_position : ℕ
  pub job_index : ℕ
  pub provenance : CommandProvenance
  pub schema : SchemaKey
  pub payload : Json
  pub attempt_count : ℕ
