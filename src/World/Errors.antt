-- ===== src/World/Errors.antt =====
-- crates/world/src/error.rs: the errors of the authoritative world model, and the actor reference of
-- crates/world/src/authority.rs that they name.
use rintawa.Prelude.{ℕ, String, Result}
use rintawa.World.Ids.{
  SchemaKey, SchemaKind, ControlGrantId, CommandId, WorldEventId, EffectJobId, EntityId, RelationId,
  PrincipalId,
}

pub data ActorRef : Type 0 where
  principal : PrincipalId → ActorRef
  entity : EntityId → ActorRef

pub data WorldError : Type 0 where
  schema_conflict : SchemaKey → String → String → WorldError
  invalid_schema_definition : SchemaKey → String → WorldError
  schema_not_registered : SchemaKey → WorldError
  schema_kind_mismatch : SchemaKey → SchemaKind → SchemaKind → WorldError
  payload_validation_failed : SchemaKey → String → String → WorldError
  empty_control_scope : WorldError
  control_grant_already_exists : ControlGrantId → WorldError
  control_grant_not_found : ControlGrantId → WorldError
  actor_unauthorized : PrincipalId → ActorRef → SchemaKey → WorldError
  empty_transaction : WorldError
  duplicate_event_id : WorldEventId → WorldError
  duplicate_effect_job_id : EffectJobId → WorldError
  command_id_conflict : CommandId → WorldError
  world_event_already_exists : WorldEventId → WorldError
  effect_job_already_exists : EffectJobId → WorldError
  world_changed_since_evaluation : ℕ → ℕ → WorldError
  stale_world_position : ℕ → ℕ → WorldError
  commit_position_overflow : WorldError
  entity_already_exists : EntityId → WorldError
  entity_not_found : EntityId → WorldError
  relation_already_exists : RelationId → WorldError
  relation_not_found : RelationId → WorldError
  relation_endpoint_not_found : RelationId → EntityId → WorldError
  facet_target_not_found : WorldError

abbrev pub WorldResult : Type 0 → Type 0
WorldResult A = Result WorldError A
