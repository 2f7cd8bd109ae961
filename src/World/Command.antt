-- ===== src/World/Command.antt =====
-- crates/world/src/command.rs: the submitted command and its causal metadata. Fresh identifiers are
-- arguments: the code draws them from `Uuid::now_v7`.
use rintawa.Prelude.{ℕ, Option, none, some, ℕ_discrete}
use rintawa.World.Ids.{
  SchemaKey, SchemaKind, PrincipalId, CommandId, CorrelationId, WorldEventId, EffectJobId,
  UnixTimeMillis, Json,
}
use rintawa.World.Errors.{ActorRef, WorldResult}
use rintawa.World.Schema.{SchemaRegistry, validate_payload}

pub data CausationRef : Type 0 where
  command : CommandId → CausationRef
  event : WorldEventId → CausationRef
  effect : EffectJobId → CausationRef

unfoldable pub CausationRef-discrete : Discrete CausationRef
unfolding ℕ_discrete
CausationRef-discrete = hlevel ℕ_discrete

pub record WorldCommand : Type 0 where
  pub id : CommandId
  pub schema : SchemaKey
  pub principal : PrincipalId
  pub actor : ActorRef
  pub expected_position : Option ℕ
  pub causation : Option CausationRef
  pub correlation_id : CorrelationId
  pub effective_at : Option UnixTimeMillis
  pub payload : Json

unfoldable pub with_ids :
    CommandId → CorrelationId → SchemaKey → PrincipalId → ActorRef → Json → WorldCommand
with_ids id correlation_id schema principal actor payload = record {
  id = id;
  schema = schema;
  principal = principal;
  actor = actor;
  expected_position = none;
  causation = none;
  correlation_id = correlation_id;
  effective_at = none;
  payload = payload;
}

unfoldable pub expecting_position : WorldCommand → ℕ → WorldCommand
expecting_position c position = record c { expected_position = some position }

unfoldable pub caused_by : WorldCommand → CausationRef → WorldCommand
caused_by c causation = record c { causation = some causation }

unfoldable pub validate_schema : WorldCommand → SchemaRegistry → WorldResult (Unit {0})
unfolding validate_payload
validate_schema c schemas = validate_payload schemas c.schema SchemaKind.command c.payload
