-- ===== src/World/Session.antt =====
-- crates/world/src/session.rs: the identity, position and schemas of an open world.
use rintawa.Prelude.{ℕ, ok, ◌>>=◌}
use rintawa.World.Ids.{WorldId}
use rintawa.World.Errors.{WorldResult}
use rintawa.World.Schema
use rintawa.World.Schema.{JsonSchema, SchemaDefinition, SchemaRegistration, SchemaRegistry}

abbrev pub world_format_version : ℕ
world_format_version = 1

pub record WorldSessionState : Type 0 where
  pub id : WorldId
  pub commit_position : ℕ
  pub schemas : SchemaRegistry

abbrev pub new : WorldId → WorldSessionState
new id = record { id = id; commit_position = 0; schemas = Schema.new }

unfoldable pub restore : WorldId → ℕ → SchemaRegistry → WorldSessionState
restore id commit_position schemas = record {
  id = id;
  commit_position = commit_position;
  schemas = schemas;
}

unfoldable pub register_schema :
    JsonSchema
    → WorldSessionState
    → SchemaDefinition
    → WorldResult (WorldSessionState × SchemaRegistration)
register_schema js s definition = do
  (schemas, registration) ← Schema.register js s.schemas definition
  ok (record s { schemas = schemas }, registration)
