-- ===== src/Storage/Session.antt =====
-- crates/storage/src/sqlite/mod.rs: the session state that an open world database restores.
use rintawa.Prelude.{ℕ, ok, ◌>>=◌, ◌>>◌, guard, ◌==◌}
use rintawa.Prelude.Int.{pos}
use rintawa.World.Session.{world_format_version, WorldSessionState, restore}
use rintawa.Storage.Errors.{StorageResult, unsupported_world_format}
use rintawa.Storage.External.{External}
use rintawa.Storage.Codec.{position_from_sql}
use rintawa.Storage.Tables.{Db}
use rintawa.Storage.Schemas.{load_schema_registry}

unfoldable pub ensure_world_format : ℕ → StorageResult (Unit {0})
ensure_world_format found =
    guard (found == world_format_version) (unsupported_world_format found world_format_version)

unfoldable pub load_session : External → Db → StorageResult WorldSessionState
load_session x db = do
  commit_position ← position_from_sql (pos db.commit_position)
  ensure_world_format db.world_format_version
  schemas ← load_schema_registry x db
  ok (restore db.world_id commit_position schemas)
