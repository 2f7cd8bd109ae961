-- ===== src/Runtime/Systems.antt =====
-- crates/world-runtime/src/system.rs and snapshot.rs, and the registration of Systems in runtime.rs: a
-- System is code outside the runtime, a function of a snapshot and a command that may panic.
use rintawa.Prelude.{
  ℕ, Bool, true, false, ◌||◌, List, Option, none, some, Result, ok, err, ◌>>=◌, ◌>>◌, guard, not,
  map_err, for_each, get, insert, ltb, ◌==◌, if◌then◌else◌,
}
use rintawa.World.Ids.{SchemaKey, SchemaKey-discrete, SchemaKind}
use rintawa.World.Command.{WorldCommand}
use rintawa.World.Schema.{SchemaRegistry, require_kind}
use rintawa.World.Transaction.{WorldTransaction}
use rintawa.Storage.Errors.{StorageResult}
use rintawa.Storage.External.{External}
use rintawa.Storage.Tables.{Db}
use rintawa.Storage.Commit.{validate_command}
use rintawa.Runtime.Errors.{
  SystemError, WorldRuntimeResult, world, duplicate_system, invalid_queue_capacity,
}

-- A read transaction pinned at a position: the database as it was then.
pub record WorldSnapshot : Type 0 where
  pub database : Db
  pub position : ℕ

-- `SqliteWorldStorage::snapshot_for_command`.
unfoldable pub snapshot_for_command : External → Db → WorldCommand → StorageResult WorldSnapshot
snapshot_for_command x db command = do
  position ← validate_command x db command
  ok (record { database = db; position = position })

-- What `catch_unwind` of `evaluate` returns.
pub data Evaluation : Type 0 where
  panicked : Evaluation
  returned : Result SystemError WorldTransaction → Evaluation

pub record WorldSystem : Type 0 where
  pub command_schema : SchemaKey
  pub evaluate : WorldSnapshot → WorldCommand → Evaluation

pub record WorldSystemPrivileges : Type 0 where
  pub can_mutate_authority : Bool

abbrev pub ordinary : WorldSystemPrivileges
ordinary = record { can_mutate_authority = false }

abbrev pub authority_manager : WorldSystemPrivileges
authority_manager = record { can_mutate_authority = true }

pub record RegisteredSystem : Type 0 where
  pub system : WorldSystem
  pub privileges : WorldSystemPrivileges

abbrev pub Systems : Type 0
Systems = List (SchemaKey × RegisteredSystem)

-- `contains_key` and `insert`.
abbrev pub has_system : Option RegisteredSystem → Bool
has_system none = false
has_system (some s) = true

unfoldable pub register_system_with_privileges :
    Systems → WorldSystem → WorldSystemPrivileges → WorldRuntimeResult Systems
register_system_with_privileges systems system privileges = do
  guard (not (has_system (get SchemaKey-discrete system.command_schema systems)))
      (duplicate_system system.command_schema)
  ok (
      insert SchemaKey-discrete system.command_schema
        (record { system = system; privileges = privileges }) systems)

unfoldable pub register_system : Systems → WorldSystem → WorldRuntimeResult Systems
register_system systems system = register_system_with_privileges systems system ordinary

abbrev pub max_command_queue_capacity : ℕ
max_command_queue_capacity = 4096

unfoldable pub validate_policy : ℕ → WorldRuntimeResult (Unit {0})
validate_policy capacity =
    if capacity == 0 || ltb max_command_queue_capacity capacity
    then err (invalid_queue_capacity capacity max_command_queue_capacity)
    else ok tt

-- The loop of `start` over the keys of the Systems.
unfoldable pub require_commands : SchemaRegistry → Systems → WorldRuntimeResult (Unit {0})
require_commands schemas systems =
    for_each (λ entry. map_err world (require_kind schemas entry.0 SchemaKind.command)) systems
