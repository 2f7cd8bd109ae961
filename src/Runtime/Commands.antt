-- ===== src/Runtime/Commands.antt =====
-- crates/world-runtime/src/runtime.rs: the processing of one command by the worker. The database is passed
-- on whatever the answer is: a command that was committed and whose events cannot be read back is an error
-- with a changed database.
pub mod Once
pub mod Authority
use rintawa.Prelude.{
  ℕ, Bool, true, false, not, ◌||◌, List, any, Option, none, some, Result, ok, err, ◌>>=◌, ◌>>◌,
  guard, ok_or, map_err, get, ◌==◌, if◌then◌else◌,
}
use rintawa.World.Ids.{SchemaKey, SchemaKey-discrete}
use rintawa.World.State.{
  WorldMutation, create_entity, delete_entity, create_relation, delete_relation, set_facet,
  remove_facet, grant_control, revoke_control,
}
use rintawa.World.Command.{WorldCommand}
use rintawa.World.Transaction.{WorldTransaction, CommitReceipt, StoredWorldEvent}
use rintawa.Storage.Errors.{StorageResult}
use rintawa.Storage.External.{External, ClockReading}
use rintawa.Storage.Tables.{Db}
use rintawa.Storage.Query.{events_at_position}
use rintawa.Storage.Commit.{committed_receipt, commit}
use rintawa.Runtime.Errors.{
  WorldRuntimeResult, storage, system_unavailable, system_panicked, system_failed,
  authority_mutation_denied,
}
use rintawa.Runtime.Systems.{
  WorldSystemPrivileges, Evaluation, panicked, returned, RegisteredSystem, Systems,
  snapshot_for_command,
}

pub record WorldCommandOutcome : Type 0 where
  pub receipt : CommitReceipt
  pub committed_events : List StoredWorldEvent

unfoldable pub is_authority_mutation : WorldMutation → Bool
is_authority_mutation (create_entity e) = false
is_authority_mutation (delete_entity id) = false
is_authority_mutation (create_relation r) = false
is_authority_mutation (delete_relation id) = false
is_authority_mutation (set_facet f) = false
is_authority_mutation (remove_facet target schema) = false
is_authority_mutation (grant_control g) = true
is_authority_mutation (revoke_control id) = true

unfoldable pub reject_privileged_authority_output :
    SchemaKey → WorldTransaction → WorldSystemPrivileges → WorldRuntimeResult (Unit {0})
reject_privileged_authority_output schema transaction privileges =
    if privileges.can_mutate_authority
    then ok tt
    else if any is_authority_mutation transaction.mutations
    then err (authority_mutation_denied schema)
    else ok tt

-- `.map_err(SystemPanicked)?` and `.map_err(SystemFailed)?`.
unfoldable pub system_output : SchemaKey → Evaluation → WorldRuntimeResult WorldTransaction
system_output schema panicked = err (system_panicked schema)
system_output schema (returned result) = map_err (system_failed schema) result

-- From the lookup of the System to the check of its output; the position is the evaluated one.
unfoldable pub evaluate_command :
    External → Systems → Db → WorldCommand → WorldRuntimeResult (WorldTransaction × ℕ)
evaluate_command x systems db command = do
  registered ←
      ok_or (get SchemaKey-discrete command.schema systems) (system_unavailable command.schema)
  snapshot ← map_err storage (snapshot_for_command x db command)
  output ← system_output command.schema (registered.system.evaluate snapshot command)
  reject_privileged_authority_output command.schema output registered.privileges
  ok (output, snapshot.position)

-- The events of a receipt, and the outcome.
unfoldable pub outcome_of : External → Db → CommitReceipt → WorldRuntimeResult WorldCommandOutcome
outcome_of x db receipt = do
  events ← map_err storage (events_at_position x db receipt.position)
  ok (record { receipt = receipt; committed_events = events })

-- `storage.commit(..)?` and the rest.
abbrev pub committed_outcome :
    External → Db → StorageResult (Db × CommitReceipt) → Db × WorldRuntimeResult WorldCommandOutcome
committed_outcome x db (ok (db', receipt)) = (db', outcome_of x db' receipt)
committed_outcome x db (err e) = (db, err (storage e))

abbrev pub commit_output :
    External
    → ClockReading
    → Db
    → WorldCommand
    → WorldRuntimeResult (WorldTransaction × ℕ)
    → Db × WorldRuntimeResult WorldCommandOutcome
commit_output x clock db command (ok (output, evaluated_position)) =
    committed_outcome x db (commit x clock db command output evaluated_position)
commit_output x clock db command (err e) = (db, err e)

-- The two ways of `process_command` after the lookup of a receipt.
abbrev pub process_found :
    External
    → ClockReading
    → Systems
    → Db
    → WorldCommand
    → StorageResult (Option CommitReceipt)
    → Db × WorldRuntimeResult WorldCommandOutcome
process_found x clock systems db command (ok (some receipt)) = (db, outcome_of x db receipt)
process_found x clock systems db command (ok none) =
    commit_output x clock db command (evaluate_command x systems db command)
process_found x clock systems db command (err e) = (db, err (storage e))

unfoldable pub process_command :
    External
    → ClockReading
    → Systems
    → Db
    → WorldCommand
    → Db × WorldRuntimeResult WorldCommandOutcome
process_command x clock systems db command =
    process_found x clock systems db command (committed_receipt x db command)
