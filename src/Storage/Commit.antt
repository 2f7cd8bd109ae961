-- ===== src/Storage/Commit.antt =====
-- crates/storage/src/sqlite/commit.rs: the commit of a command with the transaction that a System
-- returned for it, and the validation of a command against a snapshot.
pub mod Frame
pub mod Log
pub mod Writes
pub mod Steps
pub mod History
pub mod Retry
pub mod Receipts
pub mod Guards
pub mod Integrity
use rintawa.Prelude.{
  String, ℕ, suc, ◌+◌, not, List, [], ◌∷◌, map, Option, none, some, ok, err, ◌>>=◌, ◌>>◌, guard,
  ok_or, map_err, find, select, for_each, order_by, leb, ◌==◌, if◌then◌else◌,
}
use rintawa.Prelude.Int.{pos, ℤ}
use rintawa.World.Ids.{CommandId, WorldEventId, EffectJobId}
use rintawa.World.Errors.{
  ActorRef, command_id_conflict, world_event_already_exists, effect_job_already_exists,
  world_changed_since_evaluation, stale_world_position, commit_position_overflow,
  actor_unauthorized,
}
use rintawa.World.State.{WorldMutation}
use rintawa.World.Command.{WorldCommand, validate_schema}
use rintawa.World.Transaction.{
  WorldTransaction, WorldEventDraft, EffectJobDraft, CommitReceipt, committed, already_committed,
  validate_schemas, world_mutation_format_version,
}
use rintawa.Storage.Errors.{StorageResult, world, json, corrupt_data}
use rintawa.Storage.External.{External, ClockReading}
use rintawa.Storage.Codec.{
  u64_max, position_to_sql, position_from_sql, index_to_sql, actor_parts, causation_parts,
  recorded_at_now,
}
use rintawa.Storage.Tables.{Db, CommitRow, MutationRow, EventRow, JobRow, has_event, has_job}
use rintawa.Storage.Statements.{
  insert_commit_row, insert_mutation_row, insert_event_row, insert_job_row,
}
use rintawa.Storage.Query.{principal_can_control}
use rintawa.Storage.Schemas.{load_schema_registry}
use rintawa.Storage.Mutation.{apply_mutation, optional_position_to_sql}
use rintawa.Storage.Digest.{command_digest}

-- The ids of the events of a commit in the order of their indices; so for effect jobs below.
unfoldable pub event_ids_for_position : Db → ℕ → StorageResult (List WorldEventId)
event_ids_for_position db position = do
  position_sql ← position_to_sql position
  ok (
      map (λ e. e.event_id)
        (order_by (λ e. (0, e.event_index))
          (select (λ e. e.commit_position == position_sql) db.events)))

unfoldable pub effect_ids_for_position : Db → ℕ → StorageResult (List EffectJobId)
effect_ids_for_position db position = do
  position_sql ← position_to_sql position
  ok (
      map (λ j. j.job_id)
        (order_by (λ j. (0, j.job_index))
          (select (λ j. j.commit_position == position_sql) db.jobs)))

-- The receipt of a stored commit of the command, or a conflict with another command of that id.
unfoldable pub receipt_of :
    Db → CommandId → ℕ → Option CommitRow → StorageResult (Option CommitReceipt)
receipt_of db command_id digest none = ok none
receipt_of db command_id digest (some row) = do
  guard (row.command_digest == digest) (world (command_id_conflict command_id))
  position ← position_from_sql (pos row.commit_position)
  event_ids ← event_ids_for_position db position
  effect_job_ids ← effect_ids_for_position db position
  ok (
      some (record {
        disposition = already_committed;
        command_id = command_id;
        position = position;
        event_ids = event_ids;
        effect_job_ids = effect_job_ids;
      }))

unfoldable pub load_existing_receipt : Db → CommandId → ℕ → StorageResult (Option CommitReceipt)
load_existing_receipt db command_id digest =
    receipt_of db command_id digest (find (λ r. r.command_id == command_id) db.commits)

unfoldable pub committed_receipt :
    External → Db → WorldCommand → StorageResult (Option CommitReceipt)
committed_receipt x db command = do
  digest ← command_digest x command
  load_existing_receipt db command.id digest

unfoldable pub current_position : Db → StorageResult ℕ
current_position db = position_from_sql (pos db.commit_position)

-- `expected_position` is `none`, or the current position.
unfoldable pub check_expected : Option ℕ → ℕ → StorageResult (Unit {0})
check_expected none position = ok tt
check_expected (some expected) position =
    guard (expected == position) (world (stale_world_position expected position))

-- The branches of `authorize_command` on the actor.
unfoldable pub authorize_actor : Db → WorldCommand → ℕ → ActorRef → StorageResult (Unit {0})
authorize_actor db command position (ActorRef.principal actor_principal) =
    guard (actor_principal == command.principal)
      (world (actor_unauthorized command.principal command.actor command.schema))
authorize_actor db command position (ActorRef.entity actor_entity) = do
  allowed ← principal_can_control db command.principal actor_entity command.schema position
  guard allowed (world (actor_unauthorized command.principal command.actor command.schema))

unfoldable pub authorize_command : Db → WorldCommand → ℕ → StorageResult (Unit {0})
authorize_command db command position = authorize_actor db command position command.actor

unfoldable pub validate_command : External → Db → WorldCommand → StorageResult ℕ
validate_command x db command = do
  schemas ← load_schema_registry x db
  map_err world (validate_schema command schemas)
  position ← current_position db
  check_expected command.expected_position position
  authorize_command db command position
  ok position

unfoldable pub reject_reused_ids : Db → WorldTransaction → StorageResult (Unit {0})
reject_reused_ids db t = do
  for_each (λ e. guard (not (has_event db.events e.id)) (world (world_event_already_exists e.id)))
      t.events
  for_each (λ j. guard (not (has_job db.jobs j.id)) (world (effect_job_already_exists j.id)))
      t.effects

-- `checked_add(1)` on a `u64`.
unfoldable pub next_position : ℕ → StorageResult ℕ
next_position current =
    if leb (current + 1) u64_max then ok (current + 1) else err (world commit_position_overflow)

-- The parameters of the INSERT of a commit.
abbrev pub commit_row : WorldCommand → ℕ → ℕ → Option ℕ → ℤ → String → CommitRow
commit_row command digest position expected_position recorded_at payload = record {
  commit_position = position;
  command_id = command.id;
  command_schema = command.schema;
  principal_id = command.principal;
  actor_kind = (actor_parts command.actor).0;
  actor_id = (actor_parts command.actor).1;
  causation_kind = (causation_parts command.causation).0;
  causation_id = (causation_parts command.causation).1;
  correlation_id = command.correlation_id;
  expected_position = expected_position;
  effective_at_ms = command.effective_at;
  recorded_at_ms = recorded_at;
  command_payload_json = payload;
  command_digest = digest;
}

unfoldable pub insert_commit :
    External → ClockReading → WorldCommand → ℕ → ℕ → Db → StorageResult Db
insert_commit x clock command digest position db = do
  expected_position ← optional_position_to_sql command.expected_position
  recorded_at ← recorded_at_now clock
  payload ← ok_or (x.value_to_string command.payload) json
  insert_commit_row (commit_row command digest position expected_position recorded_at payload) db

abbrev pub mutation_row : ℕ → ℕ → String → MutationRow
mutation_row position mutation_index mutation_json = record {
  commit_position = position;
  mutation_index = mutation_index;
  format_version = world_mutation_format_version;
  mutation_json = mutation_json;
}

-- The body of the loop over the mutations: the log entry, then the change of the current state.
unfoldable pub write_mutation : External → ℕ → ℕ → Db → WorldMutation → StorageResult Db
write_mutation x position index db m = do
  mutation_json ← ok_or (x.mutation_to_string m) json
  mutation_index ← index_to_sql "mutation_index" index
  db' ← insert_mutation_row (mutation_row position mutation_index mutation_json) db
  apply_mutation x position db' m

-- The parameters of the INSERT of an event and of an effect job. The columns that the latter leaves out
-- have their defaults: pending, no attempt, available at 0.
abbrev pub event_row : ℕ → ℕ → WorldEventDraft → String → EventRow
event_row position event_index e payload = record {
  event_id = e.id;
  commit_position = position;
  event_index = event_index;
  schema = e.schema;
  payload_json = payload;
}

abbrev pub job_row : ℕ → ℕ → EffectJobDraft → String → JobRow
job_row position job_index j payload = record {
  job_id = j.id;
  commit_position = position;
  job_index = job_index;
  schema = j.schema;
  payload_json = payload;
  status = 0;
  attempt_count = 0;
  available_at_ms = pos 0;
  lease_expires_at_ms = none;
  last_error = none;
}

unfoldable pub write_event : External → ℕ → ℕ → Db → WorldEventDraft → StorageResult Db
write_event x position index db e = do
  payload ← ok_or (x.value_to_string e.payload) json
  event_index ← index_to_sql "event_index" index
  insert_event_row (event_row position event_index e payload) db

unfoldable pub write_effect : External → ℕ → ℕ → Db → EffectJobDraft → StorageResult Db
write_effect x position index db j = do
  payload ← ok_or (x.value_to_string j.payload) json
  job_index ← index_to_sql "job_index" index
  insert_job_row (job_row position job_index j payload) db

-- `for (index, item) in items.iter().enumerate()` over a database.
unfoldable pub write_all {ℓ} :
    {A : Type ℓ} → (ℕ → Db → A → StorageResult Db) → ℕ → List A → Db → StorageResult Db
write_all write index [] db = ok db
write_all write index (a ∷ rest) db = do
  db' ← write index db a
  write_all write (suc index) rest db'

-- `UPDATE world_metadata SET commit_position = ?1 WHERE singleton = 1 AND commit_position = ?2`.
unfoldable pub advance_position : ℕ → ℕ → Db → StorageResult Db
advance_position position current db = do
  guard (db.commit_position == current)
      (corrupt_data "world metadata commit position changed inside serialized transaction")
  ok (record db { commit_position = position })

-- The rows that a commit writes, once it is admitted.
unfoldable pub write_rows :
    External → ClockReading → WorldCommand → WorldTransaction → ℕ → ℕ → Db → StorageResult Db
write_rows x clock command t digest position db = do
  db1 ← insert_commit x clock command digest position db
  db2 ← write_all (write_mutation x position) 0 t.mutations db1
  db3 ← write_all (write_event x position) 0 t.events db2
  write_all (write_effect x position) 0 t.effects db3

-- The next position, the rows of the commit, and the new position of the world.
unfoldable pub write_commit :
    External → ClockReading → WorldCommand → WorldTransaction → ℕ → ℕ → Db → StorageResult (Db × ℕ)
write_commit x clock command t digest current db = do
  position ← next_position current
  position_sql ← position_to_sql position
  db4 ← write_rows x clock command t digest position_sql db
  current_sql ← position_to_sql current
  db5 ← advance_position position_sql current_sql db4
  ok (db5, position)

-- The checks between the lookup of an existing receipt and the first write; the result is the position.
unfoldable pub admit : External → Db → WorldCommand → WorldTransaction → ℕ → StorageResult ℕ
admit x db command t evaluated_position = do
  schemas ← load_schema_registry x db
  map_err world (validate_schema command schemas)
  map_err world (validate_schemas t schemas)
  reject_reused_ids db t
  current ← current_position db
  guard (current == evaluated_position)
      (world (world_changed_since_evaluation evaluated_position current))
  check_expected command.expected_position current
  authorize_command db command current
  ok current

unfoldable pub commit_new :
    External
    → ClockReading
    → Db
    → WorldCommand
    → WorldTransaction
    → ℕ
    → ℕ
    → StorageResult (Db × CommitReceipt)
commit_new x clock db command t evaluated_position digest = do
  current ← admit x db command t evaluated_position
  (db', position) ← write_commit x clock command t digest current db
  ok (
    db',
    record {
      disposition = committed;
      command_id = command.id;
      position = position;
      event_ids = map (λ e. e.id) t.events;
      effect_job_ids = map (λ j. j.id) t.effects;
    },
  )

-- What `commit` does with the receipt that it found, or did not find.
unfoldable pub commit_found :
    External
    → ClockReading
    → Db
    → WorldCommand
    → WorldTransaction
    → ℕ
    → ℕ
    → Option CommitReceipt
    → StorageResult (Db × CommitReceipt)
commit_found x clock db command t evaluated_position digest none =
    commit_new x clock db command t evaluated_position digest
commit_found x clock db command t evaluated_position digest (some receipt) = ok (db, receipt)

unfoldable pub commit :
    External
    → ClockReading
    → Db
    → WorldCommand
    → WorldTransaction
    → ℕ
    → StorageResult (Db × CommitReceipt)
commit x clock db command t evaluated_position = do
  digest ← command_digest x command
  existing ← load_existing_receipt db command.id digest
  commit_found x clock db command t evaluated_position digest existing

-- The database after an SQL transaction: its drop rolls back what a failed one wrote.
abbrev pub after : {A : Type 0} → Db → StorageResult (Db × A) → Db
after db (ok (db', a)) = db'
after db (err e) = db
