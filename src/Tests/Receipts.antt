-- ===== src/Tests/Receipts.antt =====
-- The theorems about receipts and positions of crates/storage/src/sqlite/commit.rs on concrete worlds.
use rintawa.Prelude.{
  ◌≡◌, refl, none, some, ok, err, [], ◌∷◌, any, select, find, get, insert, for_each, fold_result,
  order_by,
}
use rintawa.World.Ids.{SchemaKind-discrete, SchemaKey-discrete}
use rintawa.World.Schema.{register, require_kind, validate_payload}
use rintawa.World.Command.{validate_schema}
use rintawa.World.Transaction.{
  is_empty, reject_duplicates, validate_mutation, validate_event, validate_effect, validate_schemas,
}
use rintawa.Storage.Codec.{
  position_to_sql, position_from_sql, index_to_sql, schema_kind_from_code, recorded_at_now,
}
use rintawa.Storage.Statements.{
  insert_commit_row, insert_entity_row, insert_mutation_row, insert_event_row, insert_job_row,
}
use rintawa.Storage.Schemas.{decode_schema, load_row, load_schema_registry}
use rintawa.Storage.Mutation.{apply_create_entity, optional_position_to_sql, apply_mutation}
use rintawa.Storage.Digest.{canonical_json, command_digest}
use rintawa.Storage.Commit.{
  event_ids_for_position, effect_ids_for_position, receipt_of, load_existing_receipt,
  current_position, check_expected, authorize_actor, authorize_command, reject_reused_ids,
  next_position, insert_commit, write_mutation, write_event, write_effect, write_all,
  advance_position, write_rows, write_commit, admit, commit_new, commit_found, commit,
}
use rintawa.Prelude.Int.{pos}
use rintawa.Tests.Worlds.{
  libraries, empty_world, spawn, spawning, noon, spawned_world, spawn_receipt,
}
use rintawa.Prelude.{arith}
use rintawa.Storage.Tables.{Db}
use rintawa.Storage.Commit.Receipts.{commit-keeps_receipt}
use rintawa.Storage.Commit.Guards.{commit-last_position}
use rintawa.World.State.{create_entity}
use rintawa.World.Command.{WorldCommand}
use rintawa.World.Transaction.{WorldTransaction, committed}
use rintawa.Storage.Codec.{i64_max}
use rintawa.Storage.Errors.{index_out_of_range}
use rintawa.Storage.Mutation.{entity_row}
use rintawa.Storage.Commit.{commit_row, mutation_row}
use rintawa.Storage.Commit.Retry.{repeated}
use rintawa.Storage.Commit.History.{IsHistory}
use rintawa.Tests.Worlds.{key}

-- A second command in the world of the first.
abbrev second : WorldCommand
second = record spawn { id = 21; expected_position = none }

abbrev second_world : Db
second_world = record spawned_world {
  commit_position = 2;
  commits =
      commit_row spawn 77 1 (some 0) (pos 1000) "null"
      ∷ commit_row second 77 2 none (pos 1000) "null"
      ∷ [];
  mutations = mutation_row 1 0 "mutation" ∷ mutation_row 2 0 "mutation" ∷ [];
  entities =
      entity_row (record { id = 5; schema = key "person" }) 1
      ∷ entity_row (record { id = 7; schema = key "person" }) 2
      ∷ [];
}

abbrev second_transaction : WorldTransaction
second_transaction = record {
  mutations = create_entity (record { id = 7; schema = key "person" }) ∷ [];
  events = [];
  effects = [];
}

second_commits :
    commit libraries noon spawned_world second second_transaction 1
    ≡ ok (
      second_world,
      record {
        disposition = committed;
        command_id = 21;
        position = 2;
        event_ids = [];
        effect_job_ids = [];
      },
    )
unfolding any select find get insert for_each fold_result order_by SchemaKind-discrete
    SchemaKey-discrete register require_kind validate_payload validate_schema is_empty
    reject_duplicates validate_mutation validate_event validate_effect validate_schemas
    position_to_sql position_from_sql index_to_sql schema_kind_from_code recorded_at_now
    insert_commit_row insert_entity_row insert_mutation_row insert_event_row insert_job_row
    decode_schema load_row load_schema_registry apply_create_entity optional_position_to_sql
    apply_mutation command_digest canonical_json receipt_of load_existing_receipt current_position
    check_expected authorize_actor authorize_command reject_reused_ids next_position insert_commit
    write_mutation write_event write_effect write_all advance_position write_rows write_commit admit
    commit_new commit_found commit
second_commits = refl

spawn_stored : load_existing_receipt spawned_world 20 77 ≡ ok (some (repeated spawn_receipt))
unfolding select find order_by position_to_sql position_from_sql event_ids_for_position
    effect_ids_for_position receipt_of load_existing_receipt
spawn_stored = refl

spawned-IsHistory : IsHistory spawned_world
spawned-IsHistory = record {
  commits = (omega arith, tt);
  mutations = (omega arith, tt);
  events = (omega arith, tt);
  jobs = (omega arith, tt);
}

commit-keeps_receipt_example :
    load_existing_receipt second_world 20 77 ≡ ok (some (repeated spawn_receipt))
commit-keeps_receipt_example =
    commit-keeps_receipt libraries noon spawned_world second second_transaction 1 second_world
      (record {
        disposition = committed;
        command_id = 21;
        position = 2;
        event_ids = [];
        effect_job_ids = [];
      })
      spawned-IsHistory second_commits 20 77 (repeated spawn_receipt) spawn_stored

-- A world at the last position.
abbrev last_world : Db
last_world = record empty_world { commit_position = i64_max }

abbrev last_command : WorldCommand
last_command = record spawn { expected_position = none }

last_digest : command_digest libraries last_command ≡ ok 77
unfolding command_digest canonical_json
last_digest = refl

last_fresh : load_existing_receipt last_world 20 77 ≡ ok none
unfolding find receipt_of load_existing_receipt
last_fresh = refl

last_admitted : admit libraries last_world last_command spawning i64_max ≡ ok i64_max
unfolding any select find get insert for_each fold_result order_by SchemaKind-discrete
    SchemaKey-discrete register require_kind validate_payload validate_schema is_empty
    reject_duplicates validate_mutation validate_event validate_effect validate_schemas
    position_to_sql position_from_sql index_to_sql schema_kind_from_code recorded_at_now
    insert_commit_row insert_entity_row insert_mutation_row insert_event_row insert_job_row
    decode_schema load_row load_schema_registry apply_create_entity optional_position_to_sql
    apply_mutation command_digest canonical_json receipt_of load_existing_receipt current_position
    check_expected authorize_actor authorize_command reject_reused_ids next_position insert_commit
    write_mutation write_event write_effect write_all advance_position write_rows write_commit admit
    commit_new commit_found commit
last_admitted = refl

commit-last_position_example :
    commit libraries noon last_world last_command spawning i64_max
    ≡ err (index_out_of_range "commit_position")
commit-last_position_example =
    commit-last_position libraries noon last_world last_command spawning i64_max 77 i64_max
      last_digest last_fresh last_admitted refl
