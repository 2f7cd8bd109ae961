-- ===== src/Tests/Runs.antt =====
-- Runs of the commit, of the outbox and of the runtime on the test world.
use rintawa.Prelude.{
  true, ◌≡◌, refl, some, ok, [], ◌∷◌, any, select, find, count, update_where, get, insert, for_each,
  fold_result, order_by, collect_results,
}
use rintawa.World.Ids.{SchemaKind-discrete, SchemaKey-discrete}
use rintawa.World.Schema.{register, require_kind, validate_payload}
use rintawa.World.Session.{restore}
use rintawa.World.Command.{validate_schema}
use rintawa.World.Transaction.{
  is_empty, reject_duplicates, validate_mutation, validate_event, validate_effect, validate_schemas,
}
use rintawa.Storage.Codec.{
  position_to_sql, position_from_sql, index_to_sql, schema_kind_from_code, recorded_at_now,
}
use rintawa.Storage.Statements.{
  insert_commit_row, insert_entity_row, insert_mutation_row, insert_event_row, insert_job_row,
}
use rintawa.Storage.Schemas.{decode_schema, load_row, load_schema_registry}
use rintawa.Storage.Mutation.{apply_create_entity, optional_position_to_sql, apply_mutation}
use rintawa.Storage.Digest.{canonical_json, command_digest}
use rintawa.Storage.Commit.{
  receipt_of, load_existing_receipt, current_position, check_expected, authorize_actor,
  authorize_command, reject_reused_ids, next_position, insert_commit, write_mutation, write_event,
  write_effect, write_all, advance_position, write_rows, write_commit, admit, commit_new,
  commit_found, commit,
}
use rintawa.Storage.Codec.{
  actor_parts, causation_parts, index_from_sql, decode_actor, decode_causation,
}
use rintawa.Storage.Query.{
  join_commits, decode_provenance, decode_job, decode_event, events_at_position, effect_job_by_id,
}
use rintawa.Storage.Outbox.{
  expired, is_due, first_row, candidate, next_attempt, claims, leased, update_one, claim_row,
  claim_candidate, claim_next,
}
use rintawa.Storage.Commit.{committed_receipt, validate_command}
use rintawa.Runtime.Systems.{snapshot_for_command}
use rintawa.Runtime.Commands.{
  is_authority_mutation, reject_privileged_authority_output, system_output, evaluate_command,
  outcome_of, process_command,
}
use rintawa.Storage.Session.{ensure_world_format, load_session}
use rintawa.Runtime.Systems.{validate_policy, require_commands}
use rintawa.Runtime.Queue.{start, submit, work}
use rintawa.Runtime.Effect.{
  effect_completion_command_id, new_request, validate_response, execute, complete,
}
use rintawa.World.Command.{CausationRef-discrete}
use rintawa.Prelude.{ap}
use rintawa.Prelude.Int.{pos}
use rintawa.Tests.Worlds.{
  claimed_world, spawn_claim, systems, spawn_outcome, idle, busy, done, follow_up, codec, handler,
  followers, followed_world, followed_outcome, libraries, empty_world, spawn, spawning, noon,
  spawned_world, spawn_receipt,
}

-- The commit of the test world.
pub spawn_commits :
    commit libraries noon empty_world spawn spawning 0 ≡ ok (spawned_world, spawn_receipt)
unfolding any select find get insert for_each fold_result order_by SchemaKind-discrete
    SchemaKey-discrete register require_kind validate_payload validate_schema is_empty
    reject_duplicates validate_mutation validate_event validate_effect validate_schemas
    position_to_sql position_from_sql index_to_sql schema_kind_from_code recorded_at_now
    insert_commit_row insert_entity_row insert_mutation_row insert_event_row insert_job_row
    decode_schema load_row load_schema_registry apply_create_entity optional_position_to_sql
    apply_mutation command_digest canonical_json receipt_of load_existing_receipt current_position
    check_expected authorize_actor authorize_command reject_reused_ids next_position insert_commit
    write_mutation write_event write_effect write_all advance_position write_rows write_commit admit
    commit_new commit_found commit
spawn_commits = refl

pub spawn_claimed :
    claim_next libraries spawned_world (pos 50) (pos 90) ≡ ok (claimed_world, some spawn_claim)
unfolding select find count update_where order_by position_from_sql index_from_sql decode_actor
    decode_causation join_commits decode_provenance decode_job effect_job_by_id expired is_due
    first_row candidate next_attempt claims leased update_one claim_row claim_candidate claim_next
    actor_parts causation_parts
spawn_claimed = refl

pub spawn_processed :
    process_command libraries noon systems empty_world spawn ≡ (spawned_world, ok spawn_outcome)
unfolding any select find get insert for_each fold_result order_by SchemaKind-discrete
    SchemaKey-discrete register require_kind validate_payload validate_schema is_empty
    reject_duplicates validate_mutation validate_event validate_effect validate_schemas
    position_to_sql position_from_sql index_to_sql schema_kind_from_code recorded_at_now
    insert_commit_row insert_entity_row insert_mutation_row insert_event_row insert_job_row
    decode_schema load_row load_schema_registry apply_create_entity optional_position_to_sql
    apply_mutation command_digest canonical_json receipt_of load_existing_receipt current_position
    check_expected authorize_actor authorize_command reject_reused_ids next_position insert_commit
    write_mutation write_event write_effect write_all advance_position write_rows write_commit admit
    commit_new commit_found commit committed_receipt validate_command index_from_sql decode_actor
    decode_causation collect_results join_commits decode_provenance decode_event events_at_position
    snapshot_for_command is_authority_mutation reject_privileged_authority_output system_output
    evaluate_command outcome_of process_command actor_parts causation_parts
spawn_processed = refl

pub follow_up_processed :
    process_command libraries noon followers empty_world follow_up
    ≡ (followed_world, ok followed_outcome)
unfolding any select find get insert for_each fold_result order_by SchemaKind-discrete
    SchemaKey-discrete register require_kind validate_payload validate_schema is_empty
    reject_duplicates validate_mutation validate_event validate_effect validate_schemas
    position_to_sql position_from_sql index_to_sql schema_kind_from_code recorded_at_now
    insert_commit_row insert_entity_row insert_mutation_row insert_event_row insert_job_row
    decode_schema load_row load_schema_registry apply_create_entity optional_position_to_sql
    apply_mutation command_digest canonical_json receipt_of load_existing_receipt current_position
    check_expected authorize_actor authorize_command reject_reused_ids next_position insert_commit
    write_mutation write_event write_effect write_all advance_position write_rows write_commit admit
    commit_new commit_found commit committed_receipt validate_command collect_results join_commits
    events_at_position snapshot_for_command is_authority_mutation reject_privileged_authority_output
    system_output evaluate_command outcome_of process_command actor_parts causation_parts
follow_up_processed = refl

pub follow_up_answered : execute codec handler spawn_claim ≡ ok (complete (some follow_up))
unfolding SchemaKey-discrete CausationRef-discrete effect_completion_command_id new_request
    validate_response execute
follow_up_answered = refl

pub spawn_submitted : submit idle spawn ≡ ok (busy, record { command_id = 20; receiver = 0 })
unfolding submit
spawn_submitted = refl

pub spawn_worked : work libraries noon busy busy.queue ≡ some done
unfolding work
spawn_worked =
    ap (λ p. some (record busy { database = p.0; queue = []; answers = (0, p.1) ∷ [] }))
      spawn_processed

pub idle_started : start libraries true empty_world systems 2 ≡ ok idle
unfolding get insert for_each fold_result SchemaKind-discrete SchemaKey-discrete register
    require_kind position_from_sql schema_kind_from_code decode_schema load_row load_schema_registry
    ensure_world_format load_session validate_policy require_commands start restore
idle_started = refl
