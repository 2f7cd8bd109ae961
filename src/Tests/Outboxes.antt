-- ===== src/Tests/Outboxes.antt =====
-- The theorems about control, the outbox and the columns on the test world.
use rintawa.Prelude.{
  ◌≡◌, refl, none, some, true, false, ok, err, any, select, find, count, update_where, get, insert,
  for_each, fold_result, order_by, collect_results,
}
use rintawa.World.Ids.{SchemaKind-discrete, SchemaKey-discrete}
use rintawa.World.Schema.{register, require_kind, validate_payload}
use rintawa.World.Command.{validate_schema}
use rintawa.World.Transaction.{
  is_empty, reject_duplicates, validate_mutation, validate_event, validate_effect, validate_schemas,
}
use rintawa.Storage.Codec.{
  position_to_sql, position_from_sql, index_to_sql, schema_kind_from_code, recorded_at_now,
}
use rintawa.Storage.Statements.{
  insert_commit_row, insert_entity_row, insert_mutation_row, insert_event_row, insert_job_row,
}
use rintawa.Storage.Schemas.{decode_schema, load_row, load_schema_registry}
use rintawa.Storage.Mutation.{apply_create_entity, optional_position_to_sql, apply_mutation}
use rintawa.Storage.Digest.{canonical_json, command_digest}
use rintawa.Storage.Commit.{
  receipt_of, load_existing_receipt, current_position, check_expected, authorize_actor,
  authorize_command, reject_reused_ids, next_position, insert_commit, write_mutation, write_event,
  write_effect, write_all, advance_position, write_rows, write_commit, admit, commit_new,
  commit_found, commit,
}
use rintawa.Storage.Codec.{
  actor_parts, causation_parts, index_from_sql, decode_actor, decode_causation,
}
use rintawa.Storage.Query.{join_commits, decode_provenance, decode_event, events_at_position}
use rintawa.Storage.Outbox.{expired, is_due, first_row, candidate, claim_next}
use rintawa.Storage.Commit.{committed_receipt, validate_command}
use rintawa.Runtime.Systems.{snapshot_for_command}
use rintawa.Runtime.Commands.{
  is_authority_mutation, reject_privileged_authority_output, system_output, evaluate_command,
  outcome_of, process_command,
}
use rintawa.Prelude.Int.{pos}
use rintawa.Tests.Worlds.{claimed_world, spawn_claim, libraries, spawn, noon, spawned_world}
use rintawa.Prelude.{◌↔◌, ◌⊎◌, ◌≤◌, arith, ◌==◌, if◌then◌else◌, All, In, delete_where}
use rintawa.World.State.{delete_entity}
use rintawa.Storage.Query.{grant_matches, principal_can_control}
use rintawa.Storage.Statements.{delete_entity_rows, delete_relations, delete_grants}
use rintawa.Storage.Mutation.{apply_delete_entity, scope_kind}
use rintawa.Storage.Mutation.Control.{apply_mutation-Narrows}
use rintawa.Storage.Mutation.Consistency.{IsConsistent}
use rintawa.Storage.Mutation.Consistency.Keeps.{apply_mutation-IsConsistent}
use rintawa.Storage.Tables.{JobRow}
use rintawa.Storage.Outbox.{
  complete as complete_job, retry, cancel_claimed, completed_row, retried_row, cancelled_claim_row,
  is_claim, next_wakeup,
}
use rintawa.Storage.Errors.{effect_job_claim_lost}
use rintawa.Storage.Outbox.Rows.{IsOutbox, row_at}
use rintawa.Storage.Outbox.Fencing.{IsClaim, claim_next-IsClaim, claim_next-fences}
use rintawa.Storage.Outbox.Wakeup.{claim_next-waits_iff, candidate-IsFirst}
use rintawa.Storage.Outbox.Lifecycle.{Reach-row}
use rintawa.Storage.Outbox.Updates.{here, next, claimed, is_closed}
use rintawa.Storage.Commit.{job_row}
use rintawa.Runtime.Commands.Authority.{IsOrdinary, process_command-Narrows}
use rintawa.Prelude.{not_after}
use rintawa.World.Ids.{null}
use rintawa.Tests.Runs.{spawn_claimed}
use rintawa.Tests.Worlds.{key, granted_world, creators}

deletes_6 :
    apply_mutation libraries 1 granted_world (delete_entity 6)
    ≡ ok (delete_entity_rows 6 granted_world)
unfolding count apply_delete_entity apply_mutation
deletes_6 = refl

still_controls :
    principal_can_control (delete_entity_rows 6 granted_world) 9 5 (key "spawn") 2 ≡ ok true
unfolding any select delete_where delete_relations delete_grants delete_entity_rows position_to_sql
    grant_matches principal_can_control scope_kind
still_controls = refl

apply_mutation-Narrows_example : principal_can_control granted_world 9 5 (key "spawn") 2 ≡ ok true
apply_mutation-Narrows_example =
    apply_mutation-Narrows libraries 1 granted_world (delete_entity 6)
      {db' = delete_entity_rows 6 granted_world} refl deletes_6 9 5 (key "spawn") 2 still_controls

created_controls :
    principal_can_control
      (process_command libraries noon creators granted_world spawn).0
      9
      5
      (key "spawn")
      1
    ≡ ok true
unfolding any select find get insert for_each fold_result order_by SchemaKind-discrete
    SchemaKey-discrete register require_kind validate_payload validate_schema is_empty
    reject_duplicates validate_mutation validate_event validate_effect validate_schemas
    position_to_sql position_from_sql index_to_sql schema_kind_from_code recorded_at_now
    insert_commit_row insert_entity_row insert_mutation_row insert_event_row insert_job_row
    decode_schema load_row load_schema_registry apply_create_entity optional_position_to_sql
    apply_mutation command_digest canonical_json receipt_of load_existing_receipt current_position
    check_expected authorize_actor authorize_command reject_reused_ids next_position insert_commit
    write_mutation write_event write_effect write_all advance_position write_rows write_commit admit
    commit_new commit_found commit committed_receipt validate_command index_from_sql decode_actor
    decode_causation collect_results join_commits decode_provenance decode_event events_at_position
    snapshot_for_command is_authority_mutation reject_privileged_authority_output system_output
    evaluate_command outcome_of process_command actor_parts causation_parts grant_matches
    principal_can_control scope_kind
created_controls = refl

spawn-IsOrdinary : IsOrdinary (get SchemaKey-discrete (key "spawn") creators)
unfolding get SchemaKey-discrete
spawn-IsOrdinary = refl

process_command-Narrows_example : principal_can_control granted_world 9 5 (key "spawn") 1 ≡ ok true
process_command-Narrows_example =
    process_command-Narrows libraries noon creators granted_world spawn spawn-IsOrdinary 9 5
      (key "spawn") 1 created_controls

granted-IsConsistent : IsConsistent granted_world
unfolding any
granted-IsConsistent = record {
  relations = tt;
  entity_facets = tt;
  relation_facets = tt;
  grants = (refl, tt);
  grant_schemas = tt;
}

apply_mutation-IsConsistent_example : IsConsistent (delete_entity_rows 6 granted_world)
apply_mutation-IsConsistent_example =
    apply_mutation-IsConsistent libraries 1 granted_world (delete_entity 6)
      {db' = delete_entity_rows 6 granted_world} granted-IsConsistent deletes_6

abbrev notify_row : JobRow
notify_row = job_row 1 0 (record { id = 40; schema = key "notify"; payload = null }) "null"

spawned-IsOutbox : IsOutbox spawned_world.jobs
unfolding any
spawned-IsOutbox = record {
  rows = (record { known = omega arith; lease = refl; counted = omega arith }, tt);
  unique = (refl, tt);
}

claim_next-IsClaim_example :
    (j : JobRow) × IsClaim spawned_world claimed_world (pos 50) (pos 90) spawn_claim j
    × (is_due (pos 50) j ≡ true)
claim_next-IsClaim_example =
    claim_next-IsClaim libraries spawned_world (pos 50) (pos 90) {db' = claimed_world}
      {c = spawn_claim} spawned-IsOutbox spawn_claimed

claim_next-fences_example :
    (complete_job claimed_world 40 2 ≡ (
      if 2 == 1
      then ok (record claimed_world {
        jobs = update_where (is_claim 40 2) completed_row claimed_world.jobs;
      })
      else err (effect_job_claim_lost 40)))
    × (retry claimed_world 40 2 (pos 60) "later" ≡ (
        if 2 == 1
        then ok (record claimed_world {
          jobs = update_where (is_claim 40 2) (retried_row (pos 60) "later") claimed_world.jobs;
        })
        else err (effect_job_claim_lost 40)))
    × (cancel_claimed claimed_world 40 2 "later" ≡ (
        if 2 == 1
        then ok (record claimed_world {
          jobs = update_where (is_claim 40 2) (cancelled_claim_row "later") claimed_world.jobs;
        })
        else err (effect_job_claim_lost 40)))
claim_next-fences_example =
    claim_next-fences libraries spawned_world (pos 50) (pos 90) {db' = claimed_world}
      {c = spawn_claim} 2 (pos 60) "later" spawned-IsOutbox spawn_claimed (omega arith)

claim_next-waits_iff_example :
    (claim_next libraries spawned_world (pos 50) (pos 90) ≡ ok (spawned_world, none))
    ↔ (expired (next_wakeup spawned_world) (pos 50) ≡ false)
claim_next-waits_iff_example =
    claim_next-waits_iff libraries spawned_world (pos 50) (pos 90) spawned-IsOutbox.rows refl

chosen : candidate (pos 50) spawned_world.jobs ≡ some notify_row
unfolding select expired is_due first_row order_by candidate
chosen = refl

candidate-IsFirst_example :
    In notify_row spawned_world.jobs
    × (is_due (pos 50) notify_row ≡ true)
    × All
        (λ r.
          (is_due (pos 50) r ≡ false) ⊎ (not_after (1, 0) (r.commit_position, r.job_index) ≡ true))
        spawned_world.jobs
candidate-IsFirst_example = candidate-IsFirst (pos 50) spawned_world.jobs {j = notify_row} chosen

found : row_at 40 spawned_world.jobs ≡ some notify_row
unfolding find
found = refl

Reach-row_example :
    (r : JobRow) × (row_at 40 claimed_world.jobs ≡ some r)
    × ((r ≡ notify_row) ⊎ (is_closed notify_row ≡ false))
    × (notify_row.attempt_count ≤ r.attempt_count)
Reach-row_example =
    Reach-row libraries {db = spawned_world} {db' = claimed_world} 40 {r = notify_row}
      spawned-IsOutbox (next here (claimed (pos 50) (pos 90) spawn_claim spawn_claimed)) found
