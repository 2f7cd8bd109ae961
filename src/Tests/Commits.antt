-- ===== src/Tests/Commits.antt =====
-- The theorems about commits, mutations and the runtime on the test world.
use rintawa.Prelude.{true, ◌≡◌, refl, false, ok, err, [], arith}
use rintawa.Prelude.Int.{pos}
use rintawa.World.Errors.{command_id_conflict}
use rintawa.Storage.Errors.{world}
use rintawa.Storage.External.{since_epoch}
use rintawa.World.Ids.{Json}
use rintawa.World.Command.{WorldCommand}
use rintawa.Storage.Digest.{canonical_json, command_digest}
use rintawa.Storage.Commit.{commit}
use rintawa.Storage.Commit.Retry.{repeated}
use rintawa.Storage.Commit.Guards.{Committed, Extends, commit-Committed, commit-Extends}
use rintawa.Storage.Reach.{
  Reach, here, next, commits, outbox, IsValid, Reach-IsValid, commit_once, commit_conflict,
}
use rintawa.Storage.Outbox.Updates.{claimed}
use rintawa.Runtime.Commands.{outcome_of, process_command}
use rintawa.Runtime.Commands.Once.{process_command_once}
use rintawa.Runtime.Queue.{shutdown}
use rintawa.Runtime.Queue.Order.{
  begin, after, submitted, worked, IsRunning, start-IsRunning, answered, below, shutdown-drains,
}
use rintawa.Runtime.Effect.FollowUp.{follow_up_once}
use rintawa.Tests.Worlds.{
  libraries, empty_world, spawn, spawning, noon, spawned_world, spawn_receipt, claimed_world,
  spawn_claim, systems, spawn_outcome, idle, busy, done, follow_up, codec, handler, followers,
  followed_world, followed_outcome,
}
use rintawa.Tests.Runs.{
  spawn_commits, spawn_claimed, spawn_processed, follow_up_processed, follow_up_answered,
  spawn_submitted, idle_started, spawn_worked,
}

empty-IsValid : IsValid empty_world
empty-IsValid = record {
  history = record { commits = tt; mutations = tt; events = tt; jobs = tt };
  consistent = record {
    relations = tt;
    entity_facets = tt;
    relation_facets = tt;
    grants = tt;
    grant_schemas = tt;
  };
  outbox = record { rows = tt; unique = tt };
}

-- From the commit to the claim.
to_claimed : Reach libraries spawned_world claimed_world
to_claimed = next here (outbox (claimed (pos 50) (pos 90) spawn_claim spawn_claimed))

commit_once_example :
    commit libraries (since_epoch 7) claimed_world spawn (record spawning { events = [] }) 3
    ≡ ok (claimed_world, repeated spawn_receipt)
commit_once_example =
    commit_once libraries noon empty_world spawn spawning 0 {db' = spawned_world}
      {receipt = spawn_receipt} empty-IsValid spawn_commits {now = claimed_world} to_claimed
      (since_epoch 7) (record spawning { events = [] }) 3

Reach-IsValid_example : IsValid claimed_world
Reach-IsValid_example =
    Reach-IsValid libraries {db = empty_world} {db' = claimed_world} empty-IsValid (
      next (next here (commits noon spawn spawning 0 spawn_receipt spawn_commits))
        (outbox (claimed (pos 50) (pos 90) spawn_claim spawn_claimed)))

commit-Committed_example :
    Committed libraries empty_world spawn spawning 0 spawned_world spawn_receipt
commit-Committed_example =
    commit-Committed libraries noon empty_world spawn spawning 0 spawned_world spawn_receipt
      spawn_commits refl

commit-Extends_example : Extends empty_world spawned_world
commit-Extends_example =
    commit-Extends libraries noon empty_world spawn spawning 0 spawned_world spawn_receipt
      spawn_commits

digest_77 : command_digest libraries spawn ≡ ok 77
unfolding command_digest canonical_json
digest_77 = refl

-- Another command under the identifier of the first.
abbrev forgery : WorldCommand
forgery = record spawn { payload = Json.bool true }

digest_78 : command_digest libraries forgery ≡ ok 78
unfolding command_digest canonical_json
digest_78 = refl

commit_conflict_example :
    commit libraries (since_epoch 7) claimed_world forgery spawning 1
    ≡ err (world (command_id_conflict 20))
commit_conflict_example =
    commit_conflict libraries noon empty_world spawn spawning 0 {db' = spawned_world}
      {receipt = spawn_receipt} empty-IsValid spawn_commits {now = claimed_world} to_claimed forgery
      refl digest_77 digest_78 (λ e. ground arith) (since_epoch 7) spawning 1

process_command_once_example :
    process_command libraries (since_epoch 7) [] claimed_world spawn
    ≡ (claimed_world, outcome_of libraries claimed_world (repeated spawn_receipt))
process_command_once_example =
    process_command_once libraries noon systems empty_world spawn {db' = spawned_world}
      {outcome = spawn_outcome} empty-IsValid spawn_processed {now = claimed_world} to_claimed
      (since_epoch 7) []

start-IsRunning_example : IsRunning done
start-IsRunning_example =
    start-IsRunning libraries true empty_world systems 2 {r = idle} {r' = done} empty-IsValid
      idle_started
      (after
        (after begin (submitted spawn (record { command_id = 20; receiver = 0 }) spawn_submitted))
        (worked noon spawn_worked))

busy-IsRunning : IsRunning busy
unfolding below
busy-IsRunning = record { bounded = omega arith; ordered = refl; valid = empty-IsValid }

shutdown-drains_example :
    (answered (shutdown libraries noon busy) ≡ below (shutdown libraries noon busy).next_response)
    × ((shutdown libraries noon busy).queue ≡ [])
    × ((shutdown libraries noon busy).accepting ≡ false)
shutdown-drains_example = shutdown-drains libraries noon busy busy-IsRunning

follow_up_once_example :
    (process_command libraries (since_epoch 7) systems followed_world follow_up).0 ≡ followed_world
follow_up_once_example =
    follow_up_once libraries codec handler spawn_claim spawn_claim follow_up follow_up refl
      follow_up_answered follow_up_answered noon followers empty_world {db' = followed_world}
      {outcome = followed_outcome} empty-IsValid follow_up_processed {now = followed_world} here
      (since_epoch 7) systems
