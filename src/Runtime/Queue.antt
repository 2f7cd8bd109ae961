-- ===== src/Runtime/Queue.antt =====
-- crates/world-runtime/src/runtime.rs: `WorldRuntimeBuilder::start`, the bounded queue of a running
-- `WorldRuntime`, its single worker and its shutdown. A response channel is the number of its ticket; the
-- answers that the worker has sent stand in `answers` in the order of sending.
pub mod Order
use rintawa.Prelude.{
  ℕ, suc, ◌+◌, Bool, true, false, not, List, [], ◌∷◌, ◌++◌, length, Option, none, some, ok, err,
  ◌>>=◌, ◌>>◌, guard, ok_or, map_err, find, leb, ◌==◌, if◌then◌else◌,
}
use rintawa.World.Ids.{CommandId}
use rintawa.World.Command.{WorldCommand}
use rintawa.World.Transaction.{CommitReceipt}
use rintawa.Storage.External.{External, ClockReading}
use rintawa.Storage.Tables.{Db}
use rintawa.Storage.Session.{load_session}
use rintawa.Runtime.Errors.{
  WorldRuntimeResult, WorldRuntimeError, runtime_stopped, queue_full, worker_stopped, worker_spawn,
}
use rintawa.Runtime.Systems.{Systems, validate_policy, require_commands}
use rintawa.Runtime.Commands.{WorldCommandOutcome, process_command}

pub record CommandJob : Type 0 where
  pub command : WorldCommand
  pub response : ℕ

abbrev pub Answer : Type 0
Answer = ℕ × WorldRuntimeResult WorldCommandOutcome

-- `accepting` is `sender.is_some()`, and `systems` is what the worker holds.
pub record WorldRuntime : Type 0 where
  pub database : Db
  pub systems : Systems
  pub capacity : ℕ
  pub accepting : Bool
  pub queue : List CommandJob
  pub next_response : ℕ
  pub answers : List Answer

pub record WorldCommandTicket : Type 0 where
  pub command_id : CommandId
  pub receiver : ℕ

-- `spawned` is whether the operating system starts the thread.
unfoldable pub start : External → Bool → Db → Systems → ℕ → WorldRuntimeResult WorldRuntime
start x spawned db systems capacity = do
  validate_policy capacity
  session ← map_err WorldRuntimeError.storage (load_session x db)
  require_commands session.schemas systems
  guard spawned worker_spawn
  ok (record {
    database = db;
    systems = systems;
    capacity = capacity;
    accepting = true;
    queue = [];
    next_response = 0;
    answers = [];
  })

-- `try_send` on the bounded channel refuses a job while `capacity` jobs wait.
unfoldable pub submit :
    WorldRuntime → WorldCommand → WorldRuntimeResult (WorldRuntime × WorldCommandTicket)
submit r command = do
  guard r.accepting runtime_stopped
  guard (not (leb r.capacity (length r.queue))) queue_full
  ok (
    record r {
      queue = r.queue ++ record { command = command; response = r.next_response } ∷ [];
      next_response = r.next_response + 1;
    },
    record { command_id = command.id; receiver = r.next_response },
  )

-- One turn of `worker_loop`: `recv` takes the first job of the queue.
unfoldable pub work : External → ClockReading → WorldRuntime → List CommandJob → Option WorldRuntime
work x clock r [] = none
work x clock r (job ∷ rest) =
    let result = process_command x clock r.systems r.database job.command in
    some (record r {
      database = result.0;
      queue = rest;
      answers = r.answers ++ (job.response, result.1) ∷ [];
    })

-- `stop_worker`: the sender goes, then the worker is joined once the queue is empty.
unfoldable pub close : WorldRuntime → WorldRuntime
close r = record r { accepting = false }

-- `worker_loop` over the jobs that wait, until `recv` fails because the sender is gone.
unfoldable pub worker_loop : External → ClockReading → WorldRuntime → List CommandJob → WorldRuntime
worker_loop x clock r [] = record r { queue = [] }
worker_loop x clock r (job ∷ rest) =
    let result = process_command x clock r.systems r.database job.command in
    worker_loop x clock
      (record r {
        database = result.0;
        queue = rest;
        answers = r.answers ++ (job.response, result.1) ∷ [];
      })
      rest

unfoldable pub shutdown : External → ClockReading → WorldRuntime → WorldRuntime
unfolding close
shutdown x clock r = worker_loop x clock (close r) r.queue

-- `wait_outcome` and `wait`, when the worker has sent all that it will send.
abbrev received : Option Answer → WorldRuntimeResult WorldCommandOutcome
received none = err worker_stopped
received (some answer) = answer.1

unfoldable pub wait_outcome :
    WorldRuntime → WorldCommandTicket → WorldRuntimeResult WorldCommandOutcome
wait_outcome r ticket = received (find (λ a. a.0 == ticket.receiver) r.answers)

unfoldable pub wait : WorldRuntime → WorldCommandTicket → WorldRuntimeResult CommitReceipt
wait r ticket = do outcome ← wait_outcome r ticket; ok outcome.receipt
