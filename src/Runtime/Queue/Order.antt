-- ===== src/Runtime/Queue/Order.antt =====
-- The queue of crates/world-runtime/src/runtime.rs over any sequence of submissions, turns of the worker and
-- outbox operations of other threads: its bound, its order, and the validity of the database.
use rintawa.Prelude.{
  inl, inr, true, Bool, Result-cases, ℕ, zero, suc, ◌+◌, ◌≤◌, ◌<◌, ◌≡◌, ◌∙◌, refl, sym, ap, subst,
  false, List, [], ◌∷◌, ◌++◌, append-nil, append_assoc, map, length, some, ok, arith,
}
use rintawa.World.Command.{WorldCommand}
use rintawa.Storage.External.{External, ClockReading}
use rintawa.Storage.Tables.{Db}
use rintawa.Storage.Outbox.Updates.{Step}
use rintawa.Storage.Reach.{IsValid, Reach-IsValid, here, next, outbox}
use rintawa.Storage.Session.{load_session}
use rintawa.Runtime.Systems.{Systems}
use rintawa.Runtime.Commands.{process_command}
use rintawa.Runtime.Commands.Once.{process_command-IsValid}
use rintawa.Runtime.Queue.{
  start, CommandJob, WorldRuntime, WorldCommandTicket, submit, work, close, worker_loop, shutdown,
}

-- What can happen to a runtime: a call of a client, a turn of the worker, the outbox of the same database.
pub data RuntimeStep (x : External) (r r' : WorldRuntime) : Type 0 where
  submitted :
      (c : WorldCommand) (ticket : WorldCommandTicket)
      → submit r c ≡ ok (r', ticket)
      → RuntimeStep x r r'
  worked : (clock : ClockReading) → work x clock r r.queue ≡ some r' → RuntimeStep x r r'
  closed : close r ≡ r' → RuntimeStep x r r'
  other : (db' : Db) → Step x r.database db' → record r { database = db' } ≡ r' → RuntimeStep x r r'

pub data Runs (x : External) (r : WorldRuntime) : WorldRuntime → Type 0 where
  begin : Runs x r r
  after : {mid r' : WorldRuntime} → Runs x r mid → RuntimeStep x mid r' → Runs x r r'

-- The numbers below `n`, in order.
unfoldable pub below : ℕ → List ℕ
below zero = []
below (suc n) = below n ++ n ∷ []

abbrev pub answered : WorldRuntime → List ℕ
answered r = map (λ a. a.0) r.answers

abbrev pub waiting : WorldRuntime → List ℕ
waiting r = map (λ j. j.response) r.queue

-- The queue is within its bound, the tickets that were answered and those that wait are all that were given
-- out, each once and in order, and the database is valid.
pub record IsRunning (r : WorldRuntime) : Type 0 where
  pub bounded : length r.queue ≤ r.capacity
  pub ordered : answered r ++ waiting r ≡ below r.next_response
  pub valid : IsValid r.database

module _ {A : Type 0} {B : Type 0} (f : A → B) where
  map-snoc : (xs : List A) (y : A) → map f (xs ++ y ∷ []) ≡ map f xs ++ f y ∷ []
  map-snoc [] y = refl
  map-snoc (x ∷ xs) y = ap (λ l. f x ∷ l) (map-snoc xs y)

  length-snoc : (xs : List A) (y : A) → length (xs ++ y ∷ []) ≡ length xs + 1
  length-snoc [] y = refl
  length-snoc (x ∷ xs) y = ground (arith, length-snoc xs y)

submit-IsRunning :
    (r : WorldRuntime) (c : WorldCommand) (r' : WorldRuntime) (ticket : WorldCommandTicket)
    → IsRunning r
    → submit r c ≡ ok (r', ticket)
    → IsRunning r'
unfolding submit below
submit-IsRunning r c r' ticket v h =
    let job : CommandJob = record { command = c; response = r.next_response } in
    let same : record r { queue = r.queue ++ job ∷ []; next_response = suc r.next_response } ≡ r' =
      ground arith in
    let room : length r.queue < r.capacity = ground arith in
    let longer = length-snoc (λ (j : CommandJob). j.response) r.queue job in
    let split = map-snoc (λ (j : CommandJob). j.response) r.queue job in
    subst IsRunning same (record {
      bounded = omega arith;
      ordered = rw split (
          sym (append_assoc (answered r) (waiting r) (r.next_response ∷ []))
          ∙ ap (λ l. l ++ r.next_response ∷ []) v.ordered);
      valid = v.valid;
    })

work-IsRunning :
    (x : External) (clock : ClockReading) (r : WorldRuntime) (queue : List CommandJob)
    (r' : WorldRuntime)
    → r.queue ≡ queue
    → IsRunning r
    → work x clock r queue ≡ some r'
    → IsRunning r'
unfolding work
work-IsRunning x clock r [] r' e v h = cc
work-IsRunning x clock r (job ∷ rest) r' e v h =
    let result = process_command x clock r.systems r.database job.command in
    let split = map-snoc (λ (a : ℕ × _). a.0) r.answers (job.response, result.1) in
    let fits = v.bounded in
    let taken : record r {
      database = result.0;
      queue = rest;
      answers = r.answers ++ (job.response, result.1) ∷ [];
    }
        ≡ r' =
      ground arith in
    subst IsRunning taken (record {
      bounded = ground arith;
      ordered = rw split (
          append_assoc (answered r) (job.response ∷ []) (map (λ j. j.response) rest)
          ∙ ap (λ q. answered r ++ map (λ (j : CommandJob). j.response) q) (sym e)
          ∙ v.ordered);
      valid = process_command-IsValid x clock r.systems r.database job.command v.valid;
    })

step-IsRunning :
    (x : External) {r r' : WorldRuntime} → IsRunning r → RuntimeStep x r r' → IsRunning r'
unfolding close
step-IsRunning x {r} {r'} v (submitted c ticket h) = submit-IsRunning r c r' ticket v h
step-IsRunning x {r} {r'} v (worked clock h) = work-IsRunning x clock r r.queue r' refl v h
step-IsRunning x {r} {r'} v (closed h) =
    subst IsRunning h (record { bounded = v.bounded; ordered = v.ordered; valid = v.valid })
step-IsRunning x {r} {r'} v (other db' s h) = subst IsRunning h (record {
  bounded = v.bounded;
  ordered = v.ordered;
  valid = Reach-IsValid x v.valid (next here (outbox s));
})

Runs-IsRunning : (x : External) {r r' : WorldRuntime} → IsRunning r → Runs x r r' → IsRunning r'
Runs-IsRunning x v begin = v
Runs-IsRunning x {r} {r'} v (after {mid} runs step) =
    step-IsRunning x (Runs-IsRunning x v runs) step

started :
    (x : External) (spawned : Bool) (db : Db) (systems : Systems) (capacity : ℕ) (r : WorldRuntime)
    → start x spawned db systems capacity ≡ ok r
    → record {
      database = db;
      systems = systems;
      capacity = capacity;
      accepting = true;
      queue = [];
      next_response = 0;
      answers = [];
    }
      ≡ r
unfolding start
started x spawned db systems capacity r h = elim (Result-cases (load_session x db)) [
  | inl (session, loaded) ↦ ground arith
  | inr (e, failed) ↦ absurd (ground arith)
]

-- In every run of a runtime that was started on a valid world, whatever the order of submissions, turns of the
-- worker, outbox operations and the close is, no more jobs wait than the capacity, the answered and the
-- waiting tickets together are exactly the tickets given out, each once and in the order of submission, and
-- the database stays valid.
pub start-IsRunning :
    (x : External) (spawned : Bool) (db : Db) (systems : Systems) (capacity : ℕ)
    {r r' : WorldRuntime}
    → IsValid db
    → start x spawned db systems capacity ≡ ok r
    → Runs x r r'
    → IsRunning r'
unfolding below
start-IsRunning x spawned db systems capacity {r} {r'} v h runs =
    Runs-IsRunning x
      (subst IsRunning (started x spawned db systems capacity r h)
        (record { bounded = omega arith; ordered = refl; valid = v }))
      runs

worker_loop-answers :
    (x : External) (clock : ClockReading) (r : WorldRuntime) (queue : List CommandJob)
    → (answered (worker_loop x clock r queue) ≡ answered r ++ map (λ j. j.response) queue)
      × ((worker_loop x clock r queue).queue ≡ [])
unfolding worker_loop
worker_loop-answers x clock r [] = (sym (append-nil (answered r)), refl)
worker_loop-answers x clock r (job ∷ rest) =
    let result = process_command x clock r.systems r.database job.command in
    let split = map-snoc (λ (a : ℕ × _). a.0) r.answers (job.response, result.1) in
    let ih =
      worker_loop-answers x clock
        (record r {
          database = result.0;
          queue = rest;
          answers = r.answers ++ (job.response, result.1) ∷ [];
        })
        rest in
    (
      ih.0
          ∙ ap (λ l. l ++ map (λ (j : CommandJob). j.response) rest) split
          ∙ append_assoc (answered r) (job.response ∷ []) (map (λ j. j.response) rest),
      ih.1,
    )

worker_loop-next :
    (x : External) (clock : ClockReading) (r : WorldRuntime) (queue : List CommandJob)
    → ((worker_loop x clock r queue).next_response ≡ r.next_response)
      × ((worker_loop x clock r queue).accepting ≡ r.accepting)
unfolding worker_loop
worker_loop-next x clock r [] = (refl, refl)
worker_loop-next x clock r (job ∷ rest) =
    let result = process_command x clock r.systems r.database job.command in
    worker_loop-next x clock
      (record r {
        database = result.0;
        queue = rest;
        answers = r.answers ++ (job.response, result.1) ∷ [];
      })
      rest

-- A shutdown answers every ticket that was ever given out, each once and in the order of submission, leaves
-- no job in the queue, and the runtime then accepts no command.
pub shutdown-drains :
    (x : External) (clock : ClockReading) (r : WorldRuntime)
    → IsRunning r
    → (answered (shutdown x clock r) ≡ below (shutdown x clock r).next_response)
      × ((shutdown x clock r).queue ≡ [])
      × ((shutdown x clock r).accepting ≡ false)
unfolding shutdown close
shutdown-drains x clock r v =
    let all_answered = worker_loop-answers x clock (close r) r.queue in
    let kept = worker_loop-next x clock (close r) r.queue in
    (all_answered.0 ∙ v.ordered ∙ ap below (sym kept.0), all_answered.1, kept.1)
