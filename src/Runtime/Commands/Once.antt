-- ===== src/Runtime/Commands/Once.antt =====
-- `process_command` of crates/world-runtime/src/runtime.rs over the storage: a command is evaluated and
-- committed at most once.
use rintawa.Prelude.{
  ℕ, ◌≡◌, ◌∙◌, refl, ap, subst, inl, inr, find, Option, none, some, ok, err, >>=-eq-ok,
  Result-cases, arith, ◌==◌,
}
use rintawa.World.Command.{WorldCommand}
use rintawa.World.Transaction.{WorldTransaction, CommitReceipt}
use rintawa.Storage.Errors.{StorageResult}
use rintawa.Storage.External.{External, ClockReading}
use rintawa.Storage.Tables.{Db}
use rintawa.Storage.Query.{events_at_position}
use rintawa.Storage.Digest.{command_digest}
use rintawa.Storage.Commit.{load_existing_receipt, committed_receipt, commit}
use rintawa.Storage.Commit.Retry.{repeated, existing_disposition, committed-found}
use rintawa.Storage.Reach.{Reach, here, next, IsValid, commits, Reach-IsValid, Reach-receipt}
use rintawa.Runtime.Errors.{WorldRuntimeResult}
use rintawa.Runtime.Systems.{Systems}
use rintawa.Runtime.Commands.{
  WorldCommandOutcome, evaluate_command, outcome_of, commit_output, process_found, process_command,
}

commit_output-Reach :
    (x : External) (clock : ClockReading) (db : Db) (c : WorldCommand)
    (output : WorldRuntimeResult (WorldTransaction × ℕ))
    → Reach x db (commit_output x clock db c output).0
commit_output-Reach x clock db c (err e) = here
commit_output-Reach x clock db c (ok (t, evaluated)) =
    elim (Result-cases (commit x clock db c t evaluated)) [
      | inl ((db', receipt), done) ↦ rw done (next here (commits clock c t evaluated receipt done))
      | inr (e, failed) ↦ rw failed here
    ]

found-Reach :
    (x : External) (clock : ClockReading) (systems : Systems) (db : Db) (c : WorldCommand)
    (found : StorageResult (Option CommitReceipt))
    → Reach x db (process_found x clock systems db c found).0
found-Reach x clock systems db c (ok (some receipt)) = here
found-Reach x clock systems db c (ok none) =
    commit_output-Reach x clock db c (evaluate_command x systems db c)
found-Reach x clock systems db c (err e) = here

-- Whatever a System does and whatever the answer is, the processing of a command changes the database by
-- successful commits only.
process_command-Reach :
    (x : External) (clock : ClockReading) (systems : Systems) (db : Db) (c : WorldCommand)
    → Reach x db (process_command x clock systems db c).0
unfolding process_command
process_command-Reach x clock systems db c =
    found-Reach x clock systems db c (committed_receipt x db c)

pub process_command-IsValid :
    (x : External) (clock : ClockReading) (systems : Systems) (db : Db) (c : WorldCommand)
    → IsValid db
    → IsValid (process_command x clock systems db c).0
process_command-IsValid x clock systems db c v =
    Reach-IsValid x v (process_command-Reach x clock systems db c)

-- A receipt of the command is stored.
record IsStored (x : External) (db : Db) (c : WorldCommand) (receipt : CommitReceipt) : Type 0 where
  digest : ℕ
  hashed : command_digest x c ≡ ok digest
  found : load_existing_receipt db c.id digest ≡ ok (some (repeated receipt))

receipt-IsStored :
    (x : External) (db : Db) (c : WorldCommand) (receipt : CommitReceipt)
    → committed_receipt x db c ≡ ok (some receipt)
    → IsStored x db c receipt
unfolding committed_receipt load_existing_receipt
receipt-IsStored x db c receipt h =
    let (digest, hashed, found) =
      >>=-eq-ok (command_digest x c) (λ digest. load_existing_receipt db c.id digest) h in
    let same =
      existing_disposition db c.id digest (find (λ q. q.command_id == c.id) db.commits) receipt
        found in
    record { digest = digest; hashed = hashed; found = found ∙ ap (λ q. ok (some q)) same }

outcome_receipt :
    (x : External) (db : Db) (receipt : CommitReceipt) (outcome : WorldCommandOutcome)
    → outcome_of x db receipt ≡ ok outcome
    → receipt ≡ outcome.receipt
unfolding outcome_of
outcome_receipt x db receipt outcome h =
    elim (Result-cases (events_at_position x db receipt.position)) [
      | inl (events, e) ↦ ground arith
      | inr (e, failed) ↦ absurd (ground arith)
    ]

commit_output-IsStored :
    (x : External) (clock : ClockReading) (db : Db) (c : WorldCommand)
    (output : WorldRuntimeResult (WorldTransaction × ℕ)) (db' : Db) (outcome : WorldCommandOutcome)
    → IsValid db
    → commit_output x clock db c output ≡ (db', ok outcome)
    → IsStored x db' c outcome.receipt
commit_output-IsStored x clock db c (err e) db' outcome v h = absurd (ground arith)
commit_output-IsStored x clock db c (ok (t, evaluated)) db' outcome v h =
    elim (Result-cases (commit x clock db c t evaluated)) [
      | inl ((db1, receipt), done) ↦
          let h' : (db1, outcome_of x db1 receipt) ≡ (db', ok outcome) = rw done at h in
          let same : db1 ≡ db' = ap (λ p. p.0) h' in
          let e = outcome_receipt x db1 receipt outcome (ap (λ p. p.1) h') in
          let (digest, hashed, found) =
            committed-found x clock db c t evaluated db1 receipt v.history done in
          subst (λ d. IsStored x d c outcome.receipt) same
            (subst (IsStored x db1 c) e
              (record { digest = digest; hashed = hashed; found = found }))
      | inr (e, failed) ↦ absurd (let h' = rw failed at h in ground arith)
    ]

found-IsStored :
    (x : External) (clock : ClockReading) (systems : Systems) (db : Db) (c : WorldCommand)
    (found : StorageResult (Option CommitReceipt)) (db' : Db) (outcome : WorldCommandOutcome)
    → IsValid db
    → committed_receipt x db c ≡ found
    → process_found x clock systems db c found ≡ (db', ok outcome)
    → IsStored x db' c outcome.receipt
found-IsStored x clock systems db c (ok (some receipt)) db' outcome v e h =
    let same : db ≡ db' = ap (λ p. p.0) h in
    let r = outcome_receipt x db receipt outcome (ap (λ p. p.1) h) in
    subst (λ d. IsStored x d c outcome.receipt) same
      (subst (IsStored x db c) r (receipt-IsStored x db c receipt e))
found-IsStored x clock systems db c (ok none) db' outcome v e h =
    commit_output-IsStored x clock db c (evaluate_command x systems db c) db' outcome v h
found-IsStored x clock systems db c (err f) db' outcome v e h = absurd (ground arith)

stored_receipt :
    (x : External) (db now : Db) (c : WorldCommand) (receipt : CommitReceipt)
    → IsValid db
    → Reach x db now
    → IsStored x db c receipt
    → committed_receipt x now c ≡ ok (some (repeated receipt))
unfolding committed_receipt
stored_receipt x db now c receipt v reach s =
    rw s.hashed (Reach-receipt x v reach c.id s.digest (repeated receipt) s.found)

-- Once a command has an outcome, a later submission of it runs no System and changes nothing: whatever
-- Systems are registered then, and after any sequence of other commits and outbox operations, the answer is
-- the stored receipt, marked as a repetition, with the events read at its position; for a world that was
-- valid at first.
pub process_command_once :
    (x : External) (clock : ClockReading) (systems : Systems) (db : Db) (c : WorldCommand)
    {db' : Db} {outcome : WorldCommandOutcome}
    → IsValid db
    → process_command x clock systems db c ≡ (db', ok outcome)
    → {now : Db} → Reach x db' now
    → (later : ClockReading) (systems' : Systems)
    → process_command x later systems' now c ≡ (now, outcome_of x now (repeated outcome.receipt))
unfolding process_command
process_command_once x clock systems db c {db'} {outcome} v done {now} reach later systems' =
    let s =
      found-IsStored x clock systems db c (committed_receipt x db c) db' outcome v refl done in
    let v' = subst IsValid (ap (λ p. p.0) done) (process_command-IsValid x clock systems db c v) in
    rw (stored_receipt x db' now c outcome.receipt v' reach s) refl

-- The stored commit of a command that has an outcome.
pub process_command-stored :
    (x : External) (clock : ClockReading) (systems : Systems) (db : Db) (c : WorldCommand)
    {db' : Db} {outcome : WorldCommandOutcome}
    → IsValid db
    → process_command x clock systems db c ≡ (db', ok outcome)
    → {now : Db} → Reach x db' now
    → (digest : ℕ) × (load_existing_receipt now c.id digest ≡ ok (some (repeated outcome.receipt)))
unfolding process_command
process_command-stored x clock systems db c {db'} {outcome} v done {now} reach =
    let s =
      found-IsStored x clock systems db c (committed_receipt x db c) db' outcome v refl done in
    let v' = subst IsValid (ap (λ p. p.0) done) (process_command-IsValid x clock systems db c v) in
    (s.digest, Reach-receipt x v' reach c.id s.digest (repeated outcome.receipt) s.found)
