-- ===== src/Storage/Commit/Receipts.antt =====
-- The receipts of `load_existing_receipt` in crates/storage/src/sqlite/commit.rs under later commits.
use rintawa.Prelude.{
  ℕ, suc, ◌+◌, ◌≤◌, ◌<◌, ◌≡◌, ◌∙◌, refl, sym, subst, inl, inr, false, any, List, [], ◌∷◌,
  append-nil, select, select-append, select-eq-nil, find, find-append_some, All-find, some, ok,
  Option-cases, arith, ◌==◌,
}
use rintawa.World.Ids.{CommandId}
use rintawa.World.Command.{WorldCommand}
use rintawa.World.Transaction.{WorldTransaction, CommitReceipt}
use rintawa.Storage.External.{External, ClockReading}
use rintawa.Storage.Codec.{position_to_sql, position_from_sql}
use rintawa.Storage.Tables.{Db, CommitRow, EventRow, JobRow}
use rintawa.Storage.Commit.{
  event_ids_for_position, effect_ids_for_position, receipt_of, load_existing_receipt, commit,
}
use rintawa.Storage.Commit.Log.{EventsFrom, JobsFrom}
use rintawa.Storage.Commit.Steps.{commit-cases}
use rintawa.Storage.Commit.History.{Appends, IsNew-Appends, IsHistory}

events-elsewhere :
    (p q i : ℕ) (rows : List EventRow)
    → q < p
    → EventsFrom p i rows
    → any (λ e. e.commit_position == q) rows ≡ false
unfolding any
events-elsewhere p q i [] lt h = refl
events-elsewhere p q i (r ∷ rows) lt h = ground (arith, events-elsewhere p q (suc i) rows lt h.2)

jobs-elsewhere :
    (p q i : ℕ) (rows : List JobRow)
    → q < p
    → JobsFrom p i rows
    → any (λ j. j.commit_position == q) rows ≡ false
unfolding any
jobs-elsewhere p q i [] lt h = refl
jobs-elsewhere p q i (r ∷ rows) lt h = ground (arith, jobs-elsewhere p q (suc i) rows lt h.4)

-- The rows of an earlier commit stay the same.
same_events :
    (c : WorldCommand) (t : WorldTransaction) (digest p : ℕ) (db db' : Db)
    → Appends c t digest db db'
    → p ≤ db.commit_position
    → event_ids_for_position db' p ≡ event_ids_for_position db p
unfolding event_ids_for_position position_to_sql
same_events c t digest p db db' a le =
    let none_new =
      select-eq-nil (λ e. e.commit_position == p) a.events
        (events-elsewhere (db.commit_position + 1) p 0 a.events (omega arith) a.events_at) in
    let split = select-append (λ e. e.commit_position == p) db.events a.events in
    let same : select (λ e. e.commit_position == p) db'.events
        ≡ select (λ e. e.commit_position == p) db.events =
      rw (a.events_eq, split, none_new)
        (append-nil (select (λ e. e.commit_position == p) db.events)) in
    ground arith

same_effects :
    (c : WorldCommand) (t : WorldTransaction) (digest p : ℕ) (db db' : Db)
    → Appends c t digest db db'
    → p ≤ db.commit_position
    → effect_ids_for_position db' p ≡ effect_ids_for_position db p
unfolding effect_ids_for_position position_to_sql
same_effects c t digest p db db' a le =
    let none_new =
      select-eq-nil (λ j. j.commit_position == p) a.jobs
        (jobs-elsewhere (db.commit_position + 1) p 0 a.jobs (omega arith) a.jobs_at) in
    let split = select-append (λ j. j.commit_position == p) db.jobs a.jobs in
    let same : select (λ j. j.commit_position == p) db'.jobs
        ≡ select (λ j. j.commit_position == p) db.jobs =
      rw (a.jobs_eq, split, none_new) (append-nil (select (λ j. j.commit_position == p) db.jobs)) in
    ground arith

pub same_receipt :
    (db db' : Db) (id : CommandId) (digest : ℕ) (row : CommitRow)
    → event_ids_for_position db' row.commit_position ≡ event_ids_for_position db row.commit_position
    → effect_ids_for_position db' row.commit_position
      ≡ effect_ids_for_position db row.commit_position
    → receipt_of db' id digest (some row) ≡ receipt_of db id digest (some row)
unfolding receipt_of position_from_sql
same_receipt db db' id digest row e f = rw (e, f) refl

Appends-keeps_receipt :
    (c : WorldCommand) (t : WorldTransaction) (hash : ℕ) (db db' : Db) (id : CommandId) (digest : ℕ)
    (row : CommitRow)
    → IsHistory db
    → Appends c t hash db db'
    → find (λ r. r.command_id == id) db.commits ≡ some row
    → load_existing_receipt db' id digest ≡ load_existing_receipt db id digest
unfolding load_existing_receipt
Appends-keeps_receipt c t hash db db' id digest row h a stored =
    let le =
      All-find (λ r. r.commit_position ≤ db.commit_position) (λ r. r.command_id == id) db.commits
        h.commits stored in
    let still : find (λ r. r.command_id == id) db'.commits ≡ some row =
      rw a.commits_eq
        (find-append_some (λ r. r.command_id == id) db.commits (a.commit ∷ []) stored) in
    rw (still, stored)
      (same_receipt db db' id digest row (same_events c t hash row.commit_position db db' a le)
        (same_effects c t hash row.commit_position db db' a le))

-- The receipt of a stored command stays the same, with its position and its event and effect identifiers,
-- when any other or the same command is committed later, if no row of the log is beyond the position.
pub commit-keeps_receipt :
    (x : External) (clock : ClockReading) (db : Db) (c : WorldCommand) (t : WorldTransaction)
    (evaluated : ℕ) (db' : Db) (receipt : CommitReceipt)
    → IsHistory db
    → commit x clock db c t evaluated ≡ ok (db', receipt)
    → (id : CommandId) (digest : ℕ) (old : CommitReceipt)
    → load_existing_receipt db id digest ≡ ok (some old)
    → load_existing_receipt db' id digest ≡ ok (some old)
unfolding load_existing_receipt receipt_of
commit-keeps_receipt x clock db c t evaluated db' receipt h done id digest old found =
    elim (commit-cases x clock db c t evaluated db' receipt done) [
      | inl n ↦ elim (Option-cases (find (λ r. r.command_id == id) db.commits)) [
        | inl missing ↦ absurd (ground arith)
        | inr (row, stored) ↦
            Appends-keeps_receipt c t n.digest db db' id digest row h
              (IsNew-Appends x clock db c t evaluated db' receipt n) stored
            ∙ found
      ]
      | inr r ↦
          subst (λ d. load_existing_receipt d id digest ≡ ok (some old)) (sym r.unchanged) found
    ]
