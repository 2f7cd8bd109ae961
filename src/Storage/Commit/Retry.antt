-- ===== src/Storage/Commit/Retry.antt =====
-- `load_existing_receipt` of crates/storage/src/sqlite/commit.rs: a command that was committed has a
-- receipt, and a retry of the command returns it without a second effect.
use rintawa.Prelude.{
  ℕ, ◌+◌, ◌≤◌, ◌≢◌, ◌≡◌, ◌∙◌, refl, ap, inl, inr, any-above, List, [], ◌∷◌, map, find,
  find-append_none, Option, Option-cases, Bool-cases, ==_iff, none, some, ok, err, Result-cases,
  arith, ◌==◌,
}
use rintawa.World.Ids.{CommandId}
use rintawa.World.Errors.{command_id_conflict}
use rintawa.World.Command.{WorldCommand}
use rintawa.World.Transaction.{WorldTransaction, CommitReceipt, already_committed}
use rintawa.Storage.Errors.{world}
use rintawa.Storage.External.{External, ClockReading}
use rintawa.Storage.Codec.{i64_max, position_to_sql, position_from_sql}
use rintawa.Storage.Tables.{Db, CommitRow}
use rintawa.Storage.Digest.{command_digest}
use rintawa.Storage.Commit.{
  event_ids_for_position, effect_ids_for_position, receipt_of, load_existing_receipt, commit_found,
  commit,
}
use rintawa.Storage.Commit.Log.{select-events, select-jobs}
use rintawa.Storage.Commit.Steps.{IsNew, commit-cases}
use rintawa.Storage.Commit.History.{admit-position, Appends, IsNew-Appends, IsHistory}

-- The receipt of a commit as a later lookup returns it.
abbrev pub repeated : CommitReceipt → CommitReceipt
repeated r = record r { disposition = already_committed }

-- A position that has room in the column.
position_to_sql-room : (p : ℕ) → p ≤ i64_max → position_to_sql p ≡ ok p
unfolding position_to_sql
position_to_sql-room p h = ground arith

new_event_ids :
    (c : WorldCommand) (t : WorldTransaction) (digest : ℕ) (db db' : Db)
    → IsHistory db
    → Appends c t digest db db'
    → event_ids_for_position db' (db.commit_position + 1) ≡ ok (map (λ e. e.id) t.events)
unfolding event_ids_for_position
new_event_ids c t digest db db' h a =
    let p = db.commit_position + 1 in
    let found =
      select-events p 0 db.events a.events
        (any-above (λ e. e.commit_position) db.commit_position db.events h.events) a.events_at in
    rw (position_to_sql-room p a.room, a.events_eq, found, a.event_ids) refl

new_effect_ids :
    (c : WorldCommand) (t : WorldTransaction) (digest : ℕ) (db db' : Db)
    → IsHistory db
    → Appends c t digest db db'
    → effect_ids_for_position db' (db.commit_position + 1) ≡ ok (map (λ j. j.id) t.effects)
unfolding effect_ids_for_position
new_effect_ids c t digest db db' h a =
    let p = db.commit_position + 1 in
    let found =
      select-jobs p 0 db.jobs a.jobs
        (any-above (λ j. j.commit_position) db.commit_position db.jobs h.jobs) a.jobs_at in
    rw (position_to_sql-room p a.room, a.jobs_eq, found, a.job_ids) refl

new_commit_row :
    (c : WorldCommand) (t : WorldTransaction) (digest : ℕ) (db db' : Db)
    → Appends c t digest db db'
    → (a : CommitRow) × (find (λ r. r.command_id == c.id) db'.commits ≡ some a)
      × (a.commit_position ≡ db.commit_position + 1)
      × (a.command_digest ≡ digest)
unfolding find
new_commit_row c t digest db db' a =
    let id = a.command_id in
    (
      a.commit,
      rw
          (
            a.commits_eq,
            find-append_none (λ r. r.command_id == c.id) db.commits (a.commit ∷ []) a.new_command,
          )
          (ground arith),
      a.commit_at,
      a.command_digest,
    )

-- The receipt of a row, from its columns.
receipt_of_row :
    (db : Db) (id : CommandId) (digest p : ℕ) (row : CommitRow) (events effects : List ℕ)
    → row.command_digest ≡ digest
    → row.commit_position ≡ p
    → event_ids_for_position db p ≡ ok events
    → effect_ids_for_position db p ≡ ok effects
    → receipt_of db id digest (some row)
      ≡ ok (
          some (record {
            disposition = already_committed;
            command_id = id;
            position = p;
            event_ids = events;
            effect_job_ids = effects;
          }))
unfolding receipt_of position_from_sql
receipt_of_row db id digest p row events effects hash at e f = ground arith

-- The lookup after a new commit finds its receipt.
pub new-receipt :
    (x : External) (clock : ClockReading) (db : Db) (c : WorldCommand) (t : WorldTransaction)
    (evaluated : ℕ) (db' : Db) (receipt : CommitReceipt)
    → IsHistory db
    → (n : IsNew x clock db c t evaluated db' receipt)
    → load_existing_receipt db' c.id n.digest ≡ ok (some (repeated receipt))
unfolding load_existing_receipt
new-receipt x clock db c t evaluated db' receipt h n =
    let a = IsNew-Appends x clock db c t evaluated db' receipt n in
    let (row, found, at, hash) = new_commit_row c t n.digest db db' a in
    let events = new_event_ids c t n.digest db db' h a in
    let effects = new_effect_ids c t n.digest db db' h a in
    let stored =
      receipt_of_row db' c.id n.digest (db.commit_position + 1) row (map (λ e. e.id) t.events)
        (map (λ j. j.id) t.effects) hash at events effects in
    let current = (admit-position x db c t evaluated n.current n.admitted).0 in
    let receipt_eq = n.receipt_eq in rw (found, receipt_eq, current) stored

-- What a lookup returns is marked as a repetition of the stored commit.
pub existing_disposition :
    (db : Db) (id : CommandId) (digest : ℕ) (row : Option CommitRow) (receipt : CommitReceipt)
    → receipt_of db id digest row ≡ ok (some receipt)
    → receipt ≡ repeated receipt
unfolding receipt_of position_from_sql
existing_disposition db id digest none receipt h = cc
existing_disposition db id digest (some row) receipt h =
    elim (Result-cases (event_ids_for_position db row.commit_position)) [
      | inl (events, e) ↦ elim (Result-cases (effect_ids_for_position db row.commit_position)) [
        | inl (effects, f) ↦ ground arith
        | inr (failed, f) ↦ absurd (ground arith)
      ]
      | inr (failed, e) ↦ absurd (ground arith)
    ]

-- A retry of a command that was committed returns the receipt of the first commit, marked as a repetition,
-- whatever the clock, the transaction and the evaluated position of the retry are, and leaves the database
-- as it is, if the log of the world before the first commit has no row beyond the world's position.
pub commit-retry :
    (x : External) (clock : ClockReading) (db : Db) (c : WorldCommand) (t : WorldTransaction)
    (evaluated : ℕ) (db' : Db) (receipt : CommitReceipt)
    → IsHistory db
    → commit x clock db c t evaluated ≡ ok (db', receipt)
    → (later : ClockReading) (t' : WorldTransaction) (evaluated' : ℕ)
    → commit x later db' c t' evaluated' ≡ ok (db', repeated receipt)
unfolding commit commit_found load_existing_receipt
commit-retry x clock db c t evaluated db' receipt h done later t' evaluated' =
    elim (commit-cases x clock db c t evaluated db' receipt done) [
      | inl n ↦ rw (n.hashed, new-receipt x clock db c t evaluated db' receipt h n) refl
      | inr r ↦
          let same =
            existing_disposition db c.id r.digest (find (λ q. q.command_id == c.id) db.commits)
              receipt r.found in
          rw (r.unchanged, r.hashed, r.found) (ap (λ q. ok (db, q)) same)
    ]

-- A lookup that finds a receipt for one digest refuses every other one.
pub found-conflict :
    (db : Db) (id : CommandId) (digest other : ℕ) (receipt : CommitReceipt)
    → load_existing_receipt db id digest ≡ ok (some receipt)
    → digest ≢ other
    → load_existing_receipt db id other ≡ err (world (command_id_conflict id))
unfolding load_existing_receipt receipt_of
found-conflict db id digest other receipt found differs =
    elim (Option-cases (find (λ r. r.command_id == id) db.commits)) [
      | inl missing ↦ let k = rw (missing, receipt_of) at found in absurd (cc)
      | inr (row, stored) ↦ elim (Bool-cases (row.command_digest == digest)) [
        | inl same ↦
            let e : row.command_digest ≡ digest = (==_iff row.command_digest digest).0 same in
            rw (stored, receipt_of) (ground arith)
        | inr unequal ↦ let k = rw (stored, unequal, receipt_of) at found in absurd (cc)
      ]
    ]

-- What a lookup finds after a commit that succeeded.
pub committed-found :
    (x : External) (clock : ClockReading) (db : Db) (c : WorldCommand) (t : WorldTransaction)
    (evaluated : ℕ) (db' : Db) (receipt : CommitReceipt)
    → IsHistory db
    → commit x clock db c t evaluated ≡ ok (db', receipt)
    → (digest : ℕ) × (command_digest x c ≡ ok digest)
      × (load_existing_receipt db' c.id digest ≡ ok (some (repeated receipt)))
unfolding load_existing_receipt
committed-found x clock db c t evaluated db' receipt h done =
    elim (commit-cases x clock db c t evaluated db' receipt done) [
      | inl n ↦ (n.digest, n.hashed, new-receipt x clock db c t evaluated db' receipt h n)
      | inr r ↦
          let same =
            existing_disposition db c.id r.digest (find (λ q. q.command_id == c.id) db.commits)
              receipt r.found in
          (r.digest, r.hashed, rw r.unchanged (r.found ∙ ap (λ q. ok (some q)) same))
    ]
