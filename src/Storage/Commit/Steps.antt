-- ===== src/Storage/Commit/Steps.antt =====
-- The steps of a successful `commit` of crates/storage/src/sqlite/commit.rs: it finds the receipt of an
-- earlier commit, or it is admitted and writes the commit.
use rintawa.Prelude.{
  ℕ, ◌+◌, ◌≤◌, ◌≡◌, Result-cases, ◌⊎◌, inl, inr, map, none, some, ok, ◌>>=◌, >>=-eq-ok, arith,
}
use rintawa.World.Command.{WorldCommand}
use rintawa.World.Transaction.{WorldTransaction, CommitReceipt, committed}
use rintawa.Storage.External.{External, ClockReading}
use rintawa.Storage.Codec.{i64_max, position_to_sql}
use rintawa.Storage.Tables.{Db}
use rintawa.Storage.Digest.{command_digest}
use rintawa.Storage.Commit.{
  load_existing_receipt, insert_commit, write_mutation, write_event, write_effect, write_all,
  advance_position, next_position, write_rows, write_commit, admit, commit_new, commit_found,
  commit,
}

-- What a successful `write_rows` wrote, loop by loop.
pub record Rows (x : External) (clock : ClockReading) (c : WorldCommand) (t : WorldTransaction)
    (digest position : ℕ) (db db' : Db) : Type 0 where
  pub with_commit : Db
  pub with_mutations : Db
  pub with_events : Db
  pub commit_written : insert_commit x clock c digest position db ≡ ok with_commit
  pub mutations_written :
      write_all (write_mutation x position) 0 t.mutations with_commit ≡ ok with_mutations
  pub events_written : write_all (write_event x position) 0 t.events with_mutations ≡ ok with_events
  pub jobs_written : write_all (write_effect x position) 0 t.effects with_events ≡ ok db'

write_rows-Rows :
    (x : External) (clock : ClockReading) (c : WorldCommand) (t : WorldTransaction)
    (digest position : ℕ) (db db' : Db)
    → write_rows x clock c t digest position db ≡ ok db'
    → Rows x clock c t digest position db db'
unfolding write_rows
write_rows-Rows x clock c t digest position db db' h =
    let jobs = λ (d : Db). write_all (write_effect x position) 0 t.effects d in
    let events = λ (d : Db). write_all (write_event x position) 0 t.events d >>= jobs in
    let mutations = λ (d : Db). write_all (write_mutation x position) 0 t.mutations d >>= events in
    let (db1, e1, h1) = >>=-eq-ok (insert_commit x clock c digest position db) mutations h in
    let (db2, e2, h2) =
      >>=-eq-ok (write_all (write_mutation x position) 0 t.mutations db1) events h1 in
    let (db3, e3, h3) = >>=-eq-ok (write_all (write_event x position) 0 t.events db2) jobs h2 in
    record {
      with_commit = db1;
      with_mutations = db2;
      with_events = db3;
      commit_written = e1;
      mutations_written = e2;
      events_written = e3;
      jobs_written = h3;
    }

-- A successful `write_commit` from the position `current`.
pub record Written (x : External) (clock : ClockReading) (c : WorldCommand) (t : WorldTransaction)
    (digest current : ℕ) (db db' : Db) : Type 0 where
  pub room : current + 1 ≤ i64_max
  pub with_rows : Db
  pub rows : Rows x clock c t digest (current + 1) db with_rows
  pub advanced : db' ≡ record with_rows { commit_position = current + 1 }

write_commit-Written :
    (x : External) (clock : ClockReading) (c : WorldCommand) (t : WorldTransaction)
    (digest current : ℕ) (db db' : Db) (position : ℕ)
    → write_commit x clock c t digest current db ≡ ok (db', position)
    → (position ≡ current + 1) × Written x clock c t digest current db db'
unfolding write_commit next_position position_to_sql advance_position
write_commit-Written x clock c t digest current db db' position h =
    elim (Result-cases (write_rows x clock c t digest (current + 1) db)) [
      | inl (db4, written) ↦ (
        ground arith,
        record {
          room = ground arith;
          with_rows = db4;
          rows = write_rows-Rows x clock c t digest (current + 1) db db4 written;
          advanced = ground arith;
        },
      )
      | inr (e, failed) ↦ absurd (ground arith)
    ]

-- A commit that is new: no commit of the command is stored, it is admitted at the stored position, and it
-- is written there.
pub record IsNew (x : External) (clock : ClockReading) (db : Db) (c : WorldCommand)
    (t : WorldTransaction) (evaluated : ℕ) (db' : Db) (receipt : CommitReceipt) : Type 0 where
  pub digest : ℕ
  pub hashed : command_digest x c ≡ ok digest
  pub fresh : load_existing_receipt db c.id digest ≡ ok none
  pub current : ℕ
  pub admitted : admit x db c t evaluated ≡ ok current
  pub written : Written x clock c t digest current db db'
  pub receipt_eq : receipt ≡ record {
    disposition = committed;
    command_id = c.id;
    position = current + 1;
    event_ids = map (λ e. e.id) t.events;
    effect_job_ids = map (λ j. j.id) t.effects;
  }

-- A commit that is a repetition: the receipt is the stored one and nothing changes.
pub record IsRepeated (x : External) (db : Db) (c : WorldCommand) (db' : Db)
    (receipt : CommitReceipt) : Type 0 where
  pub digest : ℕ
  pub hashed : command_digest x c ≡ ok digest
  pub found : load_existing_receipt db c.id digest ≡ ok (some receipt)
  pub unchanged : db' ≡ db

commit_new-IsNew :
    (x : External) (clock : ClockReading) (db : Db) (c : WorldCommand) (t : WorldTransaction)
    (evaluated digest : ℕ) (db' : Db) (receipt : CommitReceipt)
    → command_digest x c ≡ ok digest
    → load_existing_receipt db c.id digest ≡ ok none
    → commit_new x clock db c t evaluated digest ≡ ok (db', receipt)
    → IsNew x clock db c t evaluated db' receipt
unfolding commit_new
commit_new-IsNew x clock db c t evaluated digest db' receipt hashed fresh h =
    elim (Result-cases (admit x db c t evaluated)) [
      | inl (current, admitted) ↦ elim (Result-cases (write_commit x clock c t digest current db)) [
        | inl ((db1, position), written) ↦
            let e : db1 ≡ db' = ground arith in
            let w =
              write_commit-Written x clock c t digest current db db' position (rw e at written) in
            let p = w.0 in
            record {
              digest = digest;
              hashed = hashed;
              fresh = fresh;
              current = current;
              admitted = admitted;
              written = w.1;
              receipt_eq = ground arith;
            }
        | inr (e, failed) ↦ absurd (ground arith)
      ]
      | inr (e, refused) ↦ absurd (ground arith)
    ]

pub commit-cases :
    (x : External) (clock : ClockReading) (db : Db) (c : WorldCommand) (t : WorldTransaction)
    (evaluated : ℕ) (db' : Db) (receipt : CommitReceipt)
    → commit x clock db c t evaluated ≡ ok (db', receipt)
    → IsNew x clock db c t evaluated db' receipt ⊎ IsRepeated x db c db' receipt
unfolding commit commit_found
commit-cases x clock db c t evaluated db' receipt h = elim (Result-cases (command_digest x c)) [
  | inl (digest, hashed) ↦ elim (Result-cases (load_existing_receipt db c.id digest)) [
    | inl (none, fresh) ↦
        inl
          (commit_new-IsNew x clock db c t evaluated digest db' receipt hashed fresh (ground arith))
    | inl (some stored, found) ↦
        let e : stored ≡ receipt = ground arith in
        inr (record {
          digest = digest;
          hashed = hashed;
          found = rw e at found;
          unchanged = ground arith;
        })
    | inr (e, failed) ↦ absurd (ground arith)
  ]
  | inr (e, failed) ↦ absurd (ground arith)
]
