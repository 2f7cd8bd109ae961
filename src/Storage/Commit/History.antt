-- ===== src/Storage/Commit/History.antt =====
-- What a new commit of crates/storage/src/sqlite/commit.rs appends to the log, and the order of the log.
use rintawa.Prelude.{
  ℕ, suc, ◌+◌, ◌≤◌, ◌≡◌, ◌∙◌, sym, ap, subst, inl, inr, false, any, List, [], ◌∷◌, ◌++◌, map,
  length, All, All-append, All-mono, ok, arith, ◌==◌,
}
use rintawa.World.Command.{WorldCommand}
use rintawa.World.Transaction.{WorldTransaction, CommitReceipt}
use rintawa.Storage.External.{External, ClockReading}
use rintawa.Storage.Codec.{i64_max, position_from_sql}
use rintawa.Storage.Tables.{Db, CommitRow, MutationRow, EventRow, JobRow}
use rintawa.Storage.Commit.{current_position, admit, commit}
use rintawa.Storage.Commit.Log.{EventsFrom, JobsFrom, write_all-WritesEvents, write_all-WritesJobs}
use rintawa.Storage.Commit.Steps.{Written, IsNew, commit-cases}
use rintawa.Storage.Commit.Writes.{MutationsFrom, write_all-WritesMutations, insert_commit-row}

-- The rows of one commit at the position that follows the world's: one for the command, and one for each
-- mutation, event and effect job of the transaction, in their order.
pub record Appends (c : WorldCommand) (t : WorldTransaction) (digest : ℕ) (db db' : Db)
    : Type 0 where
  pub commit : CommitRow
  pub mutations : List MutationRow
  pub events : List EventRow
  pub jobs : List JobRow
  pub world_id : db'.world_id ≡ db.world_id
  pub commits_eq : db'.commits ≡ db.commits ++ commit ∷ []
  pub mutations_eq : db'.mutations ≡ db.mutations ++ mutations
  pub events_eq : db'.events ≡ db.events ++ events
  pub jobs_eq : db'.jobs ≡ db.jobs ++ jobs
  pub schemas_eq : db'.schemas ≡ db.schemas
  pub position_eq : db'.commit_position ≡ db.commit_position + 1
  pub room : db.commit_position + 1 ≤ i64_max
  pub commit_at : commit.commit_position ≡ db.commit_position + 1
  pub command_id : commit.command_id ≡ c.id
  pub command_digest : commit.command_digest ≡ digest
  pub new_command : any (λ q. q.command_id == c.id) db.commits ≡ false
  pub one_each : length mutations ≡ length t.mutations
  pub mutations_at : MutationsFrom (db.commit_position + 1) 0 mutations
  pub event_ids : map (λ r. r.event_id) events ≡ map (λ e. e.id) t.events
  pub events_at : EventsFrom (db.commit_position + 1) 0 events
  pub job_ids : map (λ r. r.job_id) jobs ≡ map (λ j. j.id) t.effects
  pub jobs_at : JobsFrom (db.commit_position + 1) 0 jobs

Written-Appends :
    (x : External) (clock : ClockReading) (c : WorldCommand) (t : WorldTransaction) (digest : ℕ)
    (db db' : Db)
    → Written x clock c t digest db.commit_position db db'
    → Appends c t digest db db'
Written-Appends x clock c t digest db db' w =
    let (row, e1, at, id, hash, fresh_position, fresh_command) =
      insert_commit-row x clock c digest (db.commit_position + 1) db w.rows.with_commit
        w.rows.commit_written in
    let m =
      write_all-WritesMutations x (db.commit_position + 1) 0 t.mutations w.rows.with_commit
        w.rows.with_mutations w.rows.mutations_written in
    let e =
      write_all-WritesEvents x (db.commit_position + 1) 0 t.events w.rows.with_mutations
        w.rows.with_events w.rows.events_written in
    let j =
      write_all-WritesJobs x (db.commit_position + 1) 0 t.effects w.rows.with_events w.with_rows
        w.rows.jobs_written in
    record {
      commit = row;
      mutations = m.rows;
      events = e.rows;
      jobs = j.rows;
      world_id =
          ap (λ d. d.world_id) w.advanced
          ∙ ap (λ d. d.world_id) j.db_eq
          ∙ ap (λ d. d.world_id) e.db_eq
          ∙ m.world_id
          ∙ ap (λ d. d.world_id) e1;
      commits_eq =
          ap (λ d. d.commits) w.advanced
          ∙ ap (λ d. d.commits) j.db_eq
          ∙ ap (λ d. d.commits) e.db_eq
          ∙ m.commits
          ∙ ap (λ d. d.commits) e1;
      mutations_eq =
          ap (λ d. d.mutations) w.advanced
          ∙ ap (λ d. d.mutations) j.db_eq
          ∙ ap (λ d. d.mutations) e.db_eq
          ∙ m.mutations_eq
          ∙ ap (λ d. d.mutations ++ m.rows) e1;
      events_eq =
          ap (λ d. d.events) w.advanced
          ∙ ap (λ d. d.events) j.db_eq
          ∙ ap (λ d. d.events) e.db_eq
          ∙ ap (λ l. l ++ e.rows) (m.events ∙ ap (λ d. d.events) e1);
      jobs_eq =
          ap (λ d. d.jobs) w.advanced
          ∙ ap (λ d. d.jobs) j.db_eq
          ∙ ap (λ l. l ++ j.rows) (ap (λ d. d.jobs) e.db_eq ∙ m.jobs ∙ ap (λ d. d.jobs) e1);
      schemas_eq =
          ap (λ d. d.schemas) w.advanced
          ∙ ap (λ d. d.schemas) j.db_eq
          ∙ ap (λ d. d.schemas) e.db_eq
          ∙ m.schemas
          ∙ ap (λ d. d.schemas) e1;
      position_eq = ap (λ d. d.commit_position) w.advanced;
      room = w.room;
      commit_at = at;
      command_id = id;
      command_digest = hash;
      new_command = fresh_command;
      one_each = m.one_each;
      mutations_at = m.indexed;
      event_ids = e.ids;
      events_at = e.indexed;
      job_ids = j.ids;
      jobs_at = j.indexed;
    }

-- Admission reads the position of the world.
pub admit-position :
    (x : External) (db : Db) (c : WorldCommand) (t : WorldTransaction) (evaluated current : ℕ)
    → admit x db c t evaluated ≡ ok current
    → (current ≡ db.commit_position) × (current ≡ evaluated)
unfolding admit current_position position_from_sql
admit-position x db c t evaluated current h = ground arith

pub IsNew-Appends :
    (x : External) (clock : ClockReading) (db : Db) (c : WorldCommand) (t : WorldTransaction)
    (evaluated : ℕ) (db' : Db) (receipt : CommitReceipt)
    → (n : IsNew x clock db c t evaluated db' receipt) → Appends c t n.digest db db'
IsNew-Appends x clock db c t evaluated db' receipt n =
    let at = admit-position x db c t evaluated n.current n.admitted in
    Written-Appends x clock c t n.digest db db'
      (subst (λ p. Written x clock c t n.digest p db db') at.0 n.written)

-- No row of the log is of a later commit than the world's position.
pub record IsHistory (db : Db) : Type 0 where
  pub commits : All (λ r. r.commit_position ≤ db.commit_position) db.commits
  pub mutations : All (λ r. r.commit_position ≤ db.commit_position) db.mutations
  pub events : All (λ r. r.commit_position ≤ db.commit_position) db.events
  pub jobs : All (λ r. r.commit_position ≤ db.commit_position) db.jobs

mutations-upto :
    (p i : ℕ) (rows : List MutationRow)
    → MutationsFrom p i rows
    → All (λ r. r.commit_position ≤ p) rows
mutations-upto p i [] h = tt
mutations-upto p i (r ∷ rows) h = (omega (arith, h.0), mutations-upto p (suc i) rows h.2)

events-upto :
    (p i : ℕ) (rows : List EventRow) → EventsFrom p i rows → All (λ r. r.commit_position ≤ p) rows
events-upto p i [] h = tt
events-upto p i (r ∷ rows) h = (omega (arith, h.0), events-upto p (suc i) rows h.2)

jobs-upto :
    (p i : ℕ) (rows : List JobRow) → JobsFrom p i rows → All (λ r. r.commit_position ≤ p) rows
jobs-upto p i [] h = tt
jobs-upto p i (r ∷ rows) h = (omega (arith, h.0), jobs-upto p (suc i) rows h.4)

-- Rows up to `p`, then rows up to `p + 1`.
extend {ℓ} :
    {A : Type ℓ} (at : A → ℕ) (p : ℕ) (old rows : List A)
    → All (λ r. at r ≤ p) old
    → All (λ r. at r ≤ p + 1) rows
    → All (λ r. at r ≤ p + 1) (old ++ rows)
extend at p old rows h k =
    All-append (λ r. at r ≤ p + 1) old rows
      (All-mono (λ r. at r ≤ p) (λ r. at r ≤ p + 1) old (λ r le. omega arith) h) k

Appends-IsHistory :
    (c : WorldCommand) (t : WorldTransaction) (digest : ℕ) (db db' : Db)
    → Appends c t digest db db'
    → IsHistory db
    → IsHistory db'
Appends-IsHistory c t digest db db' a h =
    let p = db.commit_position in
    record {
      commits =
          rw (a.commits_eq, a.position_eq)
            (extend (λ r. r.commit_position) p db.commits (a.commit ∷ []) h.commits
              (omega (arith, a.commit_at), tt));
      mutations =
          rw (a.mutations_eq, a.position_eq)
            (extend (λ r. r.commit_position) p db.mutations a.mutations h.mutations
              (mutations-upto (p + 1) 0 a.mutations a.mutations_at));
      events =
          rw (a.events_eq, a.position_eq)
            (extend (λ r. r.commit_position) p db.events a.events h.events
              (events-upto (p + 1) 0 a.events a.events_at));
      jobs =
          rw (a.jobs_eq, a.position_eq)
            (extend (λ r. r.commit_position) p db.jobs a.jobs h.jobs
              (jobs-upto (p + 1) 0 a.jobs a.jobs_at));
    }

-- A commit that succeeds keeps the log within the world's position: a world whose log has no row beyond its
-- position still has none after it.
pub commit-IsHistory :
    (x : External) (clock : ClockReading) (db : Db) (c : WorldCommand) (t : WorldTransaction)
    (evaluated : ℕ) (db' : Db) (receipt : CommitReceipt)
    → IsHistory db
    → commit x clock db c t evaluated ≡ ok (db', receipt)
    → IsHistory db'
commit-IsHistory x clock db c t evaluated db' receipt h done =
    elim (commit-cases x clock db c t evaluated db' receipt done) [
      | inl n ↦
          Appends-IsHistory c t n.digest db db'
            (IsNew-Appends x clock db c t evaluated db' receipt n) h
      | inr r ↦ subst IsHistory (sym r.unchanged) h
    ]
