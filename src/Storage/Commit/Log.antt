-- ===== src/Storage/Commit/Log.antt =====
-- What the loops of `commit` in crates/storage/src/sqlite/commit.rs append to the event log and to the
-- outbox: one row for each draft, in the order of the drafts, with consecutive indices.
use rintawa.Prelude.{
  String, ap₂, any, select-append, select-eq-nil, ℕ, suc, ◌≡◌, ◌∙◌, refl, ap, true, false, List, [],
  ◌∷◌, ◌++◌, append-nil, append_assoc, map, ok, ◌>>=◌, >>=-eq-ok, ok_or, Ascending, select,
  select-all, all, order_by, order_by-Ascending, arith, ◌==◌,
}
use rintawa.World.Transaction.{WorldEventDraft, EffectJobDraft}
use rintawa.Storage.Errors.{json}
use rintawa.Storage.External.{External}
use rintawa.Storage.Codec.{index_to_sql}
use rintawa.Storage.Tables.{Db, EventRow, JobRow}
use rintawa.Storage.Statements.{insert_event_row, insert_job_row}
use rintawa.Storage.Commit.{event_row, job_row, write_event, write_effect, write_all}

-- Rows of one commit, indexed from `i` on.
abbrev pub EventsFrom : ℕ → ℕ → List EventRow → Type 0
EventsFrom position i [] = Unit
EventsFrom position i (r ∷ rows) =
    (r.commit_position ≡ position) × (r.event_index ≡ i) × EventsFrom position (suc i) rows

abbrev pub JobsFrom : ℕ → ℕ → List JobRow → Type 0
JobsFrom position i [] = Unit
JobsFrom position i (r ∷ rows) =
    (r.commit_position ≡ position)
    × (r.job_index ≡ i)
    × (r.status ≡ 0)
    × (r.attempt_count ≡ 0)
    × JobsFrom position (suc i) rows

pub record WritesEvents (position i : ℕ) (events : List WorldEventDraft) (db db' : Db)
    : Type 0 where
  pub rows : List EventRow
  pub db_eq : db' ≡ record db { events = db.events ++ rows }
  pub ids : map (λ r. r.event_id) rows ≡ map (λ e. e.id) events
  pub indexed : EventsFrom position i rows

pub record WritesJobs (position i : ℕ) (effects : List EffectJobDraft) (db db' : Db) : Type 0 where
  pub rows : List JobRow
  pub db_eq : db' ≡ record db { jobs = db.jobs ++ rows }
  pub ids : map (λ r. r.job_id) rows ≡ map (λ j. j.id) effects
  pub indexed : JobsFrom position i rows

write_event-row :
    (x : External) (position i : ℕ) (db : Db) (e : WorldEventDraft) (db' : Db)
    → write_event x position i db e ≡ ok db'
    → (r : EventRow) × (db' ≡ record db { events = db.events ++ r ∷ [] })
      × (r.event_id ≡ e.id)
      × (r.commit_position ≡ position)
      × (r.event_index ≡ i)
unfolding write_event index_to_sql insert_event_row
write_event-row x position i db e db' h =
    let insert = λ (payload : String). index_to_sql "event_index" i >>= λ index.
    insert_event_row (event_row position index e payload) db in
    let (payload, printed, rest) = >>=-eq-ok (ok_or (x.value_to_string e.payload) json) insert h in
    (event_row position i e payload, ground arith, refl, refl, refl)

write_effect-row :
    (x : External) (position i : ℕ) (db : Db) (j : EffectJobDraft) (db' : Db)
    → write_effect x position i db j ≡ ok db'
    → (r : JobRow) × (db' ≡ record db { jobs = db.jobs ++ r ∷ [] })
      × (r.job_id ≡ j.id)
      × (r.commit_position ≡ position)
      × (r.job_index ≡ i)
      × (r.status ≡ 0)
      × (r.attempt_count ≡ 0)
unfolding write_effect index_to_sql insert_job_row
write_effect-row x position i db j db' h =
    let insert = λ (payload : String). index_to_sql "job_index" i >>= λ index.
    insert_job_row (job_row position index j payload) db in
    let (payload, printed, rest) = >>=-eq-ok (ok_or (x.value_to_string j.payload) json) insert h in
    (job_row position i j payload, ground arith, refl, refl, refl, refl, refl)

pub write_all-WritesEvents :
    (x : External) (position i : ℕ) (events : List WorldEventDraft) (db db' : Db)
    → write_all (write_event x position) i events db ≡ ok db'
    → WritesEvents position i events db db'
unfolding write_all
write_all-WritesEvents x position i [] db db' h = record {
  rows = [];
  db_eq = rw (append-nil db.events) (ground arith);
  ids = refl;
  indexed = tt;
}
write_all-WritesEvents x position i (e ∷ rest) db db' h =
    let (mid, first, more) =
      >>=-eq-ok (write_event x position i db e)
        (λ mid. write_all (write_event x position) (suc i) rest mid) h in
    let (r, mid_eq, id, at, index) = write_event-row x position i db e mid first in
    let w = write_all-WritesEvents x position (suc i) rest mid db' more in
    record {
      rows = r ∷ w.rows;
      db_eq =
          w.db_eq
          ∙ ap (λ (d : Db). record d { events = d.events ++ w.rows }) mid_eq
          ∙ ap (λ l. record db { events = l }) (append_assoc db.events (r ∷ []) w.rows);
      ids = ap₂ (λ a l. a ∷ l) id w.ids;
      indexed = (at, index, w.indexed);
    }

pub write_all-WritesJobs :
    (x : External) (position i : ℕ) (effects : List EffectJobDraft) (db db' : Db)
    → write_all (write_effect x position) i effects db ≡ ok db'
    → WritesJobs position i effects db db'
unfolding write_all
write_all-WritesJobs x position i [] db db' h = record {
  rows = [];
  db_eq = rw (append-nil db.jobs) (ground arith);
  ids = refl;
  indexed = tt;
}
write_all-WritesJobs x position i (j ∷ rest) db db' h =
    let (mid, first, more) =
      >>=-eq-ok (write_effect x position i db j)
        (λ mid. write_all (write_effect x position) (suc i) rest mid) h in
    let (r, mid_eq, id, at, index, pending, unclaimed) =
      write_effect-row x position i db j mid first in
    let w = write_all-WritesJobs x position (suc i) rest mid db' more in
    record {
      rows = r ∷ w.rows;
      db_eq =
          w.db_eq
          ∙ ap (λ (d : Db). record d { jobs = d.jobs ++ w.rows }) mid_eq
          ∙ ap (λ l. record db { jobs = l }) (append_assoc db.jobs (r ∷ []) w.rows);
      ids = ap₂ (λ a l. a ∷ l) id w.ids;
      indexed = (at, index, pending, unclaimed, w.indexed);
    }

-- Indexed rows are in the order of their indices, and all of them are of their commit.
events-Ascending :
    (position i : ℕ) (rows : List EventRow)
    → EventsFrom position i rows
    → Ascending (λ e. (0, e.event_index)) rows
events-Ascending position i [] h = tt
events-Ascending position i (r ∷ []) h = tt
events-Ascending position i (r ∷ q ∷ rows) h =
    (ground arith, events-Ascending position (suc i) (q ∷ rows) h.2)

events-all :
    (position i : ℕ) (rows : List EventRow)
    → EventsFrom position i rows
    → all (λ e. e.commit_position == position) rows ≡ true
unfolding all
events-all position i [] h = refl
events-all position i (r ∷ rows) h = ground (arith, events-all position (suc i) rows h.2)

jobs-Ascending :
    (position i : ℕ) (rows : List JobRow)
    → JobsFrom position i rows
    → Ascending (λ j. (0, j.job_index)) rows
jobs-Ascending position i [] h = tt
jobs-Ascending position i (r ∷ []) h = tt
jobs-Ascending position i (r ∷ q ∷ rows) h =
    (ground arith, jobs-Ascending position (suc i) (q ∷ rows) h.4)

jobs-all :
    (position i : ℕ) (rows : List JobRow)
    → JobsFrom position i rows
    → all (λ j. j.commit_position == position) rows ≡ true
unfolding all
jobs-all position i [] h = refl
jobs-all position i (r ∷ rows) h = ground (arith, jobs-all position (suc i) rows h.4)

-- The query for the rows of a commit finds exactly the rows that the commit appended.
pub select-events :
    (position i : ℕ) (old rows : List EventRow)
    → any (λ e. e.commit_position == position) old ≡ false
    → EventsFrom position i rows
    → order_by (λ e. (0, e.event_index)) (select (λ e. e.commit_position == position) (old ++ rows))
      ≡ rows
select-events position i old rows none_old h =
    rw
      (
        select-append (λ e. e.commit_position == position) old rows,
        select-eq-nil (λ e. e.commit_position == position) old none_old,
        select-all (λ e. e.commit_position == position) rows (events-all position i rows h),
      )
      (order_by-Ascending (λ e. (0, e.event_index)) rows (events-Ascending position i rows h))

pub select-jobs :
    (position i : ℕ) (old rows : List JobRow)
    → any (λ j. j.commit_position == position) old ≡ false
    → JobsFrom position i rows
    → order_by (λ j. (0, j.job_index)) (select (λ j. j.commit_position == position) (old ++ rows))
      ≡ rows
select-jobs position i old rows none_old h =
    rw
      (
        select-append (λ j. j.commit_position == position) old rows,
        select-eq-nil (λ j. j.commit_position == position) old none_old,
        select-all (λ j. j.commit_position == position) rows (jobs-all position i rows h),
      )
      (order_by-Ascending (λ j. (0, j.job_index)) rows (jobs-Ascending position i rows h))
