-- ===== src/Storage/Commit/Writes.antt =====
-- The rows that crates/storage/src/sqlite/commit.rs writes for the mutations of a transaction and for the commit.
use rintawa.Prelude.{
  ℕ, suc, String, ◌≡◌, ◌∙◌, refl, sym, ap, subst, false, any, List, [], ◌∷◌, ◌++◌, append-nil,
  append_assoc, length, Option, ok, ◌>>=◌, >>=-eq-ok, ok_or, arith, ◌==◌,
}
use rintawa.Prelude.Int.{ℤ}
use rintawa.World.Command.{WorldCommand}
use rintawa.World.State.{WorldMutation}
use rintawa.Storage.Errors.{json}
use rintawa.Storage.External.{External, ClockReading}
use rintawa.Storage.Codec.{index_to_sql, recorded_at_now}
use rintawa.Storage.Tables.{Db, CommitRow, MutationRow, has_commit}
use rintawa.Storage.Statements.{insert_commit_row, insert_mutation_row}
use rintawa.Storage.Mutation.{apply_mutation, optional_position_to_sql}
use rintawa.Storage.Commit.{commit_row, insert_commit, mutation_row, write_mutation, write_all}
use rintawa.Storage.Commit.Frame.{apply_mutation-SameLog}

abbrev pub MutationsFrom : ℕ → ℕ → List MutationRow → Type 0
MutationsFrom position i [] = Unit
MutationsFrom position i (r ∷ rows) =
    (r.commit_position ≡ position) × (r.mutation_index ≡ i) × MutationsFrom position (suc i) rows

-- The loop over the mutations appends one log row for each, and keeps the rest of the log.
pub record WritesMutations (position i : ℕ) (mutations : List WorldMutation) (db db' : Db)
    : Type 0 where
  pub rows : List MutationRow
  pub mutations_eq : db'.mutations ≡ db.mutations ++ rows
  pub one_each : length rows ≡ length mutations
  pub indexed : MutationsFrom position i rows
  pub world_id : db'.world_id ≡ db.world_id
  pub position_eq : db'.commit_position ≡ db.commit_position
  pub schemas : db'.schemas ≡ db.schemas
  pub commits : db'.commits ≡ db.commits
  pub events : db'.events ≡ db.events
  pub jobs : db'.jobs ≡ db.jobs

-- The log row of a mutation and the application that follows it.
pub write_mutation-steps :
    (x : External) (position i : ℕ) (db : Db) (m : WorldMutation) (db' : Db)
    → write_mutation x position i db m ≡ ok db'
    → (r : MutationRow) × (r.commit_position ≡ position)
      × (r.mutation_index ≡ i)
      × (apply_mutation x position (record db { mutations = db.mutations ++ r ∷ [] }) m ≡ ok db')
unfolding write_mutation index_to_sql insert_mutation_row
write_mutation-steps x position i db m db' h =
    let row = λ (text : String) (index : ℕ). mutation_row position index text in
    let insert = λ (text : String). index_to_sql "mutation_index" i >>= λ index.
    (insert_mutation_row (row text index) db >>= λ db'. apply_mutation x position db' m) in
    let (text, printed, rest) = >>=-eq-ok (ok_or (x.mutation_to_string m) json) insert h in
    (row text i, refl, refl, ground arith)

pub write_all-WritesMutations :
    (x : External) (position i : ℕ) (mutations : List WorldMutation) (db db' : Db)
    → write_all (write_mutation x position) i mutations db ≡ ok db'
    → WritesMutations position i mutations db db'
unfolding write_all
write_all-WritesMutations x position i [] db db' h =
    let same : db ≡ db' = ground arith in
    subst (WritesMutations position i [] db) same (record {
      rows = [];
      mutations_eq = sym (append-nil db.mutations);
      one_each = refl;
      indexed = tt;
      world_id = refl;
      position_eq = refl;
      schemas = refl;
      commits = refl;
      events = refl;
      jobs = refl;
    })
write_all-WritesMutations x position i (m ∷ rest) db db' h =
    let (mid, first, more) =
      >>=-eq-ok (write_mutation x position i db m)
        (λ mid. write_all (write_mutation x position) (suc i) rest mid) h in
    let (r, at, index, applied) = write_mutation-steps x position i db m mid first in
    let s =
      apply_mutation-SameLog x position (record db { mutations = db.mutations ++ r ∷ [] }) m mid
        applied in
    let w = write_all-WritesMutations x position (suc i) rest mid db' more in
    record {
      rows = r ∷ w.rows;
      mutations_eq =
          w.mutations_eq
          ∙ ap (λ l. l ++ w.rows) s.mutations
          ∙ append_assoc db.mutations (r ∷ []) w.rows;
      one_each = ap suc w.one_each;
      indexed = (at, index, w.indexed);
      world_id = w.world_id ∙ s.world_id;
      position_eq = w.position_eq ∙ s.position;
      schemas = w.schemas ∙ s.schemas;
      commits = w.commits ∙ s.commits;
      events = w.events ∙ s.events;
      jobs = w.jobs ∙ s.jobs;
    }

-- The columns of the new row of `world_commits` that later reads use.
pub insert_commit-row :
    (x : External) (clock : ClockReading) (c : WorldCommand) (digest position : ℕ) (db db' : Db)
    → insert_commit x clock c digest position db ≡ ok db'
    → (r : CommitRow) × (db' ≡ record db { commits = db.commits ++ r ∷ [] })
      × (r.commit_position ≡ position)
      × (r.command_id ≡ c.id)
      × (r.command_digest ≡ digest)
      × (has_commit db.commits position ≡ false)
      × (any (λ q. q.command_id == c.id) db.commits ≡ false)
unfolding insert_commit insert_commit_row
insert_commit-row x clock c digest position db db' h =
    let store = λ (expected : Option ℕ) (recorded : ℤ) (text : String).
      insert_commit_row (commit_row c digest position expected recorded text) db in
    let print = λ (expected : Option ℕ) (recorded : ℤ).
      ok_or (x.value_to_string c.payload) json >>= store expected recorded in
    let record_time = λ (expected : Option ℕ). recorded_at_now clock >>= print expected in
    let (expected, e1, h1) =
      >>=-eq-ok (optional_position_to_sql c.expected_position) record_time h in
    let (recorded, e2, h2) = >>=-eq-ok (recorded_at_now clock) (print expected) h1 in
    let (text, e3, h3) =
      >>=-eq-ok (ok_or (x.value_to_string c.payload) json) (store expected recorded) h2 in
    (
      commit_row c digest position expected recorded text,
      ground arith,
      refl,
      refl,
      refl,
      ground arith,
      ground arith,
    )
