-- ===== src/Storage/Commit/Integrity.antt =====
-- What commits and outbox operations of crates/storage/src/sqlite keep of the whole database.
use rintawa.Prelude.{
  ℕ, suc, ◌+◌, String, ◌≡◌, ◌∙◌, refl, sym, ap, subst, inl, inr, false, any, any-append, List, [],
  ◌∷◌, ◌++◌, All-snoc, ok, ◌>>=◌, >>=-eq-ok, ok_or, arith, ◌==◌,
}
use rintawa.World.Command.{WorldCommand}
use rintawa.World.State.{WorldMutation}
use rintawa.World.Transaction.{WorldTransaction, CommitReceipt, WorldEventDraft, EffectJobDraft}
use rintawa.Storage.Errors.{json}
use rintawa.Storage.External.{External, ClockReading}
use rintawa.Storage.Codec.{index_to_sql}
use rintawa.Storage.Tables.{Db, JobRow, has_job}
use rintawa.Storage.Statements.{insert_job_row}
use rintawa.Storage.Mutation.Consistency.{IsConsistent}
use rintawa.Storage.Mutation.Consistency.Keeps.{apply_mutation-IsConsistent}
use rintawa.Storage.Outbox.Rows.{IsRow, IsOutbox, Unique}
use rintawa.Storage.Commit.{job_row, write_mutation, write_event, write_effect, write_all, commit}
use rintawa.Storage.Commit.Log.{write_all-WritesEvents, write_all-WritesJobs}
use rintawa.Storage.Commit.Steps.{Written, commit-cases}
use rintawa.Storage.Commit.Writes.{
  write_all-WritesMutations, write_mutation-steps, insert_commit-row,
}

-- Two databases with the same current state.
pub record SameState (db db' : Db) : Type 0 where
  pub entities : db'.entities ≡ db.entities
  pub relations : db'.relations ≡ db.relations
  pub entity_facets : db'.entity_facets ≡ db.entity_facets
  pub relation_facets : db'.relation_facets ≡ db.relation_facets
  pub grants : db'.grants ≡ db.grants
  pub grant_schemas : db'.grant_schemas ≡ db.grant_schemas

SameState-IsConsistent : (db db' : Db) → SameState db db' → IsConsistent db → IsConsistent db'
SameState-IsConsistent db db' s v = record {
  relations = rw (s.entities, s.relations) v.relations;
  entity_facets = rw (s.entities, s.entity_facets) v.entity_facets;
  relation_facets = rw (s.relations, s.relation_facets) v.relation_facets;
  grants = rw (s.entities, s.grants) v.grants;
  grant_schemas = rw (s.grants, s.grant_schemas) v.grant_schemas;
}

pub eq-SameState : (db log db' : Db) → SameState db log → db' ≡ log → SameState db db'
eq-SameState db log db' s e = subst (SameState db) (sym e) s

write_all-IsConsistent :
    (x : External) (position i : ℕ) (mutations : List WorldMutation) (db db' : Db)
    → IsConsistent db
    → write_all (write_mutation x position) i mutations db ≡ ok db'
    → IsConsistent db'
unfolding write_all
write_all-IsConsistent x position i [] db db' v h = subst IsConsistent (ground arith) v
write_all-IsConsistent x position i (m ∷ rest) db db' v h =
    let (mid, first, more) =
      >>=-eq-ok (write_mutation x position i db m)
        (λ mid. write_all (write_mutation x position) (suc i) rest mid) h in
    let (r, at, index, applied) = write_mutation-steps x position i db m mid first in
    let logged =
      SameState-IsConsistent db (record db { mutations = db.mutations ++ r ∷ [] })
        (record {
          entities = refl;
          relations = refl;
          entity_facets = refl;
          relation_facets = refl;
          grants = refl;
          grant_schemas = refl;
        })
        v in
    write_all-IsConsistent x position (suc i) rest mid db'
      (apply_mutation-IsConsistent x position (record db { mutations = db.mutations ++ r ∷ [] }) m
        logged applied)
      more

-- The INSERTs of events and effect jobs, and the new position, leave the current state alone.
module _ (x : External) (position : ℕ) where
  pub events_written :
      (i : ℕ) (events : List WorldEventDraft) (db db' : Db)
      → write_all (write_event x position) i events db ≡ ok db'
      → SameState db db'
  events_written i events db db' h =
      eq-SameState db
        (record db {
          events = db.events ++ (write_all-WritesEvents x position i events db db' h).rows;
        })
        db'
        (record {
          entities = refl;
          relations = refl;
          entity_facets = refl;
          relation_facets = refl;
          grants = refl;
          grant_schemas = refl;
        })
        (write_all-WritesEvents x position i events db db' h).db_eq

  pub jobs_written :
      (i : ℕ) (effects : List EffectJobDraft) (db db' : Db)
      → write_all (write_effect x position) i effects db ≡ ok db'
      → SameState db db'
  jobs_written i effects db db' h =
      eq-SameState db
        (record db { jobs = db.jobs ++ (write_all-WritesJobs x position i effects db db' h).rows })
        db'
        (record {
          entities = refl;
          relations = refl;
          entity_facets = refl;
          relation_facets = refl;
          grants = refl;
          grant_schemas = refl;
        })
        (write_all-WritesJobs x position i effects db db' h).db_eq

Written-IsConsistent :
    (x : External) (clock : ClockReading) (c : WorldCommand) (t : WorldTransaction)
    (digest current : ℕ) (db db' : Db)
    → Written x clock c t digest current db db'
    → IsConsistent db
    → IsConsistent db'
Written-IsConsistent x clock c t digest current db db' w v =
    let p = current + 1 in
    let (row, e1, at, id, hash, r1, r2) =
      insert_commit-row x clock c digest p db w.rows.with_commit w.rows.commit_written in
    let v1 =
      SameState-IsConsistent db w.rows.with_commit
        (eq-SameState db (record db { commits = db.commits ++ row ∷ [] }) w.rows.with_commit
          (record {
            entities = refl;
            relations = refl;
            entity_facets = refl;
            relation_facets = refl;
            grants = refl;
            grant_schemas = refl;
          })
          e1)
        v in
    let v2 =
      write_all-IsConsistent x p 0 t.mutations w.rows.with_commit w.rows.with_mutations v1
        w.rows.mutations_written in
    let v3 =
      SameState-IsConsistent w.rows.with_mutations w.rows.with_events
        (events_written x p 0 t.events w.rows.with_mutations w.rows.with_events
          w.rows.events_written)
        v2 in
    let v4 =
      SameState-IsConsistent w.rows.with_events w.with_rows
        (jobs_written x p 0 t.effects w.rows.with_events w.with_rows w.rows.jobs_written) v3 in
    SameState-IsConsistent w.with_rows db'
      (eq-SameState w.with_rows (record w.with_rows { commit_position = p }) db'
        (record {
          entities = refl;
          relations = refl;
          entity_facets = refl;
          relation_facets = refl;
          grants = refl;
          grant_schemas = refl;
        })
        w.advanced)
      v4

-- A commit that succeeds keeps the references of the current state: if every relation, facet and grant refers
-- to rows that exist before it, so does every one after it.
pub commit-IsConsistent :
    (x : External) (clock : ClockReading) (db : Db) (c : WorldCommand) (t : WorldTransaction)
    (evaluated : ℕ) (db' : Db) (receipt : CommitReceipt)
    → IsConsistent db
    → commit x clock db c t evaluated ≡ ok (db', receipt)
    → IsConsistent db'
commit-IsConsistent x clock db c t evaluated db' receipt v done =
    elim (commit-cases x clock db c t evaluated db' receipt done) [
      | inl n ↦ Written-IsConsistent x clock c t n.digest n.current db db' n.written v
      | inr r ↦ subst IsConsistent (sym r.unchanged) v
    ]

-- The outbox.
Unique-snoc :
    (jobs : List JobRow) (r : JobRow)
    → Unique jobs
    → has_job jobs r.job_id ≡ false
    → Unique (jobs ++ r ∷ [])
unfolding any
Unique-snoc [] r u h = (refl, tt)
Unique-snoc (q ∷ jobs) r u h =
    let split = any-append (λ j. j.job_id == q.job_id) jobs (r ∷ []) in
    let fresh = u.0 in (ground arith, Unique-snoc jobs r u.1 (ground arith))

write_effect-IsOutbox :
    (x : External) (position i : ℕ) (db : Db) (j : EffectJobDraft) (db' : Db)
    → IsOutbox db.jobs
    → write_effect x position i db j ≡ ok db'
    → IsOutbox db'.jobs
unfolding write_effect index_to_sql insert_job_row
write_effect-IsOutbox x position i db j db' v h =
    let insert = λ (payload : String). index_to_sql "job_index" i >>= λ index.
    insert_job_row (job_row position index j payload) db in
    let (payload, printed, rest) = >>=-eq-ok (ok_or (x.value_to_string j.payload) json) insert h in
    let row = job_row position i j payload in
    let same : record db { jobs = db.jobs ++ row ∷ [] } ≡ db' = ground arith in
    let fresh : has_job db.jobs j.id ≡ false = ground arith in
    subst (λ (d : Db). IsOutbox d.jobs) same
      (record {
        rows =
            All-snoc IsRow db.jobs row v.rows
              (record { known = omega arith; lease = refl; counted = omega arith });
        unique = Unique-snoc db.jobs row v.unique fresh;
      })

write_all-IsOutbox :
    (x : External) (position i : ℕ) (effects : List EffectJobDraft) (db db' : Db)
    → IsOutbox db.jobs
    → write_all (write_effect x position) i effects db ≡ ok db'
    → IsOutbox db'.jobs
unfolding write_all
write_all-IsOutbox x position i [] db db' v h =
    let same : db ≡ db' = ground arith in subst (λ (d : Db). IsOutbox d.jobs) same v
write_all-IsOutbox x position i (j ∷ rest) db db' v h =
    let (mid, first, more) =
      >>=-eq-ok (write_effect x position i db j)
        (λ mid. write_all (write_effect x position) (suc i) rest mid) h in
    write_all-IsOutbox x position (suc i) rest mid db'
      (write_effect-IsOutbox x position i db j mid v first) more

Written-IsOutbox :
    (x : External) (clock : ClockReading) (c : WorldCommand) (t : WorldTransaction)
    (digest current : ℕ) (db db' : Db)
    → Written x clock c t digest current db db'
    → IsOutbox db.jobs
    → IsOutbox db'.jobs
Written-IsOutbox x clock c t digest current db db' w v =
    let p = current + 1 in
    let (row, e1, at, id, hash, r1, r2) =
      insert_commit-row x clock c digest p db w.rows.with_commit w.rows.commit_written in
    let m =
      write_all-WritesMutations x p 0 t.mutations w.rows.with_commit w.rows.with_mutations
        w.rows.mutations_written in
    let e =
      write_all-WritesEvents x p 0 t.events w.rows.with_mutations w.rows.with_events
        w.rows.events_written in
    let same : w.rows.with_events.jobs ≡ db.jobs =
      ap (λ d. d.jobs) e.db_eq ∙ m.jobs ∙ ap (λ d. d.jobs) e1 in
    let v4 =
      write_all-IsOutbox x p 0 t.effects w.rows.with_events w.with_rows
        (subst IsOutbox (sym same) v) w.rows.jobs_written in
    subst IsOutbox (sym (ap (λ d. d.jobs) w.advanced)) v4

-- A commit that succeeds keeps the outbox well formed: if the effect jobs have different identifiers, known
-- statuses, and a lease exactly while they run, so have they with the jobs that the commit adds.
pub commit-IsOutbox :
    (x : External) (clock : ClockReading) (db : Db) (c : WorldCommand) (t : WorldTransaction)
    (evaluated : ℕ) (db' : Db) (receipt : CommitReceipt)
    → IsOutbox db.jobs
    → commit x clock db c t evaluated ≡ ok (db', receipt)
    → IsOutbox db'.jobs
commit-IsOutbox x clock db c t evaluated db' receipt v done =
    elim (commit-cases x clock db c t evaluated db' receipt done) [
      | inl n ↦ Written-IsOutbox x clock c t n.digest n.current db db' n.written v
      | inr r ↦ subst (λ (d : Db). IsOutbox d.jobs) (sym r.unchanged) v
    ]
