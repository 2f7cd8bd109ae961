-- ===== src/Storage/Outbox/Found.antt =====
-- What crates/storage/src/sqlite/outbox.rs finds of a job by its identifier.
use rintawa.Prelude.{
  ap, ◌≡◌, inl, inr, refl, ◌∙◌, List, [], ◌∷◌, map, Option, none, some, ok, any-In, In, find-In,
  In-append, find, select, arith, ◌==◌,
}
use rintawa.Storage.Codec.{index_from_sql}
use rintawa.World.Ids.{WorldId, EffectJobId}
use rintawa.World.Transaction.{StoredEffectJob}
use rintawa.Storage.External.{External}
use rintawa.Storage.Tables.{Db, JobRow, CommitRow}
use rintawa.Storage.Query.{effect_job_by_id, join_commits, decode_job, decode_found}
use rintawa.Storage.Outbox.Rows.{Unique, row_at}

pub row_at_of_In :
    (r : JobRow) (jobs : List JobRow) → Unique jobs → In r jobs → row_at r.job_id jobs ≡ some r
unfolding find
row_at_of_In r [] u h = elim h [ ]
row_at_of_In r (q ∷ rows) u (inl e) = ground arith
row_at_of_In r (q ∷ rows) u (inr h) =
    ground (arith, row_at_of_In r rows u.1 h, any-In (λ s. s.job_id == q.job_id) r rows)

In-pairs :
    (r q : JobRow) (c : CommitRow) (commits : List CommitRow)
    → In {A = JobRow × CommitRow} (r, c) (map (λ k. (q, k)) commits)
    → r ≡ q
In-pairs r q c [] h = elim h [ ]
In-pairs r q c (k ∷ ks) (inl e) = cc
In-pairs r q c (k ∷ ks) (inr h) = In-pairs r q c ks h

In-join :
    (r : JobRow) (c : CommitRow) (commits : List CommitRow) (jobs : List JobRow)
    → In {A = JobRow × CommitRow} (r, c) (join_commits (λ j. j.commit_position) commits jobs)
    → In r jobs
unfolding join_commits
In-join r c commits [] h = elim h [ ]
In-join r c commits (q ∷ rows) h =
    let here = select (λ k. k.commit_position == q.commit_position) commits in
    elim (In-append (r, c) (map (λ k. (q, k)) here)
      (join_commits (λ j. j.commit_position) commits rows) h) [
        | inl k ↦ inl (In-pairs r q c here k)
        | inr k ↦ inr (In-join r c commits rows k)
      ]

decode_job-row :
    (x : External) (world_id : WorldId) (row : JobRow × CommitRow) {job : StoredEffectJob}
    → decode_job x world_id row ≡ ok job
    → (job.id ≡ row.0.job_id) × (job.attempt_count ≡ row.0.attempt_count)
unfolding decode_job index_from_sql
decode_job-row x world_id row {job} h = ground arith

decoded :
    (x : External) (world_id : WorldId) (o : Option (JobRow × CommitRow)) {job : StoredEffectJob}
    → decode_found x world_id o ≡ ok (some job)
    → (row : JobRow × CommitRow) × (o ≡ some row) × (decode_job x world_id row ≡ ok job)
decoded x world_id none h = cc
decoded x world_id (some row) {job} h = (row, refl, ground arith)

-- What the row says that `effect_job_by_id` decodes.
pub effect_job_by_id-row :
    (x : External) (db : Db) (id : EffectJobId) {r : JobRow} {job : StoredEffectJob}
    → Unique db.jobs
    → row_at id db.jobs ≡ some r
    → effect_job_by_id x db id ≡ ok (some job)
    → (job.id ≡ id) × (job.attempt_count ≡ r.attempt_count)
unfolding effect_job_by_id
effect_job_by_id-row x db id {r} {job} u at h =
    let joined = join_commits (λ j. j.commit_position) db.commits db.jobs in
    let (row, found, decodes) =
      decoded x db.world_id (find (λ k. k.0.job_id == id) joined) {job = job} h in
    let (element, named) = find-In (λ k. k.0.job_id == id) joined {x = row} found in
    let same = row_at_of_In row.0 db.jobs u (In-join row.0 row.1 db.commits db.jobs element) in
    let (is_id, is_attempt) = decode_job-row x db.world_id row {job = job} decodes in
    let e : row.0.job_id ≡ id = ground arith in
    let e' : row.0 ≡ r = cc in (is_id ∙ e, is_attempt ∙ ap (λ (k : JobRow). k.attempt_count) e')
