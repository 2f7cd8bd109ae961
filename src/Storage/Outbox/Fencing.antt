-- ===== src/Storage/Outbox/Fencing.antt =====
-- Claims of the outbox of crates/storage/src/sqlite/outbox.rs: a claim takes the job over, and makes
-- every other claim of the job void.
use Prim.Native.String.{len}
use rintawa.Prelude.{
  String, ℕ, ◌+◌, ◌<◌, ◌≤◌, update_where, ap, ◌≡◌, refl, sym, ◌∙◌, subst, true, List, [], ◌∷◌,
  Option, none, some, ok, err, any, find, arith, ◌==◌, if◌then◌else◌,
}
use rintawa.Storage.Codec.{u32_max}
use rintawa.World.Ids.{UnixTimeMillis, EffectJobId}
use rintawa.Storage.Errors.{effect_job_claim_lost}
use rintawa.Storage.External.{External}
use rintawa.Storage.Tables.{Db, JobRow, has_job}
use rintawa.Storage.Query.{effect_job_by_id}
use rintawa.Storage.Outbox.{
  is_due, candidate, claim_next, claim_candidate, claim_row, ClaimedEffectJob, claims, leased,
  next_attempt, update_one, is_claim, complete, retry, cancel_claimed, transition_claim,
  claim_error, completed_row, retried_row, cancelled_claim_row, check_diagnostic,
  max_last_error_bytes,
}
use rintawa.Storage.Outbox.Rows.{
  Names, IsOutbox, Unique, KeepsId, row_at, row_at-update, count-row, Unique-update,
}
use rintawa.Storage.Outbox.Wakeup.{candidate-IsFirst}
use rintawa.Storage.Outbox.Found.{row_at_of_In, effect_job_by_id-row}

-- What a claim does: it takes the first due job in commit order, writes the next attempt and the lease
-- to the row of that job, and returns the job with that attempt.
pub record IsClaim (db db' : Db) (now lease : UnixTimeMillis) (c : ClaimedEffectJob) (j : JobRow)
    : Type 0 where
  pub chosen : candidate now db.jobs ≡ some j
  pub row : row_at j.job_id db.jobs ≡ some j
  pub room : j.attempt_count < u32_max
  pub changed : db' ≡ record db {
    jobs = update_where (claims now j) (leased (j.attempt_count + 1) lease) db.jobs;
  }
  pub taken : row_at j.job_id db'.jobs ≡ some (leased (j.attempt_count + 1) lease j)
  pub named : c.job.id ≡ j.job_id
  pub attempt : c.job.attempt_count ≡ j.attempt_count + 1
  pub lease_end : c.lease_expires_at ≡ lease

-- the steps of `claim_row` that succeed
record Steps (x : External) (now lease : UnixTimeMillis) (db db' : Db) (j : JobRow)
    (c : ClaimedEffectJob) : Type 0 where
  room : j.attempt_count < u32_max
  updated : db' ≡ record db {
    jobs = update_where (claims now j) (leased (j.attempt_count + 1) lease) db.jobs;
  }
  read : effect_job_by_id x db' j.job_id ≡ ok (some c.job)
  lease_end : c.lease_expires_at ≡ lease

claim_row-Steps :
    (x : External) (now lease : UnixTimeMillis) (db db' : Db) (j : JobRow) (c : ClaimedEffectJob)
    → claim_row x now lease db j ≡ ok (db', some c)
    → Steps x now lease db db' j c
unfolding claim_row next_attempt update_one
claim_row-Steps x now lease db db' j c h = ground arith

claims_self : (now : UnixTimeMillis) (j : JobRow) → is_due now j ≡ true → claims now j j ≡ true
unfolding claims
claims_self now j due = ground arith

leased-KeepsId : (attempt : ℕ) (lease : UnixTimeMillis) → KeepsId (leased attempt lease)
unfolding leased
leased-KeepsId attempt lease r = refl

leased-attempt :
    (attempt : ℕ) (lease : UnixTimeMillis) (r : JobRow)
    → (leased attempt lease r).attempt_count ≡ attempt
unfolding leased
leased-attempt attempt lease r = refl

claim_candidate-row :
    (x : External) (now lease : UnixTimeMillis) (db : Db) (o : Option JobRow) (db' : Db)
    (c : ClaimedEffectJob)
    → claim_candidate x now lease db o ≡ ok (db', some c)
    → (j : JobRow) × (o ≡ some j) × (claim_row x now lease db j ≡ ok (db', some c))
unfolding claim_candidate
claim_candidate-row x now lease db none db' c h = cc
claim_candidate-row x now lease db (some j) db' c h = (j, refl, h)

claim_next-row :
    (x : External) (db : Db) (now lease : UnixTimeMillis) (db' : Db) (c : ClaimedEffectJob)
    → claim_next x db now lease ≡ ok (db', some c)
    → (j : JobRow) × (candidate now db.jobs ≡ some j)
      × (claim_row x now lease db j ≡ ok (db', some c))
unfolding claim_next
claim_next-row x db now lease db' c h =
    claim_candidate-row x now lease db (candidate now db.jobs) db' c (ground arith)

-- A successful claim on a well-formed outbox is one in the sense of `IsClaim`, of a job that was due: that row
-- alone now runs, under the lease and with the next attempt, and the answer is the job with that attempt.
pub claim_next-IsClaim :
    (x : External) (db : Db) (now lease : UnixTimeMillis) {db' : Db} {c : ClaimedEffectJob}
    → IsOutbox db.jobs
    → claim_next x db now lease ≡ ok (db', some c)
    → (j : JobRow) × IsClaim db db' now lease c j × (is_due now j ≡ true)
claim_next-IsClaim x db now lease {db'} {c} v h =
    let (j, chosen, claimed) = claim_next-row x db now lease db' c h in
    let s = claim_row-Steps x now lease db db' j c claimed in
    let (element, due, least) = candidate-IsFirst now db.jobs {j = j} chosen in
    let row = row_at_of_In j db.jobs v.unique element in
    let set = leased (j.attempt_count + 1) lease in
    let jobs : db'.jobs ≡ update_where (claims now j) set db.jobs =
      ap (λ (d : Db). d.jobs) s.updated in
    let taken : row_at j.job_id db'.jobs ≡ some (set j) =
      ap (row_at j.job_id) jobs
      ∙ row_at-update (claims now j) set db.jobs j.job_id j
          (leased-KeepsId (j.attempt_count + 1) lease) row
      ∙ ap (λ b. some (if b then set j else j)) (claims_self now j due) in
    let unique' : Unique db'.jobs = subst Unique (sym jobs) (
      Unique-update (claims now j) set db.jobs (leased-KeepsId (j.attempt_count + 1) lease)
        v.unique) in
    let (named, attempt) =
      effect_job_by_id-row x db' j.job_id {r = set j} {job = c.job} unique' taken s.read in
    (
      j,
      record {
        chosen = chosen;
        row = row;
        room = s.room;
        changed = s.updated;
        taken = taken;
        named = named;
        attempt = attempt ∙ leased-attempt (j.attempt_count + 1) lease j;
        lease_end = s.lease_end;
      },
      due,
    )

is_claim-Names : (id : EffectJobId) (attempt : ℕ) → Names id (is_claim id attempt)
unfolding is_claim
is_claim-Names id attempt r h = ground arith

row-has_job :
    (id : EffectJobId) (jobs : List JobRow) {r : JobRow}
    → row_at id jobs ≡ some r
    → has_job jobs id ≡ true
unfolding find any
row-has_job id [] h = cc
row-has_job id (q ∷ rows) {r} h = ground (arith, row-has_job id rows {r = r})

-- On unique rows the holder of the current attempt of a running job, and nobody else, may end its claim.
pub transition_claim-row :
    (db : Db) (id : EffectJobId) (attempt : ℕ) (set : JobRow → JobRow) (r : JobRow)
    → Unique db.jobs
    → row_at id db.jobs ≡ some r
    → transition_claim db id (is_claim id attempt) set ≡ (
        if is_claim id attempt r
        then ok (record db { jobs = update_where (is_claim id attempt) set db.jobs })
        else err (effect_job_claim_lost id))
unfolding transition_claim update_one claim_error
transition_claim-row db id attempt set r u h =
    let counted = count-row id (is_claim id attempt) (is_claim-Names id attempt) db.jobs r u h in
    ground (arith, row-has_job id db.jobs h)

is_claim-leased :
    (id : EffectJobId) (k attempt : ℕ) (lease : UnixTimeMillis) (j : JobRow)
    → j.job_id ≡ id
    → is_claim id k (leased attempt lease j) ≡ (attempt == k)
unfolding is_claim leased
is_claim-leased id k attempt lease j h = ground arith

-- The end of a claim after a successful `claim_next`, whatever is written.
after_claim :
    (x : External) (db : Db) (now lease : UnixTimeMillis) (db' : Db) (c : ClaimedEffectJob)
    (attempt : ℕ) (set : JobRow → JobRow)
    → IsOutbox db.jobs
    → claim_next x db now lease ≡ ok (db', some c)
    → transition_claim db' c.job.id (is_claim c.job.id attempt) set ≡ (
        if attempt == c.job.attempt_count
        then ok (record db' { jobs = update_where (is_claim c.job.id attempt) set db'.jobs })
        else err (effect_job_claim_lost c.job.id))
after_claim x db now lease db' c attempt set v h =
    let (j, claim, due) = claim_next-IsClaim x db now lease {db' = db'} {c = c} v h in
    let write = leased (j.attempt_count + 1) lease in
    let unique' : Unique db'.jobs = subst Unique (sym (ap (λ (d : Db). d.jobs) claim.changed)) (
      Unique-update (claims now j) write db.jobs (leased-KeepsId (j.attempt_count + 1) lease)
        v.unique) in
    let row : row_at c.job.id db'.jobs ≡ some (write j) =
      ap (λ i. row_at i db'.jobs) claim.named ∙ claim.taken in
    let test = is_claim-leased c.job.id attempt (j.attempt_count + 1) lease j (sym claim.named) in
    let count = claim.attempt in
    let test' : is_claim c.job.id attempt (write j) ≡ (attempt == c.job.attempt_count) =
      ground arith in
    transition_claim-row db' c.job.id attempt set (write j) unique' row
    ∙ ap
        (λ b.
          if b
          then ok (record db' { jobs = update_where (is_claim c.job.id attempt) set db'.jobs })
          else err (effect_job_claim_lost c.job.id))
        test'

small_diagnostic :
    (diagnostic : String)
    → len diagnostic ≤ max_last_error_bytes
    → check_diagnostic diagnostic ≡ ok tt
unfolding check_diagnostic
small_diagnostic diagnostic h = ground arith

-- After a claim on a well-formed outbox, only the attempt that it returned can end the claim: with it `complete`, `retry`
-- and `cancel_claimed` write their rows, and with any other attempt they report that the claim is lost; for a
-- diagnostic within its bound.
pub claim_next-fences :
    (x : External) (db : Db) (now lease : UnixTimeMillis) {db' : Db} {c : ClaimedEffectJob}
    (attempt : ℕ) (available_at : UnixTimeMillis) (diagnostic : String)
    → IsOutbox db.jobs
    → claim_next x db now lease ≡ ok (db', some c)
    → len diagnostic ≤ max_last_error_bytes
    → (complete db' c.job.id attempt ≡ (
        if attempt == c.job.attempt_count
        then ok
            (record db' { jobs = update_where (is_claim c.job.id attempt) completed_row db'.jobs })
        else err (effect_job_claim_lost c.job.id)))
      × (retry db' c.job.id attempt available_at diagnostic ≡ (
          if attempt == c.job.attempt_count
          then ok (record db' {
            jobs =
                update_where
                  (is_claim c.job.id attempt)
                  (retried_row available_at diagnostic)
                  db'.jobs;
          })
          else err (effect_job_claim_lost c.job.id)))
      × (cancel_claimed db' c.job.id attempt diagnostic ≡ (
          if attempt == c.job.attempt_count
          then ok (record db' {
            jobs =
                update_where (is_claim c.job.id attempt) (cancelled_claim_row diagnostic) db'.jobs;
          })
          else err (effect_job_claim_lost c.job.id)))
unfolding complete retry cancel_claimed
claim_next-fences x db now lease {db'} {c} attempt available_at diagnostic v h small =
    let end = after_claim x db now lease db' c attempt in
    (
      end completed_row v h,
      rw (small_diagnostic diagnostic small) (end (retried_row available_at diagnostic) v h),
      rw (small_diagnostic diagnostic small) (end (cancelled_claim_row diagnostic) v h),
    )
