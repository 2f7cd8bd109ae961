-- ===== src/Storage/Outbox.antt =====
-- crates/storage/src/sqlite/outbox.rs: the state transitions of durable effect jobs. A job is pending
-- until it is available, running under a lease, completed or cancelled.
pub mod Rows
pub mod Wakeup
pub mod Found
pub mod Fencing
pub mod Updates
pub mod Lifecycle
use rintawa.Prelude.{
  ℕ, ◌+◌, String, Bool, true, false, not, ◌&&◌, ◌||◌, List, [], ◌∷◌, Option, none, some, ok, err,
  ◌>>=◌, ◌>>◌, guard, ok_or, find, select, count, update_where, order_by, leb, ◌==◌, if◌then◌else◌,
}
use Prim.Native.String.{len}
use rintawa.Prelude.Int.{leb_ℤ}
use rintawa.World.Ids.{EffectJobId, UnixTimeMillis}
use rintawa.World.Transaction.{StoredEffectJob}
use rintawa.Storage.Errors.{
  StorageResult, invalid_effect_lease, index_out_of_range, effect_attempt_overflow,
  effect_job_claim_lost, effect_job_not_found, effect_job_terminal, effect_error_too_large,
  corrupt_data,
}
use rintawa.Storage.External.{External}
use rintawa.Storage.Codec.{u32_max}
use rintawa.Storage.Tables.{Db, JobRow, has_job}
use rintawa.Storage.Query.{effect_job_by_id}

abbrev pub status_pending : ℕ
status_pending = 0

abbrev pub status_running : ℕ
status_running = 1

abbrev pub status_completed : ℕ
status_completed = 2

abbrev pub status_cancelled : ℕ
status_cancelled = 3

abbrev pub max_last_error_bytes : ℕ
max_last_error_bytes = 8192

-- The column that the CASE of `next_wakeup` selects; NULL for no row.
unfoldable pub wakeup : JobRow → Option UnixTimeMillis
wakeup j =
    if j.status == status_pending
    then some j.available_at_ms
    else if j.status == status_running
    then j.lease_expires_at_ms
    else none

-- The aggregate MIN passes over NULL.
unfoldable pub min_time : Option UnixTimeMillis → Option UnixTimeMillis → Option UnixTimeMillis
min_time none b = b
min_time (some a) none = some a
min_time (some a) (some b) = if leb_ℤ a b then some a else some b

unfoldable pub min_wakeup : List JobRow → Option UnixTimeMillis
min_wakeup [] = none
min_wakeup (j ∷ rest) = min_time (wakeup j) (min_wakeup rest)

unfoldable pub next_wakeup : Db → Option UnixTimeMillis
next_wakeup db =
    min_wakeup (select (λ j. j.status == status_pending || j.status == status_running) db.jobs)

-- `lease_expires_at_ms <= ?`; a comparison with NULL does not hold.
unfoldable pub expired : Option UnixTimeMillis → UnixTimeMillis → Bool
expired none now = false
expired (some lease) now = leb_ℤ lease now

-- The WHERE clause of a claim.
unfoldable pub is_due : UnixTimeMillis → JobRow → Bool
unfolding expired
is_due now j =
    (j.status == status_pending && leb_ℤ j.available_at_ms now)
    || (j.status == status_running && expired j.lease_expires_at_ms now)

-- `ORDER BY commit_position, job_index LIMIT 1` with `.optional()`.
unfoldable pub first_row : List JobRow → Option JobRow
first_row [] = none
first_row (j ∷ rest) = some j

unfoldable pub candidate : UnixTimeMillis → List JobRow → Option JobRow
candidate now jobs =
    first_row (order_by (λ j. (j.commit_position, j.job_index)) (select (is_due now) jobs))

-- `u32::try_from(attempt_count)` and `checked_add(1)`.
unfoldable pub next_attempt : JobRow → StorageResult ℕ
next_attempt j = do
  guard (leb j.attempt_count u32_max) (index_out_of_range "attempt_count")
  guard (leb (j.attempt_count + 1) u32_max) (effect_attempt_overflow j.job_id)
  ok (j.attempt_count + 1)

pub record ClaimedEffectJob : Type 0 where
  pub job : StoredEffectJob
  pub lease_expires_at : UnixTimeMillis

-- The UPDATE of a claim, which tests the row once more.
unfoldable pub claims : UnixTimeMillis → JobRow → JobRow → Bool
unfolding is_due
claims now j r = r.job_id == j.job_id && r.attempt_count == j.attempt_count && is_due now r

unfoldable pub leased : ℕ → UnixTimeMillis → JobRow → JobRow
leased attempt lease_expires_at r = record r {
  status = status_running;
  attempt_count = attempt;
  lease_expires_at_ms = some lease_expires_at;
}

-- `UPDATE effect_jobs SET .. WHERE ..` with the error for a count of changed rows other than one.
unfoldable pub update_one :
    (JobRow → Bool) → (JobRow → JobRow) → StorageResult (Unit {0}) → Db → StorageResult Db
update_one cond set otherwise db = do
  if count cond db.jobs == 1 then ok tt else otherwise
  ok (record db { jobs = update_where cond set db.jobs })

-- The claim of a candidate row.
unfoldable pub claim_row :
    External
    → UnixTimeMillis
    → UnixTimeMillis
    → Db
    → JobRow
    → StorageResult (Db × Option ClaimedEffectJob)
claim_row x now lease_expires_at db j = do
  attempt ← next_attempt j
  db' ←
      update_one (claims now j) (leased attempt lease_expires_at)
        (err (effect_job_claim_lost j.job_id)) db
  found ← effect_job_by_id x db' j.job_id
  job ← ok_or found (effect_job_not_found j.job_id)
  ok (db', some (record { job = job; lease_expires_at = lease_expires_at }))

-- With no candidate nothing changes.
unfoldable pub claim_candidate :
    External
    → UnixTimeMillis
    → UnixTimeMillis
    → Db
    → Option JobRow
    → StorageResult (Db × Option ClaimedEffectJob)
claim_candidate x now lease_expires_at db none = ok (db, none)
claim_candidate x now lease_expires_at db (some j) = claim_row x now lease_expires_at db j

unfoldable pub claim_next :
    External → Db → UnixTimeMillis → UnixTimeMillis → StorageResult (Db × Option ClaimedEffectJob)
claim_next x db now lease_expires_at = do
  guard (not (leb_ℤ lease_expires_at now)) invalid_effect_lease
  claim_candidate x now lease_expires_at db (candidate now db.jobs)

-- The WHERE clause by which a claim is authoritative.
unfoldable pub is_claim : EffectJobId → ℕ → JobRow → Bool
is_claim job_id attempt r =
    r.job_id == job_id && r.status == status_running && r.attempt_count == attempt

-- The error of `transition_claim` for a statement that changed no row.
unfoldable pub claim_error : Db → EffectJobId → StorageResult (Unit {0})
claim_error db job_id =
    if has_job db.jobs job_id
    then err (effect_job_claim_lost job_id)
    else err (effect_job_not_found job_id)

unfoldable pub transition_claim :
    Db → EffectJobId → (JobRow → Bool) → (JobRow → JobRow) → StorageResult Db
transition_claim db job_id cond set = update_one cond set (claim_error db job_id) db

unfoldable pub completed_row : JobRow → JobRow
completed_row r = record r {
  status = status_completed;
  lease_expires_at_ms = none;
  last_error = none;
}

unfoldable pub complete : Db → EffectJobId → ℕ → StorageResult Db
complete db job_id attempt = transition_claim db job_id (is_claim job_id attempt) completed_row

unfoldable pub check_diagnostic : String → StorageResult (Unit {0})
check_diagnostic diagnostic =
    guard (leb (len diagnostic) max_last_error_bytes)
      (effect_error_too_large (len diagnostic) max_last_error_bytes)

unfoldable pub retried_row : UnixTimeMillis → String → JobRow → JobRow
retried_row available_at diagnostic r = record r {
  status = status_pending;
  available_at_ms = available_at;
  lease_expires_at_ms = none;
  last_error = some diagnostic;
}

unfoldable pub retry : Db → EffectJobId → ℕ → UnixTimeMillis → String → StorageResult Db
retry db job_id attempt available_at diagnostic = do
  check_diagnostic diagnostic
  transition_claim db job_id (is_claim job_id attempt) (retried_row available_at diagnostic)

unfoldable pub cancelled_claim_row : String → JobRow → JobRow
cancelled_claim_row diagnostic r = record r {
  status = status_cancelled;
  lease_expires_at_ms = none;
  last_error = some diagnostic;
}

unfoldable pub cancel_claimed : Db → EffectJobId → ℕ → String → StorageResult Db
cancel_claimed db job_id attempt diagnostic = do
  check_diagnostic diagnostic
  transition_claim db job_id (is_claim job_id attempt) (cancelled_claim_row diagnostic)

unfoldable pub is_open : EffectJobId → JobRow → Bool
is_open job_id r = r.job_id == job_id && (r.status == status_pending || r.status == status_running)

unfoldable pub cancelled_row : JobRow → JobRow
cancelled_row r = record r { status = status_cancelled; lease_expires_at_ms = none }

-- The result of `cancel` where the UPDATE changed no row, from the status that is stored.
unfoldable pub cancel_closed : EffectJobId → Option JobRow → StorageResult Bool
cancel_closed job_id none = err (effect_job_not_found job_id)
cancel_closed job_id (some r) =
    if r.status == status_cancelled
    then ok false
    else if r.status == status_completed
    then err (effect_job_terminal job_id)
    else err (corrupt_data "effect job has unsupported status")

unfoldable pub cancel : Db → EffectJobId → StorageResult (Db × Bool)
cancel db job_id =
    if count (is_open job_id) db.jobs == 1
    then ok (record db { jobs = update_where (is_open job_id) cancelled_row db.jobs }, true)
    else (do
      answer ← cancel_closed job_id (find (λ r. r.job_id == job_id) db.jobs)
      ok (record db { jobs = update_where (is_open job_id) cancelled_row db.jobs }, answer))
