-- ===== src/Storage/Outbox/Rows.antt =====
-- The rows of the outbox of crates/storage/src/sqlite/outbox.rs: what its constraints promise, and how
-- an UPDATE that names one job acts on a table where identifiers are unique.
use rintawa.Prelude.{
  ◌≤◌, ◌≡◌, refl, Bool, true, false, List, [], ◌∷◌, Option, none, some, any, All, find, count,
  update_where, arith, ◌==◌, if◌then◌else◌,
}
use rintawa.World.Ids.{EffectJobId}
use rintawa.Storage.Codec.{u32_max}
use rintawa.Storage.Tables.{JobRow, has_job}

abbrev pub is_some {ℓ} : {A : Type ℓ} → Option A → Bool
is_some none = false
is_some (some a) = true

-- The CHECK constraints of `effect_jobs`: a known status, and a lease exactly while the job runs; and
-- an attempt counter in the range of `u32`.
pub record IsRow (r : JobRow) : Type 0 where
  pub known : r.status ≤ 3
  pub lease : is_some r.lease_expires_at_ms ≡ (r.status == 1)
  pub counted : r.attempt_count ≤ u32_max

-- The primary key.
abbrev pub Unique : List JobRow → Type 0
Unique [] = Unit
Unique (r ∷ rows) = (has_job rows r.job_id ≡ false) × Unique rows

pub record IsOutbox (jobs : List JobRow) : Type 0 where
  pub rows : All IsRow jobs
  pub unique : Unique jobs

abbrev pub row_at : EffectJobId → List JobRow → Option JobRow
row_at id jobs = find (λ r. r.job_id == id) jobs

-- `cond` holds of no row but the one of the job.
abbrev pub Names : EffectJobId → (JobRow → Bool) → Type 0
Names id cond = (r : JobRow) → cond r ≡ true → r.job_id ≡ id

-- `set` leaves the identifier alone.
abbrev pub KeepsId : (JobRow → JobRow) → Type 0
KeepsId set = (r : JobRow) → (set r).job_id ≡ r.job_id

module _ (cond : JobRow → Bool) (set : JobRow → JobRow) where
  pub has_job-update :
      (jobs : List JobRow) (id : EffectJobId)
      → KeepsId set
      → has_job (update_where cond set jobs) id ≡ has_job jobs id
  unfolding any update_where
  has_job-update [] id k = refl
  has_job-update (r ∷ rows) id k = ground (arith, has_job-update rows id k, k r)

  pub Unique-update :
      (jobs : List JobRow) → KeepsId set → Unique jobs → Unique (update_where cond set jobs)
  unfolding update_where
  Unique-update [] k u = tt
  Unique-update (r ∷ rows) k u =
      (ground (arith, has_job-update rows r.job_id k, k r), Unique-update rows k u.1)

  -- The row of a job after an UPDATE.
  pub row_at-update :
      (jobs : List JobRow) (id : EffectJobId) (r : JobRow)
      → KeepsId set
      → row_at id jobs ≡ some r
      → row_at id (update_where cond set jobs) ≡ some (if cond r then set r else r)
  unfolding find update_where
  row_at-update [] id r k h = cc
  row_at-update (q ∷ rows) id r k h = ground (arith, row_at-update rows id r k, k q)

module _ (id : EffectJobId) (cond : JobRow → Bool) (names : Names id cond) where
  count-absent : (jobs : List JobRow) → has_job jobs id ≡ false → count cond jobs ≡ 0
  unfolding any count
  count-absent [] h = refl
  count-absent (r ∷ rows) h = ground (arith, count-absent rows, names r)

  -- On unique rows the statement changes one row exactly if the row of the job satisfies it.
  pub count-row :
      (jobs : List JobRow) (r : JobRow)
      → Unique jobs
      → row_at id jobs ≡ some r
      → count cond jobs ≡ (if cond r then 1 else 0)
  unfolding any count find
  count-row [] r u h = cc
  count-row (q ∷ rows) r u h = ground (arith, count-row rows r u.1, count-absent rows, names q)

  pub count-none : (jobs : List JobRow) → row_at id jobs ≡ none → count cond jobs ≡ 0
  unfolding count find
  count-none [] h = refl
  count-none (q ∷ rows) h = ground (arith, count-none rows, names q)
