-- ===== src/Storage/Outbox/Lifecycle.antt =====
-- The life of an effect job under the operations of crates/storage/src/sqlite/outbox.rs, in any order:
-- the steps of the outbox, and what holds after any number of them.
use rintawa.Prelude.{
  ◌≤◌, ◌≡◌, refl, ◌∙◌, ◌⊎◌, inl, inr, Bool-cases, ap, Bool, true, false, some, arith, if◌then◌else◌,
}
use rintawa.World.Ids.{EffectJobId}
use rintawa.Storage.External.{External}
use rintawa.Storage.Tables.{Db, JobRow}
use rintawa.Storage.Outbox.Rows.{IsOutbox, row_at, row_at-update}
use rintawa.Storage.Outbox.Updates.{
  next, here, Step, Reach, is_closed, IsUpdate, Step-IsUpdate, update-jobs, update-IsOutbox,
}

-- What becomes of a row: a closed one stays as it is, an open one counts no attempt down.
abbrev Later : JobRow → JobRow → Type 0
Later r r' = (is_closed r ≡ true → r' ≡ r) × (r.attempt_count ≤ r'.attempt_count)

Later-if :
    (b : Bool) (r q : JobRow)
    → (b ≡ true → is_closed r ≡ false)
    → (b ≡ true → r.attempt_count ≤ q.attempt_count)
    → Later r (if b then q else r)
Later-if true r q open_only attempts =
    (λ closed. absurd (let e = open_only refl in ground arith), attempts refl)
Later-if false r q open_only attempts = (λ _. refl, omega arith)

update-row :
    (db db' : Db) (id : EffectJobId) (r : JobRow)
    → IsUpdate db db'
    → row_at id db.jobs ≡ some r
    → (r' : JobRow) × (row_at id db'.jobs ≡ some r') × Later r r'
update-row db db' id r u h = (
  if u.cond r then u.set r else r,
  ap (row_at id) (update-jobs db db' u) ∙ row_at-update u.cond u.set db.jobs id r u.keeps_id h,
  Later-if (u.cond r) r (u.set r) (u.open_only r) (u.attempts r),
)

Step-row :
    (x : External) (db db' : Db) (id : EffectJobId) (r : JobRow)
    → IsOutbox db.jobs
    → Step x db db'
    → row_at id db.jobs ≡ some r
    → (r' : JobRow) × (row_at id db'.jobs ≡ some r') × Later r r'
Step-row x db db' id r v step = update-row db db' id r (Step-IsUpdate x v step)

-- The constraints of the outbox hold after any sequence of successful calls, in any order.
pub Reach-IsOutbox :
    (x : External) {db db' : Db} → IsOutbox db.jobs → Reach x db db' → IsOutbox db'.jobs
Reach-IsOutbox x v here = v
Reach-IsOutbox x {db} {db'} v (next {mid} reach step) =
    let v' = Reach-IsOutbox x v reach in update-IsOutbox mid db' (Step-IsUpdate x v' step) v'

row_after :
    (x : External) {db db' : Db} (id : EffectJobId) {r : JobRow}
    → IsOutbox db.jobs
    → Reach x db db'
    → row_at id db.jobs ≡ some r
    → (r' : JobRow) × (row_at id db'.jobs ≡ some r') × Later r r'
row_after x id {r} v here h = (r, h, (λ _. refl, omega arith))
row_after x {db} {db'} id {r} v (next {mid} reach step) h =
    let (q, at, kept) = row_after x id {r = r} v reach h in
    let (closed, counted) = kept in
    let (q', at', later) = Step-row x mid db' id q (Reach-IsOutbox x v reach) step at in
    (
      q',
      at',
      (λ c. let e = closed c in later.0 (ap is_closed e ∙ c) ∙ e, let c = later.1 in omega arith),
    )

-- In a well-formed outbox no job is ever lost, a completed or cancelled job never changes again, and no attempt
-- counter is ever lowered, after any sequence of successful calls.
pub Reach-row :
    (x : External) {db db' : Db} (id : EffectJobId) {r : JobRow}
    → IsOutbox db.jobs
    → Reach x db db'
    → row_at id db.jobs ≡ some r
    → (r' : JobRow) × (row_at id db'.jobs ≡ some r')
      × ((r' ≡ r) ⊎ (is_closed r ≡ false))
      × (r.attempt_count ≤ r'.attempt_count)
Reach-row x {db} {db'} id {r} v reach h =
    let (r', at, kept) = row_after x {db = db} {db' = db'} id {r = r} v reach h in
    let (closed, counted) = kept in
    elim (Bool-cases (is_closed r)) [
      | inl c ↦ (r', at, inl (closed c), counted)
      | inr o ↦ (r', at, inr o, counted)
    ]
