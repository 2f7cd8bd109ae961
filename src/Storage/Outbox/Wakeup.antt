-- ===== src/Storage/Outbox/Wakeup.antt =====
-- The schedule of the outbox of crates/storage/src/sqlite/outbox.rs: which job is claimed, and when.
use rintawa.World.Transaction.{is_empty}
use rintawa.Prelude.{
  All-mono, ◌⊎◌, ℕ, sym, ◌∙◌, subst, ◌≢◌, ◌≡◌, ◌↔◌, inl, inr, refl, Bool, true, false, ◌||◌, not,
  List, [], ◌∷◌, Option, none, some, ok, any, All, In, In-select, select, order_by, order_by-first,
  IsFirst, not_after, arith, ◌==◌, Bool-cases,
}
use rintawa.Prelude.Int.{leb_ℤ}
use rintawa.World.Ids.{UnixTimeMillis}
use rintawa.Storage.External.{External}
use rintawa.Storage.Tables.{Db, JobRow}
use rintawa.Storage.Outbox.{
  wakeup, min_time, min_wakeup, next_wakeup, expired, is_due, first_row, candidate, claim_next,
  claim_candidate, claim_row,
}
use rintawa.Storage.Outbox.Rows.{IsRow, is_some}

-- A job that is not closed.
abbrev is_live : JobRow → Bool
is_live j = j.status == 0 || j.status == 1

expired-min_time :
    (a b : Option UnixTimeMillis) (now : UnixTimeMillis)
    → expired (min_time a b) now ≡ (expired a now || expired b now)
unfolding expired min_time
expired-min_time a b now = ground arith

wakeup-is_due :
    (j : JobRow) (now : UnixTimeMillis)
    → IsRow j
    → is_live j ≡ true
    → expired (wakeup j) now ≡ is_due now j
unfolding wakeup is_due
wakeup-is_due j now r h = ground arith

closed-is_due : (j : JobRow) (now : UnixTimeMillis) → is_live j ≡ false → is_due now j ≡ false
unfolding is_due
closed-is_due j now h = ground arith

min_wakeup-any :
    (jobs : List JobRow) (now : UnixTimeMillis)
    → All IsRow jobs
    → expired (min_wakeup (select is_live jobs)) now ≡ any (is_due now) jobs
unfolding min_wakeup select any
min_wakeup-any [] now h = unfold expired in refl
min_wakeup-any (j ∷ rest) now h = elim (Bool-cases (is_live j)) [
  | inl live ↦
      rw (live, expired-min_time, wakeup-is_due j now h.0 live, min_wakeup-any rest now h.1)
  | inr closed ↦ rw (closed, closed-is_due j now closed) (min_wakeup-any rest now h.1)
]

abbrev key : JobRow → ℕ × ℕ
key j = (j.commit_position, j.job_index)

sorted_some : (jobs : List JobRow) → is_some (first_row (order_by key jobs)) ≡ not (is_empty jobs)
unfolding first_row is_empty
sorted_some [] = unfold order_by in refl
sorted_some (j ∷ rest) = let (m, ms, e, first) = order_by-first key j rest in rw e

select-any : (q : JobRow → Bool) (jobs : List JobRow) → not (is_empty (select q jobs)) ≡ any q jobs
unfolding select any is_empty
select-any q [] = refl
select-any q (j ∷ rest) = ground (arith, select-any q rest)

candidate-any :
    (jobs : List JobRow) (now : UnixTimeMillis)
    → is_some (candidate now jobs) ≡ any (is_due now) jobs
unfolding candidate
candidate-any jobs now = sorted_some (select (is_due now) jobs) ∙ select-any (is_due now) jobs

claim_row-takes :
    (x : External) (now lease : UnixTimeMillis) (db db' : Db) (j : JobRow)
    → claim_row x now lease db j ≢ ok (db', none)
unfolding claim_row
claim_row-takes x now lease db db' j h = ground arith

waits_of_none :
    (x : External) (now lease : UnixTimeMillis) (db : Db) (o : Option JobRow)
    → (claim_candidate x now lease db o ≡ ok (db, none)) ↔ (is_some o ≡ false)
unfolding claim_candidate
waits_of_none x now lease db none = (λ _. refl, λ _. refl)
waits_of_none x now lease db (some j) =
    (λ h. absurd (claim_row-takes x now lease db db j h), λ h. cc)

claim_next-eq :
    (x : External) (db : Db) (now lease : UnixTimeMillis)
    → leb_ℤ lease now ≡ false
    → claim_next x db now lease ≡ claim_candidate x now lease db (candidate now db.jobs)
unfolding claim_next
claim_next-eq x db now lease h = rw h

-- On rows that meet the CHECK constraints, and for a lease that ends after `now`, the wakeup time is
-- exact: a claim finds no job exactly while the wakeup time has not come.
pub claim_next-waits_iff :
    (x : External) (db : Db) (now lease : UnixTimeMillis)
    → All IsRow db.jobs
    → leb_ℤ lease now ≡ false
    → (claim_next x db now lease ≡ ok (db, none)) ↔ (expired (next_wakeup db) now ≡ false)
unfolding next_wakeup
claim_next-waits_iff x db now lease rows h =
    let due = candidate-any db.jobs now ∙ sym (min_wakeup-any db.jobs now rows) in
    rw (claim_next-eq x db now lease h, ← due)
      (waits_of_none x now lease db (candidate now db.jobs))

candidate_of_IsFirst :
    (now : UnixTimeMillis) (jobs due : List JobRow) (j : JobRow)
    → first_row (order_by key due) ≡ some j
    → IsFirst key j due
unfolding first_row
candidate_of_IsFirst now jobs [] j h = absurd (unfold order_by in cc)
candidate_of_IsFirst now jobs (d ∷ ds) j h =
    let (m, ms, e, first) = order_by-first key d ds in
    subst (λ i. IsFirst key i (d ∷ ds)) (ground arith) first

least-select :
    (q : JobRow → Bool) (m : JobRow) (jobs : List JobRow)
    → All (λ r. not_after (key m) (key r) ≡ true) (select q jobs)
    → All (λ r. q r ≡ true → not_after (key m) (key r) ≡ true) jobs
unfolding select
least-select q m [] h = tt
least-select q m (r ∷ rest) h = elim (Bool-cases (q r)) [
  | inl here ↦ let h' = rw here at h in (λ _. h'.0, least-select q m rest h'.1)
  | inr gone ↦ (λ e. absurd (ground arith), least-select q m rest (rw gone at h))
]

due_or_not :
    (now : UnixTimeMillis) (j r : JobRow)
    → (is_due now r ≡ true → not_after (key j) (key r) ≡ true)
    → (is_due now r ≡ false) ⊎ (not_after (key j) (key r) ≡ true)
due_or_not now j r h = elim (Bool-cases (is_due now r)) [
  | inl due ↦ inr (h due)
  | inr waits ↦ inl waits
]

-- The candidate of a claim is a due job of the outbox, and every other job is not due or does not stand
-- before it in the order of commits.
pub candidate-IsFirst :
    (now : UnixTimeMillis) (jobs : List JobRow) {j : JobRow}
    → candidate now jobs ≡ some j
    → In j jobs
      × (is_due now j ≡ true)
      × All (λ r. (is_due now r ≡ false) ⊎ (not_after (key j) (key r) ≡ true)) jobs
unfolding candidate
candidate-IsFirst now jobs {j} h =
    let first = candidate_of_IsFirst now jobs (select (is_due now) jobs) j h in
    let (element, due) = In-select (is_due now) j jobs first.element in
    (
      element,
      due,
      All-mono (λ r. is_due now r ≡ true → not_after (key j) (key r) ≡ true)
          (λ r. (is_due now r ≡ false) ⊎ (not_after (key j) (key r) ≡ true)) jobs (due_or_not now j)
          (least-select (is_due now) j jobs first.least),
    )
