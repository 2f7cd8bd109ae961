-- ===== src/Storage/Outbox/Updates.antt =====
-- Each operation of crates/storage/src/sqlite/outbox.rs updates rows in their places.
use rintawa.Prelude.{
  ℕ, ◌+◌, ◌≤◌, String, ◌≡◌, refl, sym, ap, subst, Bool, true, false, ◌||◌, some, ok, All-update,
  update_where, arith, ◌==◌,
}
use rintawa.World.Ids.{UnixTimeMillis, EffectJobId}
use rintawa.Storage.External.{External}
use rintawa.Storage.Codec.{u32_max}
use rintawa.Storage.Tables.{Db, JobRow}
use rintawa.Storage.Outbox.{
  ClaimedEffectJob, claim_next, claims, leased, is_claim, complete, completed_row, retry,
  retried_row, cancel_claimed, cancelled_claim_row, cancel, is_open, cancelled_row,
  transition_claim, update_one,
}
use rintawa.Storage.Outbox.Rows.{IsRow, IsOutbox, KeepsId, Unique-update}
use rintawa.Storage.Outbox.Fencing.{claim_next-IsClaim, IsClaim}

-- One successful call on the outbox. A call that fails leaves the database as it was.
pub data Step (x : External) (db : Db) (db' : Db) : Type 0 where
  claimed :
      (now lease : UnixTimeMillis) (c : ClaimedEffectJob)
      → claim_next x db now lease ≡ ok (db', some c)
      → Step x db db'
  completed : (id : EffectJobId) (attempt : ℕ) → complete db id attempt ≡ ok db' → Step x db db'
  retried :
      (id : EffectJobId) (attempt : ℕ) (at : UnixTimeMillis) (diagnostic : String)
      → retry db id attempt at diagnostic ≡ ok db'
      → Step x db db'
  claim_cancelled :
      (id : EffectJobId) (attempt : ℕ) (diagnostic : String)
      → cancel_claimed db id attempt diagnostic ≡ ok db'
      → Step x db db'
  cancelled : (id : EffectJobId) (done : Bool) → cancel db id ≡ ok (db', done) → Step x db db'

pub data Reach (x : External) (db : Db) : Db → Type 0 where
  here : Reach x db db
  next : {mid db' : Db} → Reach x db mid → Step x mid db' → Reach x db db'

abbrev pub is_closed : JobRow → Bool
is_closed r = r.status == 2 || r.status == 3

-- What every step is: an UPDATE of open rows that keeps identifiers and constraints and lowers no
-- attempt counter.
pub record IsUpdate (db db' : Db) : Type 0 where
  pub cond : JobRow → Bool
  pub set : JobRow → JobRow
  pub changed : db' ≡ record db { jobs = update_where cond set db.jobs }
  pub keeps_id : KeepsId set
  pub keeps_place :
      (r : JobRow)
      → ((set r).commit_position ≡ r.commit_position) × ((set r).job_index ≡ r.job_index)
  pub open_only : (r : JobRow) → cond r ≡ true → is_closed r ≡ false
  keeps_row : (r : JobRow) → cond r ≡ true → IsRow r → IsRow (set r)
  pub attempts : (r : JobRow) → cond r ≡ true → r.attempt_count ≤ (set r).attempt_count

claims-facts :
    (now : UnixTimeMillis) (j r : JobRow)
    → claims now j r ≡ true
    → (is_closed r ≡ false) × (r.attempt_count ≡ j.attempt_count)
unfolding claims
claims-facts now j r h = ground arith

leased-IsRow :
    (attempt : ℕ) (lease : UnixTimeMillis) (r : JobRow)
    → attempt ≤ u32_max
    → IsRow (leased attempt lease r)
unfolding leased
leased-IsRow attempt lease r h = record { known = omega arith; lease = refl; counted = h }

claim-IsUpdate :
    (db db' : Db) (now lease : UnixTimeMillis) (c : ClaimedEffectJob) (j : JobRow)
    → IsClaim db db' now lease c j
    → IsUpdate db db'
claim-IsUpdate db db' now lease c j claim = record {
  cond = claims now j;
  set = leased (j.attempt_count + 1) lease;
  changed = claim.changed;
  keeps_id = λ r. unfold leased in refl;
  keeps_place = λ r. unfold leased in (refl, refl);
  open_only = λ r h. (claims-facts now j r h).0;
  keeps_row =
      λ r h v. leased-IsRow (j.attempt_count + 1) lease r (let room = claim.room in omega arith);
  attempts = λ r h. let e = (claims-facts now j r h).1 in unfold leased in omega arith;
}

is_claim-closed :
    (id : EffectJobId) (attempt : ℕ) (r : JobRow)
    → is_claim id attempt r ≡ true
    → is_closed r ≡ false
unfolding is_claim
is_claim-closed id attempt r h = ground arith

transition-changed :
    (db db' : Db) (id : EffectJobId) (cond : JobRow → Bool) (set : JobRow → JobRow)
    → transition_claim db id cond set ≡ ok db'
    → db' ≡ record db { jobs = update_where cond set db.jobs }
unfolding transition_claim update_one
transition-changed db db' id cond set h = ground arith

module _ (db db' : Db) (id : EffectJobId) (attempt : ℕ) where
  complete-IsUpdate : complete db id attempt ≡ ok db' → IsUpdate db db'
  unfolding complete completed_row
  complete-IsUpdate h = record {
    cond = is_claim id attempt;
    set = completed_row;
    changed = transition-changed db db' id (is_claim id attempt) completed_row h;
    keeps_id = λ r. refl;
    keeps_place = λ r. (refl, refl);
    open_only = is_claim-closed id attempt;
    keeps_row = λ r h v. record { known = omega arith; lease = refl; counted = v.counted };
    attempts = λ r h. omega arith;
  }

  retry-IsUpdate :
      (at : UnixTimeMillis) (diagnostic : String)
      → retry db id attempt at diagnostic ≡ ok db'
      → IsUpdate db db'
  unfolding retry retried_row
  retry-IsUpdate at diagnostic h = record {
    cond = is_claim id attempt;
    set = retried_row at diagnostic;
    changed =
        transition-changed db db' id (is_claim id attempt) (retried_row at diagnostic)
          (ground arith);
    keeps_id = λ r. refl;
    keeps_place = λ r. (refl, refl);
    open_only = is_claim-closed id attempt;
    keeps_row = λ r h v. record { known = omega arith; lease = refl; counted = v.counted };
    attempts = λ r h. omega arith;
  }

  cancel_claimed-IsUpdate :
      (diagnostic : String) → cancel_claimed db id attempt diagnostic ≡ ok db' → IsUpdate db db'
  unfolding cancel_claimed cancelled_claim_row
  cancel_claimed-IsUpdate diagnostic h = record {
    cond = is_claim id attempt;
    set = cancelled_claim_row diagnostic;
    changed =
        transition-changed db db' id (is_claim id attempt) (cancelled_claim_row diagnostic)
          (ground arith);
    keeps_id = λ r. refl;
    keeps_place = λ r. (refl, refl);
    open_only = is_claim-closed id attempt;
    keeps_row = λ r h v. record { known = omega arith; lease = refl; counted = v.counted };
    attempts = λ r h. omega arith;
  }

is_open-closed : (id : EffectJobId) (r : JobRow) → is_open id r ≡ true → is_closed r ≡ false
unfolding is_open
is_open-closed id r h = ground arith

cancel-changed :
    (db db' : Db) (id : EffectJobId) (done : Bool)
    → cancel db id ≡ ok (db', done)
    → db' ≡ record db { jobs = update_where (is_open id) cancelled_row db.jobs }
unfolding cancel
cancel-changed db db' id done h = ground arith

cancel-IsUpdate :
    (db db' : Db) (id : EffectJobId) (done : Bool) → cancel db id ≡ ok (db', done) → IsUpdate db db'
unfolding cancelled_row
cancel-IsUpdate db db' id done h = record {
  cond = is_open id;
  set = cancelled_row;
  changed = cancel-changed db db' id done h;
  keeps_id = λ r. refl;
  keeps_place = λ r. (refl, refl);
  open_only = is_open-closed id;
  keeps_row = λ r h v. record { known = omega arith; lease = refl; counted = v.counted };
  attempts = λ r h. omega arith;
}

pub Step-IsUpdate :
    (x : External) {db db' : Db} → IsOutbox db.jobs → Step x db db' → IsUpdate db db'
Step-IsUpdate x {db} {db'} v (claimed now lease c h) =
    let (j, claim, due) = claim_next-IsClaim x db now lease {db' = db'} {c = c} v h in
    claim-IsUpdate db db' now lease c j claim
Step-IsUpdate x {db} {db'} v (completed id attempt h) = complete-IsUpdate db db' id attempt h
Step-IsUpdate x {db} {db'} v (retried id attempt at diagnostic h) =
    retry-IsUpdate db db' id attempt at diagnostic h
Step-IsUpdate x {db} {db'} v (claim_cancelled id attempt diagnostic h) =
    cancel_claimed-IsUpdate db db' id attempt diagnostic h
Step-IsUpdate x {db} {db'} v (cancelled id done h) = cancel-IsUpdate db db' id done h

pub update-jobs : (db db' : Db) (u : IsUpdate db db') → db'.jobs ≡ update_where u.cond u.set db.jobs
update-jobs db db' u = ap (λ (d : Db). d.jobs) u.changed

pub update-IsOutbox : (db db' : Db) → IsUpdate db db' → IsOutbox db.jobs → IsOutbox db'.jobs
update-IsOutbox db db' u v = subst IsOutbox (sym (update-jobs db db' u)) (record {
  rows = All-update IsRow u.cond u.set db.jobs u.keeps_row v.rows;
  unique = Unique-update u.cond u.set db.jobs u.keeps_id v.unique;
})
