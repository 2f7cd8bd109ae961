-- ===== src/Storage/Reach.antt =====
-- The life of a world database: any sequence of commits and outbox operations of crates/storage/src/sqlite.
use rintawa.Prelude.{
  ℕ, ◌≤◌, ◌≡◌, ◌≢◌, err, ◌∙◌, refl, sym, ap, subst, inl, inr, map, ok, some, none, find, select,
  order_by, update_where, select-update, order_by-update, map-update, All-update, Option-cases,
  arith, ◌==◌,
}
use rintawa.World.Ids.{CommandId}
use rintawa.World.Command.{WorldCommand}
use rintawa.World.Transaction.{WorldTransaction, CommitReceipt}
use rintawa.Storage.External.{External, ClockReading}
use rintawa.Storage.Codec.{position_to_sql}
use rintawa.Storage.Tables.{Db, JobRow}
use rintawa.Storage.Mutation.Consistency.{IsConsistent}
use rintawa.Storage.Outbox.Rows.{IsOutbox}
use rintawa.Storage.Outbox.Updates.{Step, IsUpdate, Step-IsUpdate, update-IsOutbox}
use rintawa.Storage.Digest.{command_digest}
use rintawa.Storage.Errors.{world}
use rintawa.World.Errors.{command_id_conflict}
use rintawa.Storage.Commit.{
  event_ids_for_position, effect_ids_for_position, receipt_of, load_existing_receipt, commit_found,
  commit,
}
use rintawa.Storage.Commit.History.{IsHistory, commit-IsHistory}
use rintawa.Storage.Commit.Receipts.{same_receipt, commit-keeps_receipt}
use rintawa.Storage.Commit.Retry.{repeated, committed-found, found-conflict}
use rintawa.Storage.Commit.Integrity.{commit-IsConsistent, commit-IsOutbox}

-- One successful call on the database. A call that fails is rolled back.
pub data WorldStep (x : External) (db : Db) (db' : Db) : Type 0 where
  commits :
      (clock : ClockReading) (c : WorldCommand) (t : WorldTransaction) (evaluated : ℕ)
      (receipt : CommitReceipt)
      → commit x clock db c t evaluated ≡ ok (db', receipt)
      → WorldStep x db db'
  outbox : Step x db db' → WorldStep x db db'

pub data Reach (x : External) (db : Db) : Db → Type 0 where
  here : Reach x db db
  next : {mid db' : Db} → Reach x db mid → WorldStep x mid db' → Reach x db db'

-- The log ends at the position, the references hold, and the outbox is well formed.
pub record IsValid (db : Db) : Type 0 where
  pub history : IsHistory db
  pub consistent : IsConsistent db
  pub outbox : IsOutbox db.jobs

update-IsHistory : (db db' : Db) → IsUpdate db db' → IsHistory db → IsHistory db'
update-IsHistory db db' u h = subst IsHistory (sym u.changed) (record {
  commits = h.commits;
  mutations = h.mutations;
  events = h.events;
  jobs =
      All-update (λ j. j.commit_position ≤ db.commit_position) u.cond u.set db.jobs
        (λ j c le. rw (u.keeps_place j).0 le) h.jobs;
})

update-IsConsistent : (db db' : Db) → IsUpdate db db' → IsConsistent db → IsConsistent db'
update-IsConsistent db db' u v = subst IsConsistent (sym u.changed) (record {
  relations = v.relations;
  entity_facets = v.entity_facets;
  relation_facets = v.relation_facets;
  grants = v.grants;
  grant_schemas = v.grant_schemas;
})

step-IsValid : (x : External) {db db' : Db} → IsValid db → WorldStep x db db' → IsValid db'
step-IsValid x {db} {db'} v (commits clock c t evaluated receipt h) = record {
  history = commit-IsHistory x clock db c t evaluated db' receipt v.history h;
  consistent = commit-IsConsistent x clock db c t evaluated db' receipt v.consistent h;
  outbox = commit-IsOutbox x clock db c t evaluated db' receipt v.outbox h;
}
step-IsValid x {db} {db'} v (outbox s) =
    let u = Step-IsUpdate x v.outbox s in
    record {
      history = update-IsHistory db db' u v.history;
      consistent = update-IsConsistent db db' u v.consistent;
      outbox = update-IsOutbox db db' u v.outbox;
    }

-- A database whose log ends at its position, whose references hold and whose outbox is well formed is still
-- such a one after any sequence of successful commits, claims, completions, retries and cancellations.
pub Reach-IsValid : (x : External) {db db' : Db} → IsValid db → Reach x db db' → IsValid db'
Reach-IsValid x v here = v
Reach-IsValid x {db} {db'} v (next {mid} reach step) = step-IsValid x (Reach-IsValid x v reach) step

-- The outbox changes no column that a receipt is read from.
update_effect_ids :
    (db db' : Db)
    → IsUpdate db db'
    → (p : ℕ) → effect_ids_for_position db' p ≡ effect_ids_for_position db p
unfolding effect_ids_for_position position_to_sql
update_effect_ids db db' u p =
    let at = λ (j : JobRow). j.commit_position == p in
    let key : JobRow → ℕ × ℕ = λ j. (0, j.job_index) in
    let kept = select-update u.cond u.set at (λ j. rw (u.keeps_place j).0 refl) db.jobs in
    let sorted =
      order_by-update u.cond u.set key (λ j. rw (u.keeps_place j).1 refl) (select at db.jobs) in
    let ids =
      map-update u.cond u.set (λ (j : JobRow). j.job_id) u.keeps_id
        (order_by key (select at db.jobs)) in
    let jobs : db'.jobs ≡ update_where u.cond u.set db.jobs = ap (λ (d : Db). d.jobs) u.changed in
    let same : map (λ (j : JobRow). j.job_id) (order_by key (select at db'.jobs))
        ≡ map (λ (j : JobRow). j.job_id) (order_by key (select at db.jobs)) =
      rw (jobs, kept, sorted) ids in
    ground arith

update_event_ids :
    (db db' : Db)
    → IsUpdate db db'
    → (p : ℕ) → event_ids_for_position db' p ≡ event_ids_for_position db p
unfolding event_ids_for_position
update_event_ids db db' u p = rw u.changed refl

update_receipt :
    (db db' : Db)
    → IsUpdate db db'
    → (id : CommandId) (digest : ℕ)
    → load_existing_receipt db' id digest ≡ load_existing_receipt db id digest
unfolding load_existing_receipt receipt_of
update_receipt db db' u id digest =
    let commits : db'.commits ≡ db.commits = ap (λ (d : Db). d.commits) u.changed in
    elim (Option-cases (find (λ r. r.command_id == id) db.commits)) [
      | inl missing ↦
          let still : find (λ r. r.command_id == id) db'.commits ≡ none = rw commits missing in
          rw (still, missing) refl
      | inr (row, stored) ↦
          let still : find (λ r. r.command_id == id) db'.commits ≡ some row = rw commits stored in
          rw (still, stored)
            (same_receipt db db' id digest row (update_event_ids db db' u row.commit_position)
              (update_effect_ids db db' u row.commit_position))
    ]

step_receipt :
    (x : External) {db db' : Db}
    → IsValid db
    → WorldStep x db db'
    → (id : CommandId) (digest : ℕ) (r : CommitReceipt)
    → load_existing_receipt db id digest ≡ ok (some r)
    → load_existing_receipt db' id digest ≡ ok (some r)
step_receipt x {db} {db'} v (commits clock c t evaluated receipt h) id digest r found =
    commit-keeps_receipt x clock db c t evaluated db' receipt v.history h id digest r found
step_receipt x {db} {db'} v (outbox s) id digest r found =
    update_receipt db db' (Step-IsUpdate x v.outbox s) id digest ∙ found

-- The receipt of a stored command is the same after any sequence of steps.
pub Reach-receipt :
    (x : External) {db db' : Db}
    → IsValid db
    → Reach x db db'
    → (id : CommandId) (digest : ℕ) (r : CommitReceipt)
    → load_existing_receipt db id digest ≡ ok (some r)
    → load_existing_receipt db' id digest ≡ ok (some r)
Reach-receipt x v here id digest r found = found
Reach-receipt x {db} {db'} v (next {mid} reach step) id digest r found =
    step_receipt x (Reach-IsValid x v reach) step id digest r
      (Reach-receipt x v reach id digest r found)

-- A command takes effect at most once: after it was committed and any sequence of other commits and outbox
-- operations followed, a retry with any clock, transaction and evaluated position returns the receipt of the
-- first commit, marked as a repetition, and changes nothing; for a world that was valid before the first.
pub commit_once :
    (x : External) (clock : ClockReading) (db : Db) (c : WorldCommand) (t : WorldTransaction)
    (evaluated : ℕ) {db' : Db} {receipt : CommitReceipt}
    → IsValid db
    → commit x clock db c t evaluated ≡ ok (db', receipt)
    → {now : Db} → Reach x db' now
    → (later : ClockReading) (t' : WorldTransaction) (evaluated' : ℕ)
    → commit x later now c t' evaluated' ≡ ok (now, repeated receipt)
unfolding commit commit_found
commit_once x clock db c t evaluated {db'} {receipt} v done {now} reach later t' evaluated' =
    let v' = step-IsValid x v (commits clock c t evaluated receipt done) in
    let (digest, hashed, found) =
      committed-found x clock db c t evaluated db' receipt v.history done in
    let still = Reach-receipt x v' reach c.id digest (repeated receipt) found in
    rw (hashed, still) refl

-- An identifier is bound to its first command: after a command was committed and any sequence of other commits and
-- outbox operations followed, a command with the same identifier and another digest is refused as a conflict, with
-- any clock, transaction and evaluated position; for a world that was valid before the first.
pub commit_conflict :
    (x : External) (clock : ClockReading) (db : Db) (c : WorldCommand) (t : WorldTransaction)
    (evaluated : ℕ) {db' : Db} {receipt : CommitReceipt}
    → IsValid db
    → commit x clock db c t evaluated ≡ ok (db', receipt)
    → {now : Db} → Reach x db' now
    → (c' : WorldCommand) {digest digest' : ℕ} → c'.id ≡ c.id
    → command_digest x c ≡ ok digest
    → command_digest x c' ≡ ok digest'
    → digest ≢ digest'
    → (later : ClockReading) (t' : WorldTransaction) (evaluated' : ℕ)
    → commit x later now c' t' evaluated' ≡ err (world (command_id_conflict c.id))
unfolding commit
commit_conflict x clock db c t evaluated {db'} {receipt} v done {now} reach c' {digest} {digest'}
      same hashed hashed' differs later t' evaluated' =
    let v' = step-IsValid x v (commits clock c t evaluated receipt done) in
    let (first, known, found) =
      committed-found x clock db c t evaluated db' receipt v.history done in
    let still = Reach-receipt x v' reach c.id first (repeated receipt) found in
    let e : first ≡ digest = cc in
    let refused =
      found-conflict now c.id first digest' (repeated receipt) still (λ k. differs (sym e ∙ k)) in
    rw (hashed', same, refused) refl
