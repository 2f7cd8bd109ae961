-- ===== src/Storage/Commit/Guards.antt =====
-- What a commit of crates/storage/src/sqlite/commit.rs has checked before it writes, and what it keeps.
use rintawa.Prelude.{
  ℕ, ◌+◌, ◌≤◌, ◌≡◌, ◌∙◌, refl, sym, ap, subst, inl, inr, true, List, [], ◌∷◌, ◌++◌, append-nil, map,
  Option, none, some, ok, err, Result-cases, find, map_err, arith, ◌==◌,
}
use rintawa.World.Errors.{WorldResult, ActorRef}
use rintawa.World.Command.{WorldCommand, validate_schema}
use rintawa.World.Schema.{SchemaRegistry}
use rintawa.World.Transaction.{WorldTransaction, CommitReceipt, committed, validate_schemas}
use rintawa.Storage.Errors.{world, index_out_of_range}
use rintawa.Storage.External.{External, ClockReading}
use rintawa.Storage.Digest.{command_digest}
use rintawa.Storage.Codec.{i64_max, position_to_sql, position_from_sql}
use rintawa.Storage.Tables.{Db, CommitRow, MutationRow, EventRow, JobRow}
use rintawa.Storage.Query.{principal_can_control}
use rintawa.Storage.Schemas.{load_schema_registry}
use rintawa.Storage.Commit.{
  current_position, check_expected, authorize_actor, authorize_command, reject_reused_ids,
  next_position, write_commit, admit, load_existing_receipt, commit_found, commit_new, commit,
}
use rintawa.Storage.Commit.Steps.{commit-cases}
use rintawa.Storage.Commit.Retry.{existing_disposition}
use rintawa.Storage.Commit.History.{IsNew-Appends, admit-position}

-- The principal of a command acts as itself, or a grant lets it control the entity.
abbrev pub IsAuthorized : Db → WorldCommand → ℕ → ActorRef → Type 0
IsAuthorized db c position (ActorRef.principal id) = id ≡ c.principal
IsAuthorized db c position (ActorRef.entity id) =
    principal_can_control db c.principal id c.schema position ≡ ok true

abbrev pub IsExpected : Option ℕ → ℕ → Type 0
IsExpected none position = Unit
IsExpected (some expected) position = expected ≡ position

-- What `admit` has established.
pub record Admitted (x : External) (db : Db) (c : WorldCommand) (t : WorldTransaction)
    (evaluated : ℕ) : Type 0 where
  pub registry : SchemaRegistry
  pub loaded : load_schema_registry x db ≡ ok registry
  pub command_valid : validate_schema c registry ≡ ok tt
  pub transaction_valid : validate_schemas t registry ≡ ok tt
  pub ids_unused : reject_reused_ids db t ≡ ok tt
  pub evaluated_here : evaluated ≡ db.commit_position
  pub expected_here : IsExpected c.expected_position db.commit_position
  pub authorized : IsAuthorized db c db.commit_position c.actor

authorize_actor_sound :
    (db : Db) (c : WorldCommand) (position : ℕ) (actor : ActorRef)
    → authorize_actor db c position actor ≡ ok tt
    → IsAuthorized db c position actor
unfolding authorize_actor
authorize_actor_sound db c position (ActorRef.principal id) h = ground arith
authorize_actor_sound db c position (ActorRef.entity id) h = ground arith

check_expected_sound :
    (expected : Option ℕ) (position : ℕ)
    → check_expected expected position ≡ ok tt
    → IsExpected expected position
unfolding check_expected
check_expected_sound none position h = tt
check_expected_sound (some expected) position h = ground arith

map_err-eq-ok : {A : Type 0} (m : WorldResult A) {a : A} → map_err world m ≡ ok a → m ≡ ok a
map_err-eq-ok m h = ground arith

-- The checks that come after the registry is loaded.
admit_from-Admitted :
    (x : External) (db : Db) (c : WorldCommand) (t : WorldTransaction) (evaluated current : ℕ)
    (registry : SchemaRegistry)
    → load_schema_registry x db ≡ ok registry
    → admit x db c t evaluated ≡ ok current
    → Admitted x db c t evaluated
unfolding admit current_position position_from_sql authorize_command
admit_from-Admitted x db c t evaluated current registry loaded h = record {
  registry = registry;
  loaded = loaded;
  command_valid = map_err-eq-ok (validate_schema c registry) (ground arith);
  transaction_valid = map_err-eq-ok (validate_schemas t registry) (ground arith);
  ids_unused = ground arith;
  evaluated_here = ground arith;
  expected_here = check_expected_sound c.expected_position db.commit_position (ground arith);
  authorized = authorize_actor_sound db c db.commit_position c.actor (ground arith);
}

admit-Admitted :
    (x : External) (db : Db) (c : WorldCommand) (t : WorldTransaction) (evaluated current : ℕ)
    → admit x db c t evaluated ≡ ok current
    → Admitted x db c t evaluated
unfolding admit
admit-Admitted x db c t evaluated current h = elim (Result-cases (load_schema_registry x db)) [
  | inl (registry, loaded) ↦ admit_from-Admitted x db c t evaluated current registry loaded h
  | inr (e, failed) ↦ absurd (ground arith)
]

-- What a receipt of a new commit tells.
pub record Committed (x : External) (db : Db) (c : WorldCommand) (t : WorldTransaction)
    (evaluated : ℕ) (db' : Db) (receipt : CommitReceipt) : Type 0 where
  pub admitted : Admitted x db c t evaluated
  pub next : receipt.position ≡ db.commit_position + 1
  pub reached : db'.commit_position ≡ receipt.position
  pub bounded : receipt.position ≤ i64_max
  pub command : receipt.command_id ≡ c.id
  pub events : receipt.event_ids ≡ map (λ e. e.id) t.events
  pub effects : receipt.effect_job_ids ≡ map (λ j. j.id) t.effects

-- A receipt with the disposition `committed` comes only from a commit that was admitted: the command and
-- the transaction are valid for the stored schemas, the identifiers are new, the evaluated and the expected
-- position are the world's, and the actor is authorized; and it tells the next position, which the world now
-- has and which fits the column, and the identifiers of the events and effect jobs in their order.
pub commit-Committed :
    (x : External) (clock : ClockReading) (db : Db) (c : WorldCommand) (t : WorldTransaction)
    (evaluated : ℕ) (db' : Db) (receipt : CommitReceipt)
    → commit x clock db c t evaluated ≡ ok (db', receipt)
    → receipt.disposition ≡ committed
    → Committed x db c t evaluated db' receipt
unfolding load_existing_receipt
commit-Committed x clock db c t evaluated db' receipt done new =
    elim (commit-cases x clock db c t evaluated db' receipt done) [
      | inl n ↦
          let at = (admit-position x db c t evaluated n.current n.admitted).0 in
          let a = IsNew-Appends x clock db c t evaluated db' receipt n in
          record {
            admitted = admit-Admitted x db c t evaluated n.current n.admitted;
            next = ap (λ r. r.position) n.receipt_eq ∙ ap (λ p. p + 1) at;
            reached = a.position_eq ∙ sym (ap (λ r. r.position) n.receipt_eq ∙ ap (λ p. p + 1) at);
            bounded = rw (ap (λ r. r.position) n.receipt_eq, at) a.room;
            command = ap (λ r. r.command_id) n.receipt_eq;
            events = ap (λ r. r.event_ids) n.receipt_eq;
            effects = ap (λ r. r.effect_job_ids) n.receipt_eq;
          }
      | inr r ↦ absurd (
          let same =
            existing_disposition db c.id r.digest (find (λ q. q.command_id == c.id) db.commits)
              receipt r.found in
          ground arith)
    ]

-- A log that only grows: the old rows stay, in their places, before the new ones.
pub record Extends (db db' : Db) : Type 0 where
  pub commits : List CommitRow
  pub mutations : List MutationRow
  pub events : List EventRow
  pub jobs : List JobRow
  pub commits_eq : db'.commits ≡ db.commits ++ commits
  pub mutations_eq : db'.mutations ≡ db.mutations ++ mutations
  pub events_eq : db'.events ≡ db.events ++ events
  pub jobs_eq : db'.jobs ≡ db.jobs ++ jobs
  pub world_id : db'.world_id ≡ db.world_id
  pub schemas : db'.schemas ≡ db.schemas
  pub position : db.commit_position ≤ db'.commit_position

-- A commit that succeeds only appends to the log and to the outbox: no stored commit, mutation, event or
-- effect job is changed, removed or reordered; the world and its schemas stay, and its position does not go
-- back.
pub commit-Extends :
    (x : External) (clock : ClockReading) (db : Db) (c : WorldCommand) (t : WorldTransaction)
    (evaluated : ℕ) (db' : Db) (receipt : CommitReceipt)
    → commit x clock db c t evaluated ≡ ok (db', receipt)
    → Extends db db'
commit-Extends x clock db c t evaluated db' receipt done =
    elim (commit-cases x clock db c t evaluated db' receipt done) [
      | inl n ↦
          let a = IsNew-Appends x clock db c t evaluated db' receipt n in
          record {
            commits = a.commit ∷ [];
            mutations = a.mutations;
            events = a.events;
            jobs = a.jobs;
            commits_eq = a.commits_eq;
            mutations_eq = a.mutations_eq;
            events_eq = a.events_eq;
            jobs_eq = a.jobs_eq;
            world_id = a.world_id;
            schemas = a.schemas_eq;
            position = let e = a.position_eq in omega arith;
          }
      | inr r ↦ subst (Extends db) (sym r.unchanged) (record {
        commits = [];
        mutations = [];
        events = [];
        jobs = [];
        commits_eq = sym (append-nil db.commits);
        mutations_eq = sym (append-nil db.mutations);
        events_eq = sym (append-nil db.events);
        jobs_eq = sym (append-nil db.jobs);
        world_id = refl;
        schemas = refl;
        position = omega arith;
      })
    ]

-- At the largest position that the column holds, a command that is admitted is refused, and the error is the
-- one of the column, `index_out_of_range`, and not `commit_position_overflow`.
pub commit-last_position :
    (x : External) (clock : ClockReading) (db : Db) (c : WorldCommand) (t : WorldTransaction)
    (evaluated digest current : ℕ)
    → command_digest x c ≡ ok digest
    → load_existing_receipt db c.id digest ≡ ok none
    → admit x db c t evaluated ≡ ok current
    → db.commit_position ≡ i64_max
    → commit x clock db c t evaluated ≡ err (index_out_of_range "commit_position")
unfolding commit commit_found commit_new write_commit next_position position_to_sql
commit-last_position x clock db c t evaluated digest current hashed fresh admitted last =
    let at : current ≡ i64_max = (admit-position x db c t evaluated current admitted).0 ∙ last in
    rw (hashed, fresh, admitted, at) refl
