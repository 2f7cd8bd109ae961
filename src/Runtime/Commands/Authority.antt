-- ===== src/Runtime/Commands/Authority.antt =====
-- `reject_privileged_authority_output` of crates/world-runtime/src/runtime.rs: a System without the privilege
-- cannot widen what a principal controls.
use rintawa.Prelude.{
  ℕ, suc, ◌+◌, ◌≡◌, ◌∙◌, refl, sym, ap, subst, inl, inr, true, false, List, [], ◌∷◌, ◌++◌, any,
  Option, none, some, Option-cases, ok, err, >>=-eq-ok, Result-cases, map_err, get, arith,
}
use rintawa.World.Ids.{PrincipalId, EntityId, SchemaKey, SchemaKey-discrete}
use rintawa.World.State.{
  WorldMutation, create_entity, delete_entity, create_relation, delete_relation, set_facet,
  remove_facet, grant_control, revoke_control,
}
use rintawa.World.Command.{WorldCommand}
use rintawa.World.Transaction.{WorldTransaction, CommitReceipt}
use rintawa.Storage.Errors.{StorageResult}
use rintawa.Storage.External.{External, ClockReading}
use rintawa.Storage.Tables.{Db}
use rintawa.Storage.Query.{principal_can_control}
use rintawa.Storage.Mutation.Control.{
  Narrows, Narrows-trans, same_grants, grants_control, apply_mutation-Narrows,
}
use rintawa.Storage.Commit.{write_mutation, write_all, committed_receipt, commit}
use rintawa.Storage.Commit.Steps.{Written, commit-cases}
use rintawa.Storage.Commit.Writes.{write_mutation-steps, insert_commit-row}
use rintawa.Storage.Commit.Integrity.{events_written, jobs_written}
use rintawa.Runtime.Errors.{WorldRuntimeError, WorldRuntimeResult}
use rintawa.Runtime.Systems.{RegisteredSystem, Systems, WorldSystemPrivileges, snapshot_for_command}
use rintawa.Runtime.Commands.{
  is_authority_mutation, reject_privileged_authority_output, system_output, evaluate_command,
  commit_output, process_found, process_command,
}

authority_grants : (m : WorldMutation) → is_authority_mutation m ≡ false → grants_control m ≡ false
unfolding is_authority_mutation
authority_grants (create_entity e) h = refl
authority_grants (delete_entity id) h = refl
authority_grants (create_relation r) h = refl
authority_grants (delete_relation id) h = refl
authority_grants (set_facet f) h = refl
authority_grants (remove_facet target schema) h = refl
authority_grants (grant_control g) h = h
authority_grants (revoke_control id) h = refl

mutations-Narrow :
    (x : External) (position i : ℕ) (mutations : List WorldMutation) (db db' : Db)
    → any is_authority_mutation mutations ≡ false
    → write_all (write_mutation x position) i mutations db ≡ ok db'
    → Narrows db db'
unfolding write_all any
mutations-Narrow x position i [] db db' none_ h = same_grants db db' (ground arith) (ground arith)
mutations-Narrow x position i (m ∷ rest) db db' none_ h =
    let (mid, first, more) =
      >>=-eq-ok (write_mutation x position i db m)
        (λ mid. write_all (write_mutation x position) (suc i) rest mid) h in
    let (r, at, index, applied) = write_mutation-steps x position i db m mid first in
    let logged = record db { mutations = db.mutations ++ r ∷ [] } in
    Narrows-trans db mid db'
      (Narrows-trans db logged mid (same_grants db logged refl refl)
        (apply_mutation-Narrows x position logged m (authority_grants m (ground arith)) applied))
      (mutations-Narrow x position (suc i) rest mid db' (ground arith) more)

Written-Narrows :
    (x : External) (clock : ClockReading) (c : WorldCommand) (t : WorldTransaction)
    (digest current : ℕ) (db db' : Db)
    → Written x clock c t digest current db db'
    → any is_authority_mutation t.mutations ≡ false
    → Narrows db db'
Written-Narrows x clock c t digest current db db' w none_ =
    let p = current + 1 in
    let (row, e1, at, id, hash, r1, r2) =
      insert_commit-row x clock c digest p db w.rows.with_commit w.rows.commit_written in
    let events =
      events_written x p 0 t.events w.rows.with_mutations w.rows.with_events
        w.rows.events_written in
    let jobs = jobs_written x p 0 t.effects w.rows.with_events w.with_rows w.rows.jobs_written in
    let later : Narrows w.rows.with_mutations db' =
      same_grants w.rows.with_mutations db'
        (ap (λ (d : Db). d.grants) w.advanced ∙ jobs.grants ∙ events.grants)
        (ap (λ (d : Db). d.grant_schemas) w.advanced ∙ jobs.grant_schemas ∙ events.grant_schemas) in
    let first : Narrows db w.rows.with_commit =
      same_grants db w.rows.with_commit (ap (λ (d : Db). d.grants) e1)
        (ap (λ (d : Db). d.grant_schemas) e1) in
    Narrows-trans db w.rows.with_commit db' first (
      Narrows-trans w.rows.with_commit w.rows.with_mutations db'
        (mutations-Narrow x p 0 t.mutations w.rows.with_commit w.rows.with_mutations none_
          w.rows.mutations_written)
        later)

commit-Narrows :
    (x : External) (clock : ClockReading) (db : Db) (c : WorldCommand) (t : WorldTransaction)
    (evaluated : ℕ) (db' : Db) (receipt : CommitReceipt)
    → any is_authority_mutation t.mutations ≡ false
    → commit x clock db c t evaluated ≡ ok (db', receipt)
    → Narrows db db'
commit-Narrows x clock db c t evaluated db' receipt none_ done =
    elim (commit-cases x clock db c t evaluated db' receipt done) [
      | inl n ↦ Written-Narrows x clock c t n.digest n.current db db' n.written none_
      | inr r ↦ subst (Narrows db) (sym r.unchanged) (λ p a s position h. h)
    ]

-- The output of an ordinary System that passed the check.
reject_sound :
    (schema : SchemaKey) (t : WorldTransaction) (privileges : WorldSystemPrivileges)
    → privileges.can_mutate_authority ≡ false
    → reject_privileged_authority_output schema t privileges ≡ ok tt
    → any is_authority_mutation t.mutations ≡ false
unfolding reject_privileged_authority_output
reject_sound schema t privileges e h = ground arith

-- No System of the command's schema that may mutate authority.
abbrev pub IsOrdinary : Option RegisteredSystem → Type 0
IsOrdinary none = Unit
IsOrdinary (some s) = s.privileges.can_mutate_authority ≡ false

evaluate_command-ordinary :
    (x : External) (systems : Systems) (db : Db) (c : WorldCommand) (t : WorldTransaction)
    (evaluated : ℕ)
    → IsOrdinary (get SchemaKey-discrete c.schema systems)
    → evaluate_command x systems db c ≡ ok (t, evaluated)
    → any is_authority_mutation t.mutations ≡ false
unfolding evaluate_command
evaluate_command-ordinary x systems db c t evaluated o h =
    elim (Result-cases (map_err WorldRuntimeError.storage (snapshot_for_command x db c))) [
      | inl (snapshot, taken) ↦ elim (Option-cases (get SchemaKey-discrete c.schema systems)) [
        | inl missing ↦ absurd (ground arith)
        | inr (s, registered) ↦
            elim (Result-cases (system_output c.schema (s.system.evaluate snapshot c))) [
              | inl (output, returned) ↦
                  let same : output ≡ t = ground arith in
                  let checked : reject_privileged_authority_output c.schema output s.privileges
                      ≡ ok tt =
                    ground arith in
                  rw⁻¹ same (reject_sound c.schema output s.privileges (rw registered at o) checked)
              | inr (e, failed) ↦ absurd (ground arith)
            ]
      ]
      | inr (e, failed) ↦ absurd (ground arith)
    ]

committed-Narrows :
    (x : External) (clock : ClockReading) (db : Db) (c : WorldCommand)
    (output : WorldRuntimeResult (WorldTransaction × ℕ))
    → ((t : WorldTransaction) (evaluated : ℕ)
        → output ≡ ok (t, evaluated)
        → any is_authority_mutation t.mutations ≡ false)
    → Narrows db (commit_output x clock db c output).0
committed-Narrows x clock db c (err e) n = λ p a s position h. h
committed-Narrows x clock db c (ok (t, evaluated)) n =
    elim (Result-cases (commit x clock db c t evaluated)) [
      | inl ((db', receipt), done) ↦
          rw done (commit-Narrows x clock db c t evaluated db' receipt (n t evaluated refl) done)
      | inr (e, failed) ↦ rw failed (λ p a s position h. h)
    ]

found-Narrows :
    (x : External) (clock : ClockReading) (systems : Systems) (db : Db) (c : WorldCommand)
    → IsOrdinary (get SchemaKey-discrete c.schema systems)
    → (found : StorageResult (Option CommitReceipt))
    → Narrows db (process_found x clock systems db c found).0
found-Narrows x clock systems db c o (ok (some receipt)) = λ p a s position h. h
found-Narrows x clock systems db c o (ok none) =
    committed-Narrows x clock db c (evaluate_command x systems db c)
      (λ t evaluated h. evaluate_command-ordinary x systems db c t evaluated o h)
found-Narrows x clock systems db c o (err e) = λ p a s position h. h

-- A System that is not registered as an authority manager cannot widen control: whatever transaction it
-- returns, after the processing of its command no principal controls an entity, for a command schema and at
-- a position, that it did not control before.
pub process_command-Narrows :
    (x : External) (clock : ClockReading) (systems : Systems) (db : Db) (c : WorldCommand)
    → IsOrdinary (get SchemaKey-discrete c.schema systems)
    → (p : PrincipalId) (a : EntityId) (s : SchemaKey) (position : ℕ)
    → principal_can_control (process_command x clock systems db c).0 p a s position ≡ ok true
    → principal_can_control db p a s position ≡ ok true
unfolding process_command
process_command-Narrows x clock systems db c o =
    found-Narrows x clock systems db c o (committed_receipt x db c)
