-- ===== src/Runtime/Effect/FollowUp.antt =====
-- What `execute` of crates/world-runtime/src/effect.rs accepts, and a follow-up command in the runtime.
use Prim.Native.String.{len}
use rintawa.Prelude.{
  ℕ, ◌≤◌, ◌≡◌, ◌≢◌, ◌↔◌, ◌∙◌, refl, sym, ap, subst, inl, inr, true, List, find, Option, none, some,
  Option-cases, ok, err, ◌>>=◌, ◌>>◌, >>=-eq-ok, Result-cases, ok_or, map_err, holds, holds_iff,
  ◌==◌, arith,
}
use rintawa.World.Ids.{SchemaKey-discrete}
use rintawa.World.Command.{CausationRef, CausationRef-discrete, WorldCommand}
use rintawa.World.Transaction.{StoredEffectJob, CommitReceipt}
use rintawa.Storage.Errors.{StorageResult}
use rintawa.Storage.External.{External, ClockReading}
use rintawa.Storage.Tables.{Db, CommitRow}
use rintawa.Storage.Digest.{command_digest}
use rintawa.Storage.Codec.{position_from_sql}
use rintawa.Storage.Commit.{
  event_ids_for_position, effect_ids_for_position, receipt_of, load_existing_receipt,
  committed_receipt,
}
use rintawa.Storage.Reach.{Reach, IsValid}
use rintawa.Storage.Outbox.{ClaimedEffectJob}
use rintawa.Storage.Commit.Retry.{repeated}
use rintawa.Runtime.Systems.{Systems}
use rintawa.Runtime.Commands.{WorldCommandOutcome, process_found, process_command}
use rintawa.Runtime.Commands.Once.{process_command-stored}
use rintawa.Runtime.Effect.{
  max_world_effect_diagnostic_bytes, effect_completion_command_id, new_request,
  WorldEffectServiceResponse, complete, retry, cancel, invalid_response, transport, EffectCodec,
  ServiceWorldEffectHandler, is_caused_by, validate_response, execute,
}

-- A response that is tied to the job: a bounded diagnostic, or a follow-up with the identifier of the job, the
-- principal and the correlation of the command that the job comes from, and the job as its cause.
abbrev pub IsTied : StoredEffectJob → WorldEffectServiceResponse → Type 0
IsTied job (retry reason) = len reason ≤ max_world_effect_diagnostic_bytes
IsTied job (cancel reason) = len reason ≤ max_world_effect_diagnostic_bytes
IsTied job (complete none) = Unit
IsTied job (complete (some c)) =
    (c.id ≡ job.id)
    × (c.principal ≡ job.provenance.principal)
    × (c.correlation_id ≡ job.provenance.correlation_id)
    × (c.causation ≡ some (CausationRef.effect job.id))

caused_iff :
    (causation : Option CausationRef) (cause : CausationRef)
    → (is_caused_by causation cause ≡ true) ↔ (causation ≡ some cause)
caused_iff none cause = (λ h. absurd (ground arith), λ h. absurd (cc))
caused_iff (some causation) cause =
    let known = holds_iff (CausationRef-discrete causation cause) in
    (λ h. ap some (known.0 h), λ h. known.1 (cc))

-- A response is accepted exactly when it is tied to the claimed job.
pub validate_response_iff :
    (job : StoredEffectJob) (response : WorldEffectServiceResponse)
    → (validate_response job response ≡ ok tt) ↔ IsTied job response
unfolding validate_response effect_completion_command_id
validate_response_iff job (retry reason) = (λ h. ground arith, λ h. ground arith)
validate_response_iff job (cancel reason) = (λ h. ground arith, λ h. ground arith)
validate_response_iff job (complete none) = (λ h. tt, λ h. refl)
validate_response_iff job (complete (some c)) =
    let caused = caused_iff c.causation (CausationRef.effect job.id) in
    (
      λ h. (ground arith, ground arith, ground arith, caused.0 (ground arith)),
      λ h. let e = caused.1 h.3 in ground arith,
    )

-- What a handler returns is tied to the claim that it was called with: the claim is of the handler's world and
-- schema, and the response is one that `validate_response` accepts, whatever the extension answers.
execute-IsTied :
    (codec : EffectCodec) (handler : ServiceWorldEffectHandler) (claim : ClaimedEffectJob)
    (response : WorldEffectServiceResponse)
    → execute codec handler claim ≡ ok response
    → (claim.job.world_id ≡ handler.world_id)
      × (claim.job.schema ≡ handler.effect_schema)
      × IsTied claim.job response
unfolding execute
execute-IsTied codec handler claim response h =
    let check = λ (r : WorldEffectServiceResponse). validate_response claim.job r >> ok r in
    let decode =
      λ (bytes : List ℕ). ok_or (codec.response_from_slice bytes) invalid_response >>= check in
    let call = λ (request : List ℕ).
      map_err transport (handler.client handler.contract request) >>= decode in
    let same_world : (claim.job.world_id == handler.world_id) ≡ true = ground arith in
    let same_schema : holds (SchemaKey-discrete claim.job.schema handler.effect_schema) ≡ true =
      ground arith in
    let sent : (ok_or (codec.request_to_vec (new_request claim)) invalid_response >>= call)
        ≡ ok response =
      ground arith in
    let (request, e1, h1) =
      >>=-eq-ok (ok_or (codec.request_to_vec (new_request claim)) invalid_response) call sent in
    let (bytes, e2, h2) =
      >>=-eq-ok (map_err transport (handler.client handler.contract request)) decode h1 in
    let (r, e3, h3) =
      >>=-eq-ok (ok_or (codec.response_from_slice bytes) invalid_response) check h2 in
    let valid : validate_response claim.job r ≡ ok tt = ground arith in
    let same : r ≡ response = ground arith in
    (
      ground arith,
      (holds_iff (SchemaKey-discrete claim.job.schema handler.effect_schema)).0 same_schema,
      subst (IsTied claim.job) same ((validate_response_iff claim.job r).0 valid),
    )

row_answers :
    (db : Db) (id digest : ℕ) (row : CommitRow) → receipt_of db id digest (some row) ≢ ok none
unfolding receipt_of position_from_sql
row_answers db id digest row h =
    elim (Result-cases (event_ids_for_position db row.commit_position)) [
      | inl (events, e) ↦ elim (Result-cases (effect_ids_for_position db row.commit_position)) [
        | inl (effects, f) ↦ ground arith
        | inr (failed, f) ↦ ground arith
      ]
      | inr (failed, e) ↦ ground arith
    ]

-- A lookup for a stored command finds its receipt or a conflict, never nothing.
found_or_conflict :
    (x : External) (now : Db) (c c' : WorldCommand) (digest : ℕ) (r : CommitReceipt)
    → c'.id ≡ c.id
    → load_existing_receipt now c.id digest ≡ ok (some r)
    → committed_receipt x now c' ≢ ok none
unfolding committed_receipt load_existing_receipt receipt_of
found_or_conflict x now c c' digest r e stored nothing =
    elim (Option-cases (find (λ q. q.command_id == c.id) now.commits)) [
      | inl missing ↦ ground arith
      | inr (row, found) ↦
          let (digest', hashed, h) =
            >>=-eq-ok (command_digest x c') (λ d. load_existing_receipt now c'.id d) nothing in
          let here : find (λ q. q.command_id == c'.id) now.commits ≡ some row = rw e found in
          row_answers now c'.id digest' row (rw here at h)
    ]

unchanged_found :
    (x : External) (clock : ClockReading) (systems : Systems) (db : Db) (c : WorldCommand)
    (found : StorageResult (Option CommitReceipt))
    → found ≢ ok none
    → (process_found x clock systems db c found).0 ≡ db
unchanged_found x clock systems db c (ok (some receipt)) n = refl
unchanged_found x clock systems db c (ok none) n = absurd (n refl)
unchanged_found x clock systems db c (err e) n = refl

-- An effect job changes the world at most once: two follow-up commands that a handler returned for the same
-- job, in two attempts and with any payloads, have one identifier, so that after the first has an outcome the
-- processing of the second changes nothing, after any commits and outbox operations in between.
pub follow_up_once :
    (x : External) (codec : EffectCodec) (handler : ServiceWorldEffectHandler)
    (first second : ClaimedEffectJob) (c c' : WorldCommand)
    → first.job.id ≡ second.job.id
    → execute codec handler first ≡ ok (complete (some c))
    → execute codec handler second ≡ ok (complete (some c'))
    → (clock : ClockReading) (systems : Systems) (db : Db) {db' : Db}
      {outcome : WorldCommandOutcome}
    → IsValid db
    → process_command x clock systems db c ≡ (db', ok outcome)
    → {now : Db} → Reach x db' now
    → (later : ClockReading) (systems' : Systems)
    → (process_command x later systems' now c').0 ≡ now
unfolding process_command
follow_up_once x codec handler first second c c' same e e' clock systems db {db'} {outcome} v done
      {now} reach later systems' =
    let t = execute-IsTied codec handler first (complete (some c)) e in
    let t' = execute-IsTied codec handler second (complete (some c')) e' in
    let ids : c'.id ≡ c.id = t'.2.0 ∙ sym same ∙ sym t.2.0 in
    let (digest, stored) =
      process_command-stored x clock systems db c {db' = db'} {outcome = outcome} v done {now = now}
        reach in
    unchanged_found x later systems' now c' (committed_receipt x now c')
      (found_or_conflict x now c c' digest (repeated outcome.receipt) ids stored)
