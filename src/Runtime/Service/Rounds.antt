-- ===== src/Runtime/Service/Rounds.antt =====
-- `ServiceWorldSystem::evaluate` of crates/world-runtime/src/service.rs: what a service can make of its rounds.
use rintawa.Prelude.{
  ℕ, zero, suc, ◌+◌, ◌≡◌, ◌∙◌, refl, ap, subst, false, not, List, [], ◌∷◌, ◌++◌, length, any, ok,
  >>=-eq-ok, guard->>-eq-ok, leb, ◌≤◌, ◌<◌, holds, ◌==◌, arith,
}
use rintawa.World.Ids.{SchemaKey, SchemaKey-discrete}
use rintawa.World.Command.{WorldCommand}
use rintawa.World.Transaction.{WorldTransaction}
use rintawa.Storage.External.{External}
use rintawa.Runtime.Systems.{WorldSnapshot, WorldSystemPrivileges}
use rintawa.Runtime.Effect.{ContractKey}
use rintawa.Runtime.Commands.{is_authority_mutation, reject_privileged_authority_output}
use rintawa.Runtime.Service.{
  WorldSystemMutation, create_entity, delete_entity, create_relation, delete_relation, set_facet,
  remove_facet, WorldSystemReadRequest, WorldSystemReadResult, WorldSystemServiceResponse,
  transaction, reads, refused, broken, Service, Draws, decode_mutation, decode_mutations,
  decode_transaction, validate_diagnostic, resolve_read, Reads, no_reads, has_seen, resolve_reads,
  max_world_system_service_reads, max_world_system_service_rounds, accept_reads, call_service,
  Round, finished, continues, answer, next_round, round, rounds, ServiceWorldSystem, evaluate,
}

decode_mutation-ordinary :
    (m : WorldSystemMutation) → is_authority_mutation (decode_mutation m) ≡ false
unfolding decode_mutation is_authority_mutation
decode_mutation-ordinary (create_entity id schema) = refl
decode_mutation-ordinary (delete_entity id) = refl
decode_mutation-ordinary (create_relation id schema from to) = refl
decode_mutation-ordinary (delete_relation id) = refl
decode_mutation-ordinary (set_facet target schema payload) = refl
decode_mutation-ordinary (remove_facet target schema) = refl

decoded-ordinary :
    (ms : List WorldSystemMutation) → any is_authority_mutation (decode_mutations ms) ≡ false
unfolding any decode_mutations
decoded-ordinary [] = refl
decoded-ordinary (m ∷ rest) =
    let first = decode_mutation-ordinary m in let others = decoded-ordinary rest in ground arith

unfoldable IsOrdinary : Round → Type 0
IsOrdinary (finished t) = any is_authority_mutation t.mutations ≡ false
IsOrdinary (continues r) = Unit

answer-IsOrdinary :
    (x : External) (draws : Draws) (snapshot : WorldSnapshot) (r : Reads)
    (response : WorldSystemServiceResponse) (result : Round)
    → answer x draws snapshot r response ≡ ok result
    → IsOrdinary result
unfolding answer decode_transaction IsOrdinary
answer-IsOrdinary x draws snapshot r (transaction t) result h =
    subst IsOrdinary {x = finished (decode_transaction draws t)} {y = result} (cc)
      (decoded-ordinary t.mutations)
answer-IsOrdinary x draws snapshot r (refused reason) result h =
    let (diagnostic, valid, e) = >>=-eq-ok (validate_diagnostic reason) _ h in absurd (cc)
answer-IsOrdinary x draws snapshot r (broken reason) result h =
    let (diagnostic, valid, e) = >>=-eq-ok (validate_diagnostic reason) _ h in absurd (cc)
answer-IsOrdinary x draws snapshot r (reads requests) result h =
    let (r', accepted, e) = >>=-eq-ok (accept_reads x snapshot r requests) _ h in
    subst IsOrdinary {x = continues r'} {y = result} (cc) tt

module _ (x : External) (s : Service) (contract : ContractKey) (draws : Draws)
    (snapshot : WorldSnapshot) (command : WorldCommand) where
  next_round-ordinary :
      (n : ℕ) (result : Round) (t : WorldTransaction)
      → ((r : Reads)
          → rounds x s contract draws snapshot command n r ≡ ok t
          → any is_authority_mutation t.mutations ≡ false)
      → IsOrdinary result
      → next_round (rounds x s contract draws snapshot command n) result ≡ ok t
      → any is_authority_mutation t.mutations ≡ false
  unfolding next_round IsOrdinary
  next_round-ordinary n (finished u) t later ordinary h =
      subst IsOrdinary {x = finished u} {y = finished t} (cc) ordinary
  next_round-ordinary n (continues r) t later ordinary h = later r h

  rounds-ordinary :
      (n : ℕ) (r : Reads) (t : WorldTransaction)
      → rounds x s contract draws snapshot command n r ≡ ok t
      → any is_authority_mutation t.mutations ≡ false
  unfolding rounds round
  rounds-ordinary zero r t h = absurd (cc)
  rounds-ordinary (suc n) r t h =
      let (result, one, more) =
        >>=-eq-ok (round x s contract draws snapshot command r)
          (next_round (rounds x s contract draws snapshot command n)) h in
      let (response, called, answered) =
        >>=-eq-ok (call_service s contract _) (answer x draws snapshot r) one in
      next_round-ordinary n result t (λ r. rounds-ordinary n r t)
        (answer-IsOrdinary x draws snapshot r response result answered) more

-- What a service-backed System evaluates to passes the runtime's check of authority mutations, whatever the
-- System's privileges and whatever the service answers in its rounds.
pub evaluate-passes :
    (x : External) (draws : Draws) (system : ServiceWorldSystem) (snapshot : WorldSnapshot)
    (command : WorldCommand) (schema : SchemaKey) (privileges : WorldSystemPrivileges)
    {t : WorldTransaction}
    → evaluate x draws system snapshot command ≡ ok t
    → reject_privileged_authority_output schema t privileges ≡ ok tt
unfolding evaluate reject_privileged_authority_output
evaluate-passes x draws system snapshot command schema privileges {t} h =
    let (here, rest) = guard->>-eq-ok (snapshot.database.world_id == system.world_id) _ _ h in
    let (mine, run) =
      guard->>-eq-ok (holds (SchemaKey-discrete command.schema system.command_schema)) _ _ rest in
    let ordinary =
      rounds-ordinary x system.service system.contract draws snapshot command
        max_world_system_service_rounds no_reads t run in
    ground arith

-- The reads that a System has after its rounds: each was asked for once, and its result is the snapshot's.
pub data IsResolved (x : External) (snapshot : WorldSnapshot) : Reads → Type 0 where
  none_yet : IsResolved x snapshot no_reads
  one_more :
      (r : Reads) (request : WorldSystemReadRequest) (result : WorldSystemReadResult)
      → IsResolved x snapshot r
      → has_seen r.seen request ≡ false
      → resolve_read x snapshot request ≡ ok result
      → IsResolved x snapshot
          (record { seen = request ∷ r.seen; results = r.results ++ result ∷ [] })

record Resolves (x : External) (snapshot : WorldSnapshot) (r : Reads) (n : ℕ) (r' : Reads)
    : Type 0 where
  resolved : IsResolved x snapshot r'
  longer : length r'.results ≡ length r.results + n

length-snoc :
    (xs : List WorldSystemReadResult) (y : WorldSystemReadResult)
    → length (xs ++ y ∷ []) ≡ length xs + 1
length-snoc [] y = refl
length-snoc (x ∷ xs) y = let rest = length-snoc xs y in grind arith

resolve_reads-Resolves :
    (x : External) (snapshot : WorldSnapshot) (r : Reads) (requests : List WorldSystemReadRequest)
    (r' : Reads)
    → IsResolved x snapshot r
    → resolve_reads x snapshot r requests ≡ ok r'
    → Resolves x snapshot r (length requests) r'
unfolding resolve_reads length
resolve_reads-Resolves x snapshot r [] r' p h = record {
  resolved = subst (IsResolved x snapshot) {x = r} {y = r'} (cc) p;
  longer = grind arith;
}
resolve_reads-Resolves x snapshot r (request ∷ rest) r' p h =
    let (new, more) = guard->>-eq-ok (not (has_seen r.seen request)) _ _ h in
    let (result, resolved, later) =
      >>=-eq-ok (resolve_read x snapshot request)
        (λ result.
          resolve_reads x snapshot
            (record { seen = request ∷ r.seen; results = r.results ++ result ∷ [] }) rest)
        more in
    let next = one_more r request result p (ground arith) resolved in
    let done =
      resolve_reads-Resolves x snapshot
        (record { seen = request ∷ r.seen; results = r.results ++ result ∷ [] }) rest r' next
        later in
    record {
      resolved = done.resolved;
      longer = done.longer ∙ ap (λ n. n + length rest) (length-snoc r.results result) ∙ grind arith;
    }

accept_reads-IsResolved :
    (x : External) (snapshot : WorldSnapshot) (r : Reads) (requests : List WorldSystemReadRequest)
    (r' : Reads)
    → IsResolved x snapshot r
    → accept_reads x snapshot r requests ≡ ok r'
    → IsResolved x snapshot r'
      × (length r.results < length r'.results)
      × (length r'.results ≤ max_world_system_service_reads)
unfolding accept_reads
accept_reads-IsResolved x snapshot r [] r' p h = absurd (cc)
accept_reads-IsResolved x snapshot r (request ∷ rest) r' p h =
    let (fits, run) =
      guard->>-eq-ok
        (leb (length r.results + length (request ∷ rest)) max_world_system_service_reads) _ _ h in
    let done = resolve_reads-Resolves x snapshot r (request ∷ rest) r' p run in
    let n = done.longer in
    let bound : length r.results + length (request ∷ rest) ≤ max_world_system_service_reads =
      ground arith in
    (done.resolved, grind arith, grind arith)

answer-accept_reads :
    (x : External) (draws : Draws) (snapshot : WorldSnapshot) (r : Reads)
    (response : WorldSystemServiceResponse) (r' : Reads)
    → answer x draws snapshot r response ≡ ok (continues r')
    → (requests : List WorldSystemReadRequest) × (accept_reads x snapshot r requests ≡ ok r')
unfolding answer
answer-accept_reads x draws snapshot r (transaction t) r' h = absurd (cc)
answer-accept_reads x draws snapshot r (refused reason) r' h =
    let (diagnostic, valid, e) = >>=-eq-ok (validate_diagnostic reason) _ h in absurd (cc)
answer-accept_reads x draws snapshot r (broken reason) r' h =
    let (diagnostic, valid, e) = >>=-eq-ok (validate_diagnostic reason) _ h in absurd (cc)
answer-accept_reads x draws snapshot r (reads requests) r' h =
    let (r2, accepted, e) = >>=-eq-ok (accept_reads x snapshot r requests) _ h in
    let same : r2 ≡ r' = cc in (requests, accepted ∙ ap ok same)

-- A round that asks for reads and is not refused adds at least one, so that no read is asked for twice, every
-- result is the one of the snapshot, and there are at most 256 of them.
pub round-reads :
    (x : External) (s : Service) (contract : ContractKey) (draws : Draws) (snapshot : WorldSnapshot)
    (command : WorldCommand) (r r' : Reads)
    → IsResolved x snapshot r
    → round x s contract draws snapshot command r ≡ ok (continues r')
    → IsResolved x snapshot r'
      × (length r.results < length r'.results)
      × (length r'.results ≤ max_world_system_service_reads)
unfolding round
round-reads x s contract draws snapshot command r r' p h =
    let (response, called, answered) =
      >>=-eq-ok (call_service s contract _) (answer x draws snapshot r) h in
    let (requests, accepted) = answer-accept_reads x draws snapshot r response r' answered in
    accept_reads-IsResolved x snapshot r requests r' p accepted
