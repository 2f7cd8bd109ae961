-- ===== src/Runtime/Service.antt =====
-- crates/world-runtime/src/service.rs: a System whose evaluation is a service of an extension. In each round
-- the provider gets the command and the reads so far, and it answers, or asks for more reads of the snapshot.
pub mod Rounds
use rintawa.Prelude.{
  ℕ, zero, suc, ◌+◌, String, Bool, true, false, not, ◌&&◌, ◌||◌, List, [], ◌∷◌, ◌++◌, map, length,
  any, Option, none, some, Result, ok, err, ◌>>=◌, ◌>>◌, guard, ok_or, map_err, ℕ_discrete, holds,
  leb, ltb, ◌==◌, if◌then◌else◌,
}
use Prim.Native.String.{len}
use rintawa.World.Ids.{
  WorldId, EntityId, RelationId, CommandId, WorldEventId, EffectJobId, PrincipalId, CorrelationId,
  UnixTimeMillis, SchemaKey, SchemaKey-discrete, Json,
}
use rintawa.World.Errors.{ActorRef}
use rintawa.World.State.{EntityRecord, RelationRecord, FacetTarget, FacetRecord, WorldMutation}
use rintawa.World.Command.{CausationRef, WorldCommand}
use rintawa.World.Transaction.{WorldEventDraft, EffectJobDraft, WorldTransaction}
use rintawa.Storage.Errors.{StorageResult}
use rintawa.Storage.External.{External}
use rintawa.Storage.Query.{load_entity, load_relation, load_facet}
use rintawa.Runtime.Errors.{WorldReadError, SystemError, read, rejected, failed}
use rintawa.Runtime.Systems.{WorldSnapshot}
use rintawa.Runtime.Effect.{ServiceCallError, ContractKey}

abbrev pub SystemResult : Type 0 → Type 0
SystemResult A = Result SystemError A

abbrev pub max_world_system_service_rounds : ℕ
max_world_system_service_rounds = 8

abbrev pub max_world_system_service_reads : ℕ
max_world_system_service_reads = 256

abbrev pub max_system_diagnostic_bytes : ℕ
max_system_diagnostic_bytes = 8192

-- crates/sdk/src/world_system.rs: what is sent and received. Its actors, causations and facet targets have
-- the constructors of the world's, and are these here.
pub data WorldSystemReadRequest : Type 0 where
  read_entity : EntityId → WorldSystemReadRequest
  read_relation : RelationId → WorldSystemReadRequest
  read_facet : FacetTarget → SchemaKey → WorldSystemReadRequest

unfoldable pub WorldSystemReadRequest-discrete : Discrete WorldSystemReadRequest
unfolding SchemaKey-discrete ℕ_discrete
WorldSystemReadRequest-discrete = hlevel (SchemaKey-discrete, ℕ_discrete)

pub data WorldSystemReadResult : Type 0 where
  entity_value : EntityId → Option EntityRecord → WorldSystemReadResult
  relation_value : RelationId → Option RelationRecord → WorldSystemReadResult
  facet_value : FacetTarget → SchemaKey → Option FacetRecord → WorldSystemReadResult

pub record WorldSystemServiceRequest : Type 0 where
  pub world_id : WorldId
  pub snapshot_position : ℕ
  pub command : WorldCommand
  pub reads : List WorldSystemReadResult

-- There is no mutation of authority among them.
pub data WorldSystemMutation : Type 0 where
  create_entity : EntityId → SchemaKey → WorldSystemMutation
  delete_entity : EntityId → WorldSystemMutation
  create_relation : RelationId → SchemaKey → EntityId → EntityId → WorldSystemMutation
  delete_relation : RelationId → WorldSystemMutation
  set_facet : FacetTarget → SchemaKey → Json → WorldSystemMutation
  remove_facet : FacetTarget → SchemaKey → WorldSystemMutation

-- An event or an effect proposal.
pub record WorldSystemProposal : Type 0 where
  pub schema : SchemaKey
  pub payload : Json

pub record WorldSystemTransaction : Type 0 where
  pub mutations : List WorldSystemMutation
  pub events : List WorldSystemProposal
  pub effects : List WorldSystemProposal

-- `Rejected` and `Failed` are `refused` and `broken`, apart from the errors that they become.
pub data WorldSystemServiceResponse : Type 0 where
  transaction : WorldSystemTransaction → WorldSystemServiceResponse
  reads : List WorldSystemReadRequest → WorldSystemServiceResponse
  refused : String → WorldSystemServiceResponse
  broken : String → WorldSystemServiceResponse

-- What the runtime uses of the service: `serde_json` for requests and responses, the transport, and the text
-- of its errors.
pub record Service : Type 0 where
  pub request_to_vec : WorldSystemServiceRequest → Option (List ℕ)
  pub response_from_slice : List ℕ → Option WorldSystemServiceResponse
  pub client : ContractKey → List ℕ → Result ServiceCallError (List ℕ)
  pub transport_message : ServiceCallError → String

-- `WorldEventId::new` and `EffectJobId::new` draw random identifiers: the n-th one drawn.
abbrev pub Draws : Type 0
Draws = ℕ → ℕ

unfoldable pub decode_mutation : WorldSystemMutation → WorldMutation
decode_mutation (create_entity id schema) =
    WorldMutation.create_entity (record { id = id; schema = schema })
decode_mutation (delete_entity id) = WorldMutation.delete_entity id
decode_mutation (create_relation id schema from to) =
    WorldMutation.create_relation (record { id = id; schema = schema; from = from; to = to })
decode_mutation (delete_relation id) = WorldMutation.delete_relation id
decode_mutation (set_facet target schema payload) =
    WorldMutation.set_facet (record { target = target; schema = schema; payload = payload })
decode_mutation (remove_facet target schema) = WorldMutation.remove_facet target schema

-- The loops of `decode_transaction`.
unfoldable pub decode_mutations : List WorldSystemMutation → List WorldMutation
decode_mutations [] = []
decode_mutations (m ∷ rest) = decode_mutation m ∷ decode_mutations rest

unfoldable pub decode_events : Draws → ℕ → List WorldSystemProposal → List WorldEventDraft
decode_events draws n [] = []
decode_events draws n (p ∷ rest) =
    record { id = draws n; schema = p.schema; payload = p.payload }
    ∷ decode_events draws (suc n) rest

unfoldable pub decode_effects : Draws → ℕ → List WorldSystemProposal → List EffectJobDraft
decode_effects draws n [] = []
decode_effects draws n (p ∷ rest) =
    record { id = draws n; schema = p.schema; payload = p.payload }
    ∷ decode_effects draws (suc n) rest

unfoldable pub decode_transaction : Draws → WorldSystemTransaction → WorldTransaction
decode_transaction draws t = record {
  mutations = decode_mutations t.mutations;
  events = decode_events draws 0 t.events;
  effects = decode_effects draws (length t.events) t.effects;
}

unfoldable pub validate_diagnostic : String → SystemResult String
validate_diagnostic reason = do
  guard (leb (len reason) max_system_diagnostic_bytes)
      (failed "System service returned an oversized diagnostic")
  ok reason

unfoldable pub resolve_read :
    External → WorldSnapshot → WorldSystemReadRequest → SystemResult WorldSystemReadResult
resolve_read x snapshot (read_entity id) = ok (entity_value id (load_entity snapshot.database id))
resolve_read x snapshot (read_relation id) =
    ok (relation_value id (load_relation snapshot.database id))
resolve_read x snapshot (read_facet target schema) = do
  value ←
      map_err (λ e. read (WorldReadError.storage e)) (load_facet x snapshot.database target schema)
  ok (facet_value target schema value)

-- The reads so far: the set of the requests, latest first, and the results in order.
pub record Reads : Type 0 where
  pub seen : List WorldSystemReadRequest
  pub results : List WorldSystemReadResult

abbrev pub no_reads : Reads
no_reads = record { seen = []; results = [] }

unfoldable pub has_seen : List WorldSystemReadRequest → WorldSystemReadRequest → Bool
has_seen seen request = any (λ r. holds (WorldSystemReadRequest-discrete r request)) seen

-- The loop over the requests of one round.
unfoldable pub resolve_reads :
    External → WorldSnapshot → Reads → List WorldSystemReadRequest → SystemResult Reads
resolve_reads x snapshot r [] = ok r
resolve_reads x snapshot r (request ∷ rest) = do
  guard (not (has_seen r.seen request)) (failed "System service repeated a resolved snapshot read")
  result ← resolve_read x snapshot request
  resolve_reads x snapshot (record { seen = request ∷ r.seen; results = r.results ++ result ∷ [] })
      rest

abbrev pub is_empty_round : List WorldSystemReadRequest → Bool
is_empty_round [] = true
is_empty_round (request ∷ rest) = false

-- The branch of a round for read requests. `saturating_add` does not saturate below the limit.
unfoldable pub accept_reads :
    External → WorldSnapshot → Reads → List WorldSystemReadRequest → SystemResult Reads
accept_reads x snapshot r requests = do
  guard (not (is_empty_round requests)) (failed "System service requested an empty read round")
  guard (leb (length r.results + length requests) max_world_system_service_reads)
      (failed "System service exceeded the snapshot read limit")
  resolve_reads x snapshot r requests

-- The call of one round.
unfoldable pub call_service :
    Service → ContractKey → WorldSystemServiceRequest → SystemResult WorldSystemServiceResponse
call_service s contract envelope = do
  request ← ok_or (s.request_to_vec envelope) (failed "failed to encode System request")
  bytes ← map_err (λ e. failed (s.transport_message e)) (s.client contract request)
  ok_or (s.response_from_slice bytes) (failed "invalid System service response")

-- What a round ends with: an evaluation, or the reads of the next round.
pub data Round : Type 0 where
  finished : WorldTransaction → Round
  continues : Reads → Round

unfoldable pub answer :
    External → Draws → WorldSnapshot → Reads → WorldSystemServiceResponse → SystemResult Round
answer x draws snapshot r (transaction t) = ok (finished (decode_transaction draws t))
answer x draws snapshot r (refused reason) = do
  diagnostic ← validate_diagnostic reason
  err (rejected diagnostic)
answer x draws snapshot r (broken reason) = do
  diagnostic ← validate_diagnostic reason
  err (failed diagnostic)
answer x draws snapshot r (reads requests) = do
  r' ← accept_reads x snapshot r requests
  ok (continues r')

-- `k` is the rest of the loop.
unfoldable pub next_round :
    (Reads → SystemResult WorldTransaction) → Round → SystemResult WorldTransaction
next_round k (finished t) = ok t
next_round k (continues r) = k r

module _ (x : External) (s : Service) (contract : ContractKey) (draws : Draws)
    (snapshot : WorldSnapshot) (command : WorldCommand) where
  unfoldable pub round : Reads → SystemResult Round
  round r = do
    response ← call_service s contract (record {
      world_id = snapshot.database.world_id;
      snapshot_position = snapshot.position;
      command = command;
      reads = r.results;
    })
    answer x draws snapshot r response

  -- `for _ in 0..MAX_WORLD_SYSTEM_SERVICE_ROUNDS`.
  unfoldable pub rounds : ℕ → Reads → SystemResult WorldTransaction
  rounds zero r = err (failed "System service exceeded the evaluation round limit")
  rounds (suc n) r = do result ← round r; next_round (rounds n) result

-- `ServiceWorldSystem`, with its service.
pub record ServiceWorldSystem : Type 0 where
  pub world_id : WorldId
  pub command_schema : SchemaKey
  pub contract : ContractKey
  pub service : Service

unfoldable pub evaluate :
    External
    → Draws
    → ServiceWorldSystem
    → WorldSnapshot
    → WorldCommand
    → SystemResult WorldTransaction
evaluate x draws system snapshot command = do
  guard (snapshot.database.world_id == system.world_id)
      (failed "System service binding belongs to another world")
  guard (holds (SchemaKey-discrete command.schema system.command_schema))
      (failed "System service received a mismatched command schema")
  rounds x system.service system.contract draws snapshot command max_world_system_service_rounds
      no_reads
