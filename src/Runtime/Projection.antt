-- ===== src/Runtime/Projection.antt =====
-- crates/world-runtime/src/projection.rs: a view of the world for one principal, made by a service of an
-- extension that sees only what is of the extension's own schemas.
pub mod Filtered
pub mod View
use rintawa.Prelude.{
  ℕ, zero, suc, ◌+◌, String, Bool, true, false, not, ◌&&◌, List, [], ◌∷◌, ◌++◌, length, any, Option,
  none, some, Result, ok, err, ◌>>=◌, ◌>>◌, guard, ok_or, map_err, ℕ_discrete, String-discrete,
  holds, leb, ◌==◌, if◌then◌else◌,
}
use Prim.Native.String.{len}
use rintawa.World.Ids.{
  WorldId, EntityId, RelationId, PrincipalId, SchemaKey, SchemaKey-discrete, SchemaKind,
  SchemaKind-discrete, Json,
}
use rintawa.World.Errors.{WorldError}
use rintawa.World.State.{EntityRecord, RelationRecord, FacetTarget, FacetRecord}
use rintawa.World.Schema
use rintawa.World.Schema.{SchemaDefinition, SchemaRegistry, register, validate_payload}
use rintawa.Storage.Errors.{StorageResult}
use rintawa.Storage.External.{External}
use rintawa.Storage.Query.{load_entity, load_relation, load_facet, principal_can_control}
use rintawa.Storage.Schemas.{load_schema}
use rintawa.Runtime.Errors.{WorldReadError}
use rintawa.Runtime.Systems.{WorldSnapshot}
use rintawa.Runtime.Effect.{ServiceCallError, ContractKey}

abbrev pub max_world_projection_service_rounds : ℕ
max_world_projection_service_rounds = 8

abbrev pub max_world_projection_service_reads : ℕ
max_world_projection_service_reads = 256

abbrev pub max_world_projection_input_bytes : ℕ
max_world_projection_input_bytes = 65536

abbrev pub max_world_projection_diagnostic_bytes : ℕ
max_world_projection_diagnostic_bytes = 8192

pub data WorldProjectionError : Type 0 where
  cross_world_binding : WorldProjectionError
  schema_unavailable schema_kind_mismatch schema_owner_mismatch : SchemaKey → WorldProjectionError
  input_too_large : ℕ → ℕ → WorldProjectionError
  read : WorldReadError → WorldProjectionError
  transport : ServiceCallError → WorldProjectionError
  request_encode response_decode empty_read_round repeated_read read_limit_exceeded
        round_limit_exceeded diagnostic_too_large :
      WorldProjectionError
  rejected failed : String → WorldProjectionError
  invalid_output : WorldError → WorldProjectionError

abbrev pub WorldProjectionResult : Type 0 → Type 0
WorldProjectionResult A = Result WorldProjectionError A

-- crates/sdk/src/world_projection.rs: what is sent and received.
pub data WorldProjectionReadRequest : Type 0 where
  read_entity : EntityId → WorldProjectionReadRequest
  read_relation : RelationId → WorldProjectionReadRequest
  read_facet : FacetTarget → SchemaKey → WorldProjectionReadRequest
  can_control : EntityId → SchemaKey → WorldProjectionReadRequest

unfoldable pub WorldProjectionReadRequest-discrete : Discrete WorldProjectionReadRequest
unfolding SchemaKey-discrete ℕ_discrete
WorldProjectionReadRequest-discrete = hlevel (SchemaKey-discrete, ℕ_discrete)

pub data WorldProjectionReadResult : Type 0 where
  entity_value : EntityId → Option EntityRecord → WorldProjectionReadResult
  relation_value : RelationId → Option RelationRecord → WorldProjectionReadResult
  facet_value : FacetTarget → SchemaKey → Option FacetRecord → WorldProjectionReadResult
  control_allowed : EntityId → SchemaKey → Bool → WorldProjectionReadResult

pub record WorldProjectionServiceRequest : Type 0 where
  pub world_id : WorldId
  pub snapshot_position : ℕ
  pub projection_schema : SchemaKey
  pub principal : PrincipalId
  pub input : Json
  pub reads : List WorldProjectionReadResult

-- `Rejected` and `Failed` are `refused` and `broken`, apart from the errors that they become.
pub data WorldProjectionServiceResponse : Type 0 where
  complete : Json → WorldProjectionServiceResponse
  reads : List WorldProjectionReadRequest → WorldProjectionServiceResponse
  refused : String → WorldProjectionServiceResponse
  broken : String → WorldProjectionServiceResponse

pub record WorldProjectionView : Type 0 where
  pub world_id : WorldId
  pub snapshot_position : ℕ
  pub schema : SchemaKey
  pub principal : PrincipalId
  pub value : Json

-- What the runtime uses of the service: `serde_json` for requests and responses, and the transport.
pub record ProjectionService : Type 0 where
  pub request_to_vec : WorldProjectionServiceRequest → Option (List ℕ)
  pub response_from_slice : List ℕ → Option WorldProjectionServiceResponse
  pub client : ContractKey → List ℕ → Result ServiceCallError (List ℕ)

-- `ServiceWorldProjection`, with its service.
pub record ServiceWorldProjection : Type 0 where
  pub world_id : WorldId
  pub projection_schema : SchemaKey
  pub projection_owner : String
  pub contract : ContractKey
  pub service : ProjectionService

-- `WorldSnapshot::load_schema_definition`, with its error turned into the one of projections.
unfoldable pub load_schema_definition :
    External → WorldSnapshot → SchemaKey → WorldProjectionResult (Option SchemaDefinition)
load_schema_definition x snapshot key =
    map_err (λ e. read (WorldReadError.storage e)) (load_schema x snapshot.database key)

abbrev pub is_owned : String → SchemaKind → Option SchemaDefinition → Bool
is_owned owner kind none = false
is_owned owner kind (some definition) =
    holds (SchemaKind-discrete definition.kind kind)
    && holds (String-discrete definition.owner owner)

unfoldable pub schema_owned_by :
    External → WorldSnapshot → SchemaKey → String → SchemaKind → WorldProjectionResult Bool
schema_owned_by x snapshot schema owner kind = do
  definition ← load_schema_definition x snapshot schema
  ok (is_owned owner kind definition)

-- The tests of `resolve_read`: what the owner's schemas let the service see of a read.
module _ (x : External) (snapshot : WorldSnapshot) (owner : String) where
  unfoldable pub visible_entity : Option EntityRecord → WorldProjectionResult (Option EntityRecord)
  visible_entity none = ok none
  visible_entity (some entity) = do
    owned ← schema_owned_by x snapshot entity.schema owner SchemaKind.entity
    ok (if owned then some entity else none)

  unfoldable pub visible_relation :
      Option RelationRecord → WorldProjectionResult (Option RelationRecord)
  visible_relation none = ok none
  visible_relation (some relation) = do
    owned ← schema_owned_by x snapshot relation.schema owner SchemaKind.relation
    ok (if owned then some relation else none)

  unfoldable pub visible_facet :
      FacetTarget → SchemaKey → Bool → WorldProjectionResult (Option FacetRecord)
  visible_facet target schema false = ok none
  visible_facet target schema true =
      map_err (λ e. read (WorldReadError.storage e)) (load_facet x snapshot.database target schema)

  unfoldable pub visible_control :
      PrincipalId → EntityId → SchemaKey → Bool → WorldProjectionResult Bool
  visible_control principal actor_entity schema false = ok false
  visible_control principal actor_entity schema true =
      map_err (λ e. read (WorldReadError.storage e))
        (principal_can_control snapshot.database principal actor_entity schema snapshot.position)

unfoldable pub resolve_read :
    External
    → WorldSnapshot
    → PrincipalId
    → String
    → WorldProjectionReadRequest
    → WorldProjectionResult WorldProjectionReadResult
resolve_read x snapshot principal owner (read_entity id) = do
  value ← visible_entity x snapshot owner (load_entity snapshot.database id)
  ok (entity_value id value)
resolve_read x snapshot principal owner (read_relation id) = do
  value ← visible_relation x snapshot owner (load_relation snapshot.database id)
  ok (relation_value id value)
resolve_read x snapshot principal owner (read_facet target schema) = do
  owned ← schema_owned_by x snapshot schema owner SchemaKind.facet
  value ← visible_facet x snapshot owner target schema owned
  ok (facet_value target schema value)
resolve_read x snapshot principal owner (can_control actor_entity schema) = do
  owned ← schema_owned_by x snapshot schema owner SchemaKind.command
  allowed ← visible_control x snapshot owner principal actor_entity schema owned
  ok (control_allowed actor_entity schema allowed)

unfoldable pub validate_diagnostic : String → WorldProjectionResult String
validate_diagnostic reason = do
  guard (leb (len reason) max_world_projection_diagnostic_bytes) diagnostic_too_large
  ok reason

-- The reads so far: the set of the requests, latest first, and the results in order.
pub record Reads : Type 0 where
  pub seen : List WorldProjectionReadRequest
  pub results : List WorldProjectionReadResult

abbrev pub no_reads : Reads
no_reads = record { seen = []; results = [] }

unfoldable pub has_seen : List WorldProjectionReadRequest → WorldProjectionReadRequest → Bool
has_seen seen request = any (λ r. holds (WorldProjectionReadRequest-discrete r request)) seen

abbrev pub is_empty_round : List WorldProjectionReadRequest → Bool
is_empty_round [] = true
is_empty_round (request ∷ rest) = false

-- What a round ends with: a view, or the reads of the next round.
pub data Round : Type 0 where
  finished : WorldProjectionView → Round
  continues : Reads → Round

-- `k` is the rest of the loop.
unfoldable pub next_round :
    (Reads → WorldProjectionResult WorldProjectionView)
    → Round
    → WorldProjectionResult WorldProjectionView
next_round k (finished view) = ok view
next_round k (continues r) = k r

module _ (x : External) (projection : ServiceWorldProjection) (snapshot : WorldSnapshot)
    (principal : PrincipalId) where
  -- The loop over the requests of one round.
  unfoldable pub resolve_reads :
      Reads → List WorldProjectionReadRequest → WorldProjectionResult Reads
  resolve_reads r [] = ok r
  resolve_reads r (request ∷ rest) = do
    guard (not (has_seen r.seen request)) repeated_read
    result ← resolve_read x snapshot principal projection.projection_owner request
    resolve_reads (record { seen = request ∷ r.seen; results = r.results ++ result ∷ [] }) rest

  -- `saturating_add` does not saturate below the limit.
  unfoldable pub accept_reads :
      Reads → List WorldProjectionReadRequest → WorldProjectionResult Reads
  accept_reads r requests = do
    guard (not (is_empty_round requests)) empty_read_round
    guard (leb (length r.results + length requests) max_world_projection_service_reads)
        read_limit_exceeded
    resolve_reads r requests

  unfoldable pub answer :
      SchemaRegistry → Reads → WorldProjectionServiceResponse → WorldProjectionResult Round
  answer output_registry r (complete value) = do
    map_err invalid_output
        (validate_payload output_registry projection.projection_schema SchemaKind.projection value)
    ok (
        finished (record {
          world_id = snapshot.database.world_id;
          snapshot_position = snapshot.position;
          schema = projection.projection_schema;
          principal = principal;
          value = value;
        }))
  answer output_registry r (refused reason) = do
    diagnostic ← validate_diagnostic reason
    err (rejected diagnostic)
  answer output_registry r (broken reason) = do
    diagnostic ← validate_diagnostic reason
    err (failed diagnostic)
  answer output_registry r (reads requests) = do r' ← accept_reads r requests; ok (continues r')

  module _ (input : Json) (output_registry : SchemaRegistry) where
    -- The call of one round.
    unfoldable pub call_service : Reads → WorldProjectionResult WorldProjectionServiceResponse
    call_service r = do
      request ←
          ok_or
            (projection.service.request_to_vec (record {
              world_id = snapshot.database.world_id;
              snapshot_position = snapshot.position;
              projection_schema = projection.projection_schema;
              principal = principal;
              input = input;
              reads = r.results;
            }))
            request_encode
      bytes ← map_err transport (projection.service.client projection.contract request)
      ok_or (projection.service.response_from_slice bytes) response_decode

    unfoldable pub round : Reads → WorldProjectionResult Round
    round r = do response ← call_service r; answer output_registry r response

    -- `for _ in 0..MAX_WORLD_PROJECTION_SERVICE_ROUNDS`.
    unfoldable pub rounds : ℕ → Reads → WorldProjectionResult WorldProjectionView
    rounds zero r = err round_limit_exceeded
    rounds (suc n) r = do result ← round r; next_round (rounds n) result

unfoldable pub project :
    External
    → ServiceWorldProjection
    → WorldSnapshot
    → PrincipalId
    → Json
    → WorldProjectionResult WorldProjectionView
project x projection snapshot principal input = do
  guard (snapshot.database.world_id == projection.world_id) cross_world_binding
  loaded ← load_schema_definition x snapshot projection.projection_schema
  definition ← ok_or loaded (schema_unavailable projection.projection_schema)
  guard (holds (SchemaKind-discrete definition.kind SchemaKind.projection))
      (schema_kind_mismatch projection.projection_schema)
  guard (holds (String-discrete definition.owner projection.projection_owner))
      (schema_owner_mismatch projection.projection_schema)
  bytes ← ok_or (x.value_to_vec input) request_encode
  guard (leb (length bytes) max_world_projection_input_bytes)
      (input_too_large (length bytes) max_world_projection_input_bytes)
  (output_registry, _) ← map_err invalid_output (register x.schema Schema.new definition)
  rounds x projection snapshot principal input output_registry max_world_projection_service_rounds
      no_reads
