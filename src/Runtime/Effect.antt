-- ===== src/Runtime/Effect.antt =====
-- crates/world-runtime/src/effect.rs: the protocol by which an extension handles a durable effect job.
pub mod FollowUp
use rintawa.Prelude.{
  ℕ, suc, zero, ◌+◌, String, Bool, not, List, Option, none, some, Result, ok, err, ◌>>=◌, ◌>>◌,
  guard, ok_or, map_err, holds, leb, ◌==◌, if◌then◌else◌,
}
use Prim.Native.String.{len}
use rintawa.World.Ids.{
  WorldId, CommandId, EffectJobId, UnixTimeMillis, SchemaKey, SchemaKey-discrete,
}
use rintawa.World.Command.{CausationRef, CausationRef-discrete, WorldCommand}
use rintawa.World.Transaction.{StoredEffectJob}
use rintawa.Storage.Outbox.{ClaimedEffectJob}

abbrev pub max_world_effect_diagnostic_bytes : ℕ
max_world_effect_diagnostic_bytes = 8192

-- The command identifier has the bytes of the job's.
unfoldable pub effect_completion_command_id : EffectJobId → CommandId
effect_completion_command_id job_id = job_id

pub record WorldEffectServiceRequest : Type 0 where
  pub world_id : WorldId
  pub job : StoredEffectJob
  pub lease_expires_at : UnixTimeMillis
  pub completion_command_id : CommandId

unfoldable pub new_request : ClaimedEffectJob → WorldEffectServiceRequest
unfolding effect_completion_command_id
new_request claim = record {
  world_id = claim.job.world_id;
  job = claim.job;
  lease_expires_at = claim.lease_expires_at;
  completion_command_id = effect_completion_command_id claim.job.id;
}

pub data WorldEffectServiceResponse : Type 0 where
  complete : Option WorldCommand → WorldEffectServiceResponse
  retry : String → WorldEffectServiceResponse
  cancel : String → WorldEffectServiceResponse

-- crates/sdk/src/services.rs: the errors of a service call.
pub data ServiceCallError : Type 0 where
  unavailable not_consumer not_service_contract unsupported_resolution cyclic_call provider_busy
        provider_failed request_too_large response_too_large :
      ServiceCallError

pub data WorldEffectServiceError : Type 0 where
  world_mismatch schema_mismatch invalid_response diagnostic_too_large : WorldEffectServiceError
  command_id_mismatch command_principal_mismatch command_correlation_mismatch
        command_causation_mismatch :
      WorldEffectServiceError
  transport : ServiceCallError → WorldEffectServiceError

abbrev pub WorldEffectServiceResult : Type 0 → Type 0
WorldEffectServiceResult A = Result WorldEffectServiceError A

-- crates/sdk/src/contracts.rs: a contract and its major version.
pub record ContractKey : Type 0 where
  pub id : String
  pub version : ℕ

-- `serde_json::to_vec` of a request and `from_slice` of a response; `none` is an error.
pub record EffectCodec : Type 0 where
  pub request_to_vec : WorldEffectServiceRequest → Option (List ℕ)
  pub response_from_slice : List ℕ → Option WorldEffectServiceResponse

-- The client is the transport, code outside the runtime.
pub record ServiceWorldEffectHandler : Type 0 where
  pub world_id : WorldId
  pub effect_schema : SchemaKey
  pub contract : ContractKey
  pub client : ContractKey → List ℕ → Result ServiceCallError (List ℕ)

-- The test `command.causation() != Some(..)`.
abbrev pub is_caused_by : Option CausationRef → CausationRef → Bool
is_caused_by none cause = Bool.false
is_caused_by (some causation) cause = holds (CausationRef-discrete causation cause)

unfoldable pub validate_response :
    StoredEffectJob → WorldEffectServiceResponse → WorldEffectServiceResult (Unit {0})
validate_response job (retry reason) =
    guard (leb (len reason) max_world_effect_diagnostic_bytes) diagnostic_too_large
validate_response job (cancel reason) =
    guard (leb (len reason) max_world_effect_diagnostic_bytes) diagnostic_too_large
validate_response job (complete none) = ok tt
validate_response job (complete (some command)) = do
  guard (command.id == effect_completion_command_id job.id) command_id_mismatch
  guard (command.principal == job.provenance.principal) command_principal_mismatch
  guard (command.correlation_id == job.provenance.correlation_id) command_correlation_mismatch
  guard (is_caused_by command.causation (CausationRef.effect job.id)) command_causation_mismatch

unfoldable pub execute :
    EffectCodec
    → ServiceWorldEffectHandler
    → ClaimedEffectJob
    → WorldEffectServiceResult WorldEffectServiceResponse
execute codec handler claim = do
  guard (claim.job.world_id == handler.world_id) world_mismatch
  guard (holds (SchemaKey-discrete claim.job.schema handler.effect_schema)) schema_mismatch
  request ← ok_or (codec.request_to_vec (new_request claim)) invalid_response
  bytes ← map_err transport (handler.client handler.contract request)
  response ← ok_or (codec.response_from_slice bytes) invalid_response
  validate_response claim.job response
  ok response
