-- ===== src/Engine/Services/Calls/Limits.antt =====
-- The limits of crates/extension-engine/src/services.rs on the messages of a call.
use rintawa.Prelude.{
  ℕ, zero, suc, String, true, false, ◌≤◌, ◌≡◌, inl, inr, subst, Bool, List, [], ◌∷◌, ◌++◌, length,
  Option, none, some, Bool-cases, Result, ok, err, ◌>>=◌, leb, arith,
}
use rintawa.Runtime.Effect.{ContractKey}
use rintawa.Engine.Secrets.{ComponentRef, Vault, SecretManager}
use rintawa.Engine.Component.{ExtensionError}
use rintawa.Engine.Services.{ServiceCallResult, ServiceRuntimeState}
use rintawa.Engine.Services.Routing.{
  Located, resolve_provider, resolve_provider_handle, resolve_platform_provider,
}
use rintawa.Engine.Services.Calls.{
  Lock, Calls, provider_limit, check_response, check_answer, is_running, execute, run_provider,
  lock_provider, invoke_provider, invoke_resolved, call_with_stack, Outcome,
  call_provider_with_stack, context_calls, call, call_from_execution, call_provider,
  call_provider_from_execution, call_platform,
}

-- An answer carries at most `max` bytes.
abbrev IsWithin : ℕ → Option (ServiceCallResult (List ℕ)) → Type 0
IsWithin max none = Unit
IsWithin max (some (err e)) = Unit
IsWithin max (some (ok response)) = length response ≤ max

provider_limit-le : (max : ℕ) (limit : Option ℕ) → provider_limit max limit ≤ max
unfolding provider_limit
provider_limit-le max none = omega arith
provider_limit-le max (some limit) = ground arith

check_answer-IsWithin :
    (max limit : ℕ) (answer : Option (Result ExtensionError (List ℕ)))
    → limit ≤ max
    → IsWithin max (check_answer limit answer)
unfolding check_response
check_answer-IsWithin max limit none h = tt
check_answer-IsWithin max limit (some (err e)) h = tt
check_answer-IsWithin max limit (some (ok response)) h =
    elim (Bool-cases (leb (length response) limit)) [
      | inl fits ↦ rw fits (ground arith)
      | inr large ↦ rw large tt
    ]

module _ (load : Vault) (m : SecretManager) (lock : ComponentRef → Lock) (max : ℕ)
    (context : List ComponentRef → ComponentRef → Calls) (stack : List ComponentRef) where
  run_provider-IsWithin :
      (s : ServiceRuntimeState) (l : Located) (contract : ContractKey) (request : List ℕ)
      → IsWithin max (run_provider load m lock max context stack s l contract request).1
  unfolding run_provider
  run_provider-IsWithin s (p, x, identity) contract request =
      elim (Bool-cases (leb (length request) (provider_limit max x.service_message_limit))) [
        | inl fits ↦ rw fits (
            check_answer-IsWithin max (provider_limit max x.service_message_limit)
              (execute load m lock max p (context (stack ++ p ∷ []) p) s
                (x.handle_service contract request)).1
              (provider_limit-le max x.service_message_limit))
        | inr large ↦ rw large tt
      ]

  lock_provider-IsWithin :
      (s : ServiceRuntimeState) (l : Located) (contract : ContractKey) (request : List ℕ) (k : Lock)
      → IsWithin max (lock_provider load m lock max context stack s l contract request k).1
  unfolding lock_provider
  lock_provider-IsWithin s l contract request Lock.free = run_provider-IsWithin s l contract request
  lock_provider-IsWithin s l contract request Lock.would_block = tt
  lock_provider-IsWithin s l contract request Lock.poisoned = tt

  invoke_resolved-IsWithin :
      (s : ServiceRuntimeState) (request : List ℕ) (r : ServiceCallResult (ContractKey × Located))
      → IsWithin max (invoke_resolved load m lock max context stack request s r).1
  unfolding invoke_resolved invoke_provider
  invoke_resolved-IsWithin s request (err e) = tt
  invoke_resolved-IsWithin s request (ok (contract, l)) = elim (Bool-cases (is_running l.0 stack)) [
    | inl running ↦ rw running tt
    | inr idle ↦ rw idle (lock_provider-IsWithin s l contract request (lock l.0))
  ]

-- A request of at most `max` bytes was answered with as many at most, or the call failed.
abbrev IsBounded : ℕ → List ℕ → Option (ServiceCallResult (List ℕ)) → Type 0
IsBounded max request none = Unit
IsBounded max request (some (err e)) = Unit
IsBounded max request (some (ok response)) = (length request ≤ max) × (length response ≤ max)

fits-IsBounded :
    (max : ℕ) (request : List ℕ) (answer : Option (ServiceCallResult (List ℕ)))
    → length request ≤ max
    → IsWithin max answer
    → IsBounded max request answer
fits-IsBounded max request none h k = tt
fits-IsBounded max request (some (err e)) h k = tt
fits-IsBounded max request (some (ok response)) h k = (h, k)

-- The three places where a request is measured.
module _ (load : Vault) (m : SecretManager) (lock : ComponentRef → Lock) (max : ℕ)
    (context : List ComponentRef → ComponentRef → Calls) (stack : List ComponentRef) where
  call_with_stack-IsBounded :
      (caller : ComponentRef) (flag : Bool) (s : ServiceRuntimeState) (contract : ContractKey)
      (request : List ℕ)
      → IsBounded max request
          (call_with_stack load m lock max context stack caller flag s contract request).1
  unfolding call_with_stack
  call_with_stack-IsBounded caller flag s contract request =
      elim (Bool-cases (leb (length request) max)) [
        | inr large ↦ rw large tt
        | inl fits ↦
            let (s', resolved) =
              resolve_provider m s
                (record { caller = caller; contract = contract; allow_inactive_caller = flag }) in
            rw fits (
              fits-IsBounded max request _ (ground arith) (
                invoke_resolved-IsWithin load m lock max context stack s' request
                  (resolved >>= λ located. ok (contract, located))))
      ]

  call_provider_with_stack-IsBounded :
      (caller : ComponentRef) (flag : Bool) (s : ServiceRuntimeState) (handle : ℕ)
      (request : List ℕ)
      → IsBounded max request
          (call_provider_with_stack load m lock max context stack caller flag s handle request).1
  unfolding call_provider_with_stack
  call_provider_with_stack-IsBounded caller flag s handle request =
      elim (Bool-cases (leb (length request) max)) [
        | inr large ↦ rw large tt
        | inl fits ↦ rw fits (
            fits-IsBounded max request _ (ground arith) (
              invoke_resolved-IsWithin load m lock max context stack s request
                (resolve_provider_handle m s caller handle flag)))
      ]

call_platform-IsBounded :
    (load : Vault) (m : SecretManager) (lock : ComponentRef → Lock) (max fuel : ℕ)
    (s : ServiceRuntimeState) (scope_id : String) (expected : Option String)
    (contract : ContractKey) (request : List ℕ)
    → IsBounded max request
        (call_platform load m lock max fuel s scope_id expected contract request).1
unfolding call_platform
call_platform-IsBounded load m lock max fuel s scope_id expected contract request =
    elim (Bool-cases (leb (length request) max)) [
      | inr large ↦ rw large tt
      | inl fits ↦ rw fits (
          fits-IsBounded max request _ (ground arith) (
            invoke_resolved-IsWithin load m lock max (context_calls load m lock max fuel) [] s
              request
              (resolve_platform_provider m s scope_id expected contract >>= λ located.
                ok (contract, located))))
    ]

-- The ways to make a service call: for a component, active or in an execution, by contract or by the handle of a
-- provider; for the platform; and from the callback of a provider, within the calls of the stack.
pub data Entry : Type 0 where
  by_component by_execution : ComponentRef → ContractKey → Entry
  by_handle by_handle_in_execution : ComponentRef → ℕ → Entry
  by_platform : String → Option String → ContractKey → Entry
  nested : List ComponentRef → ComponentRef → ContractKey → Entry
  nested_by_handle : List ComponentRef → ComponentRef → ℕ → Entry

module _ (load : Vault) (m : SecretManager) (lock : ComponentRef → Lock) (max fuel : ℕ)
    (s : ServiceRuntimeState) where
  unfoldable pub enter : Entry → List ℕ → Outcome
  enter (by_component caller contract) request = call load m lock max fuel s caller contract request
  enter (by_execution caller contract) request =
      call_from_execution load m lock max fuel s caller contract request
  enter (by_handle caller handle) request =
      call_provider load m lock max fuel s caller handle request
  enter (by_handle_in_execution caller handle) request =
      call_provider_from_execution load m lock max fuel s caller handle request
  enter (by_platform scope_id expected contract) request =
      call_platform load m lock max fuel s scope_id expected contract request
  enter (nested stack owner contract) request =
      (context_calls load m lock max fuel stack owner).call s contract request
  enter (nested_by_handle stack owner handle) request =
      (context_calls load m lock max fuel stack owner).call_provider s handle request

enter-IsBounded :
    (load : Vault) (m : SecretManager) (lock : ComponentRef → Lock) (max fuel : ℕ)
    (s : ServiceRuntimeState) (entry : Entry) (request : List ℕ)
    → IsBounded max request (enter load m lock max fuel s entry request).1
unfolding enter call call_from_execution call_provider call_provider_from_execution context_calls
enter-IsBounded load m lock max fuel s (by_component caller contract) request =
    call_with_stack-IsBounded load m lock max (context_calls load m lock max fuel) [] caller false s
      contract request
enter-IsBounded load m lock max fuel s (by_execution caller contract) request =
    call_with_stack-IsBounded load m lock max (context_calls load m lock max fuel) [] caller true s
      contract request
enter-IsBounded load m lock max fuel s (by_handle caller handle) request =
    call_provider_with_stack-IsBounded load m lock max (context_calls load m lock max fuel) []
      caller false s handle request
enter-IsBounded load m lock max fuel s (by_handle_in_execution caller handle) request =
    call_provider_with_stack-IsBounded load m lock max (context_calls load m lock max fuel) []
      caller true s handle request
enter-IsBounded load m lock max fuel s (by_platform scope_id expected contract) request =
    call_platform-IsBounded load m lock max fuel s scope_id expected contract request
enter-IsBounded load m lock max zero s (nested stack owner contract) request = tt
enter-IsBounded load m lock max (suc fuel) s (nested stack owner contract) request =
    call_with_stack-IsBounded load m lock max (context_calls load m lock max fuel) stack owner true
      s contract request
enter-IsBounded load m lock max zero s (nested_by_handle stack owner handle) request = tt
enter-IsBounded load m lock max (suc fuel) s (nested_by_handle stack owner handle) request =
    call_provider_with_stack-IsBounded load m lock max (context_calls load m lock max fuel) stack
      owner true s handle request

-- A service call that succeeds had a request of at most the largest message, and its response is no longer than
-- that either, whatever limit the provider states and whatever it returns. This holds of every way to make a call:
-- by contract and by provider handle, active and in an execution, for the platform, and from the callback of a
-- provider within any stack of calls.
pub call-bounds :
    (load : Vault) (m : SecretManager) (lock : ComponentRef → Lock) (max fuel : ℕ)
    (s : ServiceRuntimeState) (entry : Entry) (request response : List ℕ)
    → (enter load m lock max fuel s entry request).1 ≡ some (ok response)
    → (length request ≤ max) × (length response ≤ max)
call-bounds load m lock max fuel s entry request response h =
    subst (IsBounded max request) h (enter-IsBounded load m lock max fuel s entry request)
