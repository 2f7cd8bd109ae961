-- ===== src/Engine/Services/Calls.antt =====
-- The calls of crates/extension-engine/src/services.rs. A provider that is called may call other services through
-- its `ServiceComponentContext`, which carries the stack of the providers that are running. While a call runs,
-- nothing else changes the runtime; the locks that other threads hold are a parameter. The depth of the calls is
-- bounded by fuel, and `none` means that it ran out.
pub mod Stack
pub mod Resolved
pub mod Platform
pub mod Answers
pub mod Nesting
pub mod Limits
use rintawa.Prelude.{
  ℕ, zero, suc, ◌+◌, String, Bool, true, false, not, List, [], ◌∷◌, ◌++◌, any, length, Option, none,
  some, Result, ok, err, ◌>>=◌, holds, leb, ltb, if◌then◌else◌,
}
use rintawa.Runtime.Effect.{
  ContractKey, ServiceCallError, unavailable, cyclic_call, provider_busy, provider_failed,
  request_too_large, response_too_large,
}
use rintawa.Engine.Secrets.{
  ComponentRef, ComponentRef-discrete, Vault, SecretManager, read_for_component,
}
use rintawa.Engine.Component.{
  ExtensionError, service_request_too_large, service_response_too_large, other_failure, Behaviour,
  returns, fails, read_secret, call_service, list_service_providers, call_service_provider,
  Component,
}
use rintawa.Engine.Services.{ServiceCallResult, ServiceRuntimeState, ComponentIdentity}
use rintawa.Engine.Services.Routing.{
  Located, resolve_provider, list_providers_with_mode, resolve_provider_handle,
  resolve_platform_provider,
}

abbrev pub default_max_service_message_bytes : ℕ
default_max_service_message_bytes = 8388608

-- `try_lock` of a component that the call does not run itself.
pub data Lock : Type 0 where
  free would_block poisoned : Lock

-- The state after a call, and its answer.
abbrev pub Outcome : Type 0
Outcome = ServiceRuntimeState × Option (ServiceCallResult (List ℕ))

-- The service calls that a context offers.
pub record Calls : Type 0 where
  pub call : ServiceRuntimeState → ContractKey → List ℕ → Outcome
  pub call_provider : ServiceRuntimeState → ℕ → List ℕ → Outcome

-- `map_err` of a failed callback.
unfoldable pub transport_error : ExtensionError → ServiceCallError
transport_error service_request_too_large = request_too_large
transport_error service_response_too_large = response_too_large
transport_error other_failure = provider_failed

-- `service_message_limit().unwrap_or(max).min(max)`.
unfoldable pub provider_limit : ℕ → Option ℕ → ℕ
provider_limit max none = max
provider_limit max (some limit) = if leb limit max then limit else max

-- A response within the limit.
unfoldable pub check_response : ℕ → Result ExtensionError (List ℕ) → ServiceCallResult (List ℕ)
check_response limit (err e) = err (transport_error e)
check_response limit (ok response) =
    if leb (length response) limit then ok response else err response_too_large

abbrev pub check_answer :
    ℕ → Option (Result ExtensionError (List ℕ)) → Option (ServiceCallResult (List ℕ))
check_answer limit none = none
check_answer limit (some r) = some (check_response limit r)

unfoldable pub is_running : ComponentRef → List ComponentRef → Bool
is_running provider stack = any (λ r. holds (ComponentRef-discrete r provider)) stack

module _ (load : Vault) (m : SecretManager) (lock : ComponentRef → Lock)
    (max_message_bytes : ℕ) where
  -- A callback, as the component asks its context and is answered.
  unfoldable pub execute :
      ComponentRef
      → Calls
      → ServiceRuntimeState
      → Behaviour
      → ServiceRuntimeState × Option (Result ExtensionError (List ℕ))
  execute owner calls s (returns response) = (s, some (ok response))
  execute owner calls s (fails e) = (s, some (err e))
  execute owner calls s (read_secret path k) =
      execute owner calls s (k (read_for_component load m owner path))
  execute owner calls s (call_service contract request k) =
      let (s', answer) = calls.call s contract request in
      elim answer [ none ↦ (s', none) | some r ↦ execute owner calls s' (k r) ]
  execute owner calls s (list_service_providers contract k) =
      let (s', handles) =
        list_providers_with_mode m s
          (record { caller = owner; contract = contract; allow_inactive_caller = true }) in
      execute owner calls s' (k handles)
  execute owner calls s (call_service_provider handle request k) =
      let (s', answer) = calls.call_provider s handle request in
      elim answer [ none ↦ (s', none) | some r ↦ execute owner calls s' (k r) ]

  -- From the limit of the provider on; `context` makes the calls for a longer stack.
  unfoldable pub run_provider :
      (List ComponentRef → ComponentRef → Calls)
      → List ComponentRef
      → ServiceRuntimeState
      → Located
      → ContractKey
      → List ℕ
      → Outcome
  run_provider context stack s (provider, component, identity) contract request =
      let limit = provider_limit max_message_bytes component.service_message_limit in
      if leb (length request) limit
      then (let (s', answer) =
            execute provider (context (stack ++ provider ∷ []) provider) s
              (component.handle_service contract request) in
          (s', check_answer limit answer))
      else (s, some (err request_too_large))

  unfoldable pub lock_provider :
      (List ComponentRef → ComponentRef → Calls)
      → List ComponentRef
      → ServiceRuntimeState
      → Located
      → ContractKey
      → List ℕ
      → Lock
      → Outcome
  lock_provider context stack s located contract request free =
      run_provider context stack s located contract request
  lock_provider context stack s located contract request would_block = (s, some (err provider_busy))
  lock_provider context stack s located contract request poisoned = (s, some (err provider_failed))

  unfoldable pub invoke_provider :
      (List ComponentRef → ComponentRef → Calls)
      → List ComponentRef
      → ServiceRuntimeState
      → Located
      → ContractKey
      → List ℕ
      → Outcome
  invoke_provider context stack s located contract request =
      if is_running located.0 stack
      then (s, some (err cyclic_call))
      else lock_provider context stack s located contract request (lock located.0)

  unfoldable pub invoke_resolved :
      (List ComponentRef → ComponentRef → Calls)
      → List ComponentRef
      → List ℕ
      → ServiceRuntimeState
      → ServiceCallResult (ContractKey × Located)
      → Outcome
  invoke_resolved context stack request s (err e) = (s, some (err e))
  invoke_resolved context stack request s (ok (contract, located)) =
      invoke_provider context stack s located contract request

  unfoldable pub call_with_stack :
      (List ComponentRef → ComponentRef → Calls)
      → List ComponentRef
      → ComponentRef
      → Bool
      → ServiceRuntimeState
      → ContractKey
      → List ℕ
      → Outcome
  call_with_stack context stack caller allow_inactive_caller s contract request =
      if leb (length request) max_message_bytes
      then (let (s', resolved) = resolve_provider m s (record {
        caller = caller;
        contract = contract;
        allow_inactive_caller = allow_inactive_caller;
      }) in
          invoke_resolved context stack request s' (resolved >>= λ located. ok (contract, located)))
      else (s, some (err request_too_large))

  unfoldable pub call_provider_with_stack :
      (List ComponentRef → ComponentRef → Calls)
      → List ComponentRef
      → ComponentRef
      → Bool
      → ServiceRuntimeState
      → ℕ
      → List ℕ
      → Outcome
  call_provider_with_stack context stack caller allow_inactive_caller s handle request =
      if leb (length request) max_message_bytes
      then invoke_resolved context stack request s
          (resolve_provider_handle m s caller handle allow_inactive_caller)
      else (s, some (err request_too_large))

  -- The calls of a `ServiceComponentContext`.
  unfoldable pub context_calls : ℕ → List ComponentRef → ComponentRef → Calls
  context_calls zero stack owner = record {
    call = λ s contract request. (s, none);
    call_provider = λ s handle request. (s, none);
  }
  context_calls (suc fuel) stack owner = record {
    call = call_with_stack (context_calls fuel) stack owner true;
    call_provider = call_provider_with_stack (context_calls fuel) stack owner true;
  }

  -- `ServiceRuntime::call`, `call_from_execution`, `call_provider`, `call_provider_from_execution` and
  -- `call_platform`.
  unfoldable pub call : ℕ → ServiceRuntimeState → ComponentRef → ContractKey → List ℕ → Outcome
  call fuel s caller contract request =
      call_with_stack (context_calls fuel) [] caller false s contract request

  unfoldable pub call_from_execution :
      ℕ → ServiceRuntimeState → ComponentRef → ContractKey → List ℕ → Outcome
  call_from_execution fuel s caller contract request =
      call_with_stack (context_calls fuel) [] caller true s contract request

  unfoldable pub call_provider : ℕ → ServiceRuntimeState → ComponentRef → ℕ → List ℕ → Outcome
  call_provider fuel s caller handle request =
      call_provider_with_stack (context_calls fuel) [] caller false s handle request

  unfoldable pub call_provider_from_execution :
      ℕ → ServiceRuntimeState → ComponentRef → ℕ → List ℕ → Outcome
  call_provider_from_execution fuel s caller handle request =
      call_provider_with_stack (context_calls fuel) [] caller true s handle request

  unfoldable pub call_platform :
      ℕ → ServiceRuntimeState → String → Option String → ContractKey → List ℕ → Outcome
  call_platform fuel s scope_id expected contract request =
      if leb (length request) max_message_bytes
      then invoke_resolved (context_calls fuel) [] request s (
          resolve_platform_provider m s scope_id expected contract >>= λ located.
          ok (contract, located))
      else (s, some (err request_too_large))
