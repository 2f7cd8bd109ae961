-- ===== src/Tests/Engine.antt =====
-- The theorems about the engine, on a scope with an application that uses a service and a choice of tools, and a
-- library that provides both and needs a secret.
use rintawa.Prelude.{
  ◌↔◌, ℕ, ◌≤◌, ◌≡◌, refl, subst, String-discrete, ℕ_discrete, true, false, none, some, ok, List, [],
  ◌∷◌, any, all, find, select, get, insert, length, sort_by, codes_leb, decimal, ◌>>=◌, ok_or,
  Shuffle, All, arith,
}
use rintawa.Engine.Secrets.{
  ComponentRef, ComponentRef-discrete, SecretPathPattern-discrete, exact, descendants, is_below,
  matches, allows_pattern, no_grants, next_revision, grants_of, grant_read, has_read_grant,
  read_for_component, Vault, not_found,
}
use rintawa.Engine.Secrets.Paths.{parse, as_str, is_path, path_of, parse_iff}
use rintawa.Engine.Secrets.Policy.{has_read_grant-reads}
use rintawa.Engine.Contracts.{
  ContractKey-discrete, ContractResolutionPolicy-discrete, single, ContractProtocol-discrete,
  service, ContractDefinition, component_ref_leb,
}
use rintawa.Engine.Composition.{
  requirements_satisfied, is_eligible, provides, resolve_contract_providers, resolve_consumer,
  push_resolved, resolve_each, resolve_contracts, select_providers, resolve_matching, resolve_by,
}
use rintawa.Engine.Composition.Order.{resolve_contract_providers-Shuffle}
use rintawa.Engine.Composition.Eligible.{IsGranted, resolve_contracts-IsGranted}
use rintawa.Engine.Services.{
  ServiceCallResult, RouteKey-discrete, empty_runtime, component, component_identity,
}
use rintawa.Engine.Services.Routing.{
  resolve_uncached, Located, locate, cached_route, cache_route, resolve_provider,
  resolve_provider_handle,
}
use rintawa.Engine.Services.Binding.{
  collect_visible, collect_endpoints, visible_endpoints, preference, bind_endpoints,
  resolve_binding_uncached,
}
use rintawa.Engine.Services.Current.{IsListed}
use rintawa.Engine.Services.Reach.{Reach-resolve_provider, Reach-resolve_provider_handle}
use rintawa.Engine.Services.Changes.{Host, registers, activates, grants, lists, Reach, fresh, next}
use rintawa.Engine.Services.Calls.{
  Lock, provider_limit, check_response, is_running, execute, run_provider, lock_provider,
  invoke_provider, invoke_resolved, call_with_stack, context_calls, call, call_from_execution,
  call_provider, call_platform,
}
use rintawa.Engine.Services.Calls.Stack.{registered}
use rintawa.Engine.Services.Calls.Nesting.{call-returns}
use rintawa.Engine.Services.Calls.Limits.{by_component, enter, call-bounds}
use rintawa.Tests.Extensions.{
  echo_key, tool_key, main, worker, echo, app, echo_provider, tool_provider, lib, s1, s2, s3, s4,
  secrets, route, s5, registers_app, registers_lib, activates_app, activates_lib, tools_listed,
}

abbrev host : Host
host = record { secrets = secrets; services = s5 }

host-Reach : Reach host
unfolding any get insert grants_of next_revision grant_read
host-Reach =
    subst (λ s. Reach (record { secrets = secrets; services = s })) tools_listed
      (next
        (next
          (next
            (next
              (next
                (next fresh (
                  registers (record { secrets = no_grants; services = empty_runtime }) app s1
                    registers_app))
                (registers (record { secrets = no_grants; services = s1 }) lib s2 registers_lib))
              (activates (record { secrets = no_grants; services = s2 }) "app" s3 activates_app))
            (activates (record { secrets = no_grants; services = s3 }) "lib" s4 activates_lib))
          (grants (record { secrets = no_grants; services = s4 }) worker (descendants "ai")
            (omega arith)))
        (lists (record { secrets = secrets; services = s4 }) (route tool_key)))

Reach-resolve_provider_example :
    (resolve_provider secrets s5 (route echo_key)).1
    ≡ (resolve_uncached secrets s5 (route echo_key) >>= locate s5)
Reach-resolve_provider_example = Reach-resolve_provider host (route echo_key) host-Reach

abbrev located_worker : Located
located_worker = (
  worker,
  echo,
  record {
    extension_id = "example.lib";
    instance_id = "lib";
    scope_id = "host";
    component_id = "worker";
  },
)

-- The handle 1 was issued for the library's tool.
opens_1 : resolve_provider_handle secrets s5 main 1 false ≡ ok (tool_key, located_worker)
unfolding get String-discrete ℕ_discrete ComponentRef-discrete component component_identity locate
    resolve_provider_handle
opens_1 = refl

Reach-resolve_provider_handle_example : IsListed secrets s5 (route tool_key) worker
Reach-resolve_provider_handle_example =
    Reach-resolve_provider_handle host main 1 false tool_key located_worker host-Reach opens_1

abbrev never_locked : ComponentRef → Lock
never_locked r = Lock.free

abbrev vault : Vault
vault path = ok (some "key")

enough_fuel : length (registered s5.instances) ≤ 2
unfolding registered
enough_fuel = omega arith

call-returns_example :
    ((r : ServiceCallResult (List ℕ)) × ((call vault secrets never_locked 8388608 2 s5 main echo_key
          (7 ∷ [])).1
        ≡ some r))
    × ((r : ServiceCallResult (List ℕ)) × ((call_from_execution vault secrets never_locked 8388608 2
            s5 main echo_key
            (7 ∷ [])).1
          ≡ some r))
    × ((r : ServiceCallResult (List ℕ)) × ((call_provider vault secrets never_locked 8388608 2 s5
            main 1
            (7 ∷ [])).1
          ≡ some r))
    × ((r : ServiceCallResult (List ℕ)) × ((call_platform vault secrets never_locked 8388608 2 s5
            "host" none echo_key
            (7 ∷ [])).1
          ≡ some r))
call-returns_example =
    call-returns vault secrets never_locked 8388608 2 s5 main echo_key 1 "host" none (7 ∷ [])
      enough_fuel

echoes :
    (enter vault secrets never_locked 8388608 1 s5 (by_component main echo_key) (7 ∷ [])).1
    ≡ some (ok (7 ∷ []))
unfolding get insert any all find select sort_by String-discrete ℕ_discrete ComponentRef-discrete
    ContractKey-discrete RouteKey-discrete ContractResolutionPolicy-discrete
    ContractProtocol-discrete grants_of has_read_grant allows_pattern is_below matches
    requirements_satisfied is_eligible provides component_ref_leb codes_leb decimal select_providers
    resolve_matching resolve_by resolve_contract_providers resolve_consumer push_resolved
    resolve_each resolve_contracts collect_visible collect_endpoints visible_endpoints preference
    bind_endpoints resolve_binding_uncached resolve_uncached cached_route cache_route
    resolve_provider component component_identity locate provider_limit check_response is_running
    execute run_provider lock_provider invoke_provider invoke_resolved call_with_stack context_calls
    call enter
echoes = refl

call-bounds_example : (length {A = ℕ} (7 ∷ []) ≤ 8388608) × (length {A = ℕ} (7 ∷ []) ≤ 8388608)
call-bounds_example =
    call-bounds vault secrets never_locked 8388608 1 s5 (by_component main echo_key) (7 ∷ [])
      (7 ∷ []) echoes

abbrev definitions : List ContractDefinition
definitions = record { contract = echo_key; resolution = single; protocol = service } ∷ []

resolve_contracts-IsGranted_example :
    All
      (IsGranted definitions lib.providers app.consumers secrets)
      (resolve_contracts definitions lib.providers app.consumers (λ c. none) secrets).bindings
resolve_contracts-IsGranted_example =
    resolve_contracts-IsGranted definitions lib.providers (λ c. none) secrets app.consumers

resolve_contract_providers-Shuffle_example :
    resolve_contract_providers echo_key single (echo_provider ∷ tool_provider ∷ []) none secrets
    ≡ resolve_contract_providers echo_key single (tool_provider ∷ echo_provider ∷ []) none secrets
resolve_contract_providers-Shuffle_example =
    resolve_contract_providers-Shuffle echo_key single (echo_provider ∷ tool_provider ∷ [])
      (tool_provider ∷ echo_provider ∷ []) none secrets (Shuffle.swap echo_provider tool_provider)

allowed : has_read_grant secrets worker (exact "ai.key") ≡ true
unfolding any get insert SecretPathPattern-discrete ComponentRef-discrete String-discrete grants_of
    grant_read is_below matches allows_pattern has_read_grant
allowed = refl

matched : matches (exact "ai.key") "ai.key" ≡ true
unfolding String-discrete matches
matched = refl

has_read_grant-reads_example :
    read_for_component vault secrets worker "ai.key"
    ≡ (vault "ai.key" >>= λ value. ok_or value not_found)
has_read_grant-reads_example =
    has_read_grant-reads vault secrets worker (exact "ai.key") "ai.key" allowed matched

parse_iff_example : (parse "ai.keys.*" ≡ ok (descendants "ai.keys")) ↔ (
    (as_str (descendants "ai.keys") ≡ "ai.keys.*")
    × (is_path (path_of (descendants "ai.keys")) ≡ true))
parse_iff_example = parse_iff "ai.keys.*" (descendants "ai.keys")
