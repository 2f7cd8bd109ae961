-- ===== src/Engine/Services/Routing.antt =====
-- `ServiceRuntime` of crates/extension-engine/src/services.rs: which component a call reaches.
use rintawa.Prelude.{
  ℕ, String, String-discrete, ℕ_discrete, Bool, true, false, not, ◌&&◌, List, [], ◌∷◌, ◌++◌, length,
  Option, none, some, ok, err, ◌>>=◌, ◌>>◌, guard, ok_or, map_err, holds, get, insert, leb, ◌==◌,
  if◌then◌else◌,
}
use rintawa.Runtime.Effect.{
  ContractKey, unavailable, not_service_contract, unsupported_resolution, response_too_large,
}
use rintawa.Engine.Secrets.{ComponentRef, ComponentRef-discrete, SecretManager}
use rintawa.Engine.Contracts.{
  ContractKey-discrete, ContractResolutionPolicy-discrete, multiple, ContractProtocol-discrete,
  service, OwnedContractProvider,
}
use rintawa.Engine.Composition.{resolve_contract_providers}
use rintawa.Engine.Component.{Component}
use rintawa.Engine.Services.{
  ServiceCallResult, default_max_service_providers_per_contract, ServiceExtensionInstance, RouteKey,
  RouteKey-discrete, CachedRoute, ServiceRuntimeState, sync_provider_handle_policy,
  issue_provider_handle, component, ComponentIdentity, component_identity,
}
use rintawa.Engine.Services.Topology.{or_default}
use rintawa.Engine.Services.Binding.{preference, resolve_binding_uncached}

-- `len() != 1` and the first element.
abbrev pub only : List ComponentRef → ServiceCallResult ComponentRef
only (provider ∷ []) = ok provider
only other = err unsupported_resolution

unfoldable pub resolve_uncached :
    SecretManager → ServiceRuntimeState → RouteKey → ServiceCallResult ComponentRef
resolve_uncached m s key = do b ← resolve_binding_uncached m s key; only b.providers

-- The handle of a component and its identity.
abbrev pub Located : Type 0
Located = ComponentRef × Component × ComponentIdentity

unfoldable pub locate : ServiceRuntimeState → ComponentRef → ServiceCallResult Located
locate s provider = do
  c ← ok_or (component s provider) unavailable
  identity ← ok_or (component_identity s provider) unavailable
  ok (provider, c, identity)

-- A cached route counts if both revisions are the current ones.
abbrev pub if_current :
    SecretManager → ServiceRuntimeState → Option CachedRoute → Option CachedRoute
if_current m s none = none
if_current m s (some c) =
    if c.topology_revision == s.topology_revision && c.policy_revision == m.policy_revision
    then some c
    else none

unfoldable pub cached_route : SecretManager → ServiceRuntimeState → RouteKey → Option CachedRoute
cached_route m s key = if_current m s (get RouteKey-discrete key s.route_cache)

unfoldable pub cache_route :
    SecretManager
    → ServiceRuntimeState
    → RouteKey
    → ServiceCallResult ComponentRef
    → ServiceRuntimeState
cache_route m s key result = record s {
  route_cache =
      insert RouteKey-discrete key
        (record {
          topology_revision = s.topology_revision;
          policy_revision = m.policy_revision;
          result = result;
        })
        s.route_cache;
}

unfoldable pub resolve_provider :
    SecretManager → ServiceRuntimeState → RouteKey → ServiceRuntimeState × ServiceCallResult Located
resolve_provider m s key = elim (cached_route m s key) [
  | some c ↦ (s, c.result >>= locate s)
  | none ↦ (cache_route m s key (resolve_uncached m s key), resolve_uncached m s key >>= locate s)
]

-- The loop that issues the handles; what was issued before a failure stays.
unfoldable pub issue_handles :
    ServiceRuntimeState
    → RouteKey
    → List ComponentRef
    → ServiceRuntimeState × ServiceCallResult (List ℕ)
issue_handles s key [] = (s, ok [])
issue_handles s key (provider ∷ rest) =
    let (s', issued) = issue_provider_handle s (record {
      caller = key.caller;
      contract = key.contract;
      provider = provider;
      allow_inactive_caller = key.allow_inactive_caller;
    }) in
    elim issued [
      | err e ↦ (s', err e)
      | ok handle ↦
          let (s'', handles) = issue_handles s' key rest in
          (s'', handles >>= λ hs. ok (handle ∷ hs))
    ]

-- The tests of `list_providers_with_mode` on the binding.
unfoldable pub listed_providers :
    SecretManager → ServiceRuntimeState → RouteKey → ServiceCallResult (List ComponentRef)
listed_providers m s key = do
  b ← resolve_binding_uncached m s key
  guard (holds (ContractResolutionPolicy-discrete b.resolution multiple)) unsupported_resolution
  guard (leb (length b.providers) default_max_service_providers_per_contract) response_too_large
  ok b.providers

unfoldable pub list_providers_with_mode :
    SecretManager
    → ServiceRuntimeState
    → RouteKey
    → ServiceRuntimeState × ServiceCallResult (List ℕ)
list_providers_with_mode m s key =
    let synced = sync_provider_handle_policy s m.policy_revision in
    elim (listed_providers m synced key) [
      | err e ↦ (synced, err e)
      | ok providers ↦ issue_handles synced key providers
    ]

-- `!=` of two flags.
abbrev pub differs : Bool → Bool → Bool
differs true b = not b
differs false b = b

unfoldable pub resolve_provider_handle :
    SecretManager
    → ServiceRuntimeState
    → ComponentRef
    → ℕ
    → Bool
    → ServiceCallResult (ContractKey × Located)
resolve_provider_handle m s caller handle allow_inactive_caller = do
  guard (s.provider_handle_policy_revision == m.policy_revision) unavailable
  key ← ok_or (get ℕ_discrete handle s.provider_handles) unavailable
  guard
      (holds (ComponentRef-discrete key.caller caller)
        && not (differs key.allow_inactive_caller allow_inactive_caller))
      unavailable
  located ← locate s key.provider
  ok (key.contract, located)

-- `resolve_platform_provider`: an instance's providers for the host, of one extension if that is asked for.
abbrev is_asked : Option String → String → Bool
is_asked none extension_id = true
is_asked (some expected) extension_id = holds (String-discrete extension_id expected)

unfoldable pub platform_providers :
    String → Option String → List (String × ServiceExtensionInstance) → List OwnedContractProvider
platform_providers scope_id expected [] = []
platform_providers scope_id expected ((id, instance) ∷ rest) =
    let others = platform_providers scope_id expected rest in
    if instance.is_active
      && holds (String-discrete instance.scope_id scope_id)
      && is_asked expected instance.extension_id
    then instance.providers ++ others
    else others

unfoldable pub resolve_platform_provider :
    SecretManager
    → ServiceRuntimeState
    → String
    → Option String
    → ContractKey
    → ServiceCallResult Located
resolve_platform_provider m s scope_id expected contract = do
  definition ←
      ok_or
        (get ContractKey-discrete contract
          (or_default (get String-discrete scope_id s.platform_definitions)))
        unavailable
  guard (holds (ContractProtocol-discrete definition.protocol service)) not_service_contract
  resolved ←
      map_err (λ reason. unavailable)
        (resolve_contract_providers contract definition.resolution
          (platform_providers scope_id expected s.instances) (preference s scope_id contract) m)
  provider ← only resolved
  locate s provider
