-- ===== src/Engine/Services.antt =====
-- crates/extension-engine/src/services.rs: the routing of service calls between components. The runtime's lock
-- makes each operation a step. A policy that changes during a resolution makes the code start again, so that a
-- resolution is a step too, on the policy that it ends with.
pub mod Topology
pub mod Binding
pub mod Routing
pub mod Calls
pub mod Current
pub mod Handles
pub mod Cache
pub mod Changes
pub mod Reach
use rintawa.Prelude.{
  ℕ, ◌+◌, String, String-discrete, ℕ_discrete, Bool, true, false, not, ◌&&◌, ◌||◌, List, [], ◌∷◌,
  ◌++◌, map, any, select, find, length, Option, none, some, Result, ok, err, ◌>>=◌, ◌>>◌, guard,
  ok_or, holds, get, insert, remove, ltb, leb, ◌==◌, if◌then◌else◌,
}
use rintawa.Runtime.Effect.{
  ContractKey, ServiceCallError, unavailable, not_consumer, not_service_contract,
  unsupported_resolution, response_too_large,
}
use rintawa.Engine.Secrets.{
  ComponentRef, ComponentRef-discrete, SecretManager, next_revision, u64_modulus,
}
use rintawa.Engine.Contracts.{
  ContractKey-discrete, ContractResolutionPolicy, ContractResolutionPolicy-discrete, multiple,
  ContractProtocol-discrete, service, ContractDefinition, ContractDefinition-discrete,
  OwnedContractDefinition, OwnedContractProvider, OwnedContractConsumer,
}
use rintawa.Engine.Composition.{ContractBinding, CompositionSnapshot, resolve_contracts}
use rintawa.Engine.Component.{Component}

abbrev pub ServiceCallResult : Type 0 → Type 0
ServiceCallResult A = Result ServiceCallError A

abbrev pub default_max_service_providers_per_contract : ℕ
default_max_service_providers_per_contract = 64

pub record ServiceExtensionInstance : Type 0 where
  pub extension_id : String
  pub scope_id : String
  pub is_active : Bool
  pub definitions : List OwnedContractDefinition
  pub providers : List OwnedContractProvider
  pub consumers : List OwnedContractConsumer
  pub components : List (String × Component)

pub record RouteKey : Type 0 where
  pub caller : ComponentRef
  pub contract : ContractKey
  pub allow_inactive_caller : Bool

unfoldable pub RouteKey-discrete : Discrete RouteKey
unfolding ComponentRef-discrete ContractKey-discrete
RouteKey-discrete = hlevel (ComponentRef-discrete, ContractKey-discrete)

pub record CachedRoute : Type 0 where
  pub topology_revision : ℕ
  pub policy_revision : ℕ
  pub result : ServiceCallResult ComponentRef

pub record ProviderHandleKey : Type 0 where
  pub caller : ComponentRef
  pub contract : ContractKey
  pub provider : ComponentRef
  pub allow_inactive_caller : Bool

unfoldable pub ProviderHandleKey-discrete : Discrete ProviderHandleKey
unfolding ComponentRef-discrete ContractKey-discrete
ProviderHandleKey-discrete = hlevel (ComponentRef-discrete, ContractKey-discrete)

pub record ResolvedServiceBinding : Type 0 where
  pub resolution : ContractResolutionPolicy
  pub providers : List ComponentRef

-- A provider handle is its raw number, and its binding is the key.
pub record ServiceRuntimeState : Type 0 where
  pub instances : List (String × ServiceExtensionInstance)
  pub platform_definitions : List (String × List (ContractKey × ContractDefinition))
  pub preferred_providers : List (String × List (ContractKey × ComponentRef))
  pub topology_revision : ℕ
  pub route_cache : List (RouteKey × CachedRoute)
  pub next_provider_handle : ℕ
  pub provider_handle_policy_revision : ℕ
  pub provider_handles : List (ℕ × ProviderHandleKey)
  pub provider_handle_cache : List (ProviderHandleKey × ℕ)

-- `ServiceRuntimeState::default`.
abbrev pub empty_runtime : ServiceRuntimeState
empty_runtime = record {
  instances = [];
  platform_definitions = [];
  preferred_providers = [];
  topology_revision = 0;
  route_cache = [];
  next_provider_handle = 0;
  provider_handle_policy_revision = 0;
  provider_handles = [];
  provider_handle_cache = [];
}

unfoldable pub topology_changed : ServiceRuntimeState → ServiceRuntimeState
topology_changed s = record s {
  topology_revision = next_revision s.topology_revision;
  route_cache = [];
  provider_handles = [];
  provider_handle_cache = [];
}

unfoldable pub sync_provider_handle_policy : ServiceRuntimeState → ℕ → ServiceRuntimeState
sync_provider_handle_policy s policy_revision =
    if s.provider_handle_policy_revision == policy_revision then s else record s {
      provider_handle_policy_revision = policy_revision;
      provider_handles = [];
      provider_handle_cache = [];
    }

-- `checked_add(1)` of the raw number.
unfoldable pub issue_new_handle :
    ServiceRuntimeState → ProviderHandleKey → ServiceRuntimeState × ServiceCallResult ℕ
issue_new_handle s key =
    let raw = s.next_provider_handle + 1 in
    if raw == u64_modulus then (s, err unavailable) else (
      record s {
        next_provider_handle = raw;
        provider_handles = insert ℕ_discrete raw key s.provider_handles;
        provider_handle_cache = insert ProviderHandleKey-discrete key raw s.provider_handle_cache;
      },
      ok raw,
    )

unfoldable pub issue_provider_handle :
    ServiceRuntimeState → ProviderHandleKey → ServiceRuntimeState × ServiceCallResult ℕ
issue_provider_handle s key = elim (get ProviderHandleKey-discrete key s.provider_handle_cache) [
  | some handle ↦ (s, ok handle)
  | none ↦ issue_new_handle s key
]

unfoldable pub component : ServiceRuntimeState → ComponentRef → Option Component
component s owner = elim (get String-discrete owner.instance_id s.instances) [
  | none ↦ none
  | some instance ↦ get String-discrete owner.component_id instance.components
]

pub record ComponentIdentity : Type 0 where
  pub extension_id : String
  pub instance_id : String
  pub scope_id : String
  pub component_id : String

unfoldable pub component_identity : ServiceRuntimeState → ComponentRef → Option ComponentIdentity
component_identity s owner = elim (get String-discrete owner.instance_id s.instances) [
  | none ↦ none
  | some instance ↦ elim (get String-discrete owner.component_id instance.components) [
    | none ↦ none
    | some c ↦ some (record {
      extension_id = instance.extension_id;
      instance_id = owner.instance_id;
      scope_id = instance.scope_id;
      component_id = owner.component_id;
    })
  ]
]
