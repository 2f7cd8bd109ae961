-- ===== src/Tests/Extensions.antt =====
-- Two extensions, and the routing of crates/extension-engine/src/services.rs while they are started.
use rintawa.Prelude.{
  ◌≡◌, refl, String-discrete, ℕ_discrete, Bool, true, false, some, [], ◌∷◌, any, all, find, select,
  get, insert, sort_by, codes_leb, decimal,
}
use rintawa.Runtime.Effect.{ContractKey}
use rintawa.Engine.Secrets.{
  ComponentRef, ComponentRef-discrete, exact, descendants, is_below, allows_pattern, SecretManager,
  next_revision, grants_of, has_read_grant,
}
use rintawa.Engine.Contracts.{
  ContractKey-discrete, ContractResolutionPolicy-discrete, single, multiple,
  ContractProtocol-discrete, service, secret_read, OwnedContractProvider, component_ref_leb,
}
use rintawa.Engine.Component.{Component, returns}
use rintawa.Engine.Composition.{
  requirements_satisfied, is_eligible, provides, resolve_contract_providers, resolve_consumer,
  push_resolved, resolve_each, resolve_contracts, select_providers, resolve_matching, resolve_by,
}
use rintawa.Engine.Services.{
  RouteKey, ProviderHandleKey, ProviderHandleKey-discrete, ServiceExtensionInstance,
  ServiceRuntimeState, empty_runtime, topology_changed, sync_provider_handle_policy,
  issue_new_handle, issue_provider_handle,
}
use rintawa.Engine.Services.Topology.{
  ServiceInstanceRegistration, register_instance, activate_instance,
}
use rintawa.Engine.Services.Routing.{issue_handles, listed_providers, list_providers_with_mode}
use rintawa.Engine.Services.Binding.{
  collect_visible, collect_endpoints, visible_endpoints, preference, bind_endpoints,
  resolve_binding_uncached,
}

abbrev pub echo_key : ContractKey
echo_key = record { id = "example:echo"; version = 1 }

abbrev pub tool_key : ContractKey
tool_key = record { id = "example:tool"; version = 1 }

abbrev pub main : ComponentRef
main = record { instance_id = "app"; component_id = "main" }

abbrev pub worker : ComponentRef
worker = record { instance_id = "lib"; component_id = "worker" }

abbrev pub echo : Component
echo = record {
  service_message_limit = some 16;
  handle_service = λ contract request. returns request;
}

abbrev pub app : ServiceInstanceRegistration
app = record {
  instance_id = "app";
  extension_id = "example.app";
  scope_id = "host";
  definitions =
      record {
        owner = main;
        definition = record { contract = echo_key; resolution = single; protocol = service };
      }
      ∷ record {
        owner = main;
        definition = record { contract = tool_key; resolution = multiple; protocol = service };
      }
      ∷ [];
  providers = [];
  consumers =
      record {
        owner = main;
        consumer = record { contract = echo_key; required = true; required_grants = [] };
      }
      ∷ record {
        owner = main;
        consumer = record { contract = tool_key; required = false; required_grants = [] };
      }
      ∷ [];
  components = ("main", echo) ∷ [];
}

abbrev pub echo_provider : OwnedContractProvider
echo_provider = record {
  owner = worker;
  provider = record { contract = echo_key; required_grants = secret_read (exact "ai.key") ∷ [] };
}

abbrev pub tool_provider : OwnedContractProvider
tool_provider = record {
  owner = worker;
  provider = record { contract = tool_key; required_grants = [] };
}

abbrev pub lib : ServiceInstanceRegistration
lib = record {
  instance_id = "lib";
  extension_id = "example.lib";
  scope_id = "host";
  definitions = [];
  providers = echo_provider ∷ tool_provider ∷ [];
  consumers = [];
  components = ("worker", echo) ∷ [];
}

abbrev instance_of : ServiceInstanceRegistration → Bool → ServiceExtensionInstance
instance_of r is_active = record {
  extension_id = r.extension_id;
  scope_id = r.scope_id;
  is_active = is_active;
  definitions = r.definitions;
  providers = r.providers;
  consumers = r.consumers;
  components = r.components;
}

-- After both were registered and activated.
abbrev pub s1 : ServiceRuntimeState
s1 = record empty_runtime { instances = ("app", instance_of app false) ∷ []; topology_revision = 1 }

abbrev pub s2 : ServiceRuntimeState
s2 = record s1 {
  instances = ("app", instance_of app false) ∷ ("lib", instance_of lib false) ∷ [];
  topology_revision = 2;
}

abbrev pub s3 : ServiceRuntimeState
s3 = record s1 {
  instances = ("app", instance_of app true) ∷ ("lib", instance_of lib false) ∷ [];
  topology_revision = 3;
}

abbrev pub s4 : ServiceRuntimeState
s4 = record s1 {
  instances = ("app", instance_of app true) ∷ ("lib", instance_of lib true) ∷ [];
  topology_revision = 4;
}

abbrev pub secrets : SecretManager
secrets = record { read_grants = (worker, descendants "ai" ∷ []) ∷ []; policy_revision = 1 }

abbrev pub route : ContractKey → RouteKey
route contract = record { caller = main; contract = contract; allow_inactive_caller = false }

abbrev handle_key : ProviderHandleKey
handle_key = record {
  caller = main;
  contract = tool_key;
  provider = worker;
  allow_inactive_caller = false;
}

-- After the tools were listed.
abbrev pub s5 : ServiceRuntimeState
s5 = record s4 {
  next_provider_handle = 1;
  provider_handle_policy_revision = 1;
  provider_handles = (1, handle_key) ∷ [];
  provider_handle_cache = (handle_key, 1) ∷ [];
}

pub registers_app : register_instance empty_runtime app ≡ some s1
unfolding get insert topology_changed next_revision register_instance
registers_app = refl

pub registers_lib : register_instance s1 lib ≡ some s2
unfolding get insert String-discrete topology_changed next_revision register_instance
registers_lib = refl

pub activates_app : activate_instance s2 "app" ≡ some s3
unfolding get insert String-discrete topology_changed next_revision register_instance
    activate_instance
activates_app = refl

pub activates_lib : activate_instance s3 "lib" ≡ some s4
unfolding get insert String-discrete topology_changed next_revision register_instance
    activate_instance
activates_lib = refl

pub tools_listed : (list_providers_with_mode secrets s4 (route tool_key)).0 ≡ s5
unfolding get insert any all find select sort_by String-discrete ℕ_discrete ComponentRef-discrete
    ContractKey-discrete ProviderHandleKey-discrete ContractResolutionPolicy-discrete
    ContractProtocol-discrete grants_of has_read_grant allows_pattern is_below
    requirements_satisfied is_eligible provides component_ref_leb codes_leb decimal select_providers
    resolve_matching resolve_by resolve_contract_providers resolve_consumer push_resolved
    resolve_each resolve_contracts collect_visible collect_endpoints visible_endpoints preference
    bind_endpoints resolve_binding_uncached listed_providers sync_provider_handle_policy
    issue_new_handle issue_provider_handle issue_handles list_providers_with_mode
tools_listed = refl
