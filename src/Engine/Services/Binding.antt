-- ===== src/Engine/Services/Binding.antt =====
-- `resolve_binding_uncached` of crates/extension-engine/src/services.rs: the endpoints that a caller sees, and what
-- its contract is bound to among them.
use rintawa.Prelude.{
  String, String-discrete, Bool, ◌&&◌, List, [], ◌∷◌, ◌++◌, map, any, select, find, Option, ok,
  ◌>>=◌, ◌>>◌, guard, ok_or, holds, get, if◌then◌else◌,
}
use rintawa.Runtime.Effect.{ContractKey, unavailable, not_consumer, not_service_contract}
use rintawa.Engine.Secrets.{ComponentRef, ComponentRef-discrete, SecretManager}
use rintawa.Engine.Contracts.{
  ContractKey-discrete, ContractProtocol-discrete, service, ContractDefinition,
  OwnedContractProvider, OwnedContractConsumer,
}
use rintawa.Engine.Composition.{ContractBinding, resolve_contracts}
use rintawa.Engine.Services.{
  ServiceCallResult, ServiceExtensionInstance, RouteKey, ResolvedServiceBinding,
  ServiceRuntimeState,
}
use rintawa.Engine.Services.Topology.{or_default}

-- What the loop over the instances collects.
pub record Endpoints : Type 0 where
  pub definitions : List ContractDefinition
  pub providers : List OwnedContractProvider
  pub consumers : List OwnedContractConsumer

-- One instance of the caller's scope: its endpoints if it is active, or the caller's own if it may still be
-- starting.
unfoldable pub collect_visible :
    ComponentRef → Bool → String → ServiceExtensionInstance → Endpoints → Endpoints
collect_visible caller allow_inactive_caller instance_id instance e =
    if instance.is_active
    then record {
      definitions = e.definitions ++ map (λ d. d.definition) instance.definitions;
      providers = e.providers ++ instance.providers;
      consumers = e.consumers ++ instance.consumers;
    }
    else if allow_inactive_caller && holds (String-discrete instance_id caller.instance_id)
    then record e {
      definitions = e.definitions ++ map (λ d. d.definition) instance.definitions;
      consumers =
          e.consumers
          ++ select (λ c. holds (ComponentRef-discrete c.owner caller)) instance.consumers;
    }
    else e

unfoldable pub collect_endpoints :
    String → ComponentRef → Bool → List (String × ServiceExtensionInstance) → Endpoints → Endpoints
collect_endpoints scope_id caller allow_inactive_caller [] e = e
collect_endpoints scope_id caller allow_inactive_caller ((instance_id, instance) ∷ rest) e =
    collect_endpoints scope_id caller allow_inactive_caller rest (
      if holds (String-discrete instance.scope_id scope_id)
      then collect_visible caller allow_inactive_caller instance_id instance e
      else e)

abbrev pub is_consumer_of : ComponentRef → ContractKey → OwnedContractConsumer → Bool
is_consumer_of caller contract c =
    holds (ComponentRef-discrete c.owner caller)
    && holds (ContractKey-discrete c.consumer.contract contract)

abbrev pub is_binding_of : ComponentRef → ContractKey → ContractBinding → Bool
is_binding_of caller contract b =
    holds (ComponentRef-discrete b.consumer caller)
    && holds (ContractKey-discrete b.contract contract)

-- The endpoints that a caller of a scope sees, and the preferences of the scope.
unfoldable pub visible_endpoints : ServiceRuntimeState → String → RouteKey → Endpoints
visible_endpoints s scope_id key =
    collect_endpoints scope_id key.caller key.allow_inactive_caller s.instances (record {
      definitions =
          map (λ d. d.1) (or_default (get String-discrete scope_id s.platform_definitions));
      providers = [];
      consumers = [];
    })

unfoldable pub preference : ServiceRuntimeState → String → ContractKey → Option ComponentRef
preference s scope_id contract =
    get ContractKey-discrete contract
      (or_default (get String-discrete scope_id s.preferred_providers))

-- From the test whether the caller is a consumer on.
unfoldable pub bind_endpoints :
    SecretManager
    → ServiceRuntimeState
    → String
    → RouteKey
    → Endpoints
    → ServiceCallResult ResolvedServiceBinding
bind_endpoints m s scope_id key e = do
  guard (any (is_consumer_of key.caller key.contract) e.consumers) not_consumer
  definition ←
      ok_or (find (λ d. holds (ContractKey-discrete d.contract key.contract)) e.definitions)
        unavailable
  guard (holds (ContractProtocol-discrete definition.protocol service)) not_service_contract
  b ←
      ok_or
        (find (is_binding_of key.caller key.contract)
          (resolve_contracts e.definitions e.providers e.consumers (preference s scope_id)
            m).bindings)
        unavailable
  ok (record { resolution = definition.resolution; providers = b.providers })

unfoldable pub resolve_binding_uncached :
    SecretManager → ServiceRuntimeState → RouteKey → ServiceCallResult ResolvedServiceBinding
resolve_binding_uncached m s key = do
  instance ← ok_or (get String-discrete key.caller.instance_id s.instances) unavailable
  bind_endpoints m s instance.scope_id key (visible_endpoints s instance.scope_id key)
