-- ===== src/Engine/Services/Topology.antt =====
-- `ServiceRuntime` of crates/extension-engine/src/services.rs: the operations that change what is routed.
use rintawa.Prelude.{
  String, String-discrete, Bool, true, false, List, [], ◌∷◌, Option, none, some, holds, get, insert,
  remove, if◌then◌else◌,
}
use rintawa.Runtime.Effect.{ContractKey}
use rintawa.Engine.Secrets.{ComponentRef, ComponentRef-discrete}
use rintawa.Engine.Contracts.{
  ContractKey-discrete, ContractDefinition, ContractDefinition-discrete, OwnedContractDefinition,
  OwnedContractProvider, OwnedContractConsumer,
}
use rintawa.Engine.Component.{Component}
use rintawa.Engine.Services.{ServiceExtensionInstance, ServiceRuntimeState, topology_changed}

-- `entry(scope_id).or_default()`.
abbrev pub or_default {ℓ} : {A : Type ℓ} → Option (List A) → List A
or_default none = []
or_default (some xs) = xs

-- The error of these operations carries nothing.
unfoldable pub define_platform_contract :
    ServiceRuntimeState → String → ContractDefinition → Option ServiceRuntimeState
define_platform_contract s scope_id definition =
    let definitions = or_default (get String-discrete scope_id s.platform_definitions) in
    elim (get ContractKey-discrete definition.contract definitions) [
      | some existing ↦
          if holds (ContractDefinition-discrete existing definition) then some s else none
      | none ↦ some (
          topology_changed (record s {
            platform_definitions =
                insert String-discrete scope_id
                  (insert ContractKey-discrete definition.contract definition definitions)
                  s.platform_definitions;
          }))
    ]

unfoldable pub clear_platform_contracts_in_scope :
    ServiceRuntimeState → String → ServiceRuntimeState
clear_platform_contracts_in_scope s scope_id =
    elim (get String-discrete scope_id s.platform_definitions) [
      | none ↦ s
      | some definitions ↦ topology_changed (record s {
        platform_definitions = remove String-discrete scope_id s.platform_definitions;
      })
    ]

pub record ServiceInstanceRegistration : Type 0 where
  pub instance_id : String
  pub extension_id : String
  pub scope_id : String
  pub definitions : List OwnedContractDefinition
  pub providers : List OwnedContractProvider
  pub consumers : List OwnedContractConsumer
  pub components : List (String × Component)

unfoldable pub register_instance :
    ServiceRuntimeState → ServiceInstanceRegistration → Option ServiceRuntimeState
register_instance s r = elim (get String-discrete r.instance_id s.instances) [
  | some instance ↦ none
  | none ↦ some (
      topology_changed (record s {
        instances =
            insert String-discrete r.instance_id
              (record {
                extension_id = r.extension_id;
                scope_id = r.scope_id;
                is_active = false;
                definitions = r.definitions;
                providers = r.providers;
                consumers = r.consumers;
                components = r.components;
              })
              s.instances;
      }))
]

unfoldable pub unregister_instance : ServiceRuntimeState → String → ServiceRuntimeState
unregister_instance s instance_id = elim (get String-discrete instance_id s.instances) [
  | none ↦ s
  | some instance ↦
      topology_changed (record s { instances = remove String-discrete instance_id s.instances })
]

-- `get_mut` and a write of the flag.
abbrev set_active :
    ServiceRuntimeState → String → ServiceExtensionInstance → Bool → ServiceRuntimeState
set_active s instance_id instance is_active = topology_changed (record s {
  instances =
      insert String-discrete instance_id (record instance { is_active = is_active }) s.instances;
})

unfoldable pub activate_instance : ServiceRuntimeState → String → Option ServiceRuntimeState
activate_instance s instance_id = elim (get String-discrete instance_id s.instances) [
  | none ↦ none
  | some instance ↦
      if instance.is_active then some s else some (set_active s instance_id instance true)
]

unfoldable pub deactivate_instance : ServiceRuntimeState → String → ServiceRuntimeState
deactivate_instance s instance_id = elim (get String-discrete instance_id s.instances) [
  | none ↦ s
  | some instance ↦ if instance.is_active then set_active s instance_id instance false else s
]

abbrev pub is_provider : ComponentRef → Option ComponentRef → Bool
is_provider provider none = false
is_provider provider (some p) = holds (ComponentRef-discrete p provider)

-- A preference that is there already changes nothing.
unfoldable pub set_preferred_provider :
    ServiceRuntimeState → String → ContractKey → ComponentRef → ServiceRuntimeState
set_preferred_provider s scope_id contract provider =
    let providers = or_default (get String-discrete scope_id s.preferred_providers) in
    if is_provider provider (get ContractKey-discrete contract providers)
    then s
    else topology_changed (record s {
      preferred_providers =
          insert String-discrete scope_id (insert ContractKey-discrete contract provider providers)
            s.preferred_providers;
    })

-- A scope without a preference is removed.
abbrev store_preferences :
    String
    → List (ContractKey × ComponentRef)
    → List (String × List (ContractKey × ComponentRef))
    → List (String × List (ContractKey × ComponentRef))
store_preferences scope_id [] all = remove String-discrete scope_id all
store_preferences scope_id (p ∷ rest) all = insert String-discrete scope_id (p ∷ rest) all

unfoldable pub clear_preferred_provider :
    ServiceRuntimeState → String → ContractKey → ServiceRuntimeState
clear_preferred_provider s scope_id contract =
    let providers = or_default (get String-discrete scope_id s.preferred_providers) in
    elim (get ContractKey-discrete contract providers) [
      | none ↦ s
      | some provider ↦ topology_changed (record s {
        preferred_providers =
            store_preferences scope_id (remove ContractKey-discrete contract providers)
              s.preferred_providers;
      })
    ]
