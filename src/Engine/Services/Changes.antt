-- ===== src/Engine/Services/Changes.antt =====
-- The operations of crates/extension-engine/src/services.rs and secrets.rs as steps, which keep the caches right.
use rintawa.Prelude.{
  ◌+◌, ◌<◌, ◌≡◌, subst, inl, inr, String, String-discrete, any, Option, none, some, Option-cases,
  Bool-cases, holds, get, arith,
}
use rintawa.Runtime.Effect.{ContractKey}
use rintawa.Engine.Secrets.{
  ComponentRef, ComponentRef-discrete, SecretPathPattern, SecretPathPattern-discrete, SecretManager,
  no_grants, next_revision, u64_modulus, grants_of, grant_read, revoke_component,
}
use rintawa.Engine.Contracts.{ContractKey-discrete, ContractDefinition, ContractDefinition-discrete}
use rintawa.Engine.Services.{RouteKey, ServiceRuntimeState, empty_runtime}
use rintawa.Engine.Services.Topology.{
  or_default, define_platform_contract, clear_platform_contracts_in_scope,
  ServiceInstanceRegistration, register_instance, unregister_instance, activate_instance,
  deactivate_instance, is_provider, set_preferred_provider, clear_preferred_provider,
}
use rintawa.Engine.Services.Routing.{resolve_provider, list_providers_with_mode}
use rintawa.Engine.Services.Cache.{resolve_provider-IsCurrent, later-IsCurrent}
use rintawa.Engine.Services.Handles.{list_providers-IsCurrent}
use rintawa.Engine.Services.Current.{IsCurrent, topology_changed-IsCurrent}

pub record Host : Type 0 where
  pub secrets : SecretManager
  pub services : ServiceRuntimeState

-- One operation. A grant or a revocation counts as long as the revision, a `u64`, does not wrap.
pub data Step : Host → Host → Type 0 where
  defines :
      (h : Host) (scope_id : String) (d : ContractDefinition) (s : ServiceRuntimeState)
      → define_platform_contract h.services scope_id d ≡ some s
      → Step h (record h { services = s })
  clears :
      (h : Host) (scope_id : String)
      → Step h (record h { services = clear_platform_contracts_in_scope h.services scope_id })
  registers :
      (h : Host) (r : ServiceInstanceRegistration) (s : ServiceRuntimeState)
      → register_instance h.services r ≡ some s
      → Step h (record h { services = s })
  unregisters :
      (h : Host) (instance_id : String)
      → Step h (record h { services = unregister_instance h.services instance_id })
  activates :
      (h : Host) (instance_id : String) (s : ServiceRuntimeState)
      → activate_instance h.services instance_id ≡ some s
      → Step h (record h { services = s })
  deactivates :
      (h : Host) (instance_id : String)
      → Step h (record h { services = deactivate_instance h.services instance_id })
  prefers :
      (h : Host) (scope_id : String) (contract : ContractKey) (provider : ComponentRef)
      → Step h
          (record h { services = set_preferred_provider h.services scope_id contract provider })
  forgets :
      (h : Host) (scope_id : String) (contract : ContractKey)
      → Step h (record h { services = clear_preferred_provider h.services scope_id contract })
  grants :
      (h : Host) (owner : ComponentRef) (pattern : SecretPathPattern)
      → h.secrets.policy_revision + 1 < u64_modulus
      → Step h (record h { secrets = grant_read h.secrets owner pattern })
  revokes :
      (h : Host) (owner : ComponentRef)
      → h.secrets.policy_revision + 1 < u64_modulus
      → Step h (record h { secrets = revoke_component h.secrets owner })
  resolves :
      (h : Host) (key : RouteKey)
      → Step h (record h { services = (resolve_provider h.secrets h.services key).0 })
  lists :
      (h : Host) (key : RouteKey)
      → Step h (record h { services = (list_providers_with_mode h.secrets h.services key).0 })

pub data Reach : Host → Type 0 where
  fresh : Reach (record { secrets = no_grants; services = empty_runtime })
  next : {h h' : Host} → Reach h → Step h h' → Reach h'

-- The state of an operation that may fail.
abbrev Good : SecretManager → Option ServiceRuntimeState → Type 0
Good m none = Unit
Good m (some s) = IsCurrent m s

-- A state is the old one, or one whose topology changed.
module _ (m : SecretManager) (s : ServiceRuntimeState) (v : IsCurrent m s) where
  defined :
      (scope_id : String) (d : ContractDefinition) → Good m (define_platform_contract s scope_id d)
  unfolding define_platform_contract
  defined scope_id d =
      let definitions = or_default (get String-discrete scope_id s.platform_definitions) in
      elim (Option-cases (get ContractKey-discrete d.contract definitions)) [
        | inl new ↦
            rw (new, define_platform_contract) (topology_changed-IsCurrent m _ v.handle_policy)
        | inr (existing, old) ↦ elim (Bool-cases (holds (ContractDefinition-discrete existing d))) [
          | inl same ↦ rw (old, same, define_platform_contract) v
          | inr other ↦ rw (old, other, define_platform_contract) tt
        ]
      ]

  cleared : (scope_id : String) → IsCurrent m (clear_platform_contracts_in_scope s scope_id)
  unfolding clear_platform_contracts_in_scope
  cleared scope_id = elim (Option-cases (get String-discrete scope_id s.platform_definitions)) [
    | inl nothing ↦ rw (nothing, clear_platform_contracts_in_scope) v
    | inr (definitions, there) ↦
        rw (there, clear_platform_contracts_in_scope)
          (topology_changed-IsCurrent m _ v.handle_policy)
  ]

  registered : (r : ServiceInstanceRegistration) → Good m (register_instance s r)
  unfolding register_instance
  registered r = elim (Option-cases (get String-discrete r.instance_id s.instances)) [
    | inl new ↦ rw (new, register_instance) (topology_changed-IsCurrent m _ v.handle_policy)
    | inr (instance, old) ↦ rw (old, register_instance) tt
  ]

  unregistered : (id : String) → IsCurrent m (unregister_instance s id)
  unfolding unregister_instance
  unregistered id = elim (Option-cases (get String-discrete id s.instances)) [
    | inl nothing ↦ rw (nothing, unregister_instance) v
    | inr (instance, there) ↦
        rw (there, unregister_instance) (topology_changed-IsCurrent m _ v.handle_policy)
  ]

  activated : (id : String) → Good m (activate_instance s id)
  unfolding activate_instance
  activated id = elim (Option-cases (get String-discrete id s.instances)) [
    | inl nothing ↦ rw (nothing, activate_instance) tt
    | inr (instance, there) ↦ elim (Bool-cases instance.is_active) [
      | inl on ↦ rw (there, on, activate_instance) v
      | inr off ↦
          rw (there, off, activate_instance) (topology_changed-IsCurrent m _ v.handle_policy)
    ]
  ]

  deactivated : (id : String) → IsCurrent m (deactivate_instance s id)
  unfolding deactivate_instance
  deactivated id = elim (Option-cases (get String-discrete id s.instances)) [
    | inl nothing ↦ rw (nothing, deactivate_instance) v
    | inr (instance, there) ↦ elim (Bool-cases instance.is_active) [
      | inl on ↦
          rw (there, on, deactivate_instance) (topology_changed-IsCurrent m _ v.handle_policy)
      | inr off ↦ rw (there, off, deactivate_instance) v
    ]
  ]

  preferred :
      (scope_id : String) (contract : ContractKey) (provider : ComponentRef)
      → IsCurrent m (set_preferred_provider s scope_id contract provider)
  unfolding set_preferred_provider
  preferred scope_id contract provider =
      elim (Bool-cases (
        is_provider provider (
          get ContractKey-discrete contract
            (or_default (get String-discrete scope_id s.preferred_providers))))) [
              | inl same ↦ rw same v
              | inr other ↦ rw other (topology_changed-IsCurrent m _ v.handle_policy)
            ]

  forgotten :
      (scope_id : String) (contract : ContractKey)
      → IsCurrent m (clear_preferred_provider s scope_id contract)
  unfolding clear_preferred_provider
  forgotten scope_id contract =
      elim (Option-cases (
        get ContractKey-discrete contract
          (or_default (get String-discrete scope_id s.preferred_providers)))) [
            | inl nothing ↦ rw (nothing, clear_preferred_provider) v
            | inr (provider, there) ↦
                rw (there, clear_preferred_provider)
                  (topology_changed-IsCurrent m _ v.handle_policy)
          ]

  granted :
      (owner : ComponentRef) (pattern : SecretPathPattern)
      → m.policy_revision + 1 < u64_modulus
      → IsCurrent (grant_read m owner pattern) s
  unfolding grant_read next_revision
  granted owner pattern fits =
      elim (Bool-cases
        (any (λ p. holds (SecretPathPattern-discrete p pattern)) (grants_of m owner))) [
          | inl old ↦ rw old v
          | inr new ↦ rw new (later-IsCurrent m _ s (ground arith) v)
        ]

  revoked :
      (owner : ComponentRef)
      → m.policy_revision + 1 < u64_modulus
      → IsCurrent (revoke_component m owner) s
  unfolding revoke_component next_revision
  revoked owner fits = elim (Option-cases (get ComponentRef-discrete owner m.read_grants)) [
    | inl nothing ↦ rw (nothing, revoke_component) v
    | inr (patterns, there) ↦ rw (there, revoke_component) (later-IsCurrent m _ s (ground arith) v)
  ]

pub Step-IsCurrent :
    {h h' : Host} → Step h h' → IsCurrent h.secrets h.services → IsCurrent h'.secrets h'.services
Step-IsCurrent (defines h scope_id d s e) v =
    subst (Good h.secrets) e (defined h.secrets h.services v scope_id d)
Step-IsCurrent (clears h scope_id) v = cleared h.secrets h.services v scope_id
Step-IsCurrent (registers h r s e) v =
    subst (Good h.secrets) e (registered h.secrets h.services v r)
Step-IsCurrent (unregisters h id) v = unregistered h.secrets h.services v id
Step-IsCurrent (activates h id s e) v =
    subst (Good h.secrets) e (activated h.secrets h.services v id)
Step-IsCurrent (deactivates h id) v = deactivated h.secrets h.services v id
Step-IsCurrent (prefers h scope_id contract provider) v =
    preferred h.secrets h.services v scope_id contract provider
Step-IsCurrent (forgets h scope_id contract) v = forgotten h.secrets h.services v scope_id contract
Step-IsCurrent (grants h owner pattern fits) v = granted h.secrets h.services v owner pattern fits
Step-IsCurrent (revokes h owner fits) v = revoked h.secrets h.services v owner fits
Step-IsCurrent (resolves h key) v = resolve_provider-IsCurrent h.secrets h.services key v
Step-IsCurrent (lists h key) v = list_providers-IsCurrent h.secrets h.services key v
