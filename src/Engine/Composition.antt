-- ===== src/Engine/Composition.antt =====
-- crates/extension-engine/src/composition.rs: the resolution of the contracts that components consume to the
-- components that provide them.
pub mod Order
pub mod Eligible
use rintawa.Prelude.{
  ℕ, String, String-discrete, Bool, true, false, not, List, [], ◌∷◌, ◌++◌, map, any, all, select,
  find, Option, none, some, Result, ok, err, ◌>>=◌, ◌>>◌, guard, ok_or, holds, sort_by, codes_leb,
  ◌&&◌, ◌||◌, if◌then◌else◌,
}
use rintawa.Runtime.Effect.{ContractKey}
use rintawa.Engine.Secrets.{ComponentRef, ComponentRef-discrete, SecretManager, has_read_grant}
use rintawa.Engine.Contracts.{
  ContractKey-discrete, to_string, ContractResolutionPolicy, single, multiple,
  ContractGrantRequirement, secret_read, ContractDefinition, OwnedContractProvider,
  OwnedContractConsumer, component_ref_leb,
}

pub record ContractBinding : Type 0 where
  pub consumer : ComponentRef
  pub contract : ContractKey
  pub required : Bool
  pub providers : List ComponentRef

pub data UnresolvedContractReason : Type 0 where
  undefined_contract consumer_ineligible no_provider no_eligible_provider
        preferred_provider_unavailable :
      UnresolvedContractReason

pub record UnresolvedContract : Type 0 where
  pub consumer : ComponentRef
  pub contract : ContractKey
  pub required : Bool
  pub reason : UnresolvedContractReason

pub record CompositionSnapshot : Type 0 where
  pub bindings : List ContractBinding
  pub unresolved : List UnresolvedContract

unfoldable pub requirements_satisfied :
    SecretManager → ComponentRef → List ContractGrantRequirement → Bool
requirements_satisfied m owner requirements =
    all (λ r. elim r [ secret_read pattern ↦ has_read_grant m owner pattern ]) requirements

-- The test of the `retain`, and of the `find` for a preferred provider.
unfoldable pub is_eligible : SecretManager → OwnedContractProvider → Bool
is_eligible m candidate =
    requirements_satisfied m candidate.owner candidate.provider.required_grants

unfoldable pub provides : ContractKey → OwnedContractProvider → Bool
provides contract candidate = holds (ContractKey-discrete candidate.provider.contract contract)

unfoldable pub is_preferred : SecretManager → ComponentRef → OwnedContractProvider → Bool
unfolding is_eligible
is_preferred m preferred candidate =
    holds (ComponentRef-discrete candidate.owner preferred) && is_eligible m candidate

abbrev pub owner_leb : OwnedContractProvider → OwnedContractProvider → Bool
owner_leb left right = component_ref_leb left.owner right.owner

-- The last `match` of `resolve_contract_providers`, on the eligible candidates in their order.
unfoldable pub select_providers :
    ContractResolutionPolicy
    → List OwnedContractProvider
    → Result UnresolvedContractReason (List ComponentRef)
select_providers resolution [] = err UnresolvedContractReason.no_eligible_provider
select_providers single (first ∷ rest) = ok (first.owner ∷ [])
select_providers multiple (first ∷ rest) = ok (map (λ p. p.owner) (first ∷ rest))

-- From the test for a missing provider on.
unfoldable pub resolve_matching :
    SecretManager
    → ContractResolutionPolicy
    → List OwnedContractProvider
    → Result UnresolvedContractReason (List ComponentRef)
unfolding select_providers
resolve_matching m resolution [] = err UnresolvedContractReason.no_provider
resolve_matching m resolution (p ∷ rest) =
    select_providers resolution (sort_by owner_leb (select (is_eligible m) (p ∷ rest)))

-- The branch for a preferred provider.
unfoldable pub resolve_preferred :
    SecretManager
    → ComponentRef
    → List OwnedContractProvider
    → Result UnresolvedContractReason (List ComponentRef)
resolve_preferred m preferred matching = do
  provider ←
      ok_or (find (is_preferred m preferred) matching)
        UnresolvedContractReason.preferred_provider_unavailable
  ok (provider.owner ∷ [])

unfoldable pub resolve_by :
    SecretManager
    → ContractResolutionPolicy
    → Option ComponentRef
    → List OwnedContractProvider
    → Result UnresolvedContractReason (List ComponentRef)
resolve_by m single (some preferred) matching = resolve_preferred m preferred matching
resolve_by m single none matching = resolve_matching m single matching
resolve_by m multiple preferred matching = resolve_matching m multiple matching

unfoldable pub resolve_contract_providers :
    ContractKey
    → ContractResolutionPolicy
    → List OwnedContractProvider
    → Option ComponentRef
    → SecretManager
    → Result UnresolvedContractReason (List ComponentRef)
resolve_contract_providers contract resolution providers preferred m =
    resolve_by m resolution preferred (select (provides contract) providers)

-- What one consumer of the loop of `resolve_contracts` is resolved to.
unfoldable pub resolve_consumer :
    List ContractDefinition
    → List OwnedContractProvider
    → (ContractKey → Option ComponentRef)
    → SecretManager
    → OwnedContractConsumer
    → Result UnresolvedContractReason (List ComponentRef)
resolve_consumer definitions providers preferred m c = do
  definition ←
      ok_or (find (λ d. holds (ContractKey-discrete d.contract c.consumer.contract)) definitions)
        UnresolvedContractReason.undefined_contract
  guard (requirements_satisfied m c.owner c.consumer.required_grants)
      UnresolvedContractReason.consumer_ineligible
  resolve_contract_providers c.consumer.contract definition.resolution providers
      (preferred c.consumer.contract) m

unfoldable pub push_resolved :
    OwnedContractConsumer
    → Result UnresolvedContractReason (List ComponentRef)
    → CompositionSnapshot
    → CompositionSnapshot
push_resolved c (ok selected) s = record s {
  bindings =
      s.bindings
      ++ record {
        consumer = c.owner;
        contract = c.consumer.contract;
        required = c.consumer.required;
        providers = selected;
      }
        ∷ [];
}
push_resolved c (err reason) s = record s {
  unresolved =
      s.unresolved
      ++ record {
        consumer = c.owner;
        contract = c.consumer.contract;
        required = c.consumer.required;
        reason = reason;
      }
        ∷ [];
}

unfoldable pub resolve_each :
    List ContractDefinition
    → List OwnedContractProvider
    → (ContractKey → Option ComponentRef)
    → SecretManager
    → List OwnedContractConsumer
    → CompositionSnapshot
    → CompositionSnapshot
resolve_each definitions providers preferred m [] s = s
resolve_each definitions providers preferred m (c ∷ rest) s =
    resolve_each definitions providers preferred m rest
      (push_resolved c (resolve_consumer definitions providers preferred m c) s)

-- The comparison of both `sort_by`: by the consumer, then by the text of the contract.
abbrev pub endpoint_leb : ComponentRef × ContractKey → ComponentRef × ContractKey → Bool
endpoint_leb left right =
    component_ref_leb left.0 right.0
    && (not (component_ref_leb right.0 left.0) || codes_leb (to_string left.1) (to_string right.1))

unfoldable pub resolve_contracts :
    List ContractDefinition
    → List OwnedContractProvider
    → List OwnedContractConsumer
    → (ContractKey → Option ComponentRef)
    → SecretManager
    → CompositionSnapshot
resolve_contracts definitions providers consumers preferred m =
    let s =
      resolve_each definitions providers preferred m consumers
        (record { bindings = []; unresolved = [] }) in
    record {
      bindings =
          sort_by (λ l r. endpoint_leb (l.consumer, l.contract) (r.consumer, r.contract))
            s.bindings;
      unresolved =
          sort_by (λ l r. endpoint_leb (l.consumer, l.contract) (r.consumer, r.contract))
            s.unresolved;
    }
