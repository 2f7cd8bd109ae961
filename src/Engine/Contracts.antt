-- ===== src/Engine/Contracts.antt =====
-- crates/sdk/src/contracts.rs: the versioned contracts that components define, provide and consume; and the
-- endpoints of crates/extension-engine/src/composition.rs with their owners.
use rintawa.Prelude.{
  ℕ, String-discrete, ℕ_discrete, List, ◌∷◌, ◌++◌, Bool, codes, decimal, codes_leb, ◌&&◌, ◌||◌, not,
}
use rintawa.Runtime.Effect.{ContractKey}
use rintawa.Engine.Secrets.{ComponentRef, SecretPathPattern}

unfoldable pub ContractKey-discrete : Discrete ContractKey
unfolding String-discrete ℕ_discrete
ContractKey-discrete = hlevel (String-discrete, ℕ_discrete)

-- `Display` of a contract key: the identifier, `@`, and the version.
abbrev pub to_string : ContractKey → List ℕ
to_string key = codes key.id ++ b'@' ∷ decimal key.version

pub data ContractResolutionPolicy : Type 0 where
  single multiple : ContractResolutionPolicy

unfoldable pub ContractResolutionPolicy-discrete : Discrete ContractResolutionPolicy
ContractResolutionPolicy-discrete = hlevel

pub data ContractProtocol : Type 0 where
  binding service : ContractProtocol

unfoldable pub ContractProtocol-discrete : Discrete ContractProtocol
ContractProtocol-discrete = hlevel

pub record ContractDefinition : Type 0 where
  pub contract : ContractKey
  pub resolution : ContractResolutionPolicy
  pub protocol : ContractProtocol

unfoldable pub ContractDefinition-discrete : Discrete ContractDefinition
unfolding ContractKey-discrete ContractResolutionPolicy-discrete ContractProtocol-discrete
ContractDefinition-discrete =
    hlevel (ContractKey-discrete, ContractResolutionPolicy-discrete, ContractProtocol-discrete)

pub data ContractGrantRequirement : Type 0 where
  secret_read : SecretPathPattern → ContractGrantRequirement

pub record ContractProvider : Type 0 where
  pub contract : ContractKey
  pub required_grants : List ContractGrantRequirement

pub record ContractConsumer : Type 0 where
  pub contract : ContractKey
  pub required : Bool
  pub required_grants : List ContractGrantRequirement

pub record OwnedContractDefinition : Type 0 where
  pub owner : ComponentRef
  pub definition : ContractDefinition

pub record OwnedContractProvider : Type 0 where
  pub owner : ComponentRef
  pub provider : ContractProvider

pub record OwnedContractConsumer : Type 0 where
  pub owner : ComponentRef
  pub consumer : ContractConsumer

-- `component_ref_key(a) <= component_ref_key(b)`.
unfoldable pub component_ref_leb : ComponentRef → ComponentRef → Bool
component_ref_leb a b =
    (codes_leb (codes a.instance_id) (codes b.instance_id)
      && not (codes_leb (codes b.instance_id) (codes a.instance_id)))
    || (codes_leb (codes a.instance_id) (codes b.instance_id)
        && codes_leb (codes a.component_id) (codes b.component_id))
