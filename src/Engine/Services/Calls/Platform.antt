-- ===== src/Engine/Services/Calls/Platform.antt =====
-- `resolve_platform_provider` of crates/extension-engine/src/services.rs reaches registered components only.
use rintawa.Prelude.{
  ◌≡◌, String, String-discrete, true, any, Option, ok, >>=-eq-ok, guard->>-eq-ok, ok_or, map_err,
  holds, get,
}
use rintawa.Runtime.Effect.{ContractKey, unavailable}
use rintawa.Engine.Secrets.{SecretManager}
use rintawa.Engine.Composition.{UnresolvedContractReason, resolve_contract_providers}
use rintawa.Engine.Services.Topology.{or_default}
use rintawa.Engine.Contracts.{ContractKey-discrete, ContractProtocol-discrete, service}
use rintawa.Engine.Services.{ServiceRuntimeState}
use rintawa.Engine.Services.Routing.{Located, only, platform_providers, resolve_platform_provider}
use rintawa.Engine.Services.Binding.{preference}
use rintawa.Engine.Services.Calls.Stack.{registered, same_ref, locate-registered}

pub platform-registered :
    (m : SecretManager) (s : ServiceRuntimeState) (scope_id : String) (expected : Option String)
    (contract : ContractKey) (l : Located)
    → resolve_platform_provider m s scope_id expected contract ≡ ok l
    → any (same_ref l.0) (registered s.instances) ≡ true
unfolding resolve_platform_provider
platform-registered m s scope_id expected contract l h =
    let (d, e1, h1) =
      >>=-eq-ok
        (ok_or
          (get ContractKey-discrete contract
            (or_default (get String-discrete scope_id s.platform_definitions)))
          unavailable)
        _ h in
    let (callable, h2) =
      guard->>-eq-ok (holds (ContractProtocol-discrete d.protocol service)) _ _ h1 in
    let (rs, e3, h3) =
      >>=-eq-ok
        (map_err (λ (reason : UnresolvedContractReason). unavailable)
          (resolve_contract_providers contract d.resolution
            (platform_providers scope_id expected s.instances) (preference s scope_id contract) m))
        _ h2 in
    let (p, e4, h4) = >>=-eq-ok (only rs) _ h3 in locate-registered s p l h4
