-- ===== src/Engine/Services/Handles.antt =====
-- The provider handles of crates/extension-engine/src/services.rs stay right while they are issued.
use rintawa.Engine.Services.Current.{
  route_of, IsListed, IsCurrent, SameTopology, IsListed-same, IsRoute-same,
}
use rintawa.Prelude.{
  ◌+◌, ◌≡◌, ◌∙◌, refl, sym, subst, inl, inr, ℕ_discrete, List, [], ◌∷◌, length, Option-cases,
  Bool-cases, ok, Result-cases, >>=-eq-ok, guard->>-eq-ok, holds, holds_iff, get, insert,
  found-insert, In, All, All-mono, All-of_In, leb, ◌==◌, arith,
}
use rintawa.Engine.Secrets.{ComponentRef, SecretManager, u64_modulus}
use rintawa.Engine.Contracts.{ContractResolutionPolicy-discrete, multiple}
use rintawa.Engine.Services.{
  default_max_service_providers_per_contract, RouteKey, ProviderHandleKey,
  ProviderHandleKey-discrete, ServiceRuntimeState, sync_provider_handle_policy, issue_new_handle,
  issue_provider_handle,
}
use rintawa.Engine.Services.Routing.{issue_handles, listed_providers, list_providers_with_mode}
use rintawa.Engine.Services.Binding.{resolve_binding_uncached}

sync-IsCurrent :
    (m : SecretManager) (s : ServiceRuntimeState)
    → IsCurrent m s
    → IsCurrent m (sync_provider_handle_policy s m.policy_revision)
unfolding sync_provider_handle_policy get
sync-IsCurrent m s v = elim (Bool-cases (s.provider_handle_policy_revision == m.policy_revision)) [
  | inl same ↦ rw same v
  | inr other ↦ rw other (record {
    routes = λ key c h.
        IsRoute-same m s
          (record s {
            provider_handle_policy_revision = m.policy_revision;
            provider_handles = [];
            provider_handle_cache = [];
          })
          key c
          (record { instances = refl; platform_definitions = refl; preferred_providers = refl })
          (v.routes key c h);
    handle_policy = omega arith;
    handles = λ h key e p. absurd (cc);
  })
]

issue_new_handle-IsCurrent :
    (m : SecretManager) (s : ServiceRuntimeState) (key : ProviderHandleKey)
    → IsCurrent m s
    → IsListed m s (route_of key) key.provider
    → IsCurrent m (issue_new_handle s key).0 × SameTopology s (issue_new_handle s key).0
unfolding issue_new_handle
issue_new_handle-IsCurrent m s key v l =
    elim (Bool-cases (s.next_provider_handle + 1 == u64_modulus)) [
      | inl last ↦
          rw last (
            v,
            record { instances = refl; platform_definitions = refl; preferred_providers = refl },
          )
      | inr more ↦
          let raw = s.next_provider_handle + 1 in
          let s' : ServiceRuntimeState = record s {
            next_provider_handle = raw;
            provider_handles = insert ℕ_discrete raw key s.provider_handles;
            provider_handle_cache =
                insert ProviderHandleKey-discrete key raw s.provider_handle_cache;
          } in
          let t : SameTopology s s' = record {
            instances = refl;
            platform_definitions = refl;
            preferred_providers = refl;
          } in
          let after : IsCurrent m s' = record {
            routes = λ k c h. IsRoute-same m s s' k c t (v.routes k c h);
            handle_policy = v.handle_policy;
            handles = λ h k e p. elim (found-insert ℕ_discrete raw h key s.provider_handles e) [
              | inl (n, same) ↦
                  IsListed-same m s s' (route_of k) k.provider t
                    (subst (λ k. IsListed m s (route_of k) k.provider) same l)
              | inr old ↦ IsListed-same m s s' (route_of k) k.provider t (v.handles h k old p)
            ];
          } in
          rw more (after, t)
    ]

SameTopology-refl : (s : ServiceRuntimeState) → SameTopology s s
SameTopology-refl s = record {
  instances = refl;
  platform_definitions = refl;
  preferred_providers = refl;
}

SameTopology-trans :
    (s t u : ServiceRuntimeState) → SameTopology s t → SameTopology t u → SameTopology s u
SameTopology-trans s t u a b = record {
  instances = b.instances ∙ a.instances;
  platform_definitions = b.platform_definitions ∙ a.platform_definitions;
  preferred_providers = b.preferred_providers ∙ a.preferred_providers;
}

-- The state after handles were issued.
abbrev Issued : SecretManager → ServiceRuntimeState → ServiceRuntimeState → Type 0
Issued m s s' = IsCurrent m s' × SameTopology s s'

issue_provider_handle-IsCurrent :
    (m : SecretManager) (s : ServiceRuntimeState) (key : ProviderHandleKey)
    → IsCurrent m s
    → IsListed m s (route_of key) key.provider
    → Issued m s (issue_provider_handle s key).0
unfolding issue_provider_handle
issue_provider_handle-IsCurrent m s key v l =
    elim (Option-cases (get ProviderHandleKey-discrete key s.provider_handle_cache)) [
      | inl new ↦ rw (new, issue_provider_handle) (issue_new_handle-IsCurrent m s key v l)
      | inr (handle, old) ↦ rw (old, issue_provider_handle) (v, SameTopology-refl s)
    ]

issue_handles-IsCurrent :
    (m : SecretManager) (s : ServiceRuntimeState) (key : RouteKey) (providers : List ComponentRef)
    → IsCurrent m s
    → All (IsListed m s key) providers
    → Issued m s (issue_handles s key providers).0
unfolding issue_handles
issue_handles-IsCurrent m s key [] v l = (v, SameTopology-refl s)
issue_handles-IsCurrent m s key (provider ∷ rest) v l =
    let k : ProviderHandleKey = record {
      caller = key.caller;
      contract = key.contract;
      provider = provider;
      allow_inactive_caller = key.allow_inactive_caller;
    } in
    let s' = (issue_provider_handle s k).0 in
    let first = issue_provider_handle-IsCurrent m s k v l.0 in
    elim (Result-cases (issue_provider_handle s k).1) [
      | inr (e, failed) ↦ rw (failed, issue_handles) first
      | inl (handle, issued) ↦
          let more = issue_handles-IsCurrent m s' key rest first.0 (
            All-mono (IsListed m s key) (IsListed m s' key) rest
              (λ p. IsListed-same m s s' key p first.1) l.1) in
          rw (issued, issue_handles)
            (more.0, SameTopology-trans s s' (issue_handles s' key rest).0 first.1 more.1)
    ]

listed_providers-IsListed :
    (m : SecretManager) (s : ServiceRuntimeState) (key : RouteKey) (providers : List ComponentRef)
    → listed_providers m s key ≡ ok providers
    → All (IsListed m s key) providers
unfolding listed_providers
listed_providers-IsListed m s key providers h =
    let (b, resolved, h1) = >>=-eq-ok (resolve_binding_uncached m s key) _ h in
    let (several, h2) =
      guard->>-eq-ok (holds (ContractResolutionPolicy-discrete b.resolution multiple)) _ _ h1 in
    let (few, h3) =
      guard->>-eq-ok (leb (length b.providers) default_max_service_providers_per_contract) _ _ h2 in
    let same : b.providers ≡ providers = cc in
    All-of_In (IsListed m s key) providers (λ p at. record {
      bound = b;
      resolved = resolved;
      several = (holds_iff (ContractResolutionPolicy-discrete b.resolution multiple)).0 several;
      listed = subst (In p) (sym same) at;
    })

pub list_providers-IsCurrent :
    (m : SecretManager) (s : ServiceRuntimeState) (key : RouteKey)
    → IsCurrent m s
    → IsCurrent m (list_providers_with_mode m s key).0
unfolding list_providers_with_mode
list_providers-IsCurrent m s key v =
    let synced = sync_provider_handle_policy s m.policy_revision in
    let ready = sync-IsCurrent m s v in
    elim (Result-cases (listed_providers m synced key)) [
      | inr (e, failed) ↦ rw (failed, list_providers_with_mode) ready
      | inl (providers, found) ↦
          rw (found, list_providers_with_mode)
            (issue_handles-IsCurrent m synced key providers ready
              (listed_providers-IsListed m synced key providers found)).0
    ]
