-- ===== src/Engine/Services/Calls/Resolved.antt =====
-- What the resolutions of crates/extension-engine/src/services.rs leave alone, and that they reach registered
-- components only.
use rintawa.Prelude.{
  ℕ, ◌≡◌, ◌∙◌, refl, ap, inl, inr, Bool, true, not, ◌&&◌, List, [], ◌∷◌, any, Option-cases, ok,
  Result-cases, >>=-eq-ok, guard->>-eq-ok, ℕ_discrete, ok_or, holds, get, ◌==◌, arith,
}
use rintawa.Runtime.Effect.{ContractKey}
use rintawa.Engine.Secrets.{ComponentRef, ComponentRef-discrete, SecretManager}
use rintawa.Engine.Services.{
  RouteKey, ServiceRuntimeState, ProviderHandleKey, sync_provider_handle_policy, issue_new_handle,
  issue_provider_handle,
}
use rintawa.Engine.Services.Routing.{
  Located, locate, cached_route, cache_route, resolve_uncached, resolve_provider, issue_handles,
  differs, listed_providers, list_providers_with_mode, resolve_provider_handle,
}
use rintawa.Engine.Services.Calls.Stack.{registered, same_ref, locate-registered}

pub resolve_provider-kept :
    (m : SecretManager) (s : ServiceRuntimeState) (key : RouteKey)
    → (resolve_provider m s key).0.instances ≡ s.instances
unfolding resolve_provider cache_route
resolve_provider-kept m s key = elim (Option-cases (cached_route m s key)) [
  | inl miss ↦ rw (miss, resolve_provider) refl
  | inr (c, hit) ↦ rw (hit, resolve_provider) refl
]

pub resolve_provider-registered :
    (m : SecretManager) (s : ServiceRuntimeState) (key : RouteKey) (l : Located)
    → (resolve_provider m s key).1 ≡ ok l
    → any (same_ref l.0) (registered s.instances) ≡ true
unfolding resolve_provider
resolve_provider-registered m s key l h = elim (Option-cases (cached_route m s key)) [
  | inl miss ↦
      let (p, _, at) =
        >>=-eq-ok (resolve_uncached m s key) (locate s) (rw (miss, resolve_provider) at h) in
      locate-registered s p l at
  | inr (c, hit) ↦
      let (p, _, at) = >>=-eq-ok c.result (locate s) (rw (hit, resolve_provider) at h) in
      locate-registered s p l at
]

sync-kept :
    (s : ServiceRuntimeState) (revision : ℕ)
    → (sync_provider_handle_policy s revision).instances ≡ s.instances
unfolding sync_provider_handle_policy
sync-kept s revision = ground arith

issue-kept :
    (s : ServiceRuntimeState) (key : ProviderHandleKey)
    → (issue_provider_handle s key).0.instances ≡ s.instances
unfolding issue_provider_handle issue_new_handle
issue-kept s key = ground arith

issue_handles-kept :
    (s : ServiceRuntimeState) (key : RouteKey) (providers : List ComponentRef)
    → (issue_handles s key providers).0.instances ≡ s.instances
unfolding issue_handles
issue_handles-kept s key [] = refl
issue_handles-kept s key (provider ∷ rest) =
    let k : ProviderHandleKey = record {
      caller = key.caller;
      contract = key.contract;
      provider = provider;
      allow_inactive_caller = key.allow_inactive_caller;
    } in
    elim (Result-cases (issue_provider_handle s k).1) [
      | inr (e, failed) ↦ rw (failed, issue_handles) (issue-kept s k)
      | inl (handle, issued) ↦
          rw (issued, issue_handles)
            (issue_handles-kept (issue_provider_handle s k).0 key rest ∙ issue-kept s k)
    ]

pub list_providers-kept :
    (m : SecretManager) (s : ServiceRuntimeState) (key : RouteKey)
    → (list_providers_with_mode m s key).0.instances ≡ s.instances
unfolding list_providers_with_mode
list_providers-kept m s key =
    let synced = sync_provider_handle_policy s m.policy_revision in
    elim (Result-cases (listed_providers m synced key)) [
      | inr (e, failed) ↦ rw (failed, list_providers_with_mode) (sync-kept s m.policy_revision)
      | inl (providers, found) ↦
          rw (found, list_providers_with_mode)
            (issue_handles-kept synced key providers ∙ sync-kept s m.policy_revision)
    ]

pub handle-registered :
    (m : SecretManager) (s : ServiceRuntimeState) (caller : ComponentRef) (handle : ℕ) (flag : Bool)
    (c : ContractKey) (l : Located)
    → resolve_provider_handle m s caller handle flag ≡ ok (c, l)
    → any (same_ref l.0) (registered s.instances) ≡ true
unfolding resolve_provider_handle
handle-registered m s caller handle flag c l h =
    let (current, h1) =
      guard->>-eq-ok (s.provider_handle_policy_revision == m.policy_revision) _ _ h in
    let (key, found, h2) = >>=-eq-ok (ok_or (get ℕ_discrete handle s.provider_handles) _) _ h1 in
    let (mine, h3) =
      guard->>-eq-ok
        (holds (ComponentRef-discrete key.caller caller)
          && not (differs key.allow_inactive_caller flag))
        _ _ h2 in
    let (l', at, h4) = >>=-eq-ok (locate s key.provider) _ h3 in
    let same : l' ≡ l = cc in locate-registered s key.provider l (at ∙ ap ok same)
