-- ===== src/Engine/Services/Reach.antt =====
-- `ServiceRuntime` of crates/extension-engine/src/services.rs together with the `SecretManager` that it consults:
-- what the caches answer after any sequence of their operations.
use rintawa.Prelude.{
  ℕ, ◌≡◌, ◌∙◌, refl, sym, ap, subst, inl, inr, ℕ_discrete, Bool, not, ◌&&◌, some, Option-cases, ok,
  err, ◌>>=◌, ok_or, >>=-eq-ok, guard->>-eq-ok, ok_or-eq-ok, holds, holds_iff, get, ◌==◌, arith,
}
use rintawa.Runtime.Effect.{ContractKey, unavailable}
use rintawa.Engine.Secrets.{ComponentRef, ComponentRef-discrete, SecretManager}
use rintawa.Engine.Services.{
  ServiceCallResult, RouteKey, RouteKey-discrete, CachedRoute, ServiceRuntimeState, component,
  component_identity,
}
use rintawa.Engine.Services.Routing.{
  resolve_uncached, Located, locate, cached_route, resolve_provider, differs,
  resolve_provider_handle,
}
use rintawa.Engine.Services.Current.{IsListed, IsCurrent, route_of}
use rintawa.Engine.Services.Changes.{Host, Reach, fresh, next, Step-IsCurrent}

Reach-IsCurrent : {h : Host} → Reach h → IsCurrent h.secrets h.services
unfolding get
Reach-IsCurrent fresh = record {
  routes = λ key c h. absurd (cc);
  handle_policy = omega arith;
  handles = λ h key e p. absurd (cc);
}
Reach-IsCurrent (next r step) = Step-IsCurrent step (Reach-IsCurrent r)

cached-agrees :
    (m : SecretManager) (s : ServiceRuntimeState) (key : RouteKey) (c : CachedRoute)
    → IsCurrent m s
    → cached_route m s key ≡ some c
    → c.result ≡ resolve_uncached m s key
unfolding cached_route
cached-agrees m s key c v h = elim (Option-cases (get RouteKey-discrete key s.route_cache)) [
  | inl miss ↦ absurd (ground arith)
  | inr (d, hit) ↦
      let same : d ≡ c = ground arith in
      let now : c.policy_revision ≡ m.policy_revision = ground arith in
      let route = v.routes key c (hit ∙ ap some same) in route.agrees now
]

-- In every reachable state a call is routed exactly as a resolution without any cache routes it, errors
-- included: whatever instances, definitions, preferences and grants changed before, no cached route is stale.
pub Reach-resolve_provider :
    (h : Host) (key : RouteKey)
    → Reach h
    → (resolve_provider h.secrets h.services key).1
      ≡ (resolve_uncached h.secrets h.services key >>= locate h.services)
unfolding resolve_provider
Reach-resolve_provider h key r = elim (Option-cases (cached_route h.secrets h.services key)) [
  | inl miss ↦ rw (miss, resolve_provider) refl
  | inr (c, hit) ↦
      rw (hit, resolve_provider)
        (ap (λ res. res >>= locate h.services)
          (cached-agrees h.secrets h.services key c (Reach-IsCurrent r) hit))
]

locate-provider :
    (s : ServiceRuntimeState) (p : ComponentRef) (l : Located) → locate s p ≡ ok l → l.0 ≡ p
unfolding locate
locate-provider s p l h =
    let (c, found, h1) = >>=-eq-ok (ok_or (component s p) unavailable) _ h in
    let (identity, known, h2) = >>=-eq-ok (ok_or (component_identity s p) unavailable) _ h1 in
    sym (ap (λ (r : ServiceCallResult Located). elim r [ ok x ↦ x.0 | err e ↦ p ]) h2)

-- In every reachable state a provider handle that is accepted belongs to the caller that presents it, with the
-- same standing, and names a provider to which the caller's contract, one for several providers, resolves now.
-- A number that was guessed, given to another caller, or issued before a change opens nothing else.
pub Reach-resolve_provider_handle :
    (h : Host) (caller : ComponentRef) (handle : ℕ) (flag : Bool) (contract : ContractKey)
    (located : Located)
    → Reach h
    → resolve_provider_handle h.secrets h.services caller handle flag ≡ ok (contract, located)
    → IsListed h.secrets h.services
        (record { caller = caller; contract = contract; allow_inactive_caller = flag })
        located.0
unfolding resolve_provider_handle
Reach-resolve_provider_handle h caller handle flag contract located r e =
    let (current, e1) =
      guard->>-eq-ok (h.services.provider_handle_policy_revision == h.secrets.policy_revision) _ _
        e in
    let (key, found, e2) =
      >>=-eq-ok (ok_or (get ℕ_discrete handle h.services.provider_handles) _) _ e1 in
    let (mine, e3) =
      guard->>-eq-ok
        (holds (ComponentRef-discrete key.caller caller)
          && not (differs key.allow_inactive_caller flag))
        _ _ e2 in
    let (l, at, e4) = >>=-eq-ok (locate h.services key.provider) _ e3 in
    let listed = (Reach-IsCurrent r).handles handle key (ok_or-eq-ok _ _ found) (ground arith) in
    let owner : key.caller ≡ caller =
      (holds_iff (ComponentRef-discrete key.caller caller)).0 (ground arith) in
    let standing : key.allow_inactive_caller ≡ flag = ground arith in
    let of_contract : key.contract ≡ contract = cc in
    let place : l ≡ located = cc in
    let provider : key.provider ≡ located.0 =
      sym (locate-provider h.services key.provider l at) ∙ ap (λ (x : Located). x.0) place in
    let route : route_of key
        ≡ record { caller = caller; contract = contract; allow_inactive_caller = flag } =
      cc in
    subst
      (λ p.
        IsListed h.secrets h.services
          (record { caller = caller; contract = contract; allow_inactive_caller = flag }) p)
      provider (subst (λ k. IsListed h.secrets h.services k key.provider) route listed)
