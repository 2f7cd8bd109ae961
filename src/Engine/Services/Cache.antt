-- ===== src/Engine/Services/Cache.antt =====
-- The caches of `ServiceRuntime` in crates/extension-engine/src/services.rs: routes and provider handles, under any
-- sequence of changes of the topology, of the secrets policy, and of resolutions.
use rintawa.Engine.Services.Current.{
  IsRoute, route_of, IsCurrent, SameTopology, IsListed-same, IsRoute-same,
}
use rintawa.Prelude.{◌<◌, refl, subst, inl, inr, Option-cases, found-insert, arith}
use rintawa.Engine.Secrets.{SecretManager}
use rintawa.Engine.Services.{RouteKey, RouteKey-discrete, ServiceRuntimeState}
use rintawa.Engine.Services.Routing.{resolve_uncached, cached_route, cache_route, resolve_provider}

cache_route-IsCurrent :
    (m : SecretManager) (s : ServiceRuntimeState) (key : RouteKey)
    → IsCurrent m s
    → IsCurrent m (cache_route m s key (resolve_uncached m s key))
unfolding cache_route
cache_route-IsCurrent m s key v =
    let s' = cache_route m s key (resolve_uncached m s key) in
    let t : SameTopology s s' = record {
      instances = refl;
      platform_definitions = refl;
      preferred_providers = refl;
    } in
    record {
      routes = λ key' c h. elim (found-insert RouteKey-discrete key key' _ s.route_cache h) [
        | inl (k, e) ↦ IsRoute-same m s s' key' c t (
            subst (IsRoute m s key') e (
              subst
                (λ k. IsRoute m s k (record {
                  topology_revision = s.topology_revision;
                  policy_revision = m.policy_revision;
                  result = resolve_uncached m s key;
                }))
                k (record { not_later = omega arith; agrees = λ p. refl })))
        | inr old ↦ IsRoute-same m s s' key' c t (v.routes key' c old)
      ];
      handle_policy = v.handle_policy;
      handles = λ h k e p. IsListed-same m s s' (route_of k) k.provider t (v.handles h k e p);
    }

pub resolve_provider-IsCurrent :
    (m : SecretManager) (s : ServiceRuntimeState) (key : RouteKey)
    → IsCurrent m s
    → IsCurrent m (resolve_provider m s key).0
unfolding resolve_provider
resolve_provider-IsCurrent m s key v = elim (Option-cases (cached_route m s key)) [
  | inl miss ↦ rw (miss, resolve_provider) (cache_route-IsCurrent m s key v)
  | inr (c, hit) ↦ rw (hit, resolve_provider) v
]

-- A later policy makes every cached route and every handle out of date.
pub later-IsCurrent :
    (m m' : SecretManager) (s : ServiceRuntimeState)
    → m.policy_revision < m'.policy_revision
    → IsCurrent m s
    → IsCurrent m' s
later-IsCurrent m m' s later v = record {
  routes = λ key c h.
      let r = (v.routes key c h).not_later in
      record { not_later = omega arith; agrees = λ e. absurd (omega arith) };
  handle_policy = let p = v.handle_policy in omega arith;
  handles = λ h key e p. absurd (let q = v.handle_policy in omega arith);
}
