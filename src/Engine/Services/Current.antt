-- ===== src/Engine/Services/Current.antt =====
-- What is right about the caches of crates/extension-engine/src/services.rs.
use rintawa.Prelude.{ℕ, ◌≤◌, ◌≡◌, ◌∙◌, refl, sym, ℕ_discrete, some, ok, get, In}
use rintawa.Engine.Secrets.{ComponentRef, SecretManager}
use rintawa.Engine.Contracts.{multiple}
use rintawa.Engine.Services.{
  RouteKey, RouteKey-discrete, CachedRoute, ProviderHandleKey, ResolvedServiceBinding,
  ServiceRuntimeState, topology_changed,
}
use rintawa.Engine.Services.Routing.{resolve_uncached}
use rintawa.Engine.Services.Binding.{
  visible_endpoints, preference, bind_endpoints, resolve_binding_uncached,
}

-- What a cached route says if its policy is the current one.
pub record IsRoute (m : SecretManager) (s : ServiceRuntimeState) (key : RouteKey) (c : CachedRoute)
    : Type 0 where
  pub not_later : c.policy_revision ≤ m.policy_revision
  pub agrees : c.policy_revision ≡ m.policy_revision → c.result ≡ resolve_uncached m s key

abbrev pub route_of : ProviderHandleKey → RouteKey
route_of key = record {
  caller = key.caller;
  contract = key.contract;
  allow_inactive_caller = key.allow_inactive_caller;
}

-- A provider is one that the caller's contract for several providers resolves to now.
pub record IsListed (m : SecretManager) (s : ServiceRuntimeState) (key : RouteKey)
    (provider : ComponentRef) : Type 0 where
  pub bound : ResolvedServiceBinding
  pub resolved : resolve_binding_uncached m s key ≡ ok bound
  pub several : bound.resolution ≡ multiple
  pub listed : In provider bound.providers

pub record IsCurrent (m : SecretManager) (s : ServiceRuntimeState) : Type 0 where
  pub routes :
      (key : RouteKey) (c : CachedRoute)
      → get RouteKey-discrete key s.route_cache ≡ some c
      → IsRoute m s key c
  pub handle_policy : s.provider_handle_policy_revision ≤ m.policy_revision
  pub handles :
      (h : ℕ) (key : ProviderHandleKey)
      → get ℕ_discrete h s.provider_handles ≡ some key
      → s.provider_handle_policy_revision ≡ m.policy_revision
      → IsListed m s (route_of key) key.provider

-- The topology is the same, so that every resolution is.
pub record SameTopology (s s' : ServiceRuntimeState) : Type 0 where
  pub instances : s'.instances ≡ s.instances
  pub platform_definitions : s'.platform_definitions ≡ s.platform_definitions
  pub preferred_providers : s'.preferred_providers ≡ s.preferred_providers

pub binding-same :
    (m : SecretManager) (s s' : ServiceRuntimeState) (key : RouteKey)
    → SameTopology s s'
    → resolve_binding_uncached m s' key ≡ resolve_binding_uncached m s key
unfolding resolve_binding_uncached bind_endpoints visible_endpoints preference
binding-same m s s' key t = rw (t.instances, t.platform_definitions, t.preferred_providers) refl

pub uncached-same :
    (m : SecretManager) (s s' : ServiceRuntimeState) (key : RouteKey)
    → SameTopology s s'
    → resolve_uncached m s' key ≡ resolve_uncached m s key
unfolding resolve_uncached
uncached-same m s s' key t = rw (binding-same m s s' key t) refl

pub IsListed-same :
    (m : SecretManager) (s s' : ServiceRuntimeState) (key : RouteKey) (provider : ComponentRef)
    → SameTopology s s'
    → IsListed m s key provider
    → IsListed m s' key provider
IsListed-same m s s' key provider t l = record {
  bound = l.bound;
  resolved = binding-same m s s' key t ∙ l.resolved;
  several = l.several;
  listed = l.listed;
}

pub IsRoute-same :
    (m : SecretManager) (s s' : ServiceRuntimeState) (key : RouteKey) (c : CachedRoute)
    → SameTopology s s'
    → IsRoute m s key c
    → IsRoute m s' key c
IsRoute-same m s s' key c t r = record {
  not_later = r.not_later;
  agrees = λ e. r.agrees e ∙ sym (uncached-same m s s' key t);
}

pub topology_changed-IsCurrent :
    (m : SecretManager) (s : ServiceRuntimeState)
    → s.provider_handle_policy_revision ≤ m.policy_revision
    → IsCurrent m (topology_changed s)
unfolding topology_changed get
topology_changed-IsCurrent m s le = record {
  routes = λ key c h. absurd (cc);
  handle_policy = le;
  handles = λ h key e p. absurd (cc);
}
