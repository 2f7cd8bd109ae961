-- ===== src/Engine/Secrets.antt =====
-- crates/extension-engine/src/secrets.rs with the patterns of crates/sdk/src/secrets.rs: which component may
-- read which secrets. The vault is the credential store of the platform, code outside the engine.
pub mod Policy
pub mod Paths
use Prim.Native.String.{len, slice}
use text.Mathlib.Text.{starts_with}
use rintawa.Prelude.{
  strip_prefix, ℕ, ◌+◌, String, String-discrete, Bool, true, false, not, List, [], ◌∷◌, ◌++◌, any,
  Option, none, some, Result, ok, err, ◌>>=◌, ◌>>◌, guard, ok_or, holds, get, insert, remove, ◌==◌,
  if◌then◌else◌,
}

-- crates/sdk/src/contracts.rs: a component of an extension instance.
pub record ComponentRef : Type 0 where
  pub instance_id : String
  pub component_id : String

unfoldable pub ComponentRef-discrete : Discrete ComponentRef
unfolding String-discrete
ComponentRef-discrete = hlevel String-discrete

-- Lowercase segments separated by dots.
abbrev pub SecretPath : Type 0
SecretPath = String

pub data SecretPathPattern : Type 0 where
  exact : SecretPath → SecretPathPattern
  descendants : SecretPath → SecretPathPattern

unfoldable pub SecretPathPattern-discrete : Discrete SecretPathPattern
unfolding String-discrete
SecretPathPattern-discrete = hlevel String-discrete

-- `path.strip_prefix(prefix).is_some_and(|remaining| remaining.starts_with('.'))`.
abbrev pub starts_with_dot : Option String → Bool
starts_with_dot none = false
starts_with_dot (some remaining) = starts_with remaining "."

unfoldable pub is_below : SecretPath → SecretPath → Bool
is_below prefix path = starts_with_dot (strip_prefix path prefix)

unfoldable pub matches : SecretPathPattern → SecretPath → Bool
matches (exact e) path = holds (String-discrete e path)
matches (descendants prefix) path = is_below prefix path

unfoldable pub allows_pattern : SecretPathPattern → SecretPathPattern → Bool
unfolding matches
allows_pattern (exact requested) (exact granted) = holds (String-discrete requested granted)
allows_pattern (descendants requested) (exact granted) = matches (descendants requested) granted
allows_pattern (descendants requested) (descendants granted) =
    if holds (String-discrete granted requested) then true else is_below requested granted
allows_pattern (exact requested) (descendants granted) = false

pub data SecretAccessError : Type 0 where
  invalid_path access_denied not_found unavailable : SecretAccessError

-- `SecretVault::load`, and what `store` and `delete` change is its own.
abbrev pub Vault : Type 0
Vault = SecretPath → Result SecretAccessError (Option String)

abbrev pub u64_modulus : ℕ
u64_modulus = 18446744073709551616

pub record SecretManager : Type 0 where
  pub read_grants : List (ComponentRef × List SecretPathPattern)
  pub policy_revision : ℕ

-- `with_vault`.
abbrev pub no_grants : SecretManager
no_grants = record { read_grants = []; policy_revision = 0 }

-- `entry(principal).or_default()`, and `get(principal)` with an empty default.
unfoldable pub grants_of : SecretManager → ComponentRef → List SecretPathPattern
grants_of m owner = elim (get ComponentRef-discrete owner m.read_grants) [
  | none ↦ []
  | some patterns ↦ patterns
]

-- `fetch_add(1)` wraps.
unfoldable pub next_revision : ℕ → ℕ
next_revision revision = if revision + 1 == u64_modulus then 0 else revision + 1

-- A grant that is there already changes nothing; its entry is there too.
unfoldable pub grant_read : SecretManager → ComponentRef → SecretPathPattern → SecretManager
grant_read m owner pattern =
    if any (λ p. holds (SecretPathPattern-discrete p pattern)) (grants_of m owner)
    then m
    else record {
      read_grants =
          insert ComponentRef-discrete owner (grants_of m owner ++ pattern ∷ []) m.read_grants;
      policy_revision = next_revision m.policy_revision;
    }

unfoldable pub has_read_grant : SecretManager → ComponentRef → SecretPathPattern → Bool
has_read_grant m owner pattern = any (λ granted. allows_pattern granted pattern) (grants_of m owner)

unfoldable pub revoke_component : SecretManager → ComponentRef → SecretManager
revoke_component m owner = elim (get ComponentRef-discrete owner m.read_grants) [
  | none ↦ m
  | some patterns ↦ record {
    read_grants = remove ComponentRef-discrete owner m.read_grants;
    policy_revision = next_revision m.policy_revision;
  }
]

unfoldable pub read_for_component :
    Vault → SecretManager → ComponentRef → SecretPath → Result SecretAccessError String
read_for_component load m owner path = do
  guard (any (λ pattern. matches pattern path) (grants_of m owner)) access_denied
  value ← load path
  ok_or value not_found
