-- ===== src/Engine/Secrets/Policy.antt =====
-- The secrets policy of crates/extension-engine/src/secrets.rs and crates/sdk/src/secrets.rs: what a grant covers.
use Prim.Native.String.{len, slice, ◌++◌ as str_append}
use text.Mathlib.Text.{starts_with}
use text.Mathlib.TextEquality.{starts_with_iff}
use text.Mathlib.TextLemmas.{append_assoc as str_append_assoc}
use text.Mathlib.TextPositions.{len-append, slice-append_right, starts_with-append}
use rintawa.Prelude.{
  ◌≡◌, ◌∙◌, refl, sym, ap, subst, inl, inr, String, String-discrete, true, any_mono, ◌>>=◌, ok_or,
  Bool-cases, holds, holds_iff,
}
use rintawa.Engine.Secrets.{
  ComponentRef, SecretPath, SecretPathPattern, exact, descendants, is_below, matches,
  allows_pattern, not_found, Vault, SecretManager, grants_of, has_read_grant, read_for_component,
}

-- `path` is `prefix`, a dot, and a rest.
abbrev Below : String → String → Type 0
Below prefix path = (rest : String) × (path ≡ str_append prefix (str_append "." rest))

strip-append : (s t : String) → slice (str_append s t) (len s) (len (str_append s t)) ≡ t
strip-append s t = rw (len-append s t) (slice-append_right s t)

Below-sound : (prefix path : String) → is_below prefix path ≡ true → Below prefix path
unfolding is_below
Below-sound prefix path h = elim (Bool-cases (starts_with path prefix)) [
  | inr no_prefix ↦ let k = rw no_prefix at h in absurd (cc)
  | inl yes_prefix ↦
      let (rest, e) = (starts_with_iff path prefix).0 yes_prefix in
      let dot : starts_with (slice path (len prefix) (len path)) "." ≡ true = rw yes_prefix at h in
      let stripped : slice path (len prefix) (len path) ≡ rest =
        subst (λ q. slice q (len prefix) (len q) ≡ rest) e (strip-append prefix rest) in
      let (u, eu) = (starts_with_iff rest ".").0 (rw stripped at dot) in
      (u, sym e ∙ ap (str_append prefix) (sym eu))
]

below_complete :
    (prefix rest : String) → is_below prefix (str_append prefix (str_append "." rest)) ≡ true
unfolding is_below
below_complete prefix rest =
    let begins : starts_with (str_append prefix (str_append "." rest)) prefix ≡ true =
      starts_with-append prefix (str_append "." rest) in
    rw (begins, strip-append prefix (str_append "." rest)) (starts_with-append "." rest)

below_trans : (a b c : String) → is_below a b ≡ true → is_below b c ≡ true → is_below a c ≡ true
below_trans a b c h k =
    let (u, eu) = Below-sound a b h in
    let (v, ev) = Below-sound b c k in
    let tail = str_append "." v in
    let path : c ≡ str_append a (str_append "." (str_append u tail)) =
      ev
      ∙ ap (λ q. str_append q tail) eu
      ∙ str_append_assoc a (str_append "." u) tail
      ∙ ap (str_append a) (str_append_assoc "." u tail) in
    rw path (below_complete a (str_append u tail))

-- A pattern that allows another one matches every path that the other one matches.
allows_pattern-matches :
    (granted requested : SecretPathPattern) (path : SecretPath)
    → allows_pattern granted requested ≡ true
    → matches requested path ≡ true
    → matches granted path ≡ true
unfolding allows_pattern matches
allows_pattern-matches (exact g) (exact r) path h k =
    let e : g ≡ r = (holds_iff (String-discrete g r)).0 h in rw e k
allows_pattern-matches (descendants g) (exact r) path h k =
    let e : r ≡ path = (holds_iff (String-discrete r path)).0 k in
    subst (λ q. is_below g q ≡ true) e h
allows_pattern-matches (descendants g) (descendants r) path h k =
    elim (Bool-cases (holds (String-discrete r g))) [
      | inl same ↦
          let e : r ≡ g = (holds_iff (String-discrete r g)).0 same in
          subst (λ q. is_below q path ≡ true) e k
      | inr other ↦ below_trans g r path (rw other at h) k
    ]
allows_pattern-matches (exact g) (descendants r) path h k = absurd (cc)

-- A component that passes the test for a grant of a pattern can read every path that the pattern matches: what it
-- then gets is what the vault holds, and never a denial.
pub has_read_grant-reads :
    (load : Vault) (m : SecretManager) (owner : ComponentRef) (pattern : SecretPathPattern)
    (path : SecretPath)
    → has_read_grant m owner pattern ≡ true
    → matches pattern path ≡ true
    → read_for_component load m owner path ≡ (load path >>= λ value. ok_or value not_found)
unfolding has_read_grant read_for_component
has_read_grant-reads load m owner pattern path h k =
    rw
      (any_mono (λ granted. allows_pattern granted pattern) (λ granted. matches granted path)
        (grants_of m owner) (λ g e. allows_pattern-matches g pattern path e k) h)
      refl
