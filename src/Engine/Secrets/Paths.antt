-- ===== src/Engine/Secrets/Paths.antt =====
-- crates/sdk/src/secrets.rs: the text form of secret paths and of their patterns.
use Prim.Native.String.{◌++◌ as str_append}
use text.Mathlib.TextLemmas.{cons-append}
use rintawa.Prelude.{
  ℕ, ◌≡◌, ◌↔◌, ◌∙◌, refl, sym, ap, subst, inl, inr, String, String-discrete, Bool, true, false, not,
  ◌&&◌, ◌||◌, List, [], ◌∷◌, length, any, all, codes, Option, none, some, Option-cases, Bool-cases,
  &&_parts, Result, ok, err, holds, holds_iff, leb, ◌==◌, arith, if◌then◌else◌,
}
use rintawa.Engine.Secrets.{SecretPath, SecretPathPattern, exact, descendants}

pub data SecretPathError : Type 0 where
  invalid_path invalid_pattern : String → SecretPathError

abbrev pub dot : ℕ
dot = 46

abbrev pub star : ℕ
star = 42

-- `split('.')`.
unfoldable pub push_first : ℕ → List (List ℕ) → List (List ℕ)
push_first c [] = (c ∷ []) ∷ []
push_first c (segment ∷ rest) = (c ∷ segment) ∷ rest

unfoldable pub segments : List ℕ → List (List ℕ)
segments [] = [] ∷ []
segments (c ∷ cs) = let rest = segments cs in if c == dot then [] ∷ rest else push_first c rest

unfoldable pub is_segment_byte : ℕ → Bool
is_segment_byte c = (leb 97 c && leb c 122) || (leb 48 c && leb c 57) || c == 95

unfoldable pub is_segment : List ℕ → Bool
is_segment segment = not (length segment == 0) && all is_segment_byte segment

unfoldable pub is_path : String → Bool
is_path value = not (length (codes value) == 0) && all is_segment (segments (codes value))

unfoldable pub parse_path : String → Result SecretPathError SecretPath
parse_path value = if is_path value then ok value else err (invalid_path value)

-- `strip_suffix(".*")`.
unfoldable pub strip_wildcard : String → Option String
strip_wildcard String.[] = none
strip_wildcard (String.◌∷◌ c rest) = elim (strip_wildcard rest) [
  | some prefix ↦ some (String.◌∷◌ c prefix)
  | none ↦ if holds (String-discrete (String.◌∷◌ c rest) ".*") then some "" else none
]

unfoldable pub has_star : String → Bool
has_star value = any (λ c. c == star) (codes value)

-- The parsed prefix of a pattern, or the error of the whole pattern.
unfoldable pub as_descendants :
    String → Result SecretPathError SecretPath → Result SecretPathError SecretPathPattern
as_descendants value (ok prefix) = ok (descendants prefix)
as_descendants value (err e) = err (invalid_pattern value)

unfoldable pub as_exact :
    Result SecretPathError SecretPath → Result SecretPathError SecretPathPattern
as_exact (ok path) = ok (exact path)
as_exact (err e) = err e

unfoldable pub parse : String → Result SecretPathError SecretPathPattern
parse value = elim (strip_wildcard value) [
  | some prefix ↦
      if length (codes prefix) == 0 || has_star prefix
      then err (invalid_pattern value)
      else as_descendants value (parse_path prefix)
  | none ↦ if has_star value then err (invalid_pattern value) else as_exact (parse_path value)
]

unfoldable pub as_str : SecretPathPattern → String
as_str (exact path) = path
as_str (descendants prefix) = str_append prefix ".*"

-- The path of a pattern.
unfoldable pub path_of : SecretPathPattern → SecretPath
path_of (exact path) = path
path_of (descendants prefix) = prefix

strip_wildcard-append : (prefix : String) → strip_wildcard (str_append prefix ".*") ≡ some prefix
unfolding strip_wildcard String-discrete
strip_wildcard-append String.[] = refl
strip_wildcard-append (String.◌∷◌ c rest) =
    let ih = strip_wildcard-append rest in rw (cons-append c rest ".*", strip_wildcard, ih) refl

strip_wildcard_sound :
    (value prefix : String) → strip_wildcard value ≡ some prefix → value ≡ str_append prefix ".*"
unfolding strip_wildcard
strip_wildcard_sound String.[] prefix h = absurd (cc)
strip_wildcard_sound (String.◌∷◌ c rest) prefix h = elim (Option-cases (strip_wildcard rest)) [
  | inr (p, found) ↦
      let k = rw found at h in
      let e : String.◌∷◌ c p ≡ prefix = cc in
      ap (String.◌∷◌ c) (strip_wildcard_sound rest p found)
      ∙ sym (cons-append c p ".*")
      ∙ ap (λ q. str_append q ".*") e
  | inl nothing ↦ elim (Bool-cases (holds (String-discrete (String.◌∷◌ c rest) ".*"))) [
    | inl whole ↦
        let k = rw (nothing, whole) at h in
        let e : "" ≡ prefix = cc in
        (holds_iff (String-discrete (String.◌∷◌ c rest) ".*")).0 whole
        ∙ ap (λ q. str_append q ".*") e
    | inr other ↦ let k = rw (nothing, other) at h in absurd (cc)
  ]
]

all-push_first :
    (c : ℕ) (rest : List (List ℕ))
    → all (all is_segment_byte) (push_first c rest)
      ≡ (is_segment_byte c && all (all is_segment_byte) rest)
unfolding push_first all
all-push_first c [] = ground arith
all-push_first c (segment ∷ rest) = ground arith

segments-star :
    (cs : List ℕ) → all (all is_segment_byte) (segments cs) ≡ true → any (λ c. c == star) cs ≡ false
unfolding segments all any is_segment_byte
segments-star [] h = refl
segments-star (c ∷ cs) h = elim (Bool-cases (c == dot)) [
  | inl sep ↦
      let k : all (all is_segment_byte) (segments cs) ≡ true = rw sep at h in
      let ih = segments-star cs k in ground arith
  | inr byte ↦
      let k : all (all is_segment_byte) (push_first c (segments cs)) ≡ true = rw byte at h in
      let parts =
        &&_parts (is_segment_byte c) (all (all is_segment_byte) (segments cs))
          (sym (all-push_first c (segments cs)) ∙ k) in
      let fine = parts.0 in let ih = segments-star cs parts.1 in ground arith
]

all-is_segment :
    (ss : List (List ℕ)) → all is_segment ss ≡ true → all (all is_segment_byte) ss ≡ true
unfolding all is_segment
all-is_segment [] h = refl
all-is_segment (s ∷ ss) h = let ih = all-is_segment ss in ground arith

path-star : (path : String) → is_path path ≡ true → has_star path ≡ false
unfolding is_path has_star
path-star path h = segments-star (codes path) (
    all-is_segment (segments (codes path))
      (&&_parts (not (length (codes path) == 0)) (all is_segment (segments (codes path))) h).1)

path-nonempty : (path : String) → is_path path ≡ true → (length (codes path) == 0) ≡ false
unfolding is_path
path-nonempty path h = ground arith

has_star-append : (prefix : String) → has_star (str_append prefix ".*") ≡ true
unfolding has_star any
has_star-append String.[] = refl
has_star-append (String.◌∷◌ c rest) =
    let ih = has_star-append rest in rw (cons-append c rest ".*") (ground arith)

-- What a text is parsed to.
abbrev IsPrinted : String → SecretPathPattern → Type 0
IsPrinted value p = (as_str p ≡ value) × (is_path (path_of p) ≡ true)

parse-IsPrinted : (value : String) (p : SecretPathPattern) → parse value ≡ ok p → IsPrinted value p
unfolding parse parse_path as_descendants as_exact as_str path_of
parse-IsPrinted value p h = elim (Option-cases (strip_wildcard value)) [
  | inr (prefix, found) ↦ elim (Bool-cases (length (codes prefix) == 0 || has_star prefix)) [
    | inl bad ↦ let k = rw (found, bad, parse) at h in absurd (cc)
    | inr good ↦ elim (Bool-cases (is_path prefix)) [
      | inl valid ↦
          let k = rw (found, good, valid, parse, parse_path, as_descendants) at h in
          subst (IsPrinted value) {x = descendants prefix} {y = p} (cc)
            (sym (strip_wildcard_sound value prefix found), valid)
      | inr invalid ↦
          let k = rw (found, good, invalid, parse, parse_path, as_descendants) at h in absurd (cc)
    ]
  ]
  | inl whole ↦ elim (Bool-cases (has_star value)) [
    | inl bad ↦ let k = rw (whole, bad, parse) at h in absurd (cc)
    | inr good ↦ elim (Bool-cases (is_path value)) [
      | inl valid ↦
          let k = rw (whole, good, valid, parse, parse_path, as_exact) at h in
          subst (IsPrinted value) {x = exact value} {y = p} (cc) (refl, valid)
      | inr invalid ↦
          let k = rw (whole, good, invalid, parse, parse_path, as_exact) at h in absurd (cc)
    ]
  ]
]

parse-as_str : (p : SecretPathPattern) → is_path (path_of p) ≡ true → parse (as_str p) ≡ ok p
unfolding parse parse_path as_descendants as_exact as_str path_of
parse-as_str (exact path) valid =
    let clean = path-star path valid in
    elim (Option-cases (strip_wildcard path)) [
      | inl whole ↦ rw (as_str, whole, clean, valid, parse, parse_path, as_exact) refl
      | inr (prefix, found) ↦
          let starred =
            subst (λ q. has_star q ≡ true) (sym (strip_wildcard_sound path prefix found))
              (has_star-append prefix) in
          absurd (cc)
    ]
parse-as_str (descendants prefix) valid =
    let clean = path-star prefix valid in
    rw
      (
        strip_wildcard-append prefix,
        clean,
        path-nonempty prefix valid,
        valid,
        parse,
        parse_path,
        as_descendants,
        as_str,
      )
      refl

-- Parsing and printing of patterns are inverse: a text is parsed to a pattern exactly if it is what the pattern is
-- printed as and the path of the pattern is well formed.
pub parse_iff :
    (value : String) (p : SecretPathPattern)
    → (parse value ≡ ok p) ↔ ((as_str p ≡ value) × (is_path (path_of p) ≡ true))
parse_iff value p = (
  parse-IsPrinted value p,
  λ printed. subst (λ v. parse v ≡ ok p) printed.0 (parse-as_str p printed.1),
)
