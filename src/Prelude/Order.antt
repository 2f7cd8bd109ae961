-- ===== src/Prelude/Order.antt =====
-- Texts in the order of their bytes, `sort_by` with a Boolean order, and lists that differ in their order only.
use Prim.Native.Nat.{ℕ, zero, suc, ◌+◌, ◌/◌, ◌%◌}
use Prim.Native.Char.{code}
use Prim.Native.String.{String, len, slice}
use text.Mathlib.Text.{starts_with}
use mathlib.Core.Option.{Option, none, some}
use mathlib.Core.Path.{◌≡◌, refl, ap, ap₂, ◌∙◌}
use mathlib.Core.Logic.{inl, inr}
use mathlib.Core.Bool.{Bool, true, false, ◌&&◌, ◌||◌}
use mathlib.Core.List.{List, [], ◌∷◌, map}
use native.Mathlib.Omega.{arith}
use text.Mathlib.TextEquality.{Char-path}
use rintawa.Prelude.Tests.{if◌then◌else◌, Bool-cases, ltb, ◌==◌}
use rintawa.Prelude.Lists.{length, any, select, All, In}

-- The code points of a text; UTF-8 keeps their order.
abbrev pub codes : String → List ℕ
codes String.[] = []
codes (String.◌∷◌ c s) = code c ∷ codes s

-- `strip_prefix` of `str`.
abbrev pub strip_prefix : String → String → Option String
strip_prefix s prefix = if starts_with s prefix then some (slice s (len prefix) (len s)) else none

unfoldable pub codes_leb : List ℕ → List ℕ → Bool
codes_leb [] ys = true
codes_leb (x ∷ xs) [] = false
codes_leb (x ∷ xs) (y ∷ ys) = ltb x y || (x == y && codes_leb xs ys)

pub codes_leb_antisymm :
    (xs ys : List ℕ) → codes_leb xs ys ≡ true → codes_leb ys xs ≡ true → xs ≡ ys
unfolding codes_leb
codes_leb_antisymm [] [] h k = refl
codes_leb_antisymm [] (y ∷ ys) h k = cc
codes_leb_antisymm (x ∷ xs) [] h k = cc
codes_leb_antisymm (x ∷ xs) (y ∷ ys) h k = ground (arith, codes_leb_antisymm xs ys)

pub codes_leb_trans :
    (xs ys zs : List ℕ) → codes_leb xs ys ≡ true → codes_leb ys zs ≡ true → codes_leb xs zs ≡ true
unfolding codes_leb
codes_leb_trans [] ys zs h k = refl
codes_leb_trans (x ∷ xs) [] zs h k = cc
codes_leb_trans (x ∷ xs) (y ∷ ys) [] h k = cc
codes_leb_trans (x ∷ xs) (y ∷ ys) (z ∷ zs) h k = ground (arith, codes_leb_trans xs ys zs)

pub codes_leb_total : (xs ys : List ℕ) → codes_leb xs ys ≡ false → codes_leb ys xs ≡ true
unfolding codes_leb
codes_leb_total [] ys h = cc
codes_leb_total (x ∷ xs) [] h = refl
codes_leb_total (x ∷ xs) (y ∷ ys) h = ground (arith, codes_leb_total xs ys)

pub codes_inj : (s t : String) → codes s ≡ codes t → s ≡ t
codes_inj String.[] String.[] h = refl
codes_inj String.[] (String.◌∷◌ d t) h = absurd (cc)
codes_inj (String.◌∷◌ c s) String.[] h = absurd (cc)
codes_inj (String.◌∷◌ c s) (String.◌∷◌ d t) h =
    let heads : code c ≡ code d = cc in
    let tails : codes s ≡ codes t = cc in ap₂ String.◌∷◌ (Char-path c d heads) (codes_inj s t tails)

-- The decimal digits of a number; the fuel is above the number, so that it does not end.
digits : ℕ → ℕ → List ℕ → List ℕ
digits zero n acc = acc
digits (suc f) n acc =
    let acc' = (48 + n % 10) ∷ acc in
    let rest = digits f (n / 10) acc' in if ltb n 10 then acc' else rest

unfoldable pub decimal : ℕ → List ℕ
unfolding digits
decimal n = digits (suc n) n []

module _ {ℓ} {A : Type ℓ} (le : A → A → Bool) where
  unfoldable pub insert_by : A → List A → List A
  insert_by x [] = x ∷ []
  insert_by x (y ∷ ys) = let rest = insert_by x ys in if le x y then x ∷ y ∷ ys else y ∷ rest

  -- The stable `sort_by`.
  unfoldable pub sort_by : List A → List A
  unfolding insert_by
  sort_by [] = []
  sort_by (x ∷ xs) = insert_by x (sort_by xs)

-- One list is the other in another order.
pub data Shuffle {ℓ} {A : Type ℓ} : List A → List A → Type ℓ where
  same : {xs : List A} → Shuffle xs xs
  swap : (x y : A) {xs : List A} → Shuffle (x ∷ y ∷ xs) (y ∷ x ∷ xs)
  skip : (x : A) {xs ys : List A} → Shuffle xs ys → Shuffle (x ∷ xs) (x ∷ ys)
  trans : {xs ys zs : List A} → Shuffle xs ys → Shuffle ys zs → Shuffle xs zs

module _ {ℓ} {A : Type ℓ} where
  pub Shuffle-select :
      (p : A → Bool) {xs ys : List A} → Shuffle xs ys → Shuffle (select p xs) (select p ys)
  unfolding select
  Shuffle-select p same = same
  Shuffle-select p (swap x y) = elim (Bool-cases (p x)) [
    | inl a ↦ elim (Bool-cases (p y)) [ inl b ↦ rw (a, b) (swap x y) | inr b ↦ rw (a, b) same ]
    | inr a ↦ elim (Bool-cases (p y)) [ inl b ↦ rw (a, b) same | inr b ↦ rw (a, b) same ]
  ]
  Shuffle-select p (skip x h) = elim (Bool-cases (p x)) [
    | inl a ↦ rw a (skip x (Shuffle-select p h))
    | inr a ↦ rw a (Shuffle-select p h)
  ]
  Shuffle-select p (trans h k) = trans (Shuffle-select p h) (Shuffle-select p k)

  pub Shuffle-map {κ} :
      {B : Type κ} (f : A → B) {xs ys : List A} → Shuffle xs ys → Shuffle (map f xs) (map f ys)
  Shuffle-map f same = same
  Shuffle-map f (swap x y) = swap (f x) (f y)
  Shuffle-map f (skip x h) = skip (f x) (Shuffle-map f h)
  Shuffle-map f (trans h k) = trans (Shuffle-map f h) (Shuffle-map f k)

  pub length-Shuffle : {xs ys : List A} → Shuffle xs ys → length xs ≡ length ys
  length-Shuffle same = refl
  length-Shuffle (swap x y) = refl
  length-Shuffle (skip x h) = ap suc (length-Shuffle h)
  length-Shuffle (trans h k) = length-Shuffle h ∙ length-Shuffle k

  pub any-Shuffle : (p : A → Bool) {xs ys : List A} → Shuffle xs ys → any p xs ≡ any p ys
  unfolding any
  any-Shuffle p same = refl
  any-Shuffle p (swap x y) = ground arith
  any-Shuffle p (skip x h) = ap (λ b. p x || b) (any-Shuffle p h)
  any-Shuffle p (trans h k) = any-Shuffle p h ∙ any-Shuffle p k

-- A total order.
pub record IsOrder {ℓ} {A : Type ℓ} (le : A → A → Bool) : Type ℓ where
  pub antisymm : (x y : A) → le x y ≡ true → le y x ≡ true → x ≡ y
  pub transitive : (x y z : A) → le x y ≡ true → le y z ≡ true → le x z ≡ true
  pub total : (x y : A) → le x y ≡ false → le y x ≡ true

module _ {ℓ} {A : Type ℓ} (le : A → A → Bool) (o : IsOrder le) where
  insert_by_comm :
      (x y : A) (zs : List A)
      → insert_by le x (insert_by le y zs) ≡ insert_by le y (insert_by le x zs)
  unfolding insert_by
  insert_by_comm x y [] = ground (arith, o.antisymm x y, o.total x y)
  insert_by_comm x y (z ∷ zs) = ground (
    arith,
    o.antisymm x y,
    o.total x y,
    o.transitive x y z,
    o.transitive y x z,
    insert_by_comm x y zs,
  )

  -- Sorting by a total order forgets the order.
  pub sort_by-Shuffle : {xs ys : List A} → Shuffle xs ys → sort_by le xs ≡ sort_by le ys
  unfolding sort_by
  sort_by-Shuffle same = refl
  sort_by-Shuffle (swap x y {xs}) = insert_by_comm x y (sort_by le xs)
  sort_by-Shuffle (skip x h) = ap (insert_by le x) (sort_by-Shuffle h)
  sort_by-Shuffle (trans h k) = sort_by-Shuffle h ∙ sort_by-Shuffle k

module _ {ℓ κ} {A : Type ℓ} {B : Type κ} (le : B → B → Bool) (f : A → B) where
  map-insert_by :
      (x : A) (ys : List A)
      → map f (insert_by (λ a b. le (f a) (f b)) x ys) ≡ insert_by le (f x) (map f ys)
  unfolding insert_by
  map-insert_by x [] = refl
  map-insert_by x (y ∷ ys) = elim (Bool-cases (le (f x) (f y))) [
    | inl before ↦ rw before refl
    | inr after ↦ rw after (ap (λ l. f y ∷ l) (map-insert_by x ys))
  ]

  -- Sorting by a key, seen through the key.
  pub map-sort_by :
      (xs : List A) → map f (sort_by (λ a b. le (f a) (f b)) xs) ≡ sort_by le (map f xs)
  unfolding sort_by
  map-sort_by [] = refl
  map-sort_by (x ∷ xs) =
      map-insert_by x (sort_by (λ a b. le (f a) (f b)) xs)
      ∙ ap (insert_by le (f x)) (map-sort_by xs)

module _ {ℓ κ} {A : Type ℓ} (P : A → Type κ) where
  All-insert_by :
      (le : A → A → Bool) (x : A) (xs : List A) → P x → All P xs → All P (insert_by le x xs)
  unfolding insert_by
  All-insert_by le x [] p h = (p, tt)
  All-insert_by le x (y ∷ ys) p h = elim (Bool-cases (le x y)) [
    | inl before ↦ rw before (p, h)
    | inr after ↦ rw after (h.0, All-insert_by le x ys p h.1)
  ]

  pub All-sort_by : (le : A → A → Bool) (xs : List A) → All P xs → All P (sort_by le xs)
  unfolding sort_by
  All-sort_by le [] h = tt
  All-sort_by le (x ∷ xs) h = All-insert_by le x (sort_by le xs) h.0 (All-sort_by le xs h.1)

  pub All-map {μ} :
      {B : Type μ} (f : B → A) (xs : List B) → All (λ x. P (f x)) xs → All P (map f xs)
  All-map f [] h = tt
  All-map f (x ∷ xs) h = (h.0, All-map f xs h.1)

module _ {ℓ} {A : Type ℓ} where
  pub All-of_In {κ} : (P : A → Type κ) (xs : List A) → ((x : A) → In x xs → P x) → All P xs
  All-of_In P [] h = tt
  All-of_In P (x ∷ xs) h = (h x (inl refl), All-of_In P xs (λ y k. h y (inr k)))
