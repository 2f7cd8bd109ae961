-- ===== src/Prelude/Lists.antt =====
-- Lists measured by native numbers, the Boolean queries that an SQL statement makes of the rows of a
-- table, and a predicate that holds of every element.
use Prim.Native.Nat.{ℕ, zero, suc, ◌+◌, ◌≤◌}
use mathlib.Core.Path.{◌≡◌, refl, sym, subst}
use mathlib.Core.Logic.{◌⊎◌, inl, inr}
use mathlib.Core.Bool.{Bool, true, false, not, ◌&&◌, ◌||◌}
use mathlib.Core.List.{List, [], ◌∷◌, ◌++◌}
use mathlib.Core.Option.{Option, none, some}
use native.Mathlib.Omega.{arith}
use rintawa.Prelude.Tests.{if◌then◌else◌, Bool-cases, ◌==◌}

-- No element, at every level.
pub data Lifted {ℓ} : Type ℓ where

module _ {ℓ} {A : Type ℓ} where
  abbrev pub length : List A → ℕ
  length [] = 0
  length (x ∷ xs) = suc (length xs)

  abbrev pub take : ℕ → List A → List A
  take zero xs = []
  take (suc n) [] = []
  take (suc n) (x ∷ xs) = x ∷ take n xs

  -- `SELECT EXISTS(SELECT 1 FROM t WHERE p)`.
  unfoldable pub any : (A → Bool) → List A → Bool
  any p [] = false
  any p (x ∷ xs) = p x || any p xs

  unfoldable pub all : (A → Bool) → List A → Bool
  all p [] = true
  all p (x ∷ xs) = p x && all p xs

  -- `SELECT * FROM t WHERE p`.
  unfoldable pub select : (A → Bool) → List A → List A
  select p [] = []
  select p (x ∷ xs) = let rest = select p xs in if p x then x ∷ rest else rest

  -- `DELETE FROM t WHERE p`.
  unfoldable pub delete_where : (A → Bool) → List A → List A
  unfolding select
  delete_where p = select (λ x. not (p x))

  -- The first row of `SELECT * FROM t WHERE p`: `query_row` with `.optional()`.
  unfoldable pub find : (A → Bool) → List A → Option A
  find p [] = none
  find p (x ∷ xs) = if p x then some x else find p xs

  -- `UPDATE t SET f WHERE p`.
  unfoldable pub update_where : (A → Bool) → (A → A) → List A → List A
  update_where p f [] = []
  update_where p f (x ∷ xs) = (if p x then f x else x) ∷ update_where p f xs

  -- The number of rows that a statement with `WHERE p` changes.
  unfoldable pub count : (A → Bool) → List A → ℕ
  count p [] = 0
  count p (x ∷ xs) = (if p x then 1 else 0) + count p xs

  abbrev pub All {κ} : (A → Type κ) → List A → Type κ
  All P [] = Unit
  All P (x ∷ xs) = P x × All P xs

  -- `x` is an element of the list.
  abbrev pub In : A → List A → Type ℓ
  In x [] = Lifted
  In x (y ∷ ys) = (x ≡ y) ⊎ In x ys

-- What the query functions compute.
module _ {ℓ} {A : Type ℓ} where
  pub any-append : (p : A → Bool) (xs ys : List A) → any p (xs ++ ys) ≡ (any p xs || any p ys)
  unfolding any
  any-append p [] ys = refl
  any-append p (x ∷ xs) ys = ground (arith, any-append p xs ys)

  pub select-append :
      (p : A → Bool) (xs ys : List A) → select p (xs ++ ys) ≡ select p xs ++ select p ys
  unfolding select
  select-append p [] ys = refl
  select-append p (x ∷ xs) ys = ground (arith, select-append p xs ys)

  -- A row that a deletion spares is still found.
  pub any-select :
      (p q : A → Bool) (xs : List A)
      → ((x : A) → p x ≡ true → q x ≡ true)
      → any p xs ≡ true
      → any p (select q xs) ≡ true
  unfolding any select
  any-select p q [] keep h = h
  any-select p q (x ∷ xs) keep h = ground (arith, keep x, any-select p q xs keep)

  pub any-select_sub :
      (p q : A → Bool) (xs : List A) → any p xs ≡ false → any p (select q xs) ≡ false
  unfolding any select
  any-select_sub p q [] h = h
  any-select_sub p q (x ∷ xs) h = ground (arith, any-select_sub p q xs)

  pub find-eq-none : (p : A → Bool) (xs : List A) → any p xs ≡ false → find p xs ≡ none
  unfolding any find
  find-eq-none p [] h = refl
  find-eq-none p (x ∷ xs) h = ground (arith, find-eq-none p xs)

  pub find-append_none :
      (p : A → Bool) (xs ys : List A) → any p xs ≡ false → find p (xs ++ ys) ≡ find p ys
  unfolding any find
  find-append_none p [] ys h = refl
  find-append_none p (x ∷ xs) ys h = ground (arith, find-append_none p xs ys)

  pub find_sound :
      (p : A → Bool) (xs : List A) {x : A} → find p xs ≡ some x → (p x ≡ true) × (any p xs ≡ true)
  unfolding any find
  find_sound p [] h = cc
  find_sound p (y ∷ xs) {x} h = ground (arith, find_sound p xs {x = x})

  pub select-eq-nil : (p : A → Bool) (xs : List A) → any p xs ≡ false → select p xs ≡ []
  unfolding any select
  select-eq-nil p [] h = refl
  select-eq-nil p (x ∷ xs) h = ground (arith, select-eq-nil p xs)

  pub select-all : (p : A → Bool) (xs : List A) → all p xs ≡ true → select p xs ≡ xs
  unfolding all select
  select-all p [] h = refl
  select-all p (x ∷ xs) h = ground (arith, select-all p xs)

  module _ {κ} (P : A → Type κ) where
    pub All-append : (xs ys : List A) → All P xs → All P ys → All P (xs ++ ys)
    All-append [] ys hx hy = hy
    All-append (x ∷ xs) ys hx hy = (hx.0, All-append xs ys hx.1 hy)

    pub All-snoc : (xs : List A) (y : A) → All P xs → P y → All P (xs ++ y ∷ [])
    All-snoc xs y hx hy = All-append xs (y ∷ []) hx (hy, tt)

    pub All-find : (p : A → Bool) (xs : List A) {x : A} → All P xs → find p xs ≡ some x → P x
    unfolding find
    All-find p [] hx h = cc
    All-find p (y ∷ xs) {x} hx h = elim (Bool-cases (p y)) [
      | inl here ↦ subst P (ground arith) hx.0
      | inr there ↦ All-find p xs hx.1 (ground arith)
    ]

  -- Rows that a deletion leaves have a property that the old rows had, where the deletion spares them.
  pub All-select {κ μ} :
      (P : A → Type κ) (Q : A → Type μ) (q : A → Bool) (xs : List A)
      → ((x : A) → q x ≡ true → P x → Q x)
      → All P xs
      → All Q (select q xs)
  unfolding select
  All-select P Q q [] keep hx = tt
  All-select P Q q (x ∷ xs) keep hx = elim (Bool-cases (q x)) [
    | inl here ↦ rw here (keep x here hx.0, All-select P Q q xs keep hx.1)
    | inr gone ↦ rw gone (All-select P Q q xs keep hx.1)
  ]

  pub All-mono {κ μ} :
      (P : A → Type κ) (Q : A → Type μ) (xs : List A) → ((x : A) → P x → Q x) → All P xs → All Q xs
  All-mono P Q [] keep hx = tt
  All-mono P Q (x ∷ xs) keep hx = (keep x hx.0, All-mono P Q xs keep hx.1)

  pub All-update {κ} :
      (P : A → Type κ) (p : A → Bool) (f : A → A) (xs : List A)
      → ((x : A) → p x ≡ true → P x → P (f x))
      → All P xs
      → All P (update_where p f xs)
  unfolding update_where
  All-update P p f [] keep hx = tt
  All-update P p f (x ∷ xs) keep hx = elim (Bool-cases (p x)) [
    | inl here ↦ rw here (keep x here hx.0, All-update P p f xs keep hx.1)
    | inr gone ↦ rw gone (hx.0, All-update P p f xs keep hx.1)
  ]

module _ {ℓ} {A : Type ℓ} where
  pub In-select : (q : A → Bool) (x : A) (xs : List A) → In x (select q xs) → In x xs × (q x ≡ true)
  unfolding select
  In-select q x [] h = elim h [ ]
  In-select q x (y ∷ ys) h = elim (Bool-cases (q y)) [
    | inl here ↦ elim (rw here at h) [
      | inl e ↦ (inl e, rw e here)
      | inr there ↦ let ih = In-select q x ys there in (inr ih.0, ih.1)
    ]
    | inr gone ↦ let ih = In-select q x ys (rw gone at h) in (inr ih.0, ih.1)
  ]

  pub All-In {κ} : (P : A → Type κ) (x : A) (xs : List A) → All P xs → In x xs → P x
  All-In P x [] a h = elim h [ ]
  All-In P x (y ∷ ys) a (inl e) = subst P (sym e) a.0
  All-In P x (y ∷ ys) a (inr h) = All-In P x ys a.1 h

  pub any-In : (p : A → Bool) (x : A) (xs : List A) → p x ≡ true → In x xs → any p xs ≡ true
  unfolding any
  any-In p x [] e h = elim h [ ]
  any-In p x (y ∷ ys) e (inl here) = ground arith
  any-In p x (y ∷ ys) e (inr there) = ground (arith, any-In p x ys e there)

  pub find-In : (p : A → Bool) (xs : List A) {x : A} → find p xs ≡ some x → In x xs × (p x ≡ true)
  unfolding find
  find-In p [] h = cc
  find-In p (y ∷ ys) {x} h = elim (Bool-cases (p y)) [
    | inl here ↦ (inl (ground arith), ground arith)
    | inr there ↦ let ih = find-In p ys {x = x} (ground arith) in (inr ih.0, ih.1)
  ]

  pub In-append : (x : A) (xs ys : List A) → In x (xs ++ ys) → In x xs ⊎ In x ys
  In-append x [] ys h = inr h
  In-append x (y ∷ xs) ys (inl e) = inl (inl e)
  In-append x (y ∷ xs) ys (inr h) = elim (In-append x xs ys h) [
    | inl k ↦ inl (inr k)
    | inr k ↦ inr k
  ]

  -- A row that satisfies `p` survives a deletion by `q` if no row satisfies both.
  pub any-delete :
      (p q : A → Bool) (xs : List A)
      → any p xs ≡ true
      → any (λ x. q x && p x) xs ≡ false
      → any p (delete_where q xs) ≡ true
  unfolding any delete_where
  any-delete p q [] h k = h
  any-delete p q (x ∷ xs) h k = ground (arith, any-delete p q xs)

  pub any-delete_ne :
      (p q : A → Bool) (xs : List A)
      → ((x : A) → p x ≡ true → q x ≡ false)
      → any p (delete_where q xs) ≡ any p xs
  unfolding any delete_where
  any-delete_ne p q [] h = refl
  any-delete_ne p q (x ∷ xs) h = ground (arith, any-delete_ne p q xs h, h x)

  -- What a deletion leaves satisfies what it had and is not doomed.
  pub All-delete {κ μ} :
      (P : A → Type κ) (Q : A → Type μ) (q : A → Bool) (xs : List A)
      → ((x : A) → q x ≡ false → P x → Q x)
      → All P xs
      → All Q (delete_where q xs)
  unfolding delete_where
  All-delete P Q q xs keep h =
      All-select P Q (λ x. not (q x)) xs (λ x e p. keep x (ground arith) p) h

  -- No row beyond a bound is at a place above it.
  pub any-above :
      (at : A → ℕ) (p : ℕ) (xs : List A)
      → All (λ x. at x ≤ p) xs
      → any (λ x. at x == p + 1) xs ≡ false
  unfolding any
  any-above at p [] h = refl
  any-above at p (x ∷ xs) h = ground (arith, any-above at p xs h.1)

  pub find-append_some :
      (p : A → Bool) (xs ys : List A) {x : A} → find p xs ≡ some x → find p (xs ++ ys) ≡ some x
  unfolding find
  find-append_some p [] ys h = cc
  find-append_some p (y ∷ xs) ys {x} h = ground (arith, find-append_some p xs ys {x = x})

  pub any_mono :
      (p q : A → Bool) (xs : List A)
      → ((x : A) → p x ≡ true → q x ≡ true)
      → any p xs ≡ true
      → any q xs ≡ true
  unfolding any
  any_mono p q [] k h = h
  any_mono p q (x ∷ xs) k h = ground (arith, any_mono p q xs k, k x)

  pub any-of_delete :
      (p q : A → Bool) (xs : List A) → any p (delete_where q xs) ≡ true → any p xs ≡ true
  unfolding any delete_where
  any-of_delete p q [] h = h
  any-of_delete p q (x ∷ xs) h = ground (arith, any-of_delete p q xs)
