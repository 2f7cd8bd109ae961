-- ===== src/Prelude/Updates.antt =====
-- An UPDATE that leaves some columns alone, under the queries that read only those.
use Prim.Native.Nat.{ℕ}
use mathlib.Core.Path.{◌≡◌, refl, ap, ap₂, ◌∙◌}
use mathlib.Core.Bool.{Bool}
use mathlib.Core.List.{List, [], ◌∷◌, map}
use mathlib.Core.Logic.{inl, inr}
use native.Mathlib.Omega.{arith}
use rintawa.Prelude.Tests.{if◌then◌else◌, Bool-cases}
use rintawa.Prelude.Lists.{select, update_where}
use rintawa.Prelude.Sorting.{not_after, place, order_by}

module _ {ℓ} {A : Type ℓ} (p : A → Bool) (f : A → A) where
  pub select-update :
      (q : A → Bool)
      → ((x : A) → q (f x) ≡ q x)
      → (xs : List A) → select q (update_where p f xs) ≡ update_where p f (select q xs)
  unfolding select update_where
  select-update q keep [] = refl
  select-update q keep (x ∷ xs) = ground (arith, select-update q keep xs, keep x)

  key-if :
      (key : A → ℕ × ℕ)
      → ((x : A) → key (f x) ≡ key x)
      → (x : A) → key (if p x then f x else x) ≡ key x
  key-if key keep x = elim (Bool-cases (p x)) [
    | inl here ↦ rw here (keep x)
    | inr gone ↦ rw gone refl
  ]

  place-update :
      (key : A → ℕ × ℕ)
      → ((x : A) → key (f x) ≡ key x)
      → (x : A) (ys : List A)
      → place key (if p x then f x else x) (update_where p f ys) ≡ update_where p f (place key x ys)
  unfolding place update_where
  place-update key keep x [] = refl
  place-update key keep x (y ∷ ys) = elim (Bool-cases (not_after (key x) (key y))) [
    | inl before ↦ rw (key-if key keep x, key-if key keep y, before) refl
    | inr after ↦
        rw (key-if key keep x, key-if key keep y, after)
          (ap (λ l. (if p y then f y else y) ∷ l) (place-update key keep x ys))
  ]

  pub order_by-update :
      (key : A → ℕ × ℕ)
      → ((x : A) → key (f x) ≡ key x)
      → (xs : List A) → order_by key (update_where p f xs) ≡ update_where p f (order_by key xs)
  unfolding order_by update_where
  order_by-update key keep [] = refl
  order_by-update key keep (x ∷ xs) =
      ap (place key (if p x then f x else x)) (order_by-update key keep xs)
      ∙ place-update key keep x (order_by key xs)

  pub map-update {κ} :
      {B : Type κ} (g : A → B)
      → ((x : A) → g (f x) ≡ g x)
      → (xs : List A) → map g (update_where p f xs) ≡ map g xs
  unfolding update_where
  map-update g keep [] = refl
  map-update g keep (x ∷ xs) = elim (Bool-cases (p x)) [
    | inl here ↦ rw here (ap₂ (λ b l. b ∷ l) (keep x) (map-update g keep xs))
    | inr gone ↦ rw gone (ap (λ l. g x ∷ l) (map-update g keep xs))
  ]
