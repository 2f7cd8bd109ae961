-- ===== src/Prelude/Sorting.antt =====
-- `ORDER BY a, b` as an insertion sort on a pair of numbers, and `rows.map(f).collect()` into a result.
use Prim.Native.Nat.{ℕ}
use mathlib.Core.Path.{◌≡◌, refl}
use mathlib.Core.Bool.{Bool, true, false, ◌&&◌, ◌||◌}
use mathlib.Core.List.{List, [], ◌∷◌}
use native.Mathlib.Omega.{arith}
use rintawa.Prelude.Tests.{if◌then◌else◌, Bool-cases, ltb, leb, ◌==◌}
use mathlib.Core.Logic.{inl, inr}
use rintawa.Prelude.Lists.{All, In, All-mono}
use rintawa.Prelude.Errors.{Result, ok, ◌>>=◌}

-- `a` stands before `b`, or beside it.
abbrev pub not_after : ℕ × ℕ → ℕ × ℕ → Bool
not_after a b = ltb a.0 b.0 || (a.0 == b.0 && leb a.1 b.1)

module _ {ℓ} {A : Type ℓ} (key : A → ℕ × ℕ) where
  unfoldable pub place : A → List A → List A
  place x [] = x ∷ []
  place x (y ∷ ys) =
      let rest = place x ys in if not_after (key x) (key y) then x ∷ y ∷ ys else y ∷ rest

  unfoldable pub order_by : List A → List A
  unfolding place
  order_by [] = []
  order_by (x ∷ xs) = place x (order_by xs)

  -- Every row stands before the rows that follow it.
  abbrev pub Ascending : List A → Type 0
  Ascending [] = Unit
  Ascending (x ∷ []) = Unit
  Ascending (x ∷ y ∷ ys) = (not_after (key x) (key y) ≡ true) × Ascending (y ∷ ys)

  place_first : (x : A) (ys : List A) → Ascending (x ∷ ys) → place x ys ≡ x ∷ ys
  unfolding place
  place_first x [] h = refl
  place_first x (y ∷ ys) h = ground arith

  Ascending-tail : (x : A) (ys : List A) → Ascending (x ∷ ys) → Ascending ys
  Ascending-tail x [] h = tt
  Ascending-tail x (y ∷ ys) h = h.1

  -- Sorting changes nothing where the rows are in order.
  pub order_by-Ascending : (xs : List A) → Ascending xs → order_by xs ≡ xs
  unfolding order_by
  order_by-Ascending [] h = refl
  order_by-Ascending (x ∷ xs) h =
      rw (order_by-Ascending xs (Ascending-tail x xs h)) (place_first x xs h)

  -- The first row of a sorted table: an element of the table with no element before it.
  pub record IsFirst (m : A) (xs : List A) : Type ℓ where
    pub element : In m xs
    pub least : All (λ y. not_after (key m) (key y) ≡ true) xs

  abbrev Sorts : List A → Type ℓ
  Sorts xs = (m : A) × (rest : List A) × (order_by xs ≡ m ∷ rest) × IsFirst m xs

  not_after_trans :
      (a b c : ℕ × ℕ) → not_after a b ≡ true → not_after b c ≡ true → not_after a c ≡ true
  not_after_trans a b c h k = ground arith

  not_after_total : (a b : ℕ × ℕ) → not_after a b ≡ false → not_after b a ≡ true
  not_after_total a b h = ground arith

  not_after_refl : (a : ℕ × ℕ) → not_after a a ≡ true
  not_after_refl a = ground arith

  pub order_by-first : (x : A) (xs : List A) → Sorts (x ∷ xs)
  unfolding order_by
  order_by-first x [] =
      (x, [], refl, record { element = inl refl; least = (not_after_refl (key x), tt) })
  order_by-first x (y ∷ ys) =
      let (m, rest, sorted, first) = order_by-first y ys in
      elim (Bool-cases (not_after (key x) (key m))) [
        | inl before ↦ (
          x,
          m ∷ rest,
          ground arith,
          record {
            element = inl refl;
            least = (
              not_after_refl (key x),
              All-mono (λ z. not_after (key m) (key z) ≡ true)
                  (λ z. not_after (key x) (key z) ≡ true) (y ∷ ys)
                  (λ z h. not_after_trans (key x) (key m) (key z) before h) first.least,
            );
          },
        )
        | inr later ↦ (
          m,
          place x rest,
          ground arith,
          record {
            element = inr first.element;
            least = (not_after_total (key x) (key m) later, first.least);
          },
        )
      ]

module _ {ℓ κ μ} {E : Type ℓ} {A : Type κ} {B : Type μ} where
  unfoldable pub collect_results : (A → Result E B) → List A → Result E (List B)
  collect_results f [] = ok []
  collect_results f (x ∷ xs) = do y ← f x; ys ← collect_results f xs; ok (y ∷ ys)
