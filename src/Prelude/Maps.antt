-- ===== src/Prelude/Maps.antt =====
-- A `BTreeMap` as an association list over keys with decidable equality. The order of the entries is
-- not modelled: the code that uses these maps only looks keys up and inserts.
use mathlib.Core.Path.{◌≡◌, refl, sym, ap, ◌∙◌}
use mathlib.Core.Logic.{◌⊎◌, inl, inr, ite, if_pos, if_neg}
use mathlib.Core.List.{List, [], ◌∷◌}
use mathlib.Core.Option.{Option, none, some}

module _ {ℓ κ} {K : Type ℓ} {V : Type κ} (dec : Discrete K) where
  unfoldable pub get : K → List (K × V) → Option V
  get k [] = none
  get k ((j, v) ∷ m) = ite (dec j k) (some v) (get k m)

  unfoldable pub insert : K → V → List (K × V) → List (K × V)
  insert k v [] = (k, v) ∷ []
  insert k v ((j, w) ∷ m) = ite (dec j k) ((k, v) ∷ m) ((j, w) ∷ insert k v m)

  pub get-insert_self : (k : K) (v : V) (m : List (K × V)) → get k (insert k v m) ≡ some v
  unfolding get insert
  get-insert_self k v [] = if_pos (dec k k) refl _ _
  get-insert_self k v ((i, w) ∷ m) = elim (dec i k) [
    | yes p ↦ rw (if_pos _ p) (if_pos (dec k k) refl _ _)
    | no p ↦ rw (if_neg _ p, if_neg _ p) (get-insert_self k v m)
  ]

  pub get-insert_ne :
      (k j : K) (v : V) (m : List (K × V)) → ¬ (k ≡ j) → get j (insert k v m) ≡ get j m
  unfolding get insert
  get-insert_ne k j v [] h = if_neg (dec k j) h _ _
  get-insert_ne k j v ((i, w) ∷ m) h = elim (dec i k) [
    | yes p ↦ rw (if_pos _ p, if_neg (dec k j) h, if_neg (dec i j) (λ e. h (sym p ∙ e)))
    | no p ↦ rw (if_neg _ p) (ap (λ o. ite (dec i j) (some w) o) (get-insert_ne k j v m h))
  ]

  pub get-insert :
      (k j : K) (v : V) (m : List (K × V)) → get j (insert k v m) ≡ ite (dec k j) (some v) (get j m)
  get-insert k j v m = elim (dec k j) [
    | yes p ↦ rw (if_pos _ p, ← p) (get-insert_self k v m)
    | no p ↦ rw (if_neg _ p) (get-insert_ne k j v m p)
  ]

  unfoldable pub remove : K → List (K × V) → List (K × V)
  remove k [] = []
  remove k ((j, v) ∷ m) = let rest = remove k m in ite (dec j k) rest ((j, v) ∷ rest)

  -- What is found after an insertion is the new entry or an old one.
  pub found-insert :
      (k j : K) (v : V) (m : List (K × V)) {w : V}
      → get j (insert k v m) ≡ some w
      → ((k ≡ j) × (v ≡ w)) ⊎ (get j m ≡ some w)
  found-insert k j v m {w} h = elim (dec k j) [
    | yes p ↦
        let e : v ≡ w = cc (sym (get-insert k j v m) ∙ h, if_pos (dec k j) p (some v) (get j m)) in
        inl (p, e)
    | no p ↦ inr (sym (get-insert_ne k j v m p) ∙ h)
  ]
