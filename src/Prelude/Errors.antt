-- ===== src/Prelude/Errors.antt =====
-- Fallible code: Rust's `Result<T, E>`, its `?` operator as the bind of a `do` block, and the
-- inversion of a successful bind.
use mathlib.Core.Path.{◌≡◌, refl, ap, subst}
use mathlib.Core.Logic.{◌⊎◌, inl, inr}
use mathlib.Core.Bool.{Bool, true, false}
use mathlib.Core.Option.{Option, none, some}
use rintawa.Prelude.Lists.{All}
use mathlib.Core.List.{List, [], ◌∷◌}
use native.Mathlib.Omega.{arith}

pub data Result {ℓ κ} (E : Type ℓ) (A : Type κ) : Type (ℓ ⊔ κ) where
  ok : A → Result E A
  err : E → Result E A

-- An early return with `failure` where the test does not hold.
abbrev pub guard {ℓ} : {E : Type ℓ} → Bool → E → Result E (Unit {0})
guard false failure = err failure
guard true failure = ok tt

-- The `?` operator: what follows runs on the value, and an error is passed on.
abbrev pub ◌>>=◌ {ℓ κ μ} :
    {E : Type ℓ} {A : Type κ} {B : Type μ} → Result E A → (A → Result E B) → Result E B
err failure >>= next = err failure
ok value >>= next = next value

abbrev pub ◌>>◌ {ℓ μ} : {E : Type ℓ} {B : Type μ} → Result E (Unit {0}) → Result E B → Result E B
first >> second = first >>= λ done. second

infixl 5 ◌>>=◌ ◌>>◌
-- `ok_or`: the value of an option, or an error.
abbrev pub ok_or {ℓ κ} : {E : Type ℓ} {A : Type κ} → Option A → E → Result E A
ok_or none e = err e
ok_or (some a) e = ok a

abbrev pub map_err {ℓ κ μ} :
    {E : Type ℓ} {F : Type κ} {A : Type μ} → (E → F) → Result E A → Result F A
map_err f (ok a) = ok a
map_err f (err e) = err (f e)

module _ {ℓ κ} {E : Type ℓ} {A : Type κ} where
  -- A loop over a slice whose body may return early with an error.
  unfoldable pub for_each : (A → Result E (Unit {0})) → List A → Result E (Unit {0})
  for_each f [] = ok tt
  for_each f (x ∷ xs) = do f x; for_each f xs

  pub Result-cases : (m : Result E A) → ((a : A) × (m ≡ ok a)) ⊎ ((e : E) × (m ≡ err e))
  Result-cases (ok a) = inl (a, refl)
  Result-cases (err e) = inr (e, refl)

  pub guard->>-eq-ok :
      (b : Bool) (e : E) (m : Result E A) {a : A}
      → (guard b e >> m) ≡ ok a
      → (b ≡ true) × (m ≡ ok a)
  guard->>-eq-ok b e m h = ground arith

module _ {ℓ κ μ} {E : Type ℓ} {A : Type κ} {B : Type μ} where
  -- A bind that succeeds: its first part did, with a value on which the second one succeeds.
  pub >>=-eq-ok :
      (first : Result E A) (next : A → Result E B) {result : B}
      → (first >>= next) ≡ ok result
      → (value : A) × (first ≡ ok value) × (next value ≡ ok result)
  >>=-eq-ok (err failure) next succeeds = absurd (cc)
  >>=-eq-ok (ok value) next succeeds = (value, refl, succeeds)

module _ {ℓ κ μ} {E : Type ℓ} {S : Type κ} {A : Type μ} where
  -- A loop that carries a state and may return early with an error.
  unfoldable pub fold_result : (S → A → Result E S) → S → List A → Result E S
  fold_result f s [] = ok s
  fold_result f s (x ∷ xs) = do s' ← f s x; fold_result f s' xs

  -- Such a loop keeps what its body keeps.
  pub fold_result-keeps {ν} :
      (P : S → Type ν) (f : S → A → Result E S)
      → ((s : S) (a : A) (t : S) → P s → f s a ≡ ok t → P t)
      → (s : S) (xs : List A) (t : S) → P s
      → fold_result f s xs ≡ ok t
      → P t
  unfolding fold_result
  fold_result-keeps P f keep s [] t p h = subst P (cc) p
  fold_result-keeps P f keep s (x ∷ xs) t p h =
      let (s', first, rest) = >>=-eq-ok (f s x) (λ s'. fold_result f s' xs) h in
      fold_result-keeps P f keep s' xs t (keep s x s' p first) rest

  -- Each round establishes `Q` of its element, which lasts as long as the state changes by `R`.
  pub fold_result-All {ν ξ} :
      (R : S → S → Type ν) (Q : A → S → Type ξ) (f : S → A → Result E S)
      → ((s : S) → R s s)
      → ((s t u : S) → R s t → R t u → R s u)
      → ((a : A) (s t : S) → R s t → Q a s → Q a t)
      → ((s : S) (a : A) (t : S) → f s a ≡ ok t → R s t × Q a t)
      → (s : S) (xs : List A) (t : S) → fold_result f s xs ≡ ok t
      → R s t × All (λ a. Q a t) xs
  unfolding fold_result
  fold_result-All R Q f same chain lasts round s [] t h = (subst (R s) (cc) (same s), tt)
  fold_result-All R Q f same chain lasts round s (x ∷ xs) t h =
      let (s', first, rest) = >>=-eq-ok (f s x) (λ s'. fold_result f s' xs) h in
      let (changed, here) = round s x s' first in
      let (later, there) = fold_result-All R Q f same chain lasts round s' xs t rest in
      (chain s s' t changed later, (lasts x s' t later here, there))

pub map_err-eq-ok {ℓ κ μ} :
    {E : Type ℓ} {F : Type κ} {A : Type μ} (f : E → F) (m : Result E A) {a : A}
    → map_err f m ≡ ok a
    → m ≡ ok a
map_err-eq-ok f (ok b) h = let same : b ≡ _ = cc in ap ok same
map_err-eq-ok f (err e) h = absurd (cc)

pub ok_or-eq-ok {ℓ κ} :
    {E : Type ℓ} {A : Type κ} (m : Option A) (e : E) {a : A} → ok_or m e ≡ ok a → m ≡ some a
ok_or-eq-ok none e h = absurd (cc)
ok_or-eq-ok (some b) e h = let same : b ≡ _ = cc in ap some same
