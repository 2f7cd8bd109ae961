-- ===== src/Ui/Validation/Seen.antt =====
-- The sets of identifiers of crates/ui-runtime/src/validation.rs as lists, against the entries of its maps.
use rintawa.Prelude.{
  ℕ, ◌≤◌, ◌<◌, ◌≡◌, sym, String-discrete, true, false, not, List, [], ◌∷◌, any, count, Option, some,
  holds, holds_iff, holds-false, get, arith,
}
use rintawa.Ui.{UiNodeId}
use rintawa.Ui.Validation.{Nodes, Parents, has_key, is_in}

abbrev pub Returns {ℓ} : {A : Type ℓ} → Option A → Type ℓ
Returns {A = A} answer = (a : A) × (answer ≡ some a)

-- The entries that a list of identifiers leaves out.
unfoldable pub unseen : List UiNodeId → Nodes → ℕ
unseen ids nodes = count (λ e. not (is_in e.0 ids)) nodes

unseen-push_le :
    (id : UiNodeId) (ids : List UiNodeId) (nodes : Nodes)
    → unseen (id ∷ ids) nodes ≤ unseen ids nodes
unfolding unseen count is_in any
unseen-push_le id ids [] = omega arith
unseen-push_le id ids (e ∷ nodes) = let ih = unseen-push_le id ids nodes in ground arith

pub unseen-push_lt :
    (id : UiNodeId) (ids : List UiNodeId) (nodes : Nodes)
    → has_key id nodes ≡ true
    → is_in id ids ≡ false
    → unseen (id ∷ ids) nodes < unseen ids nodes
unfolding unseen count is_in has_key any
unseen-push_lt id ids [] h k = absurd (cc)
unseen-push_lt id ids (e ∷ nodes) h k = elim (String-discrete e.0 id) [
  | yes p ↦
      let le = unseen-push_le id ids nodes in
      let here : holds (String-discrete id e.0) ≡ true =
        (holds_iff (String-discrete id e.0)).1 (sym p) in
      let out : is_in e.0 ids ≡ false = rw p k in ground (arith, le, here, out)
  | no n ↦
      let other = holds-false (String-discrete e.0 id) n in
      let ih = unseen-push_lt id ids nodes (ground arith) k in ground arith
]

-- Children are nodes of the surface.
abbrev pub IsKnown : Nodes → Parents → Type 0
IsKnown nodes parent_of =
    (k p : UiNodeId) → get String-discrete k parent_of ≡ some p → has_key k nodes ≡ true
