-- ===== src/Ui/Validation/Walks.antt =====
-- The two walks of crates/ui-runtime/src/validation.rs, along the parents and from the root, come to an end.
use rintawa.Prelude.{
  ℕ, zero, suc, ◌≤◌, ◌<◌, ◌≡◌, refl, inl, inr, String-discrete, List, [], ◌∷◌, length, count,
  Option, none, some, Option-cases, Bool-cases, ok, err, Result-cases, get, arith,
}
use rintawa.Ui.{UiNodeId, UiSurfaceSnapshot, cycle_detected}
use rintawa.Ui.Layout.{Checked}
use rintawa.Ui.Validation.{
  Nodes, Parents, check_nodes, is_in, follow, and_then, follow_each, detect_cycles,
  validate_reachability, validate_snapshot,
}
use rintawa.Ui.Validation.Seen.{Returns, unseen, unseen-push_lt, IsKnown}
use rintawa.Ui.Validation.Visits.{reachability-Returns}
use rintawa.Ui.Validation.Checks.{check_nodes-IsChecked, IsChecked-IsKnown}

follow-Returns :
    (fuel : ℕ) (nodes : Nodes) (parent_of : Parents) (chain : List UiNodeId) (current : UiNodeId)
    → IsKnown nodes parent_of
    → unseen chain nodes < fuel
    → Returns (follow fuel parent_of chain current)
unfolding follow
follow-Returns zero nodes parent_of chain current known enough = absurd (omega arith)
follow-Returns (suc fuel) nodes parent_of chain current known enough =
    elim (Option-cases (get String-discrete current parent_of)) [
      | inl top ↦ rw (top, follow) (ok tt, refl)
      | inr (parent, at) ↦ elim (Bool-cases (is_in current chain)) [
        | inl again ↦ rw (at, again, follow) (err (cycle_detected current), refl)
        | inr new ↦
            let less = unseen-push_lt current chain nodes (known current parent at) new in
            rw (at, new, follow)
              (follow-Returns fuel nodes parent_of (current ∷ chain) parent known (omega arith))
      ]
    ]

and_then-Returns : (a b : Option Checked) → Returns a → Returns b → Returns (and_then a b)
unfolding and_then
and_then-Returns none b h k = absurd (cc)
and_then-Returns (some (ok done)) b h k = k
and_then-Returns (some (err e)) b h k = (err e, refl)

follow_each-Returns :
    (fuel : ℕ) (nodes : Nodes) (parent_of : Parents) (starts : Nodes)
    → IsKnown nodes parent_of
    → unseen [] nodes < fuel
    → Returns (follow_each fuel parent_of starts)
unfolding follow_each
follow_each-Returns fuel nodes parent_of [] known enough = (ok tt, refl)
follow_each-Returns fuel nodes parent_of ((start, node) ∷ rest) known enough =
    and_then-Returns (follow fuel parent_of [] start) (follow_each fuel parent_of rest)
      (follow-Returns fuel nodes parent_of [] start known enough)
      (follow_each-Returns fuel nodes parent_of rest known enough)

pub unseen-length : (ids : List UiNodeId) (nodes : Nodes) → unseen ids nodes ≤ length nodes
unfolding unseen count
unseen-length ids [] = omega arith
unseen-length ids (e ∷ nodes) = let ih = unseen-length ids nodes in ground arith

-- The validation of a surface always comes to a verdict: neither the walk along the parents, on any cycle, nor
-- the walk from the root, however often nodes are referred to, runs out of its fuel.
pub validate_snapshot-returns :
    (s : UiSurfaceSnapshot) → (verdict : Checked) × (validate_snapshot s ≡ some verdict)
unfolding validate_snapshot detect_cycles
validate_snapshot-returns s = elim (Result-cases (check_nodes s)) [
  | inl ((nodes, po), checked) ↦
      let known = IsChecked-IsKnown s nodes po (check_nodes-IsChecked s nodes po checked) in
      let bound = unseen-length [] nodes in
      rw (checked, validate_snapshot)
        (and_then-Returns (detect_cycles nodes po) (validate_reachability s.root nodes)
          (follow_each-Returns (suc (length nodes)) nodes po nodes known (omega arith))
          (reachability-Returns s.root nodes))
  | inr (e, refused) ↦ rw (refused, validate_snapshot) (err e, refl)
]
