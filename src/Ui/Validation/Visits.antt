-- ===== src/Ui/Validation/Visits.antt =====
-- The walk from the root of crates/ui-runtime/src/validation.rs comes to an end.
use rintawa.Prelude.{
  ℕ, zero, suc, ◌+◌, ◌≤◌, ◌<◌, ◌≡◌, ◌∙◌, refl, sym, inl, inr, String-discrete, true, false, List,
  [], ◌∷◌, length, any, some, Option-cases, Bool-cases, holds, holds_iff, get, if_pos, if_neg,
  arith, if◌then◌else◌,
}
use rintawa.Ui.{UiNodeId, children, UiNode}
use rintawa.Ui.Validation.{
  Nodes, is_in, push_all, children_of, unvisited_children, mark, visit, links, check_visited,
  validate_reachability,
}
use rintawa.Ui.Validation.Seen.{Returns}

-- The references to children that the entries left out hold.
unfoldable pub weight : List UiNodeId → Nodes → ℕ
weight visited [] = 0
weight visited (e ∷ rest) =
    (if is_in e.0 visited then 0 else length (children e.1.kind)) + weight visited rest

weight-push_le :
    (id : UiNodeId) (visited : List UiNodeId) (nodes : Nodes)
    → weight (id ∷ visited) nodes ≤ weight visited nodes
unfolding weight is_in any
weight-push_le id visited [] = omega arith
weight-push_le id visited (e ∷ nodes) = let ih = weight-push_le id visited nodes in ground arith

weight-push :
    (id : UiNodeId) (node : UiNode) (visited : List UiNodeId) (nodes : Nodes)
    → get String-discrete id nodes ≡ some node
    → is_in id visited ≡ false
    → length (children node.kind) + weight (id ∷ visited) nodes ≤ weight visited nodes
unfolding get weight is_in any
weight-push id node visited [] h k = absurd (cc)
weight-push id node visited ((j, n) ∷ nodes) h k = elim (String-discrete j id) [
  | yes p ↦
      let le = weight-push_le id visited nodes in
      let same : n ≡ node =
        cc (sym (if_pos (String-discrete j id) p (some n) (get String-discrete id nodes)) ∙ h) in
      let here : holds (String-discrete id j) ≡ true =
        (holds_iff (String-discrete id j)).1 (sym p) in
      let out : is_in j visited ≡ false = rw p k in rw (← same) (ground (arith, le, here, out))
  | no n' ↦
      let ih =
        weight-push id node visited nodes (sym (if_neg (String-discrete j id) n' _ _) ∙ h) k in
      ground arith
]

weight-mark :
    (id : UiNodeId) (visited : List UiNodeId) (nodes : Nodes)
    → length (unvisited_children nodes visited id) + weight (mark visited id) nodes
      ≤ weight visited nodes
unfolding unvisited_children mark children_of
weight-mark id visited nodes = elim (Bool-cases (is_in id visited)) [
  | inl old ↦ rw old (omega arith)
  | inr new ↦ elim (Option-cases (get String-discrete id nodes)) [
    | inl nothing ↦
        rw (new, nothing, children_of) (let le = weight-push_le id visited nodes in omega arith)
    | inr (node, at) ↦ rw (new, at, children_of) (weight-push id node visited nodes at new)
  ]
]

length-push_all : (xs ys : List UiNodeId) → length (push_all xs ys) ≡ length xs + length ys
unfolding push_all
length-push_all [] ys = omega arith
length-push_all (x ∷ xs) ys = let ih = length-push_all xs (x ∷ ys) in omega arith

pub visit-Returns :
    (fuel : ℕ) (nodes : Nodes) (visited pending : List UiNodeId)
    → length pending + weight visited nodes < fuel
    → Returns (visit fuel nodes visited pending)
unfolding visit
visit-Returns zero nodes visited pending enough = absurd (omega arith)
visit-Returns (suc fuel) nodes visited [] enough = (visited, refl)
visit-Returns (suc fuel) nodes visited (id ∷ pending) enough =
    let less = weight-mark id visited nodes in
    let pushed = length-push_all (unvisited_children nodes visited id) pending in
    visit-Returns fuel nodes (mark visited id)
      (push_all (unvisited_children nodes visited id) pending) (omega arith)

weight-links : (nodes : Nodes) → weight [] nodes ≤ links nodes
unfolding weight links is_in any
weight-links [] = omega arith
weight-links (e ∷ nodes) = let ih = weight-links nodes in ground arith

pub reachability-Returns :
    (root : UiNodeId) (nodes : Nodes) → Returns (validate_reachability root nodes)
unfolding validate_reachability check_visited
reachability-Returns root nodes =
    let bound = weight-links nodes in
    let (visited, found) =
      visit-Returns (suc (suc (links nodes))) nodes [] (root ∷ []) (omega arith) in
    rw (found, check_visited) (_, refl)
