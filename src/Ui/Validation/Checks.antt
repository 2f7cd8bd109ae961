-- ===== src/Ui/Validation/Checks.antt =====
-- What crates/ui-runtime/src/validation.rs has checked before its walks.
use rintawa.Prelude.{
  ◌≡◌, subst, inl, inr, String-discrete, true, false, not, [], length, ok, ◌>>=◌, ◌>>◌, guard,
  guard->>-eq-ok, >>=-eq-ok, fold_result, fold_result-keeps, found-insert, get, insert, arith, leb,
}
use rintawa.Ui.{
  UiNodeId, children, UiNode, UiSurfaceSnapshot, node_not_found, multiple_parents, root_not_found,
  root_has_parent, surface_too_large,
}
use rintawa.Ui.Layout.{validate_layout}
use rintawa.Ui.Validation.{
  default_max_surface_nodes, Nodes, Parents, has_key, node_map, add_child, check_node, check_nodes,
}
use rintawa.Ui.Validation.Seen.{IsKnown}

add_child-IsKnown :
    (nodes : Nodes) (id : UiNodeId) (po : Parents) (child : UiNodeId) (po' : Parents)
    → IsKnown nodes po
    → add_child nodes id po child ≡ ok po'
    → IsKnown nodes po'
unfolding add_child
add_child-IsKnown nodes id po child po' known h k p at =
    let rest =
      guard (not (has_key child po)) (multiple_parents child)
      >> ok (insert String-discrete child id po) in
    let (there, h1) = guard->>-eq-ok (has_key child nodes) (node_not_found child) rest h in
    let (new, h2) =
      guard->>-eq-ok (not (has_key child po)) (multiple_parents child)
        (ok (insert String-discrete child id po)) h1 in
    let e : insert String-discrete child id po ≡ po' = cc in
    elim (found-insert String-discrete child k id po {w = p} (rw e at)) [
      | inl (same, parent) ↦ rw (← same) there
      | inr old ↦ known k p old
    ]

check_node-IsKnown :
    (nodes : Nodes) (po : Parents) (e : UiNodeId × UiNode) (po' : Parents)
    → IsKnown nodes po
    → check_node nodes po e ≡ ok po'
    → IsKnown nodes po'
unfolding check_node
check_node-IsKnown nodes po (key, node) po' known h =
    let (done, layout, rest) =
      >>=-eq-ok (validate_layout node.id node.kind)
        (λ done. fold_result (add_child nodes node.id) po (children node.kind)) h in
    fold_result-keeps (IsKnown nodes) (add_child nodes node.id)
      (λ a c b. add_child-IsKnown nodes node.id a c b) po (children node.kind) po' known rest

-- What a check that got to the walks found.
pub record IsChecked (s : UiSurfaceSnapshot) (nodes : Nodes) (parent_of : Parents) : Type 0 where
  pub mapped : node_map s ≡ ok nodes
  pub rooted : has_key s.root nodes ≡ true
  pub parents : fold_result (check_node nodes) [] nodes ≡ ok parent_of
  pub top : has_key s.root parent_of ≡ false

pub check_nodes-IsChecked :
    (s : UiSurfaceSnapshot) (nodes : Nodes) (parent_of : Parents)
    → check_nodes s ≡ ok (nodes, parent_of)
    → IsChecked s nodes parent_of
unfolding check_nodes
check_nodes-IsChecked s nodes parent_of h =
    let last = λ (m : Nodes) (po : Parents).
      guard (not (has_key s.root po)) (root_has_parent s.root) >> ok (m, po) in
    let walk = λ (m : Nodes).
      guard (has_key s.root m) (root_not_found s.root)
      >> (fold_result (check_node m) [] m >>= last m) in
    let (small, h1) =
      guard->>-eq-ok (leb (length s.nodes) default_max_surface_nodes)
        (surface_too_large (length s.nodes) default_max_surface_nodes) (node_map s >>= walk) h in
    let (m, mapped, h2) = >>=-eq-ok (node_map s) walk h1 in
    let (rooted, h3) =
      guard->>-eq-ok (has_key s.root m) (root_not_found s.root)
        (fold_result (check_node m) [] m >>= last m) h2 in
    let (po, parents, h4) = >>=-eq-ok (fold_result (check_node m) [] m) (last m) h3 in
    let (top, h5) =
      guard->>-eq-ok (not (has_key s.root po)) (root_has_parent s.root) (ok (m, po)) h4 in
    subst (λ (x : Nodes × Parents). IsChecked s x.0 x.1) {x = (m, po)} {y = (nodes, parent_of)} (cc)
      (record { mapped = mapped; rooted = rooted; parents = parents; top = ground arith })

pub IsChecked-IsKnown :
    (s : UiSurfaceSnapshot) (nodes : Nodes) (po : Parents) → IsChecked s nodes po → IsKnown nodes po
unfolding get
IsChecked-IsKnown s nodes po c =
    fold_result-keeps (IsKnown nodes) (check_node nodes) (λ a e b. check_node-IsKnown nodes a e b)
      [] nodes po (λ k p at. absurd (cc)) c.parents
