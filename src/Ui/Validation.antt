-- ===== src/Ui/Validation.antt =====
-- crates/ui-runtime/src/validation.rs: the tree of the nodes. A hash map is the list of its entries. The walks
-- along the parents and from the root have fuel, and `none` means that it ran out.
pub mod Entries
pub mod Seen
pub mod Visits
pub mod Checks
pub mod Walks
pub mod Records
pub mod Orphans
pub mod Tree
pub mod Grids
use rintawa.Prelude.{
  ℕ, zero, suc, ◌+◌, String-discrete, Bool, true, false, not, List, [], ◌∷◌, map, length, any,
  select, sort_by, codes, codes_leb, Option, none, some, Result, ok, err, ◌>>=◌, ◌>>◌, guard,
  fold_result, holds, get, insert, leb, ◌==◌, if◌then◌else◌,
}
use rintawa.Ui.{
  UiNodeId, children, UiNode, UiSurfaceSnapshot, UiError, surface_too_large, duplicate_node,
  node_not_found, root_not_found, root_has_parent, multiple_parents, orphan_node, cycle_detected,
}
use rintawa.Ui.Layout.{Checked, validate_layout}

abbrev pub default_max_surface_nodes : ℕ
default_max_surface_nodes = 4096

abbrev pub Nodes : Type 0
Nodes = List (UiNodeId × UiNode)

abbrev pub Parents : Type 0
Parents = List (UiNodeId × UiNodeId)

-- `contains_key`.
unfoldable pub has_key {ℓ} : {V : Type ℓ} → UiNodeId → List (UiNodeId × V) → Bool
has_key id entries = any (λ e. holds (String-discrete e.0 id)) entries

unfoldable pub add_node : Nodes → UiNode → Result UiError Nodes
add_node nodes node = do
  guard (not (has_key node.id nodes)) (duplicate_node node.id)
  ok (insert String-discrete node.id node nodes)

unfoldable pub node_map : UiSurfaceSnapshot → Result UiError Nodes
node_map snapshot = fold_result add_node [] snapshot.nodes

unfoldable pub add_child : Nodes → UiNodeId → Parents → UiNodeId → Result UiError Parents
add_child nodes id parent_of child = do
  guard (has_key child nodes) (node_not_found child)
  guard (not (has_key child parent_of)) (multiple_parents child)
  ok (insert String-discrete child id parent_of)

-- One node of the loop of `validate_snapshot`.
unfoldable pub check_node : Nodes → Parents → UiNodeId × UiNode → Result UiError Parents
check_node nodes parent_of (key, node) = do
  validate_layout node.id node.kind
  fold_result (add_child nodes node.id) parent_of (children node.kind)

-- `validate_snapshot` up to the walks.
unfoldable pub check_nodes : UiSurfaceSnapshot → Result UiError (Nodes × Parents)
check_nodes snapshot = do
  guard (leb (length snapshot.nodes) default_max_surface_nodes)
      (surface_too_large (length snapshot.nodes) default_max_surface_nodes)
  nodes ← node_map snapshot
  guard (has_key snapshot.root nodes) (root_not_found snapshot.root)
  parent_of ← fold_result (check_node nodes) [] nodes
  guard (not (has_key snapshot.root parent_of)) (root_has_parent snapshot.root)
  ok (nodes, parent_of)

unfoldable pub is_in : UiNodeId → List UiNodeId → Bool
is_in id ids = any (λ i. holds (String-discrete i id)) ids

-- The `while` of `detect_cycles`.
unfoldable pub follow : ℕ → Parents → List UiNodeId → UiNodeId → Option Checked
follow zero parent_of chain current = none
follow (suc fuel) parent_of chain current = elim (get String-discrete current parent_of) [
  | none ↦ some (ok tt)
  | some parent ↦
      let rest = follow fuel parent_of (current ∷ chain) parent in
      if is_in current chain then some (err (cycle_detected current)) else rest
]

-- The first of two checks that fails.
unfoldable pub and_then : Option Checked → Option Checked → Option Checked
and_then none next = none
and_then (some (err e)) next = some (err e)
and_then (some (ok done)) next = next

unfoldable pub follow_each : ℕ → Parents → Nodes → Option Checked
follow_each fuel parent_of [] = some (ok tt)
follow_each fuel parent_of ((start, node) ∷ rest) =
    and_then (follow fuel parent_of [] start) (follow_each fuel parent_of rest)

unfoldable pub detect_cycles : Nodes → Parents → Option Checked
detect_cycles nodes parent_of = follow_each (suc (length nodes)) parent_of nodes

-- `pending.extend(children)`, the last child first.
unfoldable pub push_all : List UiNodeId → List UiNodeId → List UiNodeId
push_all [] pending = pending
push_all (id ∷ ids) pending = push_all ids (id ∷ pending)

-- What is pushed for an identifier that was popped: nothing if it was visited before.
unfoldable pub children_of : Option UiNode → List UiNodeId
children_of none = []
children_of (some node) = children node.kind

unfoldable pub unvisited_children : Nodes → List UiNodeId → UiNodeId → List UiNodeId
unvisited_children nodes visited id =
    if is_in id visited then [] else children_of (get String-discrete id nodes)

-- `visited.insert`.
unfoldable pub mark : List UiNodeId → UiNodeId → List UiNodeId
mark visited id = if is_in id visited then visited else id ∷ visited

-- The `while` of `validate_reachability`; the top of the stack comes first.
unfoldable pub visit : ℕ → Nodes → List UiNodeId → List UiNodeId → Option (List UiNodeId)
visit zero nodes visited pending = none
visit (suc fuel) nodes visited [] = some visited
visit (suc fuel) nodes visited (id ∷ pending) =
    visit fuel nodes (mark visited id) (push_all (unvisited_children nodes visited id) pending)

-- The number of all references to children, which bounds what is pushed.
unfoldable pub links : Nodes → ℕ
links [] = 0
links (e ∷ rest) = length (children e.1.kind) + links rest

unfoldable pub first_orphan : List UiNodeId → Checked
first_orphan [] = ok tt
first_orphan (orphan ∷ rest) = err (orphan_node orphan)

unfoldable pub check_visited : Nodes → Option (List UiNodeId) → Option Checked
check_visited nodes none = none
check_visited nodes (some visited) = some (
    if length visited == length nodes
    then ok tt
    else first_orphan (
        sort_by (λ l r. codes_leb (codes l) (codes r))
          (select (λ id. not (is_in id visited)) (map (λ e. e.0) nodes))))

unfoldable pub validate_reachability : UiNodeId → Nodes → Option Checked
validate_reachability root nodes =
    check_visited nodes (visit (suc (suc (links nodes))) nodes [] (root ∷ []))

unfoldable pub validate_snapshot : UiSurfaceSnapshot → Option Checked
validate_snapshot snapshot = elim (check_nodes snapshot) [
  | err e ↦ some (err e)
  | ok (nodes, parent_of) ↦
      and_then (detect_cycles nodes parent_of) (validate_reachability snapshot.root nodes)
]
