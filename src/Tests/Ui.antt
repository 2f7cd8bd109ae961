-- ===== src/Tests/Ui.antt =====
-- Surfaces, and what the validation of crates/ui-runtime/src/validation.rs says of them.
use rintawa.Prelude.{
  inl, inr, ◌≡◌, refl, [], ◌∷◌, none, some, ok, get, insert, fold_result, any, all, String-discrete,
  select, insert_by, sort_by, codes_leb,
}
use rintawa.Ui.{
  UiDataGridNode, UiNodeId, text, column, row, data_grid, children, UiNodeKind, UiNode,
  UiSurfaceSnapshot,
}
use rintawa.Ui.Layout.{
  Checked, validate_layout, validate_data_grid_layout, is_within, add_column, add_key, add_unique,
  is_one_of, check_unique, validate_rows, add_selected,
}
use rintawa.Ui.Validation.{
  validate_snapshot, check_nodes, node_map, add_node, has_key, check_node, add_child, detect_cycles,
  follow_each, follow, is_in, and_then, validate_reachability, visit, links, mark, push_all,
  unvisited_children, children_of, check_visited, first_orphan,
}
use rintawa.Ui.Validation.Walks.{validate_snapshot-returns}
use rintawa.Ui.Validation.Grids.{IsGrid, validate_snapshot-IsGrid}
use rintawa.Ui.Validation.Tree.{IsTree, validate_snapshot-IsTree}

abbrev node : UiNodeId → UiNodeKind → UiNode
node id kind = record { id = id; semantic = none; traits = []; kind = kind }

-- Two rows, one of them selected.
abbrev names : UiDataGridNode
names = record {
  columns =
      record {
        key = some "name";
        label = "Name";
        weight = 1;
        sort_action = none;
        sort_direction = none;
      }
      ∷ [];
  cells = "lamp" ∷ "rope" ∷ [];
  selected_rows = 1 ∷ [];
  row_keys = "a" ∷ "b" ∷ [];
  row_action = none;
}

-- A column with a title and a table.
abbrev table : UiSurfaceSnapshot
table = record {
  surface_id = "inventory";
  revision = 1;
  root = "root";
  nodes =
      node "root" (column ("title" ∷ "grid" ∷ []))
      ∷ node "title" text
      ∷ node "grid" (data_grid names)
      ∷ node "lamp" text
      ∷ node "rope" text
      ∷ [];
}

-- Two rows that hold each other beside the root.
abbrev ring : UiSurfaceSnapshot
ring = record {
  surface_id = "ring";
  revision = 1;
  root = "root";
  nodes =
      node "root" text ∷ node "left" (row ("right" ∷ [])) ∷ node "right" (row ("left" ∷ [])) ∷ [];
}

table_accepted : validate_snapshot table ≡ some (ok tt)
unfolding validate_snapshot get insert children fold_result any all String-discrete select insert_by
    sort_by codes_leb validate_layout validate_data_grid_layout is_within add_column add_key
    add_unique is_one_of check_unique validate_rows add_selected check_nodes node_map add_node
    has_key check_node add_child detect_cycles follow_each follow is_in and_then
    validate_reachability visit links mark push_all unvisited_children children_of check_visited
    first_orphan
table_accepted = refl

validate_snapshot-IsTree_example : IsTree table
validate_snapshot-IsTree_example = validate_snapshot-IsTree table table_accepted

validate_snapshot-returns_example : (verdict : Checked) × (validate_snapshot ring ≡ some verdict)
validate_snapshot-returns_example = validate_snapshot-returns ring

validate_snapshot-IsGrid_example : IsGrid names
validate_snapshot-IsGrid_example =
    validate_snapshot-IsGrid table (node "grid" (data_grid names)) names table_accepted
      (inr (inr (inl refl))) refl
