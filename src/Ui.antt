-- ===== src/Ui.antt =====
-- crates/ui-runtime with the nodes of crates/sdk/src/ui/nodes.rs: the surfaces that extensions describe and a
-- renderer draws. Of a node that the validation does not look into, only its kind is kept.
pub mod Layout
pub mod Validation
use rintawa.Prelude.{ℕ, String, Bool, List, [], ◌∷◌, Option}
use rintawa.Runtime.Effect.{ContractKey}

abbrev pub UiNodeId : Type 0
UiNodeId = String

pub record UiIconNode : Type 0 where
  pub slot : String
  pub label : Option String
  pub size : Option ℕ

pub record UiImageNode : Type 0 where
  pub media_type : String
  pub data_base64 : String
  pub alt : String
  pub width : Option ℕ
  pub height : Option ℕ

pub record UiAssetImageNode : Type 0 where
  pub digest : String
  pub size : ℕ
  pub media_type : String
  pub alt : String
  pub width : Option ℕ
  pub height : Option ℕ

pub record UiSelectOption : Type 0 where
  pub value : String
  pub label : String

pub record UiSelectNode : Type 0 where
  pub value : String
  pub options : List UiSelectOption
  pub change_action : String
  pub is_enabled : Bool

pub record UiAssetPickerNode : Type 0 where
  pub label : String
  pub accepted_media_types : List String
  pub max_bytes : ℕ
  pub change_action : String
  pub is_enabled : Bool

pub record UiResourcePickerNode : Type 0 where
  pub label : String
  pub accepted_media_types : List String
  pub accepted_extensions : List String
  pub max_bytes : ℕ
  pub change_action : String
  pub is_enabled : Bool

pub data UiSplitAxis : Type 0 where
  horizontal vertical : UiSplitAxis

pub record UiSplitNode : Type 0 where
  pub children : List UiNodeId
  pub weights : List ℕ
  pub axis : UiSplitAxis

pub data UiDataGridSortDirection : Type 0 where
  ascending descending : UiDataGridSortDirection

pub record UiDataGridColumn : Type 0 where
  pub key : Option String
  pub label : String
  pub weight : ℕ
  pub sort_action : Option String
  pub sort_direction : Option UiDataGridSortDirection

pub record UiDataGridNode : Type 0 where
  pub columns : List UiDataGridColumn
  pub cells : List UiNodeId
  pub selected_rows : List ℕ
  pub row_keys : List String
  pub row_action : Option String

pub data UiNodeKind : Type 0 where
  text markdown button checkbox text_input text_area : UiNodeKind
  icon : UiIconNode → UiNodeKind
  image : UiImageNode → UiNodeKind
  asset_image : UiAssetImageNode → UiNodeKind
  select_one : UiSelectNode → UiNodeKind
  asset_picker : UiAssetPickerNode → UiNodeKind
  resource_picker : UiResourcePickerNode → UiNodeKind
  split : UiSplitNode → UiNodeKind
  row column list : List UiNodeId → UiNodeKind
  data_grid : UiDataGridNode → UiNodeKind

unfoldable pub children : UiNodeKind → List UiNodeId
children (split node) = node.children
children (row ids) = ids
children (column ids) = ids
children (list ids) = ids
children (data_grid node) = node.cells
children other = []

pub record UiNode : Type 0 where
  pub id : UiNodeId
  pub semantic : Option ContractKey
  pub traits : List String
  pub kind : UiNodeKind

pub record UiSurfaceSnapshot : Type 0 where
  pub surface_id : String
  pub revision : ℕ
  pub root : UiNodeId
  pub nodes : List UiNode

-- The errors of the validation; the message of an invalid layout is left out.
pub data UiError : Type 0 where
  surface_too_large : ℕ → ℕ → UiError
  duplicate_node node_not_found root_not_found root_has_parent multiple_parents orphan_node
        cycle_detected invalid_layout :
      UiNodeId → UiError
