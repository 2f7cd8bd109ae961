-- ===== src/Ui/Layout.antt =====
-- crates/ui-runtime/src/validation.rs: the layout of one node.
use Prim.Native.Nat.{◌/◌, ◌%◌}
use Prim.Native.String.{len}
use rintawa.Prelude.{
  ℕ, String, String-discrete, Bool, true, false, not, ◌&&◌, ◌||◌, List, [], ◌∷◌, length, any, all,
  codes, strip_prefix, Option, none, some, Result, ok, ◌>>=◌, ◌>>◌, guard, fold_result, holds, ltb,
  leb, ◌==◌,
}
use rintawa.Ui.{
  UiNodeId, UiIconNode, UiImageNode, UiAssetImageNode, UiSelectNode, UiAssetPickerNode,
  UiResourcePickerNode, UiSplitNode, UiDataGridColumn, UiDataGridNode, UiNodeKind, icon, image,
  asset_image, select_one, asset_picker, resource_picker, split, data_grid, UiError, invalid_layout,
}

abbrev pub Checked : Type 0
Checked = Result UiError (Unit {0})

abbrev pub max_layout_weight : ℕ
max_layout_weight = 10000

abbrev max_icon_size : ℕ
max_icon_size = 256

abbrev max_image_dimension : ℕ
max_image_dimension = 4096

abbrev max_image_base64_bytes : ℕ
max_image_base64_bytes = 1048576

abbrev max_asset_image_bytes : ℕ
max_asset_image_bytes = 33554432

abbrev max_asset_picker_bytes : ℕ
max_asset_picker_bytes = 33554432

abbrev max_asset_picker_media_types : ℕ
max_asset_picker_media_types = 16

abbrev max_asset_picker_media_type_bytes : ℕ
max_asset_picker_media_type_bytes = 128

abbrev max_resource_picker_bytes : ℕ
max_resource_picker_bytes = 8388608

abbrev max_resource_picker_media_types : ℕ
max_resource_picker_media_types = 16

abbrev max_resource_picker_extensions : ℕ
max_resource_picker_extensions = 32

abbrev max_resource_picker_extension_bytes : ℕ
max_resource_picker_extension_bytes = 32

abbrev max_select_options : ℕ
max_select_options = 256

abbrev pub max_data_grid_columns : ℕ
max_data_grid_columns = 64

-- `1..=maximum`.
unfoldable pub is_within : ℕ → ℕ → Bool
is_within maximum value = leb 1 value && leb value maximum

-- A size or dimension that was asked for.
unfoldable pub is_requested_within : ℕ → Option ℕ → Bool
is_requested_within maximum none = true
is_requested_within maximum (some value) = is_within maximum value

unfoldable pub is_one_of : List String → String → Bool
is_one_of names s = any (λ n. holds (String-discrete n s)) names

-- `==` with `to_ascii_lowercase()`, and `contains` of one character.
abbrev is_lowercase : String → Bool
is_lowercase s = not (any (λ c. leb b'A' c && leb c b'Z') (codes s))

abbrev contains : String → ℕ → Bool
contains s c = any (λ d. d == c) (codes s)

abbrev is_lower_hex : ℕ → Bool
is_lower_hex c = (leb b'0' c && leb c b'9') || (leb b'a' c && leb c b'f')

abbrev is_extension_byte : ℕ → Bool
is_extension_byte c =
    (leb b'0' c && leb c b'9')
    || (leb b'a' c && leb c b'z')
    || (leb b'A' c && leb c b'Z')
    || c == b'-'
    || c == b'_'

-- What remains after `strip_prefix("sha256:")`.
unfoldable pub is_hex : Option String → Bool
is_hex none = false
is_hex (some hex) = len hex == 64 && all is_lower_hex (codes hex)

-- `starts_with('.')` and the test of the bytes after it.
unfoldable pub is_extension : List ℕ → Bool
is_extension [] = false
is_extension (c ∷ rest) = c == b'.' && all is_extension_byte rest

-- The loops over names that must be unique: `seen` is the hash set.
unfoldable pub add_unique :
    UiNodeId → (String → Bool) → List String → String → Result UiError (List String)
unfolding is_one_of
add_unique id accepts seen name = do
  guard (accepts name && not (is_one_of seen name)) (invalid_layout id)
  ok (name ∷ seen)

unfoldable pub check_unique : UiNodeId → (String → Bool) → List String → Checked
check_unique id accepts names = do seen ← fold_result (add_unique id accepts) [] names; ok tt

unfoldable pub is_media_type : String → Bool
is_media_type s =
    not (len s == 0)
    && leb (len s) max_asset_picker_media_type_bytes
    && is_lowercase s
    && contains s b'/'

unfoldable pub is_file_extension : String → Bool
is_file_extension s =
    leb 2 (len s)
    && leb (len s) max_resource_picker_extension_bytes
    && is_extension (codes s)
    && is_lowercase s

unfoldable pub validate_icon : UiNodeId → UiIconNode → Checked
validate_icon id node = guard (is_requested_within max_icon_size node.size) (invalid_layout id)

unfoldable pub validate_image : UiNodeId → UiImageNode → Checked
validate_image id node = do
  guard (is_one_of ("image/png" ∷ "image/webp" ∷ []) node.media_type) (invalid_layout id)
  guard (leb (len node.data_base64) max_image_base64_bytes) (invalid_layout id)
  guard
      (is_requested_within max_image_dimension node.width
        && is_requested_within max_image_dimension node.height)
      (invalid_layout id)

unfoldable pub validate_asset_image : UiNodeId → UiAssetImageNode → Checked
validate_asset_image id node = do
  guard (is_hex (strip_prefix node.digest "sha256:")) (invalid_layout id)
  guard (is_within max_asset_image_bytes node.size) (invalid_layout id)
  guard (is_one_of ("image/png" ∷ "image/webp" ∷ "image/jpeg" ∷ []) node.media_type)
      (invalid_layout id)
  guard
      (is_requested_within max_image_dimension node.width
        && is_requested_within max_image_dimension node.height)
      (invalid_layout id)

unfoldable pub validate_asset_picker : UiNodeId → UiAssetPickerNode → Checked
validate_asset_picker id node = do
  guard (is_within max_asset_picker_bytes node.max_bytes) (invalid_layout id)
  guard (is_within max_asset_picker_media_types (length node.accepted_media_types))
      (invalid_layout id)
  check_unique id is_media_type node.accepted_media_types

unfoldable pub validate_resource_picker : UiNodeId → UiResourcePickerNode → Checked
validate_resource_picker id node = do
  guard (is_within max_resource_picker_bytes node.max_bytes) (invalid_layout id)
  guard
      (leb (length node.accepted_media_types) max_resource_picker_media_types
        && leb (length node.accepted_extensions) max_resource_picker_extensions
        && not (length node.accepted_media_types == 0 && length node.accepted_extensions == 0))
      (invalid_layout id)
  check_unique id is_media_type node.accepted_media_types
  check_unique id is_file_extension node.accepted_extensions

unfoldable pub validate_select : UiNodeId → UiSelectNode → Checked
validate_select id node = guard (leb (length node.options) max_select_options) (invalid_layout id)

unfoldable pub validate_split_layout : UiNodeId → UiSplitNode → Checked
validate_split_layout id node = do
  guard (length node.children == length node.weights) (invalid_layout id)
  guard (all (is_within max_layout_weight) node.weights) (invalid_layout id)

abbrev pub is_some {ℓ} : {A : Type ℓ} → Option A → Bool
is_some none = false
is_some (some a) = true

abbrev pub is_name : String → Bool
is_name s = not (len s == 0)

-- One round of the loop over the columns.
unfoldable pub add_key : UiNodeId → List String → Option String → Result UiError (List String)
add_key id seen none = ok seen
add_key id seen (some key) = add_unique id is_name seen key

unfoldable pub add_column : UiNodeId → List String → UiDataGridColumn → Result UiError (List String)
add_column id seen c = do
  seen' ← add_key id seen c.key
  guard (not (is_some c.sort_action) || is_some c.key) (invalid_layout id)
  guard (not (is_some c.sort_direction) || is_some c.sort_action) (invalid_layout id)
  ok seen'

-- One round of the loop over the selected rows.
unfoldable pub add_selected : UiNodeId → ℕ → List ℕ → ℕ → Result UiError (List ℕ)
add_selected id row_count seen index = do
  guard (ltb index row_count && not (any (λ r. r == index) seen)) (invalid_layout id)
  ok (index ∷ seen)

-- From the number of rows on.
unfoldable pub validate_rows : UiNodeId → UiDataGridNode → ℕ → Checked
validate_rows id grid row_count = do
  guard (not (is_some grid.row_action) || length grid.row_keys == row_count) (invalid_layout id)
  guard (length grid.row_keys == 0 || length grid.row_keys == row_count) (invalid_layout id)
  check_unique id is_name grid.row_keys
  seen ← fold_result (add_selected id row_count) [] grid.selected_rows
  ok tt

unfoldable pub validate_data_grid_layout : UiNodeId → UiDataGridNode → Checked
validate_data_grid_layout id grid = do
  guard (is_within max_data_grid_columns (length grid.columns)) (invalid_layout id)
  guard (all (λ c. is_within max_layout_weight c.weight) grid.columns) (invalid_layout id)
  keys ← fold_result (add_column id) [] grid.columns
  guard (length grid.cells % length grid.columns == 0) (invalid_layout id)
  validate_rows id grid (length grid.cells / length grid.columns)

unfoldable pub validate_layout : UiNodeId → UiNodeKind → Checked
validate_layout id (icon node) = validate_icon id node
validate_layout id (image node) = validate_image id node
validate_layout id (asset_image node) = validate_asset_image id node
validate_layout id (asset_picker node) = validate_asset_picker id node
validate_layout id (resource_picker node) = validate_resource_picker id node
validate_layout id (select_one node) = validate_select id node
validate_layout id (split node) = validate_split_layout id node
validate_layout id (data_grid node) = validate_data_grid_layout id node
validate_layout id other = ok tt
