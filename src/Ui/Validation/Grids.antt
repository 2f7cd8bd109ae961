-- ===== src/Ui/Validation/Grids.antt =====
-- The tables of a surface that crates/ui-runtime/src/validation.rs accepts.
use Prim.Native.Nat.{◌*◌, ◌/◌, ◌%◌}
use native.Mathlib.Nat.{div-add-mod'}
use rintawa.Prelude.{
  ℕ, ◌≤◌, ◌<◌, ◌≡◌, ◌∙◌, refl, sym, ap, ◌⊎◌, inl, inr, String, String-discrete, Bool, true, not,
  ◌&&◌, ◌||◌, List, [], ◌∷◌, length, any, all, any-In, some, Bool-cases, Result, ok, ◌>>=◌,
  guard->>-eq-ok, >>=-eq-ok, fold_result, holds, holds_iff, All, All-In, All-mono, In, ltb, ◌==◌,
  ==_iff, ==_refl, &&_parts, arith,
}
use rintawa.Ui.{
  UiNodeId, UiDataGridNode, data_grid, UiNode, UiSurfaceSnapshot, UiError, invalid_layout,
}
use rintawa.Ui.Layout.{
  max_layout_weight, max_data_grid_columns, is_within, is_one_of, is_some, is_name, add_unique,
  check_unique, add_column, add_selected, validate_rows, validate_data_grid_layout, validate_layout,
}
use rintawa.Ui.Validation.{validate_snapshot}
use rintawa.Ui.Validation.Tree.{validate_snapshot-IsTree}

-- No element occurs twice.
abbrev pub IsDistinct {ℓ} : {A : Type ℓ} → List A → Type ℓ
IsDistinct [] = Unit
IsDistinct (x ∷ xs) = (¬ In x xs) × IsDistinct xs

module _ {ℓ κ} {A : Type ℓ} {E : Type 0} (P : A → Type κ) (f : List A → A → Result E (List A))
    (round : (seen : List A) (x : A) (seen' : List A)
      → f seen x ≡ ok seen'
      → (seen' ≡ x ∷ seen) × P x × (¬ In x seen)) where
  -- A loop that collects what it has seen, and fails on what it sees again.
  fold-IsDistinct :
      (seen xs seen' : List A)
      → fold_result f seen xs ≡ ok seen'
      → All P xs × IsDistinct xs × All (λ x. ¬ In x seen) xs
  unfolding fold_result
  fold-IsDistinct seen [] seen' h = (tt, tt, tt)
  fold-IsDistinct seen (x ∷ xs) seen' h =
      let (next, first, rest) = >>=-eq-ok (f seen x) (λ s. fold_result f s xs) h in
      let (e, accepted, new) = round seen x next first in
      let (all, once, fresh) = fold-IsDistinct (x ∷ seen) xs seen' (rw e at rest) in
      (
        (accepted, all),
        ((λ again. All-In (λ y. ¬ In y (x ∷ seen)) x xs fresh again (inl refl)), once),
        (
          new,
          All-mono (λ y. ¬ In y (x ∷ seen)) (λ y. ¬ In y seen) xs (λ y out old. out (inr old))
              fresh,
        ),
      )

-- A table of whole rows, of which some are selected and each has a key, or none has.
pub record IsGrid (grid : UiDataGridNode) : Type 0 where
  pub rows : ℕ
  pub rectangular : length grid.cells ≡ rows * length grid.columns
  pub columns_within : (1 ≤ length grid.columns) × (length grid.columns ≤ 64)
  pub selected : All (λ r. r < rows) grid.selected_rows
  pub selected_once : IsDistinct grid.selected_rows
  pub keyed : (length grid.row_keys ≡ 0) ⊎ (length grid.row_keys ≡ rows)
  pub keyed_once : IsDistinct grid.row_keys

add_unique-round :
    (id : UiNodeId) (accepts : String → Bool) (seen : List String) (name : String)
    (seen' : List String)
    → add_unique id accepts seen name ≡ ok seen'
    → (seen' ≡ name ∷ seen) × (accepts name ≡ true) × (¬ In name seen)
unfolding add_unique is_one_of
add_unique-round id accepts seen name seen' h =
    let (fits, h1) =
      guard->>-eq-ok (accepts name && not (is_one_of seen name)) (invalid_layout id)
        (ok (name ∷ seen)) h in
    let (accepted, new) = &&_parts (accepts name) (not (is_one_of seen name)) fits in
    (
      cc,
      accepted,
      λ old.
          let again =
            any-In (λ n. holds (String-discrete n name)) name seen
              ((holds_iff (String-discrete name name)).1 refl) old in
          ground arith,
    )

add_selected-round :
    (id : UiNodeId) (rows : ℕ) (seen : List ℕ) (index : ℕ) (seen' : List ℕ)
    → add_selected id rows seen index ≡ ok seen'
    → (seen' ≡ index ∷ seen) × (index < rows) × (¬ In index seen)
unfolding add_selected
add_selected-round id rows seen index seen' h =
    let (fits, h1) =
      guard->>-eq-ok (ltb index rows && not (any (λ r. r == index) seen)) (invalid_layout id)
        (ok (index ∷ seen)) h in
    let (below, new) = &&_parts (ltb index rows) (not (any (λ r. r == index) seen)) fits in
    (
      cc,
      ground arith,
      λ old. let again = any-In (λ r. r == index) index seen (==_refl index) old in ground arith,
    )

check_unique-IsDistinct :
    (id : UiNodeId) (accepts : String → Bool) (names : List String)
    → check_unique id accepts names ≡ ok tt
    → IsDistinct names
unfolding check_unique
check_unique-IsDistinct id accepts names h =
    let (seen, found, done) =
      >>=-eq-ok (fold_result (add_unique id accepts) [] names) (λ seen. ok tt) h in
    (fold-IsDistinct (λ n. accepts n ≡ true) (add_unique id accepts) (add_unique-round id accepts)
      [] names seen found).1

validate_data_grid_layout-IsGrid :
    (id : UiNodeId) (grid : UiDataGridNode)
    → validate_data_grid_layout id grid ≡ ok tt
    → IsGrid grid
unfolding validate_data_grid_layout validate_rows is_within
validate_data_grid_layout-IsGrid id grid h =
    let bad = invalid_layout id in
    let rows = length grid.cells / length grid.columns in
    let walk : Result UiError (List ℕ) = fold_result (add_selected id rows) [] grid.selected_rows in
    let (columns, h1) =
      guard->>-eq-ok (is_within max_data_grid_columns (length grid.columns)) bad _ h in
    let (weights, h2) =
      guard->>-eq-ok (all (λ c. is_within max_layout_weight c.weight) grid.columns) bad _ h1 in
    let (keys, known, h3) = >>=-eq-ok (fold_result (add_column id) [] grid.columns) _ h2 in
    let (whole, h4) =
      guard->>-eq-ok (length grid.cells % length grid.columns == 0) bad (validate_rows id grid rows)
        h3 in
    let (acted, h5) =
      guard->>-eq-ok (not (is_some grid.row_action) || length grid.row_keys == rows) bad _ h4 in
    let (counted, h6) =
      guard->>-eq-ok (length grid.row_keys == 0 || length grid.row_keys == rows) bad _ h5 in
    let (done, named, h7) =
      >>=-eq-ok (check_unique id is_name grid.row_keys) (λ done. walk >>= λ seen. ok tt) h6 in
    let (seen, chosen, h8) = >>=-eq-ok walk (λ seen. ok tt) h7 in
    let (below, once, fresh) =
      fold-IsDistinct (λ r. r < rows) (add_selected id rows) (add_selected-round id rows) []
        grid.selected_rows seen chosen in
    let no_rest = (==_iff (length grid.cells % length grid.columns) 0).0 whole in
    record {
      rows = rows;
      rectangular = (let e = div-add-mod' (length grid.cells) (length grid.columns) in omega arith);
      columns_within = (ground arith, ground arith);
      selected = below;
      selected_once = once;
      keyed = elim (Bool-cases (length grid.row_keys == 0)) [
        | inl nothing ↦ inl ((==_iff (length grid.row_keys) 0).0 nothing)
        | inr keyed ↦ inr ((==_iff (length grid.row_keys) rows).0 (rw keyed at counted))
      ];
      keyed_once = check_unique-IsDistinct id is_name grid.row_keys named;
    }

-- Every table of an accepted surface is a rectangle of whole rows, of 1 to 64 columns; each selected row is one
-- of its rows and selected once; and it has no row keys or one for each row, no two the same.
pub validate_snapshot-IsGrid :
    (s : UiSurfaceSnapshot) (p : UiNode) (grid : UiDataGridNode)
    → validate_snapshot s ≡ some (ok tt)
    → In p s.nodes
    → p.kind ≡ data_grid grid
    → IsGrid grid
unfolding validate_layout
validate_snapshot-IsGrid s p grid h at e =
    let fine = (validate_snapshot-IsTree s h).laid_out p at in
    validate_data_grid_layout-IsGrid p.id grid (sym (ap (validate_layout p.id) e) ∙ fine)
