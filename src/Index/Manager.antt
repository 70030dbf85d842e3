-- ===== src/Index/Manager.antt =====
-- internal/index/manager.go: the manager of the indexes. The Bloom filter and the B-tree are
-- libraries, behind interfaces; numbers, which the code takes as float64, are those of the quad tree.
use mcp_xlsm_server.Prelude.{
  ℕ, ltb, ◌+◌, ◌≡◌, Bool, true, false, Option, none, some, List, [], ◌∷◌, ◌++◌, if◌then◌else◌,
}
use mcp_xlsm_server.Index.{Location}
use mcp_xlsm_server.Index.Keys.{BTree}
use mcp_xlsm_server.Index.Inverted.{Inverted, add_to_inverted, remove_from_inverted}
use mcp_xlsm_server.Index.QuadTree.{Coordinates, Bounds, QuadTree, new_quad_tree, insert, update}
use mcp_xlsm_server.Models.{Text}
use mcp_xlsm_server.Workbook.{Workbook}
use mcp_xlsm_server.Index.Deltas.{
  CellValue, DeltaType, Delta, string, cell_update, sheet_add, formula_change, bulk_change,
  unknown_change, parse_number, is_text, parse_location, name_or_empty,
}

-- `bits-and-blooms/bloom`: what was added is always found, and a new filter finds nothing.
pub record Bloom (B : Type 0) : Type 0 where
  pub empty : B
  pub add : Text → B → B
  pub test : Text → B → Bool
  pub test-add : (t : Text) (b : B) → test t (add t b) ≡ true
  pub test_keeps : (t s : Text) (b : B) → test t b ≡ true → test t (add s b) ≡ true
  pub test-empty : (t : Text) → test t empty ≡ false

-- The state; the time of the last change is not read by the code but for the statistics.
pub record Manager (C T B : Type 0) : Type 0 where
  pub primary : T
  pub inverted : Inverted
  pub spatial : QuadTree C Location
  pub bloom : B
  pub delta_buffer : List (Delta C)

module _ {C T B : Type 0} (coordinates : Coordinates C) (of_nat : ℕ → C)
    (btree : BTree coordinates T) (filter : Bloom B) (words : Text → List Text) where
  -- The bounds of the root, 0 to 1000 in both directions.
  abbrev pub root_bounds : Bounds C
  root_bounds = record { x = of_nat 0; y = of_nat 0; width = of_nat 1000; height = of_nat 1000 }

  abbrev pub new_manager : Manager C T B
  new_manager = record {
    primary = btree.empty;
    inverted = [];
    spatial = new_quad_tree root_bounds;
    bloom = filter.empty;
    delta_buffer = [];
  }

  abbrev pub insert_number : Option C → Location → T → T
  insert_number none l t = t
  insert_number (some v) l t = btree.replace_or_insert (record { value = v; loc = l }) t

  abbrev pub delete_number : Option C → Location → T → T
  delete_number none l t = t
  delete_number (some v) l t = btree.delete (record { value = v; loc = l }) t

  -- A cell that is not empty; the row and the column count from 0.
  unfoldable pub index_cell : Workbook → Text → ℕ → ℕ → Text → Manager C T B → Manager C T B
  unfolding parse_number
  index_cell file sheet row col [] m = m
  index_cell file sheet row col (c ∷ s) m =
      let l : Location = record {
        sheet_name = sheet;
        cell_ref = name_or_empty (file.cell_name (col + 1) (row + 1));
        row = row + 1;
        col = col + 1;
      } in
      record m {
        primary = insert_number (parse_number (string (c ∷ s))) l m.primary;
        inverted =
            if is_text (c ∷ s) then add_to_inverted words (c ∷ s) l m.inverted else m.inverted;
        spatial = insert coordinates (record { x = of_nat col; y = of_nat row; loc = l }) m.spatial;
        bloom = filter.add (c ∷ s) m.bloom;
      }

  unfoldable pub index_row : Workbook → Text → ℕ → ℕ → List Text → Manager C T B → Manager C T B
  unfolding index_cell
  index_row file sheet row col [] m = m
  index_row file sheet row col (cell ∷ cells) m =
      index_row file sheet row (col + 1) cells (index_cell file sheet row col cell m)

  unfoldable pub index_rows : Workbook → Text → ℕ → List (List Text) → Manager C T B → Manager C T B
  unfolding index_row
  index_rows file sheet row [] m = m
  index_rows file sheet row (cells ∷ rows) m =
      index_rows file sheet (row + 1) rows (index_row file sheet row 0 cells m)

  -- The state, and whether the rows could be read.
  unfoldable pub index_sheet : Workbook → Text → Manager C T B → Manager C T B × Bool
  unfolding index_rows
  index_sheet file sheet m = elim (file.get_rows sheet) [
    | none ↦ (m, false)
    | some rows ↦ (index_rows file sheet 0 rows m, true)
  ]

  -- The first sheet that cannot be read ends the building; what was indexed before it stays.
  unfoldable pub build_from_file : Workbook → List Text → Manager C T B → Manager C T B × Bool
  unfolding index_sheet
  build_from_file file [] m = (m, true)
  build_from_file file (sheet ∷ sheets) m =
      let (m', indexed) = index_sheet file sheet m in
      let rest = build_from_file file sheets m' in if indexed then rest else (m', false)

  abbrev pub remove_text : CellValue C → Location → Inverted → Inverted
  remove_text (string text) l index =
      if is_text text then remove_from_inverted words text l index else index
  remove_text _ l index = index

  abbrev pub add_text : CellValue C → Location → Inverted → Inverted
  add_text (string text) l index =
      if is_text text then add_to_inverted words text l index else index
  add_text _ l index = index

  abbrev pub bloom_text : CellValue C → B → B
  bloom_text (string text) b = filter.add text b
  bloom_text _ b = b

  -- Here the point has the row and the column that count from 1.
  unfoldable pub update_cell_indexes :
      (Text → Option (ℕ × ℕ)) → Delta C → Manager C T B → Manager C T B
  unfolding parse_number parse_location
  update_cell_indexes cell_coordinates change m =
      let l = parse_location cell_coordinates change.location in
      record m {
        primary =
            insert_number (parse_number change.new_value) l
              (delete_number (parse_number change.old_value) l m.primary);
        inverted = add_text change.new_value l (remove_text change.old_value l m.inverted);
        spatial =
            update coordinates (record { x = of_nat l.col; y = of_nat l.row; loc = l }) m.spatial;
        bloom = bloom_text change.new_value m.bloom;
      }

  -- The dependencies of formulas, the bulk changes and the rebuilding of a sheet are not implemented in
  -- the code: the three functions do nothing.
  abbrev pub update_formula_dependencies : Delta C → Manager C T B → Manager C T B
  update_formula_dependencies change m = m

  abbrev pub apply_bulk_changes : Delta C → Manager C T B → Manager C T B
  apply_bulk_changes change m = m

  abbrev pub rebuild_partial_async : Text → Manager C T B → Manager C T B
  rebuild_partial_async sheet_id m = m

  unfoldable pub apply_delta :
      (Text → Option (ℕ × ℕ)) → DeltaType → Delta C → Manager C T B → Manager C T B
  unfolding update_cell_indexes
  apply_delta cell_coordinates cell_update change m = update_cell_indexes cell_coordinates change m
  apply_delta cell_coordinates sheet_add change m = record m {
    delta_buffer = m.delta_buffer ++ change ∷ [];
  }
  apply_delta cell_coordinates formula_change change m = update_formula_dependencies change m
  apply_delta cell_coordinates bulk_change change m =
      if ltb 1000 change.affected_cells
      then rebuild_partial_async change.sheet_id m
      else apply_bulk_changes change m
  apply_delta cell_coordinates unknown_change change m = m

  unfoldable pub update_delta :
      (Text → Option (ℕ × ℕ)) → List (Delta C) → Manager C T B → Manager C T B
  unfolding apply_delta
  update_delta cell_coordinates [] m = m
  update_delta cell_coordinates (change ∷ changes) m =
      update_delta cell_coordinates changes (apply_delta cell_coordinates change.kind change m)
