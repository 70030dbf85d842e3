-- ===== src/Navigation/Sheets.antt =====
-- internal/server/navigation.go: the index of one sheet. A sheet's rows and columns fit a spreadsheet,
-- so that no product overflows.
use mcp_xlsm_server.Prelude.{
  ℕ, zero, suc, ◌+◌, ◌-◌, ◌*◌, Bool, true, false, ◌&&◌, ◌||◌, Option, none, some, List, [], ◌∷◌,
  ◌++◌, length, take, drop, min, if◌then◌else◌, ltb, pos,
}
use mcp_xlsm_server.Decimal.{codes, decimal}
use mcp_xlsm_server.Models.{Text, Ratio, SheetMetadata, Zone, SheetIndex}
use mcp_xlsm_server.Workbook.{Workbook}

abbrev pub zone_size : ℕ
zone_size = 1000

-- How many cells of a row have text.
unfoldable pub non_empty_cells : List Text → ℕ
non_empty_cells [] = 0
non_empty_cells ([] ∷ row) = non_empty_cells row
non_empty_cells ((c ∷ cs) ∷ row) = suc (non_empty_cells row)

unfoldable pub non_empty_in : List (List Text) → ℕ
unfolding non_empty_cells
non_empty_in [] = 0
non_empty_in (row ∷ rows) = non_empty_cells row + non_empty_in rows

-- The longest row.
unfoldable pub total_cols : List (List Text) → ℕ → ℕ
total_cols [] cols = cols
total_cols (row ∷ rows) cols = total_cols rows (if ltb cols (length row) then length row else cols)

-- The quotient, or 0.0 for an empty sheet.
unfoldable pub data_density : ℕ → ℕ → Ratio
data_density non_empty cells =
    if ltb 0 cells
    then record { over = non_empty; under = cells }
    else record { over = 0; under = 1 }

unfoldable pub cells_in : List (List Text) → ℕ
cells_in [] = 0
cells_in (row ∷ rows) = length row + cells_in rows

-- `density > 0.7` for the cells of a window.
unfoldable pub is_dense : ℕ → ℕ → Bool
is_dense non_empty cells = ltb 0 cells && ltb (7 * cells) (10 * non_empty)

-- The cells of a window of a sheet.
unfoldable pub window_cells : List (List Text) → ℕ → ℕ → List (List Text)
window_cells [] start_col size = []
window_cells (row ∷ rows) start_col size =
    take size (drop start_col row) ∷ window_cells rows start_col size

unfoldable pub calculate_density_in_window : List (List Text) → ℕ → ℕ → ℕ → ℕ × ℕ
unfolding window_cells non_empty_in cells_in
calculate_density_in_window rows start_row start_col size =
    let window = window_cells (take size (drop start_row rows)) start_col size in
    (non_empty_in window, cells_in window)

-- A formula was read, and it is not empty.
unfoldable pub is_formula : Option Text → Bool
is_formula none = false
is_formula (some []) = false
is_formula (some (c ∷ cs)) = true

module _ (file : Workbook) where
  -- An error of `CoordinatesToCellName` is dropped, and the name is then empty.
  unfoldable pub cell_ref : ℕ → ℕ → Text
  cell_ref col row = elim (file.cell_name col row) [ none ↦ [] | some ref ↦ ref ]

  unfoldable pub range_of : ℕ → ℕ → ℕ → ℕ → Text
  unfolding cell_ref
  range_of col row last_col last_row = cell_ref col row ++ codes ":" ++ cell_ref last_col last_row

  unfoldable pub make_zone : ℕ → ℕ → ℕ → ℕ → Zone
  make_zone cols id start_row end_row = record {
    zone_id = codes "zone_" ++ decimal (pos id);
    range = range_of 1 (start_row + 1) cols end_row;
    window_size = zone_size;
    compressed = ltb 500 (end_row - start_row);
  }

  -- The loop of `createZones`, with fuel.
  unfoldable pub zone_loop : ℕ → ℕ → ℕ → ℕ → ℕ → Option (List Zone)
  unfolding make_zone
  zone_loop zero rows cols id start_row = none
  zone_loop (suc fuel) rows cols id start_row = elim (ltb start_row rows) [
    | false ↦ some []
    | true ↦
        let limit = start_row + zone_size in
        let end_row = if ltb rows limit then rows else limit in
        elim (zone_loop fuel rows cols (id + 1) limit) [
          | none ↦ none
          | some zones ↦ some (make_zone cols id start_row end_row ∷ zones)
        ]
  ]

  -- A round for every row is more than enough.
  unfoldable pub create_zones : ℕ → ℕ → Option (List Zone)
  unfolding zone_loop
  create_zones rows cols = zone_loop (rows + 1) rows cols 0 0

  -- `GetCellFormula` for the columns before the tenth, always at the row that is the number of rows.
  unfoldable pub row_has_formula : Text → ℕ → ℕ → List Text → Bool
  row_has_formula name last_row col [] = false
  row_has_formula name last_row col (cell ∷ row) =
      let rest = row_has_formula name last_row (col + 1) row in
      (ltb col 10 && is_formula (file.get_cell_formula name (col + 1) last_row)) || rest

  unfoldable pub has_formulas : Text → ℕ → List (List Text) → Bool
  unfolding row_has_formula
  has_formulas name last_row [] = false
  has_formulas name last_row (row ∷ rows) =
      row_has_formula name last_row 0 row || has_formulas name last_row rows

  -- The names of so many cells to the right of a column, in the first row.
  unfoldable pub header_refs : ℕ → ℕ → List Text
  header_refs zero col = []
  header_refs (suc n) col = cell_ref (col + 1) 1 ∷ header_refs n (col + 1)

  -- The names of so many cells below a row, in the first column.
  unfoldable pub column_refs : ℕ → ℕ → List Text
  column_refs zero row = []
  column_refs (suc n) row = cell_ref 1 (row + 1) ∷ column_refs n (row + 1)

  unfoldable pub identify_key_points : List (List Text) → List Text
  unfolding header_refs column_refs
  identify_key_points [] = []
  identify_key_points (row ∷ rows) =
      (if ltb 0 (length row) then codes "A1" ∷ [] else [])
      ++ header_refs (min 5 (length row)) 0
      ++ column_refs (min 5 (suc (length rows))) 0

  -- The five windows of ten columns that begin at a row.
  unfoldable pub hot_zones_at : List (List Text) → ℕ → ℕ → ℕ → List Text
  unfolding range_of calculate_density_in_window is_dense
  hot_zones_at rows start_row zero start_col = []
  hot_zones_at rows start_row (suc n) start_col =
      let rest = hot_zones_at rows start_row n (start_col + 10) in
      let (non_empty, cells) = calculate_density_in_window rows start_row start_col 10 in
      if is_dense non_empty cells
      then range_of (start_col + 1) (start_row + 1) (start_col + 10) (start_row + 10) ∷ rest
      else rest

  -- The loop over the rows, with fuel.
  unfoldable pub hot_zone_loop : ℕ → List (List Text) → ℕ → Option (List Text)
  unfolding hot_zones_at
  hot_zone_loop zero rows start_row = none
  hot_zone_loop (suc fuel) rows start_row = elim (ltb (start_row + 10) (length rows)) [
    | false ↦ some []
    | true ↦ elim (hot_zone_loop fuel rows (start_row + 10)) [
      | none ↦ none
      | some zones ↦ some (hot_zones_at rows start_row 5 0 ++ zones)
    ]
  ]

  unfoldable pub identify_hot_zones : List (List Text) → Option (List Text)
  unfolding hot_zone_loop
  identify_hot_zones rows = hot_zone_loop (length rows + 1) rows 0

  abbrev pub zones_or_nil {ℓ} : {A : Type ℓ} → Option (List A) → List A
  zones_or_nil none = []
  zones_or_nil (some zones) = zones

  unfoldable pub sheet_metadata : Text → List (List Text) → SheetMetadata
  sheet_metadata name rows =
      let cols = total_cols rows 0 in
      record {
        rows = length rows;
        cols = cols;
        data_density = data_density (non_empty_in rows) (length rows * cols);
        has_formulas = has_formulas name (length rows) rows;
        memory_footprint = non_empty_in rows * 50;
      }

  -- The loops end within their fuel, so that no list is lost.
  unfoldable pub build_sheet_index : Text → ℕ → Option SheetIndex
  build_sheet_index name id = elim (file.get_rows name) [
    | none ↦ none
    | some rows ↦ some (record {
      sheet_id = codes "sheet_" ++ decimal (pos id);
      name = name;
      metadata = sheet_metadata name rows;
      zones = zones_or_nil (create_zones (length rows) (total_cols rows 0));
      key_points = identify_key_points rows;
      hot_zones = zones_or_nil (identify_hot_zones rows);
    })
  ]
