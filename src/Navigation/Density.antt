-- ===== src/Navigation/Density.antt =====
-- The figures of a sheet's metadata.
use mcp_xlsm_server.Prelude.{
  ℕ, ◌+◌, ◌*◌, ◌<◌, ◌≤◌, ◌≡◌, refl, arith, List, [], ◌∷◌, length, ltb, if◌then◌else◌, All,
}
use native.Mathlib.Nat.{suc-mul}
use mcp_xlsm_server.Models.{Text}
use mcp_xlsm_server.Navigation.Sheets.{
  non_empty_cells, non_empty_in, total_cols, data_density, sheet_metadata, has_formulas,
  row_has_formula,
}
use mcp_xlsm_server.Workbook.{Workbook}

non_empty_cells-length : (row : List Text) → non_empty_cells row ≤ length row
unfolding non_empty_cells
non_empty_cells-length [] = omega arith
non_empty_cells-length ([] ∷ row) = let few = non_empty_cells-length row in omega arith
non_empty_cells-length ((c ∷ cs) ∷ row) = let few = non_empty_cells-length row in omega arith

-- The number of columns is at least the number that it began with and the length of every row.
total_cols-bounds :
    (rows : List (List Text)) (cols : ℕ)
    → cols ≤ total_cols rows cols
      × All (λ (row : List Text). length row ≤ total_cols rows cols) rows
unfolding total_cols
total_cols-bounds [] cols = (omega arith, tt)
total_cols-bounds (row ∷ rows) cols =
    let (low, all) = total_cols-bounds rows (if ltb cols (length row) then length row else cols) in
    (ground arith, (ground arith, all))

non_empty_in-bound :
    (rows : List (List Text)) (cols : ℕ)
    → All (λ (row : List Text). length row ≤ cols) rows
    → non_empty_in rows ≤ length rows * cols
unfolding non_empty_in
non_empty_in-bound [] cols h = omega arith
non_empty_in-bound (row ∷ rows) cols (h, hs) =
    let rest = non_empty_in-bound rows cols hs in
    let few = non_empty_cells-length row in let product = suc-mul (length rows) cols in omega arith

-- The density of a sheet is a quotient from 0 to 1: no more cells are counted than there are, and
-- the divisor is not 0. The sheet's footprint is at most 50 bytes for every cell.
pub sheet_metadata-density :
    (file : Workbook) (name : Text) (rows : List (List Text))
    → (sheet_metadata file name rows).data_density.over
        ≤ (sheet_metadata file name rows).data_density.under
      × 0 < (sheet_metadata file name rows).data_density.under
      × (sheet_metadata file name rows).memory_footprint
        ≤ 50 * ((sheet_metadata file name rows).rows * (sheet_metadata file name rows).cols)
unfolding sheet_metadata data_density
sheet_metadata-density file name rows =
    let (low, all) = total_cols-bounds rows 0 in
    let few = non_empty_in-bound rows (total_cols rows 0) all in ground arith

row_has_formula-last_row :
    (a b : Workbook) (name : Text) (last_row col : ℕ) (row : List Text)
    → ((j : ℕ) → a.get_cell_formula name j last_row ≡ b.get_cell_formula name j last_row)
    → row_has_formula a name last_row col row ≡ row_has_formula b name last_row col row
unfolding row_has_formula
row_has_formula-last_row a b name last_row col [] h = refl
row_has_formula-last_row a b name last_row col (cell ∷ row) h =
    rw (row_has_formula-last_row a b name last_row (col + 1) row h, h (col + 1)) refl

has_formulas-last_row :
    (a b : Workbook) (name : Text) (last_row : ℕ) (rows : List (List Text))
    → ((j : ℕ) → a.get_cell_formula name j last_row ≡ b.get_cell_formula name j last_row)
    → has_formulas a name last_row rows ≡ has_formulas b name last_row rows
unfolding has_formulas
has_formulas-last_row a b name last_row [] h = refl
has_formulas-last_row a b name last_row (row ∷ rows) h =
    rw
      (
        row_has_formula-last_row a b name last_row 0 row h,
        has_formulas-last_row a b name last_row rows h,
      )
      refl

-- Two workbooks that have the same formulas in the last row of a sheet give the same answer to
-- whether the sheet has formulas, whatever its other rows hold.
pub sheet_metadata-has_formulas :
    (a b : Workbook) (name : Text) (rows : List (List Text))
    → ((j : ℕ) → a.get_cell_formula name j (length rows) ≡ b.get_cell_formula name j (length rows))
    → (sheet_metadata a name rows).has_formulas ≡ (sheet_metadata b name rows).has_formulas
unfolding sheet_metadata
sheet_metadata-has_formulas a b name rows h = has_formulas-last_row a b name (length rows) rows h
