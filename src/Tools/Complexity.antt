-- ===== src/Tools/Complexity.antt =====
-- `calculateComplexityScore` of internal/server/tools.go: a sum of floating-point products, cut at 10.
use mcp_xlsm_server.Prelude.{
  ℕ, ◌+◌, ◌≡◌, false, Option, none, some, List, [], ◌∷◌, length, take, if◌then◌else◌, inl, inr,
  Bool-cases,
}
use mcp_xlsm_server.Float.{Float}
use mcp_xlsm_server.Models.{Text}
use mcp_xlsm_server.Workbook.{Workbook}

module _ {F : Type 0} (float : Float F) where
  open float use {of_count, decimal, plus, times, below}

  -- A cell with a formula adds 0.1.
  unfoldable pub score_formula : Option Text → F → F
  score_formula none score = score
  score_formula (some []) score = score
  score_formula (some (c ∷ formula)) score = plus score (decimal 1 1)

  -- The cells of a row, of which the first has the column `col`, counted from 1.
  unfoldable pub score_row : Workbook → Text → ℕ → ℕ → List Text → F → F
  unfolding score_formula
  score_row file sheet row col [] score = score
  score_row file sheet row col (cell ∷ cells) score =
      score_row file sheet row (col + 1) cells
        (score_formula (file.get_cell_formula sheet col row) score)

  unfoldable pub score_rows : Workbook → Text → ℕ → List (List Text) → F → F
  unfolding score_row
  score_rows file sheet row [] score = score
  score_rows file sheet row (cells ∷ rows) score =
      score_rows file sheet (row + 1) rows (score_row file sheet row 1 (take 10 cells) score)

  -- A sheet whose rows can be read adds 0.001 for each row, and its formulas among the first ten rows
  -- and columns.
  unfoldable pub score_sheet : Workbook → Text → Option (List (List Text)) → F → F
  unfolding score_rows
  score_sheet file sheet none score = score
  score_sheet file sheet (some rows) score =
      score_rows file sheet 1 (take 10 rows)
        (plus score (times (of_count (length rows)) (decimal 1 3)))

  unfoldable pub score_sheets : Workbook → List Text → F → F
  unfolding score_sheet
  score_sheets file [] score = score
  score_sheets file (sheet ∷ sheets) score =
      score_sheets file sheets (score_sheet file sheet (file.get_rows sheet) score)

  abbrev pub at_most_ten : F → F
  at_most_ten score = if below (of_count 10) score then of_count 10 else score

  unfoldable pub calculate_complexity_score : Workbook → ℕ → F
  unfolding score_sheets
  calculate_complexity_score file sheets_count =
      at_most_ten
        (score_sheets file (take 5 file.sheet_list) (times (of_count sheets_count) (decimal 1 1)))

  at_most_ten_lem : (score : F) → below (of_count 10) (at_most_ten score) ≡ false
  at_most_ten_lem score = elim (Bool-cases (below (of_count 10) score)) [
    | inl e ↦ rw e (float.below_irreflexive (of_count 10))
    | inr e ↦ rw (e, e)
  ]

  -- The score of a workbook is at most 10.
  pub below-calculate_complexity_score :
      (file : Workbook) (sheets_count : ℕ)
      → below (of_count 10) (calculate_complexity_score file sheets_count) ≡ false
  unfolding calculate_complexity_score
  below-calculate_complexity_score file sheets_count = at_most_ten_lem _
