-- ===== src/Query/Sheets.antt =====
-- internal/server/query.go: the rows that a scan takes of a sheet. What `fmt.Sscanf` reads with `%f` is
-- an argument, and so is the type of the numbers.
use mcp_xlsm_server.Prelude.{
  Bool, true, false, ◌&&◌, Option, none, some, List, [], ◌∷◌, ℤ, pos, pos_part, ltb_ℤ, length, take,
  map, if◌then◌else◌, ◌==◌,
}
use mcp_xlsm_server.Models.{Text}

-- A cell of the data, `interface{}` in the code.
pub data Cell (N : Type 0) : Type 0 where
  nil : Cell N
  number : N → Cell N
  text : Text → Cell N

-- The spaces removed, a comma as a point.
unfoldable pub clean : Text → Text
clean [] = []
clean (c ∷ cs) =
    let rest = clean cs in if c == 32 then rest else if c == 44 then 46 ∷ rest else c ∷ rest

module _ {N : Type 0} (scan_float : Text → Option N) where
  unfoldable pub parse_financial_value : Text → Option N
  unfolding clean
  parse_financial_value [] = none
  parse_financial_value (c ∷ cs) = scan_float (clean (c ∷ cs))

  unfoldable pub process_cell : Text → Cell N
  process_cell [] = nil
  process_cell (c ∷ cs) = elim (parse_financial_value (c ∷ cs)) [
    | none ↦ text (c ∷ cs)
    | some n ↦ number n
  ]

  -- The loop breaks at the first index above 20.
  unfoldable pub process_row : List Text → List (Cell N)
  process_row row = map process_cell (take 21 row)

  unfoldable pub has_non_empty_data : List (Cell N) → Bool
  has_non_empty_data [] = false
  has_non_empty_data (nil ∷ row) = has_non_empty_data row
  has_non_empty_data (number n ∷ row) = true
  has_non_empty_data (text [] ∷ row) = has_non_empty_data row
  has_non_empty_data (text (c ∷ cs) ∷ row) = true

  unfoldable pub keep_rows : List (List Text) → List (List (Cell N))
  unfolding process_row has_non_empty_data
  keep_rows [] = []
  keep_rows (row ∷ rows) =
      let rest = keep_rows rows in
      if has_non_empty_data (process_row row) then process_row row ∷ rest else rest

  -- `extractRealSheetData` on the rows of the sheet.
  unfoldable pub extract_rows : List (List Text) → ℤ → List (List (Cell N))
  unfolding keep_rows
  extract_rows rows max_rows = keep_rows (
      if ltb_ℤ (pos 0) max_rows && ltb_ℤ max_rows (pos (length rows))
      then take (pos_part max_rows) rows
      else rows)
