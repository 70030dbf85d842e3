-- ===== src/Index/Deltas.antt =====
-- internal/index/manager.go: the changes of cells, their values, and the locations that texts name.
use mcp_xlsm_server.Prelude.{
  ℕ, Bool, true, false, Option, none, some, List, [], ◌∷◌, ◌==◌, if◌then◌else◌,
}
use mcp_xlsm_server.Index.{Location}
use mcp_xlsm_server.Models.{Text}

pub data DeltaType : Type 0 where
  cell_update sheet_add formula_change bulk_change unknown_change : DeltaType

-- A value of a delta. An `int` stands by what it is as a `float64`.
pub data CellValue (C : Type 0) : Type 0 where
  float64 : C → CellValue C
  int : C → CellValue C
  string : Text → CellValue C
  other : CellValue C

pub record Delta (C : Type 0) : Type 0 where
  pub kind : DeltaType
  pub sheet_id : Text
  pub location : Text
  pub old_value : CellValue C
  pub new_value : CellValue C
  pub affected_cells : ℕ

-- `parseFloat`, which is not implemented.
abbrev pub parse_float : {C : Type 0} → Text → Option C
parse_float s = none

unfoldable pub parse_number : {C : Type 0} → CellValue C → Option C
parse_number (float64 v) = some v
parse_number (int v) = some v
parse_number (string s) = parse_float s
parse_number other = none

-- `isText` of a string: no string is numeric.
abbrev pub is_text : Text → Bool
is_text [] = false
is_text (c ∷ s) = true

-- `strings.Split(s, "!")`
unfoldable pub split_at_mark : Text → List Text
split_at_mark [] = [] ∷ []
split_at_mark (c ∷ s) = elim (split_at_mark s) [
  | [] ↦ []
  | part ∷ parts ↦ if c == 33 then [] ∷ part ∷ parts else (c ∷ part) ∷ parts
]

-- `Location{}`
abbrev pub no_location : Location
no_location = record { sheet_name = []; cell_ref = []; row = 0; col = 0 }

-- The location of a text "Sheet!A1", given `CellNameToCoordinates`, which answers a column and a row.
abbrev pub location_at : Text → Text → Option (ℕ × ℕ) → Location
location_at sheet cell none = no_location
location_at sheet cell (some (col, row)) = record {
  sheet_name = sheet;
  cell_ref = cell;
  row = row;
  col = col;
}

abbrev pub location_of : (Text → Option (ℕ × ℕ)) → List Text → Location
location_of cell_coordinates (sheet ∷ cell ∷ []) = location_at sheet cell (cell_coordinates cell)
location_of cell_coordinates _ = no_location

unfoldable pub parse_location : (Text → Option (ℕ × ℕ)) → Text → Location
unfolding split_at_mark
parse_location cell_coordinates text = location_of cell_coordinates (split_at_mark text)

-- The cell's name, or nothing where the library fails.
abbrev pub name_or_empty : Option Text → Text
name_or_empty none = []
name_or_empty (some name) = name
