-- ===== src/Tools/Patterns.antt =====
-- What `analyze_file` finds in the names and the formulas of a workbook.
use mcp_xlsm_server.Prelude.{
  ℕ, zero, suc, ◌+◌, ◌*◌, Bool, false, ◌&&◌, ◌||◌, Option, none, some, List, [], ◌∷◌, length, take,
  ltb, leb, ◌==◌, if◌then◌else◌, nats_beq,
}
use mcp_xlsm_server.Decimal.{codes}
use mcp_xlsm_server.Models.{Text}
use mcp_xlsm_server.Query.Parse.{contains}
use mcp_xlsm_server.Workbook.{Workbook}

-- Which of the four patterns the list of patterns has; its order is that of a map.
pub record NamingPatterns : Type 0 where
  pub underscore_separated : Bool
  pub space_separated : Bool
  pub starts_with_number : Bool
  pub contains_year : Bool

-- Whether the first byte is a digit.
abbrev pub starts_with_digit : Text → Bool
starts_with_digit [] = false
starts_with_digit (c ∷ name) = leb 48 c && leb c 57

unfoldable pub analyze_naming_patterns : List Text → NamingPatterns
unfolding contains
analyze_naming_patterns [] = record {
  underscore_separated = false;
  space_separated = false;
  starts_with_number = false;
  contains_year = false;
}
analyze_naming_patterns (name ∷ names) =
    let rest = analyze_naming_patterns names in
    record {
      underscore_separated = contains name (codes "_") || rest.underscore_separated;
      space_separated = contains name (codes " ") || rest.space_separated;
      starts_with_number = starts_with_digit name || rest.starts_with_number;
      contains_year =
          contains name (codes "2023")
          || contains name (codes "2024")
          || contains name (codes "2025")
          || rest.contains_year;
    }

-- `strings.Index` of one byte.
unfoldable pub index_of : ℕ → Text → Option ℕ
index_of c [] = none
index_of c (d ∷ text) = elim (index_of c text) [
  | none ↦ if d == c then some 0 else none
  | some i ↦ if d == c then some 0 else some (suc i)
]

-- The part before the first such byte, unless the text begins with it or does not have it.
abbrev pub cut_before : Text → Option ℕ → Option Text
cut_before name none = none
cut_before name (some zero) = none
cut_before name (some (suc i)) = some (take (suc i) name)

abbrev pub first_some : Option Text → Option Text → Text → Text
first_some (some a) b name = a
first_some none (some b) name = b
first_some none none name = name

-- The prefix before the first underscore, or before the first space, or the whole name.
unfoldable pub prefix_of : Text → Text
unfolding index_of
prefix_of name =
    first_some (cut_before name (index_of 95 name)) (cut_before name (index_of 32 name)) name

unfoldable pub add_group : Text → List Text → List Text
add_group group [] = group ∷ []
add_group group (g ∷ groups) =
    let rest = add_group group groups in if nats_beq g group then g ∷ groups else g ∷ rest

-- The keys of the map of groups.
unfoldable pub groups_of : List Text → List Text → List Text
unfolding add_group prefix_of
groups_of [] groups = groups
groups_of (name ∷ names) groups = groups_of names (add_group (prefix_of name) groups)

unfoldable pub detect_structural_groups : List Text → ℕ
unfolding groups_of
detect_structural_groups names = length (groups_of names [])

pub data FormulaComplexity : Type 0 where
  no_formulas simple mixed complex : FormulaComplexity

abbrev pub is_complex : Text → Bool
unfolding contains
is_complex formula =
    contains formula (codes "IF")
    || contains formula (codes "VLOOKUP")
    || contains formula (codes "INDEX")
    || contains formula (codes "MATCH")

-- The formulas so far, and the complex ones among them.
abbrev pub Formulas : Type 0
Formulas = ℕ × ℕ

unfoldable pub count_formula : Option Text → Formulas → Formulas
unfolding is_complex
count_formula none counts = counts
count_formula (some []) counts = counts
count_formula (some (c ∷ formula)) (n, k) = (n + 1, if is_complex (c ∷ formula) then k + 1 else k)

-- The cells of a row, of which the first has the column `col`, counted from 1.
unfoldable pub count_row : Workbook → Text → ℕ → ℕ → List Text → Formulas → Formulas
unfolding count_formula
count_row file sheet row col [] counts = counts
count_row file sheet row col (cell ∷ cells) counts =
    count_row file sheet row (col + 1) cells
      (count_formula (file.get_cell_formula sheet col row) counts)

unfoldable pub count_rows : Workbook → Text → ℕ → List (List Text) → Formulas → Formulas
unfolding count_row
count_rows file sheet row [] counts = counts
count_rows file sheet row (cells ∷ rows) counts =
    count_rows file sheet (row + 1) rows (count_row file sheet row 1 (take 10 cells) counts)

unfoldable pub count_sheets : Workbook → List Text → Formulas → Formulas
unfolding count_rows
count_sheets file [] counts = counts
count_sheets file (sheet ∷ sheets) counts = elim (file.get_rows sheet) [
  | none ↦ count_sheets file sheets counts
  | some rows ↦ count_sheets file sheets (count_rows file sheet 1 (take 10 rows) counts)
]

-- The quotient of two counts of at most 300 is above 0.3 as a floating-point number exactly if it is.
abbrev pub complexity_of : Formulas → FormulaComplexity
complexity_of (n, k) =
    if n == 0
    then no_formulas
    else if k == 0
    then simple
    else if ltb (3 * n) (10 * k)
    then complex
    else mixed

unfoldable pub analyze_formula_complexity : Workbook → List Text → FormulaComplexity
unfolding count_sheets
analyze_formula_complexity file names = complexity_of (count_sheets file (take 3 names) (0, 0))
