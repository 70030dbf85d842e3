-- ===== src/Query/Parse.antt =====
-- internal/server/query.go: the tests on the text of a query, and its options.
use mcp_xlsm_server.Prelude.{
  ℕ, Bool, true, false, ◌&&◌, ◌||◌, not, none, some, [], ◌∷◌, ◌++◌, String, ℤ, if◌then◌else◌, ltb,
  ◌==◌, Dict, lookup, store, string_eq,
}
use mcp_xlsm_server.Decimal.{codes}
use mcp_xlsm_server.Index.{Rectangle}
use mcp_xlsm_server.Models.{
  Text, Strategy, index, scan, hybrid, IndexType, btree, spatial, inverted, IndexUpdates,
}

unfoldable pub has_prefix : Text → Text → Bool
has_prefix [] text = true
has_prefix (c ∷ prefix) [] = false
has_prefix (c ∷ prefix) (d ∷ text) = (c == d) && has_prefix prefix text

-- `strings.Contains`
unfoldable pub contains : Text → Text → Bool
unfolding has_prefix
contains [] sub = has_prefix sub []
contains (c ∷ text) sub = has_prefix sub (c ∷ text) || contains text sub

-- A value of a decoded request; JSON has no `int`, only `float64`, given by its text.
pub data Value : Type 0 where
  int : ℤ → Value
  float64 : Text → Value
  boolean : Bool → Value
  text : Text → Value
  other : Value

abbrev pub Options : Type 0
Options = Dict String Value

-- `o[k].(int)`, with the value that stands where the assertion fails
unfoldable pub int_option : Options → String → ℤ → ℤ
int_option o k default = elim (lookup k o) [
  | none ↦ default
  | some v ↦ elim v [
    | int n ↦ n
    | float64 t ↦ default
    | boolean b ↦ default
    | text t ↦ default
    | other ↦ default
  ]
]

-- `o[k].(bool)`, in the same way
unfoldable pub bool_option : Options → String → Bool → Bool
bool_option o k default = elim (lookup k o) [
  | none ↦ default
  | some v ↦ elim v [
    | int n ↦ default
    | float64 t ↦ default
    | boolean b ↦ b
    | text t ↦ default
    | other ↦ default
  ]
]

-- `for k, v := range from { into[k] = v }`
unfoldable pub merge : Options → Options → Options
merge into [] = into
merge into ((k, v) ∷ from) = merge (store k v into) from

unfoldable pub is_numeric_range_query : Text → Bool
is_numeric_range_query query =
    contains query (codes ">=")
    || contains query (codes "<=")
    || contains query (codes ">")
    || contains query (codes "<")
    || contains query (codes "BETWEEN")

unfoldable pub parse_numeric_range : Text → ℕ × ℕ
parse_numeric_range query =
    if contains query (codes "BETWEEN")
    then (10, 20)
    else if contains query (codes ">=")
    then (10, 999_999)
    else (0, 100)

unfoldable pub is_spatial_query : Text → Bool
is_spatial_query query =
    contains query (codes "NEAR")
    || contains query (codes "WITHIN")
    || contains query (codes "RANGE")

unfoldable pub is_text_query : Text → Bool
unfolding is_numeric_range_query is_spatial_query
is_text_query query = not (is_numeric_range_query query) && not (is_spatial_query query)

abbrev pub parse_spatial_bounds : Text → Rectangle
parse_spatial_bounds query = record { x = 0; y = 0; width = 100; height = 100 }

-- The strategy for a query on an index with so many sheets.
unfoldable pub determine_query_strategy : Text → ℕ → Options → Strategy
determine_query_strategy query sheets hints =
    if contains query (codes "=") && bool_option hints "prefer_speed" true
    then index
    else if contains query (codes "*") || contains query (codes "?")
    then scan
    else if ltb 10 sheets
    then hybrid
    else scan

unfoldable pub detect_index_type : Text → IndexType
detect_index_type query =
    if contains query (codes ">=")
      || contains query (codes "<=")
      || contains query (codes ">")
      || contains query (codes "<")
    then btree
    else if contains query (codes "NEAR") || contains query (codes "WITHIN")
    then spatial
    else inverted

unfoldable pub detect_index_updates : Text → ℕ → IndexUpdates
detect_index_updates query results =
    let volume = if ltb 50 results then codes "high_volume_query" ∷ [] else [] in
    let aggregation =
      if contains query (codes "SUM") || contains query (codes "COUNT")
      then codes "aggregation_query" ∷ []
      else [] in
    record { new_patterns = volume ++ aggregation; suggested_chunks = []; delta_applied = false }
