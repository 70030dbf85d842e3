-- ===== src/Tests/ManagerRuns.antt =====
-- The index manager: runs with exact coordinates, a filter that keeps a list and a list for a B-tree,
-- and the theorems at them.
use mcp_xlsm_server.Prelude.{
  ℕ, Option, ◌≡◌, refl, arith, Bool, true, false, ◌||◌, none, some, List, [], ◌∷◌, length, nats_beq,
  nats_beq_iff, if◌then◌else◌,
}
use mcp_xlsm_server.Decimal.{codes}
use mcp_xlsm_server.Index.Build.{search_text_in-build_from_file}
use mcp_xlsm_server.Index.Build.Rows.{cell_location}
use mcp_xlsm_server.Index.Inverted.{has, tokenize_text, keep_tokens, is_one_of}
use mcp_xlsm_server.Index.Keys.{place, without, within, BTree, NumericKey}
use mcp_xlsm_server.Index.Numbers.{
  search_numeric_range-update_cell_indexes, search_numeric_range-update_cell_indexes_replaces,
}
use mcp_xlsm_server.Index.Manager.{
  update_cell_indexes, Bloom, Manager, new_manager, build_from_file, index_sheet,
}
use mcp_xlsm_server.Index.Deltas.{Delta, cell_update, other, float64, parse_location, split_at_mark}
use mcp_xlsm_server.Index.Searching.{search_numeric_range, get_stats, search_text_in}
use mcp_xlsm_server.Index.QuadTree.{
  Bounds, SpatialPoint, new_quad_tree, insert, insert_all, points_in, query, count_points, contains,
  insert_new,
}
use mcp_xlsm_server.Index.QuadTree.Fractions.{Fraction, fractions, of_nat}
use mcp_xlsm_server.Index.QuadTree.Queries.{bag, query-insert_all}
use mcp_xlsm_server.Models.{Text}
use mcp_xlsm_server.Workbook.{Workbook}

unfoldable pub contains_text : Text → List Text → Bool
contains_text t [] = false
contains_text t (s ∷ ss) = nats_beq s t || contains_text t ss

pub contains_text_self : (t : Text) (ss : List Text) → contains_text t (t ∷ ss) ≡ true
unfolding contains_text
contains_text_self t ss = ground (arith, nats_beq_iff t t)

pub contains_text_more :
    (t s : Text) (ss : List Text) → contains_text t ss ≡ true → contains_text t (s ∷ ss) ≡ true
unfolding contains_text
contains_text_more t s ss h = ground (arith, h)

pub contains_text_none : (t : Text) → contains_text t [] ≡ false
unfolding contains_text
contains_text_none t = refl

-- A filter without false answers.
abbrev pub exact_filter : Bloom (List Text)
exact_filter = record {
  empty = [];
  add = λ t ss. t ∷ ss;
  test = contains_text;
  test-add = contains_text_self;
  test_keeps = contains_text_more;
  test-empty = contains_text_none;
}

abbrev Keys : Type 0
Keys = List (NumericKey Fraction)

abbrev pub list_tree : BTree fractions Keys
list_tree = record {
  empty = [];
  replace_or_insert = place fractions;
  delete = without fractions;
  ascend_range = within fractions;
  len = length;
  items = λ ks. ks;
  items-empty = refl;
  items-replace_or_insert = λ k t. refl;
  items-delete = λ k t. refl;
  ascend_range-items = λ low high t. refl;
  len-items = λ t. refl;
}

abbrev pub one_word : Text → List Text
one_word text = text ∷ []

abbrev sales_rows : List (List Text)
sales_rows = (codes "Region" ∷ codes "Total" ∷ []) ∷ (codes "North" ∷ [] ∷ codes "Budget" ∷ []) ∷ []

abbrev sales_file : Workbook
sales_file = record {
  sheet_list = codes "Sales" ∷ [];
  get_rows = λ sheet. if nats_beq sheet (codes "Sales") then some sales_rows else none;
  get_cell_formula = λ sheet col row. none;
  cell_name = λ col row. some (col ∷ row ∷ []);
}

abbrev empty_index : Manager Fraction Keys (List Text)
empty_index = new_manager fractions of_nat list_tree exact_filter one_word

search_text_in-build_from_file_example :
    has (cell_location sales_file (codes "Sales") 1 2) (
      search_text_in fractions of_nat list_tree exact_filter one_word
        (codes "Budget")
        (build_from_file fractions of_nat list_tree exact_filter one_word sales_file
          (codes "Sales" ∷ [])
          empty_index).0)
    ≡ true
unfolding build_from_file index_sheet tokenize_text keep_tokens is_one_of
search_text_in-build_from_file_example =
    search_text_in-build_from_file fractions of_nat list_tree exact_filter one_word sales_file
      (codes "Sales" ∷ []) empty_index 0 1 2 66 (codes "udget") (codes "Sales")
      (codes "North" ∷ [] ∷ codes "Budget" ∷ []) sales_rows refl refl refl refl refl refl

-- Eleven points in a column: the eleventh makes a child.
abbrev point_at : ℕ → SpatialPoint Fraction ℕ
point_at n = record { x = of_nat 600; y = of_nat n; loc = n }

abbrev column_points : List (SpatialPoint Fraction ℕ)
column_points =
    point_at 0
    ∷ point_at 1
    ∷ point_at 2
    ∷ point_at 3
    ∷ point_at 4
    ∷ point_at 5
    ∷ point_at 6
    ∷ point_at 7
    ∷ point_at 8
    ∷ point_at 9
    ∷ point_at 700
    ∷ point_at 2000
    ∷ []

abbrev whole : Bounds Fraction
whole = record { x = of_nat 0; y = of_nat 0; width = of_nat 1000; height = of_nat 1000 }

abbrev lower : Bounds Fraction
lower = record { x = of_nat 500; y = of_nat 8; width = of_nat 200; height = of_nat 900 }

query-insert_all_example :
    bag (query fractions lower (insert_all fractions column_points (new_quad_tree whole)))
    ≡ bag (points_in fractions lower (points_in fractions whole column_points))
query-insert_all_example = query-insert_all fractions column_points whole lower (refl, refl)

count_points_run : count_points (insert_all fractions column_points (new_quad_tree whole)) ≡ 11
unfolding count_points insert_all insert insert_new contains
count_points_run = refl

-- Two cells of a sheet that are set to the number 7.
abbrev seven_at : Text → Delta Fraction
seven_at cell = record {
  kind = cell_update;
  sheet_id = codes "S";
  location = cell;
  old_value = other;
  new_value = float64 (of_nat 7);
  affected_cells = 1;
}

abbrev coordinates_of : Text → Option (ℕ × ℕ)
coordinates_of name = some (1, length name)

search_numeric_range-update_cell_indexes_replaces_example :
    let set = update_cell_indexes fractions of_nat list_tree exact_filter one_word coordinates_of in
    let search =
      search_numeric_range fractions of_nat list_tree exact_filter one_word (of_nat 0) (of_nat 9) in
    let stats = get_stats fractions of_nat list_tree exact_filter one_word in
    (search (set (seven_at (codes "S!A1")) (set (seven_at (codes "S!B1")) empty_index))
      ≡ search (set (seven_at (codes "S!A1")) empty_index))
    × ((stats
          (set (seven_at (codes "S!A1")) (set (seven_at (codes "S!B1")) empty_index))).btree_items
        ≡ (stats (set (seven_at (codes "S!A1")) empty_index)).btree_items)
unfolding parse_location split_at_mark
search_numeric_range-update_cell_indexes_replaces_example =
    search_numeric_range-update_cell_indexes_replaces fractions of_nat list_tree exact_filter
      one_word coordinates_of (of_nat 7) (of_nat 0) (of_nat 9) (seven_at (codes "S!B1"))
      (seven_at (codes "S!A1")) empty_index (record { new = refl; old = refl })
      (record { new = refl; old = refl }) refl

search_numeric_range-update_cell_indexes_example :
    let m =
      update_cell_indexes fractions of_nat list_tree exact_filter one_word coordinates_of
        (seven_at (codes "S!A1"))
        empty_index in
    (has (parse_location coordinates_of (codes "S!A1")) (
        search_numeric_range fractions of_nat list_tree exact_filter one_word
          (of_nat 0)
          (of_nat 9)
          m)
      ≡ true)
    × (search_numeric_range fractions of_nat list_tree exact_filter one_word (of_nat 7) (of_nat 7) m
        ≡ [])
search_numeric_range-update_cell_indexes_example =
    search_numeric_range-update_cell_indexes fractions of_nat list_tree exact_filter one_word
      coordinates_of (of_nat 7) (of_nat 0) (of_nat 9) (seven_at (codes "S!A1")) empty_index
      (record { new = refl; old = refl }) refl refl
