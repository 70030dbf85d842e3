-- ===== src/Navigation/SearchIndex.antt =====
-- `buildSearchIndex`: the index that a navigation response counts.

use mcp_xlsm_server.Prelude.{
  ℕ, ◌+◌, ◌≡◌, ◌≢◌, refl, sym, ◌∙◌, ap, arith, Bool, true, Option, none, some, List, [], ◌∷◌,
  if◌then◌else◌, inl, inr, Option-cases, All, ◌⊎◌,
}
use mcp_xlsm_server.Index.Build.{build_from_file_read}
use mcp_xlsm_server.Index.Keys.{BTree}
use mcp_xlsm_server.Index.Manager.{Bloom, Manager, new_manager, build_from_file, index_rows}
use mcp_xlsm_server.Index.Searching.{IndexStats, get_stats}
use mcp_xlsm_server.Index.QuadTree.{Coordinates}
use mcp_xlsm_server.Models.{Text, SheetIndex}
use mcp_xlsm_server.Navigation.Handler.{
  Result, NavigationError, ok, err, sheet_failed, index_sheets,
}
use mcp_xlsm_server.Navigation.Sheets.{build_sheet_index}
use mcp_xlsm_server.Workbook.{Workbook}

pub record SearchIndex : Type 0 where
  pub btree_items : ℕ
  pub inverted_tokens : ℕ
  pub spatial_points : ℕ
  pub bloom_initialized : Bool

abbrev pub search_index_of : IndexStats → SearchIndex
search_index_of stats = record {
  btree_items = stats.btree_items;
  inverted_tokens = stats.inverted_tokens;
  spatial_points = stats.spatial_points;
  bloom_initialized = true;
}

abbrev pub sheet_names : List SheetIndex → List Text
sheet_names [] = []
sheet_names (sheet ∷ sheets) = sheet.name ∷ sheet_names sheets

abbrev names_in : Result (List SheetIndex) → List Text
names_in (ok sheets) = sheet_names sheets
names_in (err e) = []

abbrev name_in : Option SheetIndex → Text
name_in none = []
name_in (some sheet) = sheet.name

-- A sheet that is indexed has its name and can be read.
build_sheet_index-read :
    (file : Workbook) (name : Text) (id : ℕ) (sheet : SheetIndex)
    → build_sheet_index file name id ≡ some sheet
    → (sheet.name ≡ name) × ((rows : List (List Text)) × (file.get_rows name ≡ some rows))
unfolding build_sheet_index
build_sheet_index-read file name id sheet h = elim (Option-cases (file.get_rows name)) [
  | inl e ↦ ground (arith, h, e)
  | inr (rows, e) ↦ (ap name_in (sym h) ∙ rw (build_sheet_index, e) refl, (rows, e))
]

Result-cases :
    {A : Type 0} (r : Result A) → ((a : A) × (r ≡ ok a)) ⊎ ((e : NavigationError) × (r ≡ err e))
Result-cases (ok a) = inl (a, refl)
Result-cases (err e) = inr (e, refl)

err_no_ok : {A : Type 0} {e : NavigationError} {a : A} → err e ≢ ok a
err_no_ok h = ground (arith, h)

-- The names of sheets that were indexed can all be read.
abbrev AreRead : Workbook → List Text → Type 0
AreRead file names =
    All (λ name. (rows : List (List Text)) × (file.get_rows name ≡ some rows)) names

index_sheets-AreRead :
    (file : Workbook) (names : List Text) (id : ℕ) (sheets : List SheetIndex)
    → index_sheets file names id ≡ ok sheets
    → (sheet_names sheets ≡ names) × AreRead file names
unfolding index_sheets
index_sheets-AreRead file [] id sheets h = (ap names_in (sym h), tt)
index_sheets-AreRead file (name ∷ names) id sheets h =
    elim (Option-cases (build_sheet_index file name id)) [
      | inl e ↦
          let failed : index_sheets file (name ∷ names) id ≡ err (sheet_failed name) =
            rw (index_sheets, e) refl in
          absurd (err_no_ok (sym failed ∙ h))
      | inr (sheet, e) ↦ elim (Result-cases (index_sheets file names (id + 1))) [
        | inr (f, k) ↦
            let failed : index_sheets file (name ∷ names) id ≡ err f =
              rw (index_sheets, e, k) refl in
            absurd (err_no_ok (sym failed ∙ h))
        | inl (rest, k) ↦
            let made : index_sheets file (name ∷ names) id ≡ ok (sheet ∷ rest) =
              rw (index_sheets, e, k) refl in
            let (named, read) = build_sheet_index-read file name id sheet e in
            let (same, reads) = index_sheets-AreRead file names (id + 1) rest k in
            (ap names_in (sym h ∙ made) ∙ rw (named, same) refl, (read, reads))
      ]
    ]

module _ {C T B : Type 0} (coordinates : Coordinates C) (of_nat : ℕ → C)
    (btree : BTree coordinates T) (filter : Bloom B) (words : Text → List Text) where
  unfoldable pub build_search_index : Workbook → List SheetIndex → Option SearchIndex
  build_search_index file sheet_index =
      let (m, built) =
        build_from_file coordinates of_nat btree filter words file (sheet_names sheet_index)
          (new_manager coordinates of_nat btree filter words) in
      if built
      then some (search_index_of (get_stats coordinates of_nat btree filter words m))
      else none

  build_from_file-AreRead :
      (file : Workbook) (names : List Text) (m : Manager C T B)
      → AreRead file names
      → (build_from_file coordinates of_nat btree filter words file names m).1 ≡ true
  unfolding build_from_file
  build_from_file-AreRead file [] m h = refl
  build_from_file-AreRead file (name ∷ names) m ((rows, e), hs) =
      ap (λ b. b.1)
        (build_from_file_read coordinates of_nat btree filter words file name names rows m e)
      ∙ build_from_file-AreRead file names
          (index_rows coordinates of_nat btree filter words file name 0 rows m) hs

  -- Where the sheets of a page could be indexed, the search index of the page is built too.
  pub build_search_index-index_sheets :
      (file : Workbook) (names : List Text) (id : ℕ) (sheets : List SheetIndex)
      → index_sheets file names id ≡ ok sheets
      → (found : SearchIndex) × (build_search_index file sheets ≡ some found)
  unfolding build_search_index
  build_search_index-index_sheets file names id sheets h =
      let (same, reads) = index_sheets-AreRead file names id sheets h in
      let m = new_manager coordinates of_nat btree filter words in
      let built : (build_from_file coordinates of_nat btree filter words file (sheet_names sheets)
            m).1
          ≡ true =
        rw same (build_from_file-AreRead file names m reads) in
      (
        search_index_of (
            get_stats coordinates of_nat btree filter words
              (build_from_file coordinates of_nat btree filter words file (sheet_names sheets)
                m).0),
        rw (build_search_index, built) refl,
      )
