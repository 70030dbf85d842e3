-- ===== src/Query/Search.antt =====
-- internal/server/query.go, `executeQuery`: the queries by index and by scan. The searches are those
-- of the manager that the code makes for the query, an argument here. So are `strings.ToUpper`, which
-- follows the Unicode tables, the file that the code opens by a fixed name and the reading of numbers.
use mcp_xlsm_server.Prelude.{
  true, false, Option, none, some, List, [], ◌∷◌, ◌++◌, ℤ, pos, pos_part, ltb_ℤ, length, take, map,
  if◌then◌else◌, ◌*◌,
}
use mcp_xlsm_server.Decimal.{codes, decimal}
use mcp_xlsm_server.Index.{Searches, Location}
use mcp_xlsm_server.Models.{
  Text, SheetIndex, DataChunk, QueryExecution, Strategy, index, scan, hybrid, no_index,
  hybrid_index,
}
use mcp_xlsm_server.Query.Parse.{
  Options, int_option, contains, is_numeric_range_query, is_text_query, is_spatial_query,
  parse_numeric_range, parse_spatial_bounds, determine_query_strategy, detect_index_type,
}
use mcp_xlsm_server.Query.Sheets.{Cell, extract_rows}
use mcp_xlsm_server.Workbook.{Workbook}

-- The data of a chunk: the text that stands for a cell, or the rows of a sheet.
pub data Content (N : Type 0) : Type 0 where
  sample : Text → Content N
  sheet_rows : List (List (Cell N)) → Content N

abbrev pub Chunks : Type 0 → Type 0
Chunks N = List (DataChunk (Content N))

-- The elements before index `n`: the loop that breaks at `i >= n`.
unfoldable pub first_of {ℓ} : {A : Type ℓ} → ℤ → List A → List A
first_of n xs = take (pos_part n) xs

-- `if len(xs) > n { xs = xs[:n] }`, which panics for a negative `n`.
unfoldable pub clip_to {ℓ} : {A : Type ℓ} → ℤ → List A → Option (List A)
clip_to n xs =
    if ltb_ℤ n (pos (length xs))
    then (if ltb_ℤ n (pos 0) then none else some (take (pos_part n) xs))
    else some xs

-- The locations that the index has for the query.
unfoldable pub find_locations : Searches → Text → List Location
find_locations index_manager query =
    if is_numeric_range_query query
    then (let (low, high) = parse_numeric_range query in
        index_manager.search_numeric_range low high)
    else if is_text_query query
    then index_manager.search_text query
    else if is_spatial_query query
    then index_manager.search_spatial (parse_spatial_bounds query)
    else []

module _ {N : Type 0} where
  unfoldable pub location_chunk : Location → DataChunk (Content N)
  location_chunk l = record {
    location = l.sheet_name ++ codes "!" ++ l.cell_ref;
    window = l.cell_ref ++ codes ":" ++ l.cell_ref;
    content = sample (codes "sample_value");
    size = 64;
    truncated = false;
    compressed = false;
    headers = [];
    nearby = none;
    formulas = [];
  }

  unfoldable pub convert_locations : List Location → Options → Chunks N
  convert_locations locations config =
      map location_chunk (first_of (int_option config "max_results" (pos 100)) locations)

  -- `none` where the code panics.
  unfoldable pub execute_index_query : Searches → Text → Options → Option (Chunks N)
  execute_index_query index_manager query config =
      clip_to (int_option config "max_results" (pos 100))
        (convert_locations (find_locations index_manager query) config)

-- The `switch` of `executeQuery` on the strategy, with what the query by index gives and what the
-- scan gives; neither changes a state. `none` where the code panics.
unfoldable pub run_strategy :
    {N : Type 0}
    → Text
    → Option (Chunks N)
    → Chunks N × List Text
    → Strategy
    → Option (QueryExecution × Chunks N)
run_strategy query none scanned index = none
run_strategy query (some found) scanned index = some (
  record {
    used_index = true;
    index_type = detect_index_type query;
    chunks_scanned = [];
    strategy = index;
    bloom_filter_used = true;
  },
  found,
)
run_strategy query found (results, scanned) scan = some (
  record {
    used_index = false;
    index_type = no_index;
    chunks_scanned = scanned;
    strategy = scan;
    bloom_filter_used = false;
  },
  results,
)
run_strategy query none scanned hybrid = none
run_strategy query (some found) (results, scanned) hybrid = some (
  record {
    used_index = true;
    index_type = hybrid_index;
    chunks_scanned = scanned;
    strategy = hybrid;
    bloom_filter_used = true;
  },
  found ++ results,
)

abbrev pub scan_headers : List Text
scan_headers =
    codes "Rayons"
    ∷ codes "Ventes_HT"
    ∷ codes "Marges"
    ∷ codes "Taux_Marge"
    ∷ codes "Demarque"
    ∷ codes "Frais"
    ∷ codes "Marge_Theorique"
    ∷ []

module _ {N : Type 0} (upper : Text → Text) (opened : Option Workbook)
    (scan_float : Text → Option N) where
  -- `extractRealSheetData`; `none` where the file or the sheet cannot be read.
  unfoldable pub extract_real_sheet_data : Text → ℤ → Option (List (List (Cell N)))
  extract_real_sheet_data name max_rows = elim opened [
    | none ↦ none
    | some file ↦ elim (file.get_rows name) [
      | none ↦ none
      | some rows ↦ some (extract_rows scan_float rows max_rows)
    ]
  ]

  unfoldable pub scan_chunk : SheetIndex → ℤ → List (List (Cell N)) → DataChunk (Content N)
  scan_chunk sheet max_rows rows = record {
    location = sheet.name ++ codes "!A1";
    window = codes "A1:Z" ++ decimal max_rows;
    content = sheet_rows rows;
    size = length rows * 100;
    truncated = ltb_ℤ max_rows (pos sheet.metadata.rows);
    compressed = false;
    headers = scan_headers;
    nearby = some (length rows);
    formulas = [];
  }

  -- The chunk of a sheet whose name has the query in it; none where its data cannot be read.
  unfoldable pub scan_sheet : Text → ℤ → SheetIndex → Chunks N
  scan_sheet query max_rows sheet =
      if contains (upper sheet.name) (upper query)
      then elim (extract_real_sheet_data sheet.name max_rows) [
        | none ↦ []
        | some rows ↦ scan_chunk sheet max_rows rows ∷ []
      ]
      else []

  -- The loop over the sheets: the chunks found, and the sheets scanned.
  unfoldable pub scan_sheets : Text → ℤ → List SheetIndex → Chunks N × List Text
  scan_sheets query max_rows [] = ([], [])
  scan_sheets query max_rows (sheet ∷ sheets) =
      let rest = scan_sheets query max_rows sheets in
      (scan_sheet query max_rows sheet ++ rest.0, sheet.sheet_id ∷ rest.1)

  unfoldable pub execute_scan_query : Text → List SheetIndex → Options → Chunks N × List Text
  execute_scan_query query sheets config =
      scan_sheets query (int_option config "max_rows_per_sheet" (pos 1000))
        (first_of (int_option config "max_sheets_per_call" (pos 10)) sheets)

  unfoldable pub execute_query :
      Searches → Text → List SheetIndex → Options → Options → Option (QueryExecution × Chunks N)
  unfolding run_strategy
  execute_query index_manager query sheets config hints =
      run_strategy query (execute_index_query index_manager query config)
        (execute_scan_query query sheets config)
        (determine_query_strategy query (length sheets) hints)
