-- ===== src/Query/Limits.antt =====
-- The limits of a configuration bound what a query gives.
use mcp_xlsm_server.Prelude.{
  ℕ, ◌+◌, ◌≤◌, ◌≡◌, refl, arith, Option, none, some, List, [], ◌∷◌, ℤ, pos, length, length-append,
  length-take,
}
use mathlib.Core.Path.{subst}
use mcp_xlsm_server.Index.{Searches}
use mcp_xlsm_server.Models.{Text, SheetIndex, QueryExecution, Strategy, index, scan, hybrid}
use mcp_xlsm_server.Query.Parse.{Options, int_option, determine_query_strategy}
use mcp_xlsm_server.Query.Search.{
  Chunks, clip_to, execute_query, execute_index_query, execute_scan_query, scan_sheets, scan_sheet,
  run_strategy, first_of, find_locations, convert_locations,
}
use mcp_xlsm_server.Workbook.{Workbook}

clip_to-length {ℓ} :
    {A : Type ℓ} (n : ℕ) (xs ys : List A) → clip_to (pos n) xs ≡ some ys → length ys ≤ n
unfolding clip_to
clip_to-length n xs ys h = ground (arith, length-take n xs)

-- The bounds on a run; a panic is within them.
abbrev pub IsWithin : {N : Type 0} → ℕ → ℕ → Option (QueryExecution × Chunks N) → Type 0
IsWithin a b none = Unit
IsWithin a b (some (execution, results)) =
    length results ≤ a + b
    × length execution.chunks_scanned ≤ b
    × (execution.strategy ≡ index → length results ≤ a)
    × (execution.strategy ≡ scan → length results ≤ b)

run_strategy-IsWithin :
    {N : Type 0} (a b : ℕ) (query : Text) (found : Option (Chunks N))
    (scanned : Chunks N × List Text) (s : Strategy)
    → ((ys : Chunks N) → found ≡ some ys → length ys ≤ a)
    → length scanned.0 ≤ b
    → length scanned.1 ≤ b
    → IsWithin a b (run_strategy query found scanned s)
unfolding run_strategy
run_strategy-IsWithin a b query none scanned index h1 h2 h3 = tt
run_strategy-IsWithin a b query none scanned hybrid h1 h2 h3 = tt
run_strategy-IsWithin a b query (some ys) scanned index h1 h2 h3 =
    let few = h1 ys refl in (omega arith, omega arith, λ e. few, λ e. absurd (ground (arith, e)))
run_strategy-IsWithin a b query none scanned scan h1 h2 h3 =
    (omega arith, h3, λ e. absurd (ground (arith, e)), λ e. h2)
run_strategy-IsWithin a b query (some ys) scanned scan h1 h2 h3 =
    (omega arith, h3, λ e. absurd (ground (arith, e)), λ e. h2)
run_strategy-IsWithin a b query (some ys) (results, scanned) hybrid h1 h2 h3 =
    let few = h1 ys refl in
    let both = length-append ys results in
    (omega arith, h3, λ e. absurd (ground (arith, e)), λ e. absurd (ground (arith, e)))

module _ {N : Type 0} (upper : Text → Text) (opened : Option Workbook)
    (scan_float : Text → Option N) where
  scan_sheet-length :
      (query : Text) (max_rows : ℤ) (sheet : SheetIndex)
      → length (scan_sheet upper opened scan_float query max_rows sheet) ≤ 1
  unfolding scan_sheet
  scan_sheet-length query max_rows sheet = ground arith

  scan_sheets-length :
      (query : Text) (max_rows : ℤ) (sheets : List SheetIndex)
      → length (scan_sheets upper opened scan_float query max_rows sheets).0 ≤ length sheets
        × (length (scan_sheets upper opened scan_float query max_rows sheets).1 ≡ length sheets)
  unfolding scan_sheets
  scan_sheets-length query max_rows [] = (omega arith, refl)
  scan_sheets-length query max_rows (sheet ∷ sheets) =
      let (few, all) = scan_sheets-length query max_rows sheets in
      let one = scan_sheet-length query max_rows sheet in
      let both =
        length-append (scan_sheet upper opened scan_float query max_rows sheet)
          (scan_sheets upper opened scan_float query max_rows sheets).0 in
      (omega arith, omega arith)

  execute_scan_query-length :
      (query : Text) (sheets : List SheetIndex) (config : Options) (n : ℕ)
      → int_option config "max_sheets_per_call" (pos 10) ≡ pos n
      → length (execute_scan_query upper opened scan_float query sheets config).0 ≤ n
        × length (execute_scan_query upper opened scan_float query sheets config).1 ≤ n
  unfolding execute_scan_query first_of
  execute_scan_query-length query sheets config n h =
      let kept = first_of (pos n) sheets in
      let (few, all) =
        scan_sheets-length query (int_option config "max_rows_per_sheet" (pos 1000)) kept in
      let size = length-take n sheets in rw (execute_scan_query, h) (omega arith, omega arith)

  -- The results of a query by index are at most `max_results`, those of a scan at most
  -- `max_sheets_per_call`, and a hybrid has both. No more than `max_sheets_per_call` sheets are
  -- scanned. Both limits are natural numbers.
  pub execute_query-limits :
      (s : Searches) (query : Text) (sheets : List SheetIndex) (config hints : Options) (a b : ℕ)
      (execution : QueryExecution) (results : Chunks N)
      → int_option config "max_results" (pos 100) ≡ pos a
      → int_option config "max_sheets_per_call" (pos 10) ≡ pos b
      → execute_query upper opened scan_float s query sheets config hints
        ≡ some (execution, results)
      → IsWithin a b (some (execution, results))
  unfolding execute_query execute_index_query run_strategy
  execute_query-limits s query sheets config hints a b execution results h1 h2 h3 =
      let (few, sheets_few) = execute_scan_query-length query sheets config b h2 in
      let found = execute_index_query s query config in
      subst (IsWithin a b) h3 (
        run_strategy-IsWithin a b query found
          (execute_scan_query upper opened scan_float query sheets config)
          (determine_query_strategy query (length sheets) hints)
          (λ ys e. clip_to-length a (convert_locations (find_locations s query) config) ys (
            subst (λ n. clip_to n (convert_locations (find_locations s query) config) ≡ some ys) h1
              e))
          few sheets_few)
