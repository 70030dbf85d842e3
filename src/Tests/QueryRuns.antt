-- ===== src/Tests/QueryRuns.antt =====
-- Queries: a run on a small workbook, and the theorems at it.
use mcp_xlsm_server.Prelude.{
  ℕ, ◌≡◌, refl, ap, arith, false, Option, none, some, [], ◌∷◌, pos, lookup, store, length,
}
use mathlib.Core.Path.{subst}
use mcp_xlsm_server.Decimal.{codes}
use mcp_xlsm_server.Index.{Searches}
use mcp_xlsm_server.Models.{Text, QueryExecution, scan, no_index}
use mcp_xlsm_server.Query.Handler.{
  calculate_statistics, QueryParams, QueryResponse, query_data, default_config, default_hints,
  with_options, or_else, parse_navigation_index, respond, read_cursor, create_query_pagination,
  apply_adaptive_response, blank_response,
}
use mcp_xlsm_server.Query.Limits.{IsWithin, execute_query-limits}
use mcp_xlsm_server.Query.Parse.{
  Options, float64, contains, has_prefix, int_option, bool_option, merge, determine_query_strategy,
  detect_index_updates,
}
use mcp_xlsm_server.Query.Results.{query_data-execute_query}
use mcp_xlsm_server.Query.Json.{IsJson}
use mcp_xlsm_server.Query.Search.{Chunks, execute_query, run_strategy}
use mcp_xlsm_server.Tests.CursorRuns.{single, sample, v1}
use mcp_xlsm_server.Tests.ToolRuns.{book}
use mcp_xlsm_server.Token.{Encoder}

-- An index with one location for numbers and none for the rest.
abbrev one_number : Searches
one_number = record {
  search_numeric_range = λ low high.
      (record { sheet_name = codes "Sheet1"; cell_ref = codes "B2"; row = 2; col = 2 }) ∷ [];
  search_text = λ t. [];
  search_spatial = λ r. [];
}

abbrev uncounted : Encoder (Chunks ℕ)
uncounted = record { key = λ d. []; marshal = λ d. none; token_length = length }

abbrev five_results : Options
five_results = ("max_results", float64 (codes "5")) ∷ []

five_results-IsJson : (o : Options) → some five_results ≡ some o → IsJson o
five_results-IsJson o e =
    subst IsJson (ap (λ given. or_else given []) e) ((λ n k. ground (arith, k)), tt)

abbrev sheet_query : QueryParams Text
sheet_query = record {
  query = some (codes "Sheet");
  navigation_index = some (codes "{}");
  continuation_cursor = none;
  window_config = some five_results;
  token_aware = some false;
  optimization_hints = none;
}

-- The response, of which the results are those of the run.
abbrev response_with : QueryExecution × Chunks ℕ → QueryResponse ℕ
response_with (execution, results) = record {
  execution = execution;
  results = results;
  statistics = calculate_statistics;
  adaptive_response = blank_response;
  pagination =
      create_query_pagination (single sample) v1 (pos 1001) (codes "Sheet") (pos 0) (length results)
        (with_options default_config (some five_results));
  index_updates = detect_index_updates (codes "Sheet") (length results);
}

abbrev scan_run : Option (QueryExecution × Chunks ℕ)
scan_run =
    execute_query (λ t. t) (some book) (λ t. none) one_number (codes "Sheet")
      (parse_navigation_index (codes "{}")) (with_options default_config (some five_results))
      default_hints

abbrev sheet_run : QueryExecution × Chunks ℕ
sheet_run = or_else scan_run (
  record {
    used_index = false;
    index_type = no_index;
    chunks_scanned = [];
    strategy = scan;
    bloom_filter_used = false;
  },
  [],
)

query_data-execute_query_example :
    execute_query
      (λ t. t)
      (some book)
      (λ t. none)
      one_number
      (codes "Sheet")
      (parse_navigation_index (tt {0}))
      default_config
      (with_options default_hints none)
    ≡ some ((response_with sheet_run).execution, (response_with sheet_run).results)
unfolding query_data respond read_cursor apply_adaptive_response execute_query run_strategy
    determine_query_strategy contains has_prefix with_options parse_navigation_index bool_option
    lookup merge store
query_data-execute_query_example =
    query_data-execute_query (λ t. t) (some book) (λ t. none) one_number (single sample) v1
      uncounted (pos 1000) (pos 1001) sheet_query [] (codes "Sheet") (response_with sheet_run) refl
      five_results-IsJson refl

execute_query-limits_example : IsWithin 100 10 (some sheet_run)
unfolding execute_query run_strategy determine_query_strategy contains has_prefix with_options
    parse_navigation_index bool_option lookup merge store int_option
execute_query-limits_example =
    execute_query-limits (λ t. t) (some book) (λ t. none) one_number (codes "Sheet")
      (parse_navigation_index (codes "{}")) (with_options default_config (some five_results))
      default_hints 100 10 sheet_run.0 sheet_run.1 refl refl refl
