-- ===== src/Tests/FreshRuns.antt =====
-- A query on an index that was just made, and the theorem at it.
use mcp_xlsm_server.Prelude.{refl, true, none, [], lookup, nats_eq}
use mcp_xlsm_server.Decimal.{codes}
use mcp_xlsm_server.Index.Inverted.{search_text}
use mcp_xlsm_server.Index.Searching.{search_numeric_range, search_text_in, search_spatial}
use mcp_xlsm_server.Index.QuadTree.{query, points_in}
use mcp_xlsm_server.Index.QuadTree.Fractions.{fractions, of_nat}
use mcp_xlsm_server.Models.{QueryExecution, index}
use mcp_xlsm_server.Query.Fresh.{IsUnindexed, execute_query-new_manager}
use mcp_xlsm_server.Query.Parse.{
  Options, determine_query_strategy, detect_index_type, is_numeric_range_query, is_spatial_query,
  is_text_query, contains, has_prefix, parse_spatial_bounds, parse_numeric_range, int_option,
  bool_option,
}
use mcp_xlsm_server.Query.Search.{
  execute_query, execute_index_query, execute_scan_query, find_locations, convert_locations,
  first_of, clip_to, run_strategy, scan_sheets,
}
use mcp_xlsm_server.Tests.ManagerRuns.{contains_text, list_tree, exact_filter, one_word}

abbrev no_options : Options
no_options = []

abbrev fresh_execution : QueryExecution
fresh_execution = record {
  used_index = true;
  index_type = detect_index_type (codes "name = Budget");
  chunks_scanned = [];
  strategy = index;
  bloom_filter_used = true;
}

execute_query-new_manager_example : IsUnindexed {N = Unit {0}} [] fresh_execution []
unfolding execute_query execute_index_query execute_scan_query find_locations convert_locations
    first_of clip_to run_strategy scan_sheets determine_query_strategy detect_index_type
    is_numeric_range_query is_spatial_query is_text_query contains has_prefix parse_spatial_bounds
    int_option bool_option lookup search_text_in search_text search_numeric_range search_spatial
    query points_in parse_numeric_range contains_text
execute_query-new_manager_example =
    execute_query-new_manager fractions of_nat list_tree exact_filter one_word (λ t. t) none
      (λ t. none) (codes "name = Budget") [] no_options no_options fresh_execution [] refl
