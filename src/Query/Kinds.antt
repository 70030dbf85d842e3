-- ===== src/Query/Kinds.antt =====
-- The index that a query is run on, and the one that the response names.
use mcp_xlsm_server.Prelude.{◌≡◌, false, arith, List, []}
use mcp_xlsm_server.Decimal.{codes}
use mcp_xlsm_server.Index.{Searches, Location}
use mcp_xlsm_server.Models.{Text, IndexType, no_index, btree, spatial, inverted, hybrid_index}
use mcp_xlsm_server.Query.Parse.{
  contains, is_numeric_range_query, is_text_query, is_spatial_query, parse_numeric_range,
  parse_spatial_bounds, detect_index_type,
}
use mcp_xlsm_server.Query.Search.{find_locations}

-- The locations that the index of the type has for the query.
abbrev pub search_by : Searches → Text → IndexType → List Location
search_by s query no_index = []
search_by s query btree =
    s.search_numeric_range (parse_numeric_range query).0 (parse_numeric_range query).1
search_by s query spatial = s.search_spatial (parse_spatial_bounds query)
search_by s query inverted = s.search_text query
search_by s query hybrid_index = []

-- A query by index is run on the index that its response names, unless it has the word BETWEEN or
-- the word RANGE, which `detectIndexType` does not know.
pub find_locations-detect_index_type :
    (s : Searches) (query : Text)
    → contains query (codes "BETWEEN") ≡ false
    → contains query (codes "RANGE") ≡ false
    → find_locations s query ≡ search_by s query (detect_index_type query)
unfolding find_locations detect_index_type is_numeric_range_query is_text_query is_spatial_query
find_locations-detect_index_type s query h1 h2 = ground arith
