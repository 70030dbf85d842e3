-- ===== src/Query/Handler.antt =====
-- internal/server/query.go, `QueryData`: the request, the run and the response. The clock is read
-- at the check of the cursor, and again for the next cursor.
use mcp_xlsm_server.Prelude.{
  ℕ, Bool, true, false, Option, none, some, List, [], ◌∷◌, ℤ, pos, leb_ℤ, add_int64, length,
  if◌then◌else◌,
}
use mcp_xlsm_server.Cursor.{Codec, Manager, CursorError, create_query_cursor, parse_cursor}
use mcp_xlsm_server.Cursor
use mcp_xlsm_server.Decimal.{codes}
use mcp_xlsm_server.Index.{Searches}
use mcp_xlsm_server.Models.{
  Text, Window, SheetIndex, Pagination, QueryExecution, AdaptiveResponse, IndexUpdates, Statistics,
}
use mcp_xlsm_server.Query.Parse.{Options, int, boolean, merge, int_option, detect_index_updates}
use mcp_xlsm_server.Query.Search.{Chunks, execute_query}
use mcp_xlsm_server.Token.{Encoder, Counter, count, get_model_limits}
use mcp_xlsm_server.Token
use mcp_xlsm_server.Workbook.{Workbook}

-- What the type assertions on the parameters give.
pub record QueryParams (I : Type 0) : Type 0 where
  pub query : Option Text
  pub navigation_index : Option I
  pub continuation_cursor : Option Text
  pub window_config : Option Options
  pub token_aware : Option Bool
  pub optimization_hints : Option Options

pub data QueryError : Type 0 where
  query_required navigation_index_required : QueryError
  invalid_cursor : CursorError → QueryError
  count_failed : Token.CountError → QueryError
  -- The code panics.
  panicked : QueryError

pub record QueryResponse (N : Type 0) : Type 0 where
  pub execution : QueryExecution
  pub results : Chunks N
  pub statistics : Statistics
  pub adaptive_response : AdaptiveResponse
  pub pagination : Pagination
  pub index_updates : IndexUpdates

pub data QueryResult (N : Type 0) : Type 0 where
  answered : QueryResponse N → QueryResult N
  refused : QueryError → QueryResult N

abbrev pub default_config : Options
default_config =
    ("max_rows_per_sheet", int (pos 1000))
    ∷ ("max_sheets_per_call", int (pos 10))
    ∷ ("max_results", int (pos 100))
    ∷ ("stream_large_results", boolean false)
    ∷ []

abbrev pub default_hints : Options
default_hints = ("prefer_speed", boolean true) ∷ ("prefer_completeness", boolean false) ∷ []

unfoldable pub with_options : Options → Option Options → Options
with_options default none = default
with_options default (some o) = merge default o

abbrev pub or_else {ℓ} : {A : Type ℓ} → Option A → A → A
or_else none default = default
or_else (some a) default = a

-- The index that every request gets, whatever the parameter says.
unfoldable pub parse_navigation_index {ℓ} : {I : Type ℓ} → I → List SheetIndex
parse_navigation_index data_given =
    (record {
      sheet_id = codes "sheet_0";
      name = codes "Sheet1";
      metadata = record {
        rows = 1000;
        cols = 26;
        data_density = record { over = 1; under = 2 };
        has_formulas = true;
        memory_footprint = 1_024_000;
      };
      zones = [];
      key_points = [];
      hot_zones = [];
    })
    ∷ []

module _ (codec : Codec) (m : Manager) where
  -- An empty cursor is none.
  unfoldable pub read_cursor : ℤ → Option Text → Cursor.Result (ℤ × Option Window)
  read_cursor now none = Cursor.ok (pos 0, none)
  read_cursor now (some []) = Cursor.ok (pos 0, none)
  read_cursor now (some (c ∷ cs)) = elim (parse_cursor codec m now (c ∷ cs)) [
    | Cursor.err e ↦ Cursor.err e
    | Cursor.ok d ↦ Cursor.ok (d.offset, d.window_info)
  ]

  unfoldable pub create_query_pagination : ℤ → Text → ℤ → ℕ → Options → Pagination
  create_query_pagination now query offset result_count config =
      let max_results = int_option config "max_results" (pos 100) in
      let start = add_int64 offset max_results in
      record {
        current_cursor = [];
        next_cursor =
            if leb_ℤ max_results (pos result_count)
            then create_query_cursor codec m now query start [] (
                some (record {
                  start_row = start;
                  end_row = add_int64 offset (add_int64 max_results max_results);
                  start_col = pos 0;
                  end_col = pos 100;
                }))
            else [];
        previous_cursor = [];
        remaining_chunks = pos 0;
        estimated_time_remaining = pos 0;
      }

-- The same for every result.
abbrev pub calculate_statistics : Statistics
calculate_statistics = record {
  aggregations = [];
  patterns = [];
  outliers = [];
  formula_evaluations = [];
}

abbrev pub blank_response : AdaptiveResponse
blank_response = record {
  model_context = record { detected = []; limit = 0; used = 0; precise_count = 0 };
  if_sonnet_beta = record { max_results = 0; window_rows = 0; compression = [] };
  if_standard = record { max_results = 0; window_rows = 0; compression = [] };
  if_opus = record { max_results = 0; window_rows = 0; compression = [] };
}

abbrev pub full_response : ℕ → AdaptiveResponse
full_response tokens = record {
  model_context = record {
    detected = codes "sonnet-4";
    limit = (get_model_limits "sonnet-4").context;
    used = tokens;
    precise_count = tokens;
  };
  if_sonnet_beta = record { max_results = 500; window_rows = 5000; compression = codes "light" };
  if_standard = record { max_results = 100; window_rows = 1000; compression = codes "medium" };
  if_opus = record { max_results = 100; window_rows = 800; compression = codes "aggressive" };
}

module _ {N : Type 0} (encoder : Encoder (Chunks N)) where
  unfoldable pub apply_adaptive_response :
      Chunks N → Bool → Counter → Counter × Token.Result AdaptiveResponse
  apply_adaptive_response results false c = (c, Token.ok blank_response)
  apply_adaptive_response results true c =
      let (c', counted) = count encoder results c in
      (c', elim counted [ Token.err e ↦ Token.err e | Token.ok n ↦ Token.ok (full_response n) ])

module _ {N : Type 0} (codec : Codec) (m : Manager) (encoder : Encoder (Chunks N))
    (index_manager : Searches) (upper : Text → Text) (opened : Option Workbook)
    (scan_float : Text → Option N) where
  -- The response to a query that has been run.
  unfoldable pub respond :
      ℤ → Text → ℤ → Options → Bool → Counter → QueryExecution × Chunks N → Counter × QueryResult N
  respond now query offset config token_aware c (execution, results) =
      let (c', adaptive) = apply_adaptive_response encoder results token_aware c in
      (
        c',
        elim adaptive [
          | Token.err e ↦ refused (count_failed e)
          | Token.ok adaptive_response ↦ answered (record {
            execution = execution;
            results = results;
            statistics = calculate_statistics;
            adaptive_response = adaptive_response;
            pagination = create_query_pagination codec m now query offset (length results) config;
            index_updates = detect_index_updates query (length results);
          })
        ],
      )

  unfoldable pub query_data :
      {I : Type 0} → ℤ → ℤ → QueryParams I → Counter → Counter × QueryResult N
  query_data now later p c = elim p.query [
    | none ↦ (c, refused query_required)
    | some query ↦ elim p.navigation_index [
      | none ↦ (c, refused navigation_index_required)
      | some given ↦
          let config = with_options default_config p.window_config in
          let hints = with_options default_hints p.optimization_hints in
          elim (read_cursor codec m now p.continuation_cursor) [
            | Cursor.err e ↦ (c, refused (invalid_cursor e))
            | Cursor.ok at ↦
                elim (execute_query upper opened scan_float index_manager query
                  (parse_navigation_index given) config hints) [
                    | none ↦ (c, refused panicked)
                    | some run ↦ respond later query at.0 config (or_else p.token_aware true) c run
                  ]
          ]
    ]
  ]
