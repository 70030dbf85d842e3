-- ===== src/Query/Results.antt =====
-- What of a request has an effect on the results.
use mcp_xlsm_server.Prelude.{
  ◌≡◌, ◌≢◌, refl, sym, ap, ◌∙◌, Bool, true, arith, Option, none, some, List, ℤ, pos, string_eq, inl,
  inr, ◌⊎◌, Option-cases,
}
use mcp_xlsm_server.Cursor.{Codec, Manager, CursorError}
use mcp_xlsm_server.Cursor
use mcp_xlsm_server.Index.{Searches}
use mcp_xlsm_server.Models.{Text, SheetIndex, QueryExecution}
use mcp_xlsm_server.Query.Parse.{Options, int_option}
use mcp_xlsm_server.Query.Search.{
  Chunks, execute_query, execute_index_query, execute_scan_query, convert_locations,
}
use mcp_xlsm_server.Query.Handler.{
  QueryParams, QueryResult, QueryResponse, answered, refused, query_data, respond, read_cursor,
  or_else, apply_adaptive_response, default_config, default_hints, with_options,
  parse_navigation_index,
}
use mcp_xlsm_server.Token.{Encoder, Counter}
use mcp_xlsm_server.Token.Counts.{Result-cases}
use mcp_xlsm_server.Workbook.{Workbook}
use mcp_xlsm_server.Query.Json.{IsJson, with_options-limits}

Cursor-cases {ℓ} :
    {A : Type ℓ} (r : Cursor.Result A)
    → ((a : A) × (r ≡ Cursor.ok a)) ⊎ ((e : CursorError) × (r ≡ Cursor.err e))
Cursor-cases (Cursor.ok a) = inl (a, refl)
Cursor-cases (Cursor.err e) = inr (e, refl)

pub none-ne-some {ℓ} : {A : Type ℓ} {a : A} → none ≢ some a
none-ne-some e = ground (arith, e)

module _ {N : Type 0} (upper : Text → Text) (opened : Option Workbook)
    (scan_float : Text → Option N) (index_manager : Searches) where
  execute_query-int_option :
      (query : Text) (sheets : List SheetIndex) (a b hints : Options)
      → int_option a "max_results" (pos 100) ≡ int_option b "max_results" (pos 100)
      → int_option a "max_rows_per_sheet" (pos 1000) ≡ int_option b "max_rows_per_sheet" (pos 1000)
      → int_option a "max_sheets_per_call" (pos 10) ≡ int_option b "max_sheets_per_call" (pos 10)
      → execute_query upper opened scan_float index_manager query sheets a hints
        ≡ execute_query upper opened scan_float index_manager query sheets b hints
  unfolding execute_query execute_index_query execute_scan_query convert_locations
  execute_query-int_option query sheets a b hints h1 h2 h3 =
      let e1 : execute_index_query {N = N} index_manager query a
          ≡ execute_index_query index_manager query b =
        rw (execute_index_query, convert_locations, h1) refl in
      let e2 : execute_scan_query upper opened scan_float query sheets a
          ≡ execute_scan_query upper opened scan_float query sheets b =
        rw (execute_scan_query, h2, h3) refl in
      rw (execute_query, e1, e2) refl

  module _ (codec : Codec) (m : Manager) (encoder : Encoder (Chunks N)) where
    -- The run that a response tells of.
    abbrev run_of : QueryResult N → Option (QueryExecution × Chunks N)
    run_of (answered r) = some (r.execution, r.results)
    run_of (refused e) = none

    run_of-respond :
        (now : ℤ) (query : Text) (offset : ℤ) (config : Options) (aware : Bool) (c : Counter)
        (run : QueryExecution × Chunks N)
        → run_of
              (respond codec m encoder index_manager upper opened scan_float now query offset config
                aware c run).1
            ≡ none
          ⊎ run_of
              (respond codec m encoder index_manager upper opened scan_float now query offset config
                aware c run).1
            ≡ some run
    unfolding respond
    run_of-respond now query offset config aware c run =
        elim (Result-cases (apply_adaptive_response encoder run.1 aware c).1) [
          | inl (a, k) ↦ inr (rw (respond, k) refl)
          | inr (e, k) ↦ inl (rw (respond, k) refl)
        ]

    -- The run with the default limits.
    abbrev default_run : Text → Options → Option (QueryExecution × Chunks N)
    default_run query hints =
        execute_query upper opened scan_float index_manager query (parse_navigation_index (tt {0}))
          default_config hints

    run_of-query_data :
        {I : Type 0} (now later : ℤ) (p : QueryParams I) (c : Counter) (query : Text) (given : I)
        → p.query ≡ some query
        → p.navigation_index ≡ some given
        → ((o : Options) → p.window_config ≡ some o → IsJson o)
        → run_of (query_data codec m encoder index_manager upper opened scan_float now later p c).1
            ≡ none
          ⊎ run_of
              (query_data codec m encoder index_manager upper opened scan_float now later p c).1
            ≡ default_run query (with_options default_hints p.optimization_hints)
    unfolding query_data parse_navigation_index
    run_of-query_data now later p c query given h1 h2 h3 =
        let config = with_options default_config p.window_config in
        let hints = with_options default_hints p.optimization_hints in
        let limits =
          execute_query-int_option query (parse_navigation_index (tt {0})) config default_config
            hints (with_options-limits p.window_config h3).0
            (with_options-limits p.window_config h3).1 (with_options-limits p.window_config h3).2 in
        elim (Cursor-cases (read_cursor codec m now p.continuation_cursor)) [
          | inr (e, k) ↦ inl (rw (query_data, h1, h2, k) refl)
          | inl (at, k) ↦
              elim (Option-cases (
                execute_query upper opened scan_float index_manager query
                  (parse_navigation_index (tt {0})) config hints)) [
                    | inl q ↦ inl (rw (query_data, h1, h2, k, q) refl)
                    | inr (run, q) ↦
                        let same : default_run query hints ≡ some run = sym limits ∙ q in
                        rw (query_data, h1, h2, k, q, same)
                          (run_of-respond later query at.0 config (or_else p.token_aware true) c
                            run)
                  ]
        ]

    -- A query that is answered has run with the default limits on the sheet index that the code
    -- makes up. Its results and its execution are those of the query and the hints alone: neither the
    -- navigation index, nor the continuation cursor, nor a window configuration that is JSON has any
    -- effect on them.
    pub query_data-execute_query :
        {I : Type 0} (now later : ℤ) (p : QueryParams I) (c : Counter) (query : Text)
        (response : QueryResponse N)
        → p.query ≡ some query
        → ((o : Options) → p.window_config ≡ some o → IsJson o)
        → (query_data codec m encoder index_manager upper opened scan_float now later p c).1
          ≡ answered response
        → execute_query upper opened scan_float index_manager query
            (parse_navigation_index (tt {0}))
            default_config
            (with_options default_hints p.optimization_hints)
          ≡ some (response.execution, response.results)
    unfolding query_data
    query_data-execute_query now later p c query response h1 h2 h3 =
        let answer = ap run_of h3 in
        elim (Option-cases p.navigation_index) [
          | inl k ↦
              let refusal : run_of
                    (query_data codec m encoder index_manager upper opened scan_float now later p
                      c).1
                  ≡ none =
                rw (query_data, h1, k) refl in
              absurd (none-ne-some (sym refusal ∙ answer))
          | inr (given, k) ↦ elim (run_of-query_data now later p c query given h1 k h2) [
            | inl refusal ↦ absurd (none-ne-some (sym refusal ∙ answer))
            | inr same ↦ sym same ∙ answer
          ]
        ]
