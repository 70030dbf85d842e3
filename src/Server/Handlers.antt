-- ===== src/Server/Handlers.antt =====
-- The three handlers of internal/server as the tools that requests are routed to. `ToolHandler` keeps
-- a cursor manager, which does not change, and a token counter. What the handlers ask of their
-- surroundings may differ from request to request.
use mcp_xlsm_server.Prelude.{ℕ, ◌+◌, Option, ℤ, pos_part, String}
use mcp_xlsm_server.Cursor.{Codec, Manager}
use mcp_xlsm_server.Index.{Searches}
use mcp_xlsm_server.Models.{Text}
use mcp_xlsm_server.Navigation.Handler.{
  NavigationIndex, NavigationResponse, NavigationError, build_navigation_map,
}
use mcp_xlsm_server.Navigation.Handler as Navigation
use mcp_xlsm_server.Query.Handler.{QueryResponse, QueryError, QueryResult, query_data}
use mcp_xlsm_server.Query.Handler as Query
use mcp_xlsm_server.Query.Search.{Chunks}
use mcp_xlsm_server.Server.{ToolHandler, ToolOutcome, gives, fails, panics, diverges}
use mcp_xlsm_server.Server.Params.{
  Params, read_analyze_params, read_navigation_params, read_query_params,
}
use mcp_xlsm_server.Token.{Encoder, Counter}
use mcp_xlsm_server.Tools.Handler.{
  Disk, AnalyzeFileResponse, AnalyzeError, AnalyzeResult, analyzed, refused, not_ended,
  analyze_file,
}
use mcp_xlsm_server.Workbook.{Workbook}

-- What the tools keep: the counter, and how many requests they have had.
pub record ToolState : Type 0 where
  pub counter : Counter
  pub requests : ℕ

pub data ToolResponse (N : Type 0) : Type 0 where
  analysis : AnalyzeFileResponse → ToolResponse N
  navigation : NavigationResponse → ToolResponse N
  query : QueryResponse N → ToolResponse N

-- What the handlers take from outside: the files and the clock at each request, the libraries, and the
-- texts of errors. `fuel` is the number of rounds after which the chunk loop counts as endless.
pub record Surroundings (N : Type 0) : Type 1 where
  pub disk : ℕ → Disk
  -- The readings of a request, in their order.
  pub clock : ℕ → ℕ → ℤ
  pub codec : Codec
  pub manager : Manager
  pub sha256 : Text → Text
  pub navigation_encoder : Encoder NavigationIndex
  pub query_encoder : Encoder (Chunks N)
  pub searches : Searches
  pub upper : Text → Text
  -- The file that queries read, whatever the request names.
  pub query_file : ℕ → Option Workbook
  pub scan_float : Text → Option N
  pub name_of : Text → String
  pub analyze_text : AnalyzeError → Text
  pub navigation_text : NavigationError → Text
  pub query_text : QueryError → Text
  pub fuel : ℕ

module _ {N : Type 0} (around : Surroundings N) where
  open around use {codec, manager, clock}

  abbrev pub counted : ToolState → Counter → ToolState
  counted s c = record { counter = c; requests = s.requests + 1 }

  unfoldable pub analysis_outcome : AnalyzeResult → ToolOutcome (ToolResponse N)
  analysis_outcome (analyzed r) = gives (analysis r)
  analysis_outcome (refused e) = fails (around.analyze_text e)
  analysis_outcome not_ended = diverges

  unfoldable pub navigation_outcome :
      Navigation.Result NavigationResponse → ToolOutcome (ToolResponse N)
  navigation_outcome (Navigation.ok r) = gives (navigation r)
  navigation_outcome (Navigation.err Navigation.panicked) = panics
  navigation_outcome (Navigation.err e) = fails (around.navigation_text e)

  unfoldable pub query_outcome : QueryResult N → ToolOutcome (ToolResponse N)
  query_outcome (Query.answered r) = gives (query r)
  query_outcome (Query.refused Query.panicked) = panics
  query_outcome (Query.refused e) = fails (around.query_text e)

  -- The first reading is that of the next cursor; the chunk that begins at a sheet has the one behind.
  unfoldable pub handle_analyze_file : Params → ToolState → ToolState × ToolOutcome (ToolResponse N)
  unfolding read_analyze_params analysis_outcome analyze_file
  handle_analyze_file p s = (
    counted s s.counter,
    analysis_outcome (
        analyze_file codec manager (around.disk s.requests) around.sha256
          (λ at. clock s.requests (pos_part at + 1)) (clock s.requests 0) around.fuel
          (read_analyze_params p)),
  )

  unfoldable pub handle_navigation : Params → ToolState → ToolState × ToolOutcome (ToolResponse N)
  unfolding read_navigation_params navigation_outcome build_navigation_map
  handle_navigation p s =
      let (c, r) =
        build_navigation_map codec manager around.navigation_encoder
          (around.disk s.requests).open_file (clock s.requests 0) (clock s.requests 1)
          (clock s.requests 2) (read_navigation_params around.name_of p) s.counter in
      (counted s c, navigation_outcome r)

  unfoldable pub handle_query : Params → ToolState → ToolState × ToolOutcome (ToolResponse N)
  unfolding read_query_params query_outcome query_data
  handle_query p s =
      let (c, r) =
        query_data codec manager around.query_encoder around.searches around.upper
          (around.query_file s.requests) around.scan_float (clock s.requests 0) (clock s.requests 1)
          (read_query_params p) s.counter in
      (counted s c, query_outcome r)

  abbrev pub tool_handler : ToolHandler ToolState Params (ToolResponse N)
  tool_handler = record {
    analyze_file = handle_analyze_file;
    build_navigation_map = handle_navigation;
    query_data = handle_query;
  }
