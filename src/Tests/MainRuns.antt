-- ===== src/Tests/MainRuns.antt =====
-- The program: runs with the tools of the repository, and the theorems at them.
use mcp_xlsm_server.Prelude.{
  ℕ, ◌==◌, Bool, true, false, Option, none, some, List, [], ◌∷◌, length, pos, if◌then◌else◌, ◌≡◌,
  ◌≢◌, refl, arith, map, ◌⊎◌, lookup, ◌<◌, ◌^◌,
}
use mathlib.Core.Path.{subst}
use mcp_xlsm_server.Workbook.{Workbook}
use mcp_xlsm_server.Cache.{new_smart_cache}
use mcp_xlsm_server.Decimal.{codes}
use mcp_xlsm_server.Main.{
  cleans, Flags, Event, asks, signalled, scanned_line, exit_of, main, get_server_info, serve_events,
  no_tools_used,
}
use mcp_xlsm_server.Main.Serving.{main-Replies}
use mcp_xlsm_server.Main.Unused.{ShowUnused, serve_events-ShowUnused}
use mcp_xlsm_server.Config.{load_for, load, load_from_path}
use mcp_xlsm_server.Config.Settings.{default_config}
use mcp_xlsm_server.Models.{Text}
use mcp_xlsm_server.Server.{McpRequest, McpCodec, Answer, gives, fails, ServerInfo}
use mcp_xlsm_server.Server.Answers.{handle_analyze_file_answers}
use mcp_xlsm_server.Server.Denial.{start_stdio_sticks, start_stdio_crashes}
use mcp_xlsm_server.Server.Handlers.{ToolResponse, Surroundings, tool_handler, handle_analyze_file}
use mcp_xlsm_server.Server.Http.{
  PageCodec, waiting, closed, root, health, metrics, handle_mcp_request,
}
use mcp_xlsm_server.Server.Loop.{Replies}
use mcp_xlsm_server.Server.Params.{Params, text, number}
use mcp_xlsm_server.Server.Stdio.{End, context_done, stuck, crashed, start_stdio}
use mcp_xlsm_server.Tests.CacheRuns.{lru}
use mcp_xlsm_server.Tests.ConfigRuns.{empty_yaml, files}
use mcp_xlsm_server.Tests.CursorRuns.{single, sample, v1}
use mcp_xlsm_server.Tests.ToolRuns.{book, disk}

-- One workbook on the disk, a clock that stands, and no query.
abbrev around : Surroundings ℕ
around = record {
  disk = λ n. disk;
  clock = λ n i. pos 1000;
  codec = single sample;
  manager = v1;
  sha256 = λ bytes. 160 ∷ [];
  navigation_encoder = record { key = λ d. []; marshal = λ d. none; token_length = length };
  query_encoder = record { key = λ d. []; marshal = λ d. none; token_length = length };
  searches = record {
    search_numeric_range = λ low high. [];
    search_text = λ t. [];
    search_spatial = λ r. [];
  };
  upper = λ t. t;
  query_file = λ n. none;
  scan_float = λ t. none;
  name_of = λ t. "sonnet-4";
  analyze_text = λ e. codes "no analysis";
  navigation_text = λ e. codes "no map";
  query_text = λ e. codes "no results";
  fuel = 9;
}

-- Chunks of so many sheets of a file.
abbrev analysis_params : ℕ → Params
analysis_params n = ("filepath", text (codes "b.xlsm")) ∷ ("chunk_size", number (pos n)) ∷ []

abbrev window_params : Params
window_params =
    ("filepath", text (codes "b.xlsm"))
    ∷ ("checksum", text (codes "c"))
    ∷ ("window_size", number (pos 0))
    ∷ []

-- "a" asks for an analysis in chunks of two sheets, "z" in chunks of none, and "w" for an empty window.
abbrev read_line : Text → McpRequest Params ℕ × Bool
read_line (m ∷ i ∷ rest) = (
  (if m == 97
      then record { method = "analyze_file"; params = analysis_params 2; id = i }
      else if m == 122
      then record { method = "analyze_file"; params = analysis_params 0; id = i }
      else if m == 119
      then record { method = "build_navigation_map"; params = window_params; id = i }
      else record { method = "ping"; params = []; id = i }),
  true,
)
read_line _ = (record { method = ""; params = []; id = 0 }, false)

abbrev codec : McpCodec Params (Answer (ToolResponse ℕ)) ℕ
codec = record { unmarshal = read_line; decode = read_line; marshal = λ r. some (r.id ∷ []) }

abbrev pages : PageCodec
pages = record { health_json = λ h. some (codes "{}"); metrics_json = λ m. some (codes "{}") }

abbrev info : ServerInfo
info = get_server_info (λ d. codes "30s") default_config

abbrev three_lines : List Text
three_lines = codes "a1" ∷ [] ∷ codes "p2" ∷ []

abbrev stdio : Flags
stdio = record { stdio_mode = true; config_path = "" }

main-Replies_example :
    let course =
      main empty_yaml files
        (λ d. codes "30s")
        lru
        around
        codec
        pages
        stdio
        ""
        true
        true
        none
        three_lines
        false
        [] in
    (end : End) × Replies
      (tool_handler around)
      info
      codec
      (map scanned_line three_lines)
      course.printed
      end
    × (end ≢ context_done)
    × (course.exit ≡ exit_of end false)
    × (course.replies ≡ [])
unfolding load_for load load_from_path
main-Replies_example =
    main-Replies empty_yaml files (λ d. codes "30s") lru around codec pages "" "" none three_lines
      false [] default_config refl (omega arith) (λ i code f. (_, refl))

abbrev events : List Event
events =
    asks root (pos 1) true (codes "a1")
    ∷ asks health (pos 2) false []
    ∷ cleans 60 ("a" ∷ [])
    ∷ asks metrics (pos 3) false []
    ∷ signalled true
    ∷ []

serve_events-ShowUnused_example :
    ShowUnused lru around codec pages events
      (serve_events lru around codec pages info events
        (record { tools = no_tools_used; cache = new_smart_cache lru (pos 100) })).0
serve_events-ShowUnused_example =
    serve_events-ShowUnused lru around codec pages info events no_tools_used

start_stdio_sticks_example :
    let r =
      start_stdio
        (tool_handler around)
        info
        codec
        (record { cancelled = false; line = codes "z1" } ∷ map scanned_line three_lines)
        no_tools_used in
    (r.1 ≡ [])
    × (r.2 ≡ stuck)
    × ((handle_mcp_request (tool_handler around) info codec true (codes "z1") no_tools_used).1
        ≡ waiting)
unfolding lookup
start_stdio_sticks_example =
    start_stdio_sticks around info codec 122 (codes "1") (map scanned_line three_lines)
      no_tools_used (analysis_params 0) 49 refl refl
      (record {
        path = codes "b.xlsm";
        named = refl;
        no_sheets = refl;
        file = book;
        opened = refl;
        size = pos 2048;
        measured = refl;
        bytes = codes "PK";
        read = refl;
        has_sheet = omega arith;
      })

start_stdio_crashes_example :
    let r =
      start_stdio
        (tool_handler around)
        info
        codec
        (record { cancelled = false; line = codes "w1" } ∷ map scanned_line three_lines)
        no_tools_used in
    (r.1 ≡ [])
    × (r.2 ≡ crashed)
    × ((handle_mcp_request (tool_handler around) info codec true (codes "w1") no_tools_used).1
        ≡ closed)
unfolding lookup
start_stdio_crashes_example =
    start_stdio_crashes around info codec 119 (codes "1") (map scanned_line three_lines)
      no_tools_used window_params 49 refl refl
      (record {
        path = codes "b.xlsm";
        named = refl;
        checksum = codes "c";
        given = refl;
        first = refl;
        no_window = refl;
        file = book;
        opened = refl;
      })

-- Fewer sheets than the chunk loop has rounds.
abbrev IsSmall : Option Workbook → Type 0
IsSmall none = Unit
IsSmall (some f) = (length f.sheet_list < 2 ^ 62) × (length f.sheet_list < 9)

handle_analyze_file_answers_example :
    ((r : ToolResponse ℕ) × ((handle_analyze_file around (analysis_params 2) no_tools_used).1
        ≡ gives r))
    ⊎ ((t : Text) × ((handle_analyze_file around (analysis_params 2) no_tools_used).1 ≡ fails t))
unfolding lookup
handle_analyze_file_answers_example =
    handle_analyze_file_answers around (analysis_params 2) no_tools_used 2 refl (omega arith)
      (omega arith) (λ path file e. subst IsSmall e (omega arith, omega arith))
