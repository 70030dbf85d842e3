-- ===== src/Main.antt =====
-- cmd/main.go, and the making of the server in internal/server/server.go (`New`, `getServerInfo`). What
-- the program meets is an argument: the configuration file, whether the logger and the tokenizer can be
-- made, the lines or the requests that come, and the signals.
pub mod Serving
pub mod Unused
use mcp_xlsm_server.Prelude.{
  ℕ, Bool, true, false, Option, none, some, List, [], ◌∷◌, ◌++◌, take, ℤ, pos, String,
  if◌then◌else◌, ◌&&◌, map,
}
use mcp_xlsm_server.Cache.{new_smart_cache, cleanup}
use mcp_xlsm_server.Cache.Entries.{SmartCache, Value}
use mcp_xlsm_server.Config.{
  Yaml, FileRead, Loaded, loaded, not_read, not_parsed, load_for, Background, ticks, panics,
  start_background_services,
}
use mcp_xlsm_server.Config.Settings.{Config, Duration}
use mcp_xlsm_server.Lru.{Lru}
use mcp_xlsm_server.Models.{Text}
use mcp_xlsm_server.Server.{ServerInfo, Answer, McpCodec}
use mcp_xlsm_server.Server.Handlers.{ToolState, ToolResponse, Surroundings, tool_handler}
use mcp_xlsm_server.Server.Http.{Server, Pattern, PageCodec, HttpReply, serve}
use mcp_xlsm_server.Server.Params.{Params}
use mcp_xlsm_server.Server.Stdio.{
  Scanned, End, input_ended, context_done, crashed, stuck, start_stdio,
}

pub record Flags : Type 0 where
  pub stdio_mode : Bool
  pub config_path : String

-- How the program ends: the calls of `log.Fatalf`, a return of `main`, or a panic; or it goes on.
pub data Exit : Type 0 where
  config_failed create_failed stdio_failed serve_failed forced : Exit
  returned panicked goes_on : Exit

-- What is printed and replied, and how the program ends.
pub record Course : Type 0 where
  pub printed : List Text
  pub replies : List HttpReply
  pub exit : Exit

-- The address of the listener, and the time limits of reading and of writing.
pub record Listener : Type 0 where
  pub host : String
  pub port : ℤ
  pub read_timeout : Duration
  pub write_timeout : Duration

-- What happens to a server that listens, in its order: a request, the return of the listener, with
-- whether its error is none or that of a closed server, or a signal, with whether the shutdown is in
-- time.
pub data Event : Type 0 where
  asks : Pattern → ℤ → Bool → Text → Event
  listener_returns : Bool → Event
  signalled : Bool → Event
  -- The clean-up of the cache, every minute: the clock reading and the order of its visits.
  cleans : ℕ → List String → Event

-- `print_duration` is the `String` of a duration.
unfoldable pub get_server_info : (Duration → Text) → Config → ServerInfo
get_server_info print_duration cfg = record {
  name = "MCP XLSM Server";
  version = "2.0.0";
  capabilities =
      "streaming" ∷ "chunking" ∷ "token_aware" ∷ "compression" ∷ "caching" ∷ "indexing" ∷ [];
  max_file_size = cfg.server.max_file_size;
  max_concurrent_requests = cfg.server.max_concurrent_reqs;
  request_timeout = print_duration cfg.server.request_timeout;
}

abbrev pub listener_of : Config → Listener
listener_of cfg = record {
  host = cfg.server.host;
  port = cfg.server.port;
  read_timeout = cfg.server.request_timeout;
  write_timeout = cfg.server.request_timeout;
}

abbrev pub no_tools_used : ToolState
no_tools_used = record { counter = []; requests = 0 }

-- No context of the program is ever cancelled.
abbrev pub scanned_line : Text → Scanned
scanned_line line = record { cancelled = false; line = line }

-- How the program ends behind the loop, given whether the scanner stopped at an error.
abbrev pub exit_of : End → Bool → Exit
exit_of input_ended true = stdio_failed
exit_of input_ended false = returned
exit_of context_done _ = stdio_failed
exit_of crashed _ = panicked
exit_of stuck _ = goes_on

abbrev pub fails_with : Exit → Course
fails_with e = record { printed = []; replies = []; exit = e }

-- What is still going on is cut short by a panic.
abbrev pub cut_short : Exit → Exit
cut_short goes_on = panicked
cut_short e = e

module _ {A : Type 0} (lru : Lru (Value A)) where
  -- `New`: the logger and the tokenizer may fail.
  unfoldable pub new_server : Bool → Bool → Option (Server ToolState lru.Store)
  unfolding new_smart_cache
  new_server logger tokenizer =
      if logger && tokenizer
      then some (record { tools = no_tools_used; cache = new_smart_cache lru (pos 100) })
      else none

module _ {A N I : Type 0} (lru : Lru (Value A)) (around : Surroundings N)
    (codec : McpCodec Params (Answer (ToolResponse N)) I) (pages : PageCodec) where
  -- The first part of the lines or of the events that is met before the background services start, if
  -- they start before the program ends: they run beside it, and panic with the program.
  unfoldable pub run_stdio : ServerInfo → Background → Option ℕ → List Text → Bool → Course
  unfolding start_stdio
  run_stdio info panics (some n) lines scan_failed = record {
    printed =
        (start_stdio (tool_handler around) info codec (map scanned_line (take n lines))
          no_tools_used).1;
    replies = [];
    exit = panicked;
  }
  run_stdio info _ _ lines scan_failed =
      let (s, out, end) =
        start_stdio (tool_handler around) info codec (map scanned_line lines) no_tools_used in
      record { printed = out; replies = []; exit = exit_of end scan_failed }

  unfoldable pub serve_events :
      ServerInfo → List Event → Server ToolState lru.Store → List HttpReply × Exit
  unfolding serve
  serve_events info [] server = ([], goes_on)
  serve_events info (asks pattern now is_post body ∷ events) server =
      let (server', r) =
        serve (tool_handler around) info codec pages pattern now is_post body server in
      let (replies, exit) = serve_events info events server' in (r ∷ replies, exit)
  serve_events info (cleans now order ∷ events) server =
      serve_events info events (record server { cache = cleanup lru now order server.cache })
  serve_events info (listener_returns true ∷ events) server = serve_events info events server
  serve_events info (listener_returns false ∷ events) server = ([], serve_failed)
  serve_events info (signalled true ∷ events) server = ([], returned)
  serve_events info (signalled false ∷ events) server = ([], forced)

  unfoldable pub run_http :
      ServerInfo → Background → Option ℕ → List Event → Server ToolState lru.Store → Course
  unfolding serve_events
  run_http info panics (some n) events server =
      let (replies, exit) = serve_events info (take n events) server in
      record { printed = []; replies = replies; exit = cut_short exit }
  run_http info _ _ events server =
      let (replies, exit) = serve_events info events server in
      record { printed = []; replies = replies; exit = exit }

module _ {A N I : Type 0} (yaml : Yaml) (read_file : String → FileRead)
    (print_duration : Duration → Text) (lru : Lru (Value A)) (around : Surroundings N)
    (codec : McpCodec Params (Answer (ToolResponse N)) I) (pages : PageCodec) where
  -- `variable` is the one of the environment that names a configuration; `start` tells when the
  -- background services start.
  unfoldable pub main :
      Flags → String → Bool → Bool → Option ℕ → List Text → Bool → List Event → Course
  unfolding load_for new_server run_stdio run_http start_background_services get_server_info
  main flags variable logger tokenizer start lines scan_failed events =
      elim (load_for yaml read_file flags.config_path variable) [
        | not_read ↦ fails_with config_failed
        | not_parsed ↦ fails_with config_failed
        | loaded cfg ↦ elim (new_server lru logger tokenizer) [
          | none ↦ fails_with create_failed
          | some server ↦
              let info = get_server_info print_duration cfg in
              let background = start_background_services cfg in
              if flags.stdio_mode
              then run_stdio lru around codec pages info background start lines scan_failed
              else run_http lru around codec pages info background start events server
        ]
      ]
