-- ===== src/Main/Serving.antt =====
-- What the program prints and replies from its start on.
use mcp_xlsm_server.Prelude.{
  ℕ, Bool, true, Option, List, [], ◌∷◌, pos, ◌≡◌, ◌≢◌, refl, String, arith, map, inl, inr,
  Bool-cases, ltb_ℤ, ◌<ℤ◌, ltb_ℤ-false, int_laws,
}
use mcp_xlsm_server.Cache.Entries.{Value}
use mcp_xlsm_server.Config.{Yaml, FileRead, loaded, load_for, start_background_services}
use mcp_xlsm_server.Config.Settings.{Config, Duration}
use mcp_xlsm_server.Lru.{Lru}
use mcp_xlsm_server.Main.{
  Event, scanned_line, exit_of, new_server, no_tools_used, main, run_stdio, get_server_info,
}
use mcp_xlsm_server.Models.{Text}
use mcp_xlsm_server.Server.{ServerInfo, Answer, McpCodec}
use mcp_xlsm_server.Server.Handlers.{ToolResponse, Surroundings, tool_handler}
use mcp_xlsm_server.Server.Http.{PageCodec}
use mcp_xlsm_server.Server.Loop.{
  ErrorsPrint, Replies, at_end, at_empty, at_line, at_crash, at_stuck, start_stdio-Replies,
}
use mcp_xlsm_server.Server.Params.{Params}
use mcp_xlsm_server.Server.Stdio.{End, context_done, start_stdio}

module _ {A N I : Type 0} (yaml : Yaml) (read_file : String → FileRead)
    (print_duration : Duration → Text) (lru : Lru (Value A)) (around : Surroundings N)
    (codec : McpCodec Params (Answer (ToolResponse N)) I) (pages : PageCodec) where
  -- No line finds the context done.
  ends_by_itself :
      (info : ServerInfo) (lines : List Text) (outs : List Text) (end : End)
      → Replies (tool_handler around) info codec (map scanned_line lines) outs end
      → end ≢ context_done
  ends_by_itself info [] _ _ at_end e = ground (arith, e)
  ends_by_itself info ([] ∷ lines) _ _ (at_empty _ outs end later) e =
      ends_by_itself info lines outs end later e
  ends_by_itself info ((c ∷ line) ∷ lines) _ _ (at_line _ _ _ out outs end a later) e =
      ends_by_itself info lines outs end later e
  ends_by_itself info ((c ∷ line) ∷ lines) _ _ (at_crash _ _ _ m) e = ground (arith, e)
  ends_by_itself info ((c ∷ line) ∷ lines) _ _ (at_stuck _ _ _ m) e = ground (arith, e)

  -- In the stdio mode, with a configuration whose interval of the clean-up is positive: the program
  -- prints one response for each line that is not empty, in their order, to the end of the input or
  -- to a line whose request makes a tool panic or not return. In the first case it returns, unless
  -- reading the input failed, which is fatal; in the second it panics or goes on without an answer.
  -- The logger and the tokenizer can be made, and every error has a JSON.
  pub main-Replies :
      (variable path : String) (start : Option ℕ) (lines : List Text) (scan_failed : Bool)
      (events : List Event) (cfg : Config)
      → load_for yaml read_file path variable ≡ loaded cfg
      → pos 0 <ℤ cfg.cache.cleanup_interval
      → ErrorsPrint (tool_handler around) (get_server_info print_duration cfg) codec
      → let course =
          main yaml read_file print_duration lru around codec pages
            (record { stdio_mode = true; config_path = path })
            variable
            true
            true
            start
            lines
            scan_failed
            events in
        (end : End) × Replies
          (tool_handler around)
          (get_server_info print_duration cfg)
          codec
          (map scanned_line lines)
          course.printed
          end
        × (end ≢ context_done)
        × (course.exit ≡ exit_of end scan_failed)
        × (course.replies ≡ [])
  unfolding main start_background_services new_server run_stdio
  main-Replies variable path start lines scan_failed events cfg found positive prints_all =
      let info = get_server_info print_duration cfg in
      let r =
        start_stdio-Replies (tool_handler around) info codec prints_all (map scanned_line lines)
          no_tools_used in
      let (t, outs, end) =
        start_stdio (tool_handler around) info codec (map scanned_line lines) no_tools_used in
      elim (Bool-cases (ltb_ℤ (pos 0) cfg.cache.cleanup_interval)) [
        | inr e ↦ absurd (omega (int_laws, ltb_ℤ-false (pos 0) cfg.cache.cleanup_interval e))
        | inl e ↦
            rw (main, found, start_background_services, e)
              (end, r, ends_by_itself info lines outs end r, refl, refl)
      ]
