-- ===== src/Server/Denial.antt =====
-- Requests that end the service over the standard input.
use mcp_xlsm_server.Prelude.{
  ℕ, ◌<◌, true, false, none, some, List, [], ◌∷◌, ℤ, pos, ◌≡◌, refl, lookup, string_eq, length,
}
use mcp_xlsm_server.Models.{Text}
use mcp_xlsm_server.Navigation.Handler.{
  build_navigation_map, requested_index, read_position, build_navigation_index,
  calculate_file_checksum,
}
use mcp_xlsm_server.Navigation.Paging.{chunks_of, quotient}
use mcp_xlsm_server.Navigation.Handler as Navigation
use mcp_xlsm_server.Server.{McpCodec, Answer, ServerInfo, route_request, diverges, panics}
use mcp_xlsm_server.Server.Handlers.{
  ToolState, ToolResponse, Surroundings, tool_handler, handle_analyze_file, analysis_outcome,
  handle_navigation, navigation_outcome,
}
use mcp_xlsm_server.Server.Http.{closed, waiting, handle_mcp_request}
use mcp_xlsm_server.Server.Params.{
  Params, as_text, as_int, read_analyze_params, read_navigation_params,
}
use mcp_xlsm_server.Server.Stdio.{Scanned, crashed, stuck, start_stdio, handle_line}
use mcp_xlsm_server.Tools.Handler.{analyze_file, analyze_opened, analysis_of, metadata_of}
use mcp_xlsm_server.Tools.Partition.{create_chunks_diverges}
use mcp_xlsm_server.Workbook.{Workbook}

module _ {N I : Type 0} (around : Surroundings N) (info : ServerInfo)
    (codec : McpCodec Params (Answer (ToolResponse N)) I) where
  open around use {disk}

  -- A request for an analysis in chunks of 0 sheets, of a file that can be read and has a sheet.
  pub record AsksForNoSheets (p : Params) (s : ToolState) : Type 0 where
    pub path : Text
    pub named : as_text (lookup "filepath" p) ≡ some path
    pub no_sheets : as_int (lookup "chunk_size" p) ≡ some (pos 0)
    pub file : Workbook
    pub opened : (disk s.requests).open_file path ≡ some file
    pub size : ℤ
    pub measured : (disk s.requests).stat_size path ≡ some size
    pub bytes : Text
    pub read : (disk s.requests).read_file path ≡ some bytes
    pub has_sheet : 0 < length file.sheet_list

  handle_analyze_file_diverges :
      (p : Params) (s : ToolState)
      → AsksForNoSheets p s
      → (handle_analyze_file around p s).1 ≡ diverges
  unfolding handle_analyze_file read_analyze_params analyze_file analysis_outcome metadata_of
      analyze_opened analysis_of
  handle_analyze_file_diverges p s h =
      rw
        (
          h.named,
          analyze_file,
          h.opened,
          h.measured,
          h.read,
          metadata_of,
          analyze_opened,
          read_analyze_params,
          h.no_sheets,
          create_chunks_diverges around.codec around.manager h.file (length h.file.sheet_list) _ _ _
              around.fuel h.has_sheet,
        )
        refl

  -- A request for a window of 0 sheets, without a cursor, of a file that can be opened.
  pub record AsksForNoWindow (p : Params) (s : ToolState) : Type 0 where
    pub path : Text
    pub named : as_text (lookup "filepath" p) ≡ some path
    pub checksum : Text
    pub given : as_text (lookup "checksum" p) ≡ some checksum
    pub first : as_text (lookup "chunk_cursor" p) ≡ none
    pub no_window : as_int (lookup "window_size" p) ≡ some (pos 0)
    pub file : Workbook
    pub opened : (disk s.requests).open_file path ≡ some file

  handle_navigation_panics :
      (p : Params) (s : ToolState) → AsksForNoWindow p s → (handle_navigation around p s).1 ≡ panics
  unfolding handle_navigation read_navigation_params build_navigation_map requested_index
      read_position build_navigation_index navigation_outcome chunks_of quotient
  handle_navigation_panics p s h =
      let request = read_navigation_params around.name_of p in
      let refused : requested_index around.codec around.manager (disk s.requests).open_file
            (around.clock s.requests 0) request
          ≡ Navigation.err Navigation.panicked =
        rw (requested_index, h.named, h.given, h.opened, h.first, h.no_window) refl in
      rw (build_navigation_map, refused) refl

  -- A line that asks for an analysis in chunks of 0 sheets, of a file that it names, that can be
  -- opened, measured and read, and that has a sheet: nothing is printed for it or for any line behind
  -- it, and the loop does not go on. The same request over HTTP, if its body decodes as the line does,
  -- is never answered.
  pub start_stdio_sticks :
      (c : ℕ) (line : Text) (rest : List Scanned) (s : ToolState) (p : Params) (i : I)
      → codec.unmarshal (c ∷ line) ≡ (record { method = "analyze_file"; params = p; id = i }, true)
      → codec.decode (c ∷ line) ≡ codec.unmarshal (c ∷ line)
      → AsksForNoSheets p s
      → let r =
          start_stdio
            (tool_handler around)
            info
            codec
            (record { cancelled = false; line = c ∷ line } ∷ rest)
            s in
        (r.1 ≡ [])
        × (r.2 ≡ stuck)
        × ((handle_mcp_request (tool_handler around) info codec true (c ∷ line) s).1 ≡ waiting)
  unfolding start_stdio handle_line handle_mcp_request route_request
  start_stdio_sticks c line rest s p i e same h =
      let d = handle_analyze_file_diverges p s h in
      (
        rw (start_stdio, handle_line, e, route_request, d) refl,
        rw (start_stdio, handle_line, e, route_request, d) refl,
        rw (handle_mcp_request, same, e, route_request, d) refl,
      )

  -- A line that asks for a navigation map with a window of 0 sheets, with a checksum and without a
  -- cursor, of a file that it names and that can be opened: nothing is printed for it or for any line
  -- behind it, and the program ends. Over HTTP the same request, if its body decodes as the line does,
  -- only loses its own connection.
  pub start_stdio_crashes :
      (c : ℕ) (line : Text) (rest : List Scanned) (s : ToolState) (p : Params) (i : I)
      → codec.unmarshal (c ∷ line)
        ≡ (record { method = "build_navigation_map"; params = p; id = i }, true)
      → codec.decode (c ∷ line) ≡ codec.unmarshal (c ∷ line)
      → AsksForNoWindow p s
      → let r =
          start_stdio
            (tool_handler around)
            info
            codec
            (record { cancelled = false; line = c ∷ line } ∷ rest)
            s in
        (r.1 ≡ [])
        × (r.2 ≡ crashed)
        × ((handle_mcp_request (tool_handler around) info codec true (c ∷ line) s).1 ≡ closed)
  unfolding start_stdio handle_line handle_mcp_request route_request
  start_stdio_crashes c line rest s p i e same h =
      let d = handle_navigation_panics p s h in
      (
        rw (start_stdio, handle_line, e, route_request, d) refl,
        rw (start_stdio, handle_line, e, route_request, d) refl,
        rw (handle_mcp_request, same, e, route_request, d) refl,
      )
