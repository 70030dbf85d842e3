-- ===== src/Tests/ServerRuns.antt =====
-- The server: runs with tools that answer with their state, and the theorems at them.
use mcp_xlsm_server.Prelude.{
  ℕ, suc, Bool, true, false, Option, none, some, List, [], ◌∷◌, ◌++◌, pos, ◌==◌, if◌then◌else◌, ◌≡◌,
  refl, String,
}
use mcp_xlsm_server.Decimal.{codes}
use mcp_xlsm_server.Models.{Text}
use mcp_xlsm_server.Server.{
  McpRequest, McpError, Failure, Answer, ServerInfo, ToolHandler, McpCodec, parse_error,
  internal_error, tool_failed, unknown_method, tool_result, tool_list, server_info, initialized,
  gives, fails, panics, route_request,
}
use mcp_xlsm_server.Server.Stdio.{Scanned, handle_line, start_stdio}

-- Tools that count their calls; a query fails.
abbrev counting_tools : ToolHandler ℕ Text ℕ
counting_tools = record {
  analyze_file = λ p n. (suc n, gives n);
  build_navigation_map = λ p n. (suc n, gives n);
  query_data = λ p n. (suc n, fails (codes "no query"));
}

abbrev small_info : ServerInfo
small_info = record {
  name = "MCP XLSM Server";
  version = "2.0.0";
  capabilities = [];
  max_file_size = "500MB";
  max_concurrent_requests = pos 10;
  request_timeout = codes "30s";
}

-- The first byte is the method, the second the id.
abbrev method_of : ℕ → String
method_of m = if m == 97 then "analyze_file" else if m == 113 then "query_data" else "ping"

abbrev read_request : Text → McpRequest Text ℕ × Bool
read_request (m ∷ i ∷ rest) = (record { method = method_of m; params = rest; id = i }, true)
read_request _ = (record { method = ""; params = []; id = 0 }, false)

abbrev error_text : Failure → Text
error_text parse_error = codes "parse"
error_text internal_error = codes "internal"
error_text (tool_failed t) = t
error_text (unknown_method m) = codes "unknown " ++ codes m

abbrev error_json : Option McpError → Text
error_json none = []
error_json (some e) = error_text e.message

abbrev result_json : Option (Answer ℕ) → Text
result_json none = []
result_json (some (tool_result n)) = n ∷ []
result_json (some (tool_list tools)) = codes "tools"
result_json (some (server_info info)) = codes "info"
result_json (some (initialized protocol name version)) = codes "ready"

abbrev small_codec : McpCodec Text (Answer ℕ) ℕ
small_codec = record {
  unmarshal = read_request;
  decode = read_request;
  marshal = λ r. some (r.id ∷ 58 ∷ result_json r.result ++ error_json r.error);
}

abbrev line_of : String → Scanned
line_of s = record { cancelled = false; line = codes s }

-- An analysis, an empty line, a query, a line that is no request and an unknown method.
abbrev five_lines : List Scanned
five_lines = line_of "a1" ∷ line_of "" ∷ line_of "q2" ∷ line_of "x" ∷ line_of "p4" ∷ []

stdio_run :
    (start_stdio counting_tools small_info small_codec five_lines 7).1
    ≡ (49 ∷ 58 ∷ 7 ∷ []) ∷ codes "2:no query" ∷ (0 ∷ codes ":parse") ∷ codes "4:unknown ping" ∷ []
unfolding start_stdio handle_line route_request
stdio_run = refl

-- Tools of which one panics: the loop prints what came before, and ends.
abbrev panicking_tools : ToolHandler ℕ Text ℕ
panicking_tools = record counting_tools { query_data = λ p n. (suc n, panics) }

crash_run :
    (start_stdio panicking_tools small_info small_codec five_lines 7).1 ≡ (49 ∷ 58 ∷ 7 ∷ []) ∷ []
unfolding start_stdio handle_line route_request
crash_run = refl
