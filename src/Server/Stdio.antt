-- ===== src/Server/Stdio.antt =====
-- internal/server/server.go, `StartStdio`: requests and responses over a pipe. A tool that panics ends
-- the program, and one that does not return keeps the loop from its next line.
use mcp_xlsm_server.Prelude.{
  Bool, Option, none, some, List, [], ◌∷◌, ◌++◌, ℤ, negsuc, if◌then◌else◌,
}
use mcp_xlsm_server.Models.{Text}
use mcp_xlsm_server.Server.{
  McpCodec, Failure, parse_error, internal_error, Outcome, answered, failed, panicked, hung, Answer,
  ServerInfo, ToolHandler, route_request, result_response, error_response,
}

-- A line of the input, and whether the context is done when it is read.
pub record Scanned : Type 0 where
  pub cancelled : Bool
  pub line : Text

-- How the loop ends.
pub data End : Type 0 where
  input_ended context_done crashed stuck : End

-- What becomes of a line: texts are printed, or the loop ends.
pub data Handled : Type 0 where
  prints : List Text → Handled
  stops : End → Handled

-- The test `line == ""`.
abbrev pub by_line : {A : Type 0} → Text → A → A → A
by_line [] empty full = empty
by_line (c ∷ line) empty full = full

-- The rest of the loop, given the state behind a line, what became of it, and the rest.
abbrev pub after_line : {S : Type 0} → S → Handled → S × List Text × End → S × List Text × End
after_line s (prints out) (later, later_out, later_end) = (later, out ++ later_out, later_end)
after_line s (stops e) rest = (s, [], e)

module _ {S P R I : Type 0} (tools : ToolHandler S P R) (info : ServerInfo)
    (codec : McpCodec P (Answer R) I) where
  -- What is printed: nothing where even the error has no JSON.
  abbrev pub printed : Option Text → List Text
  printed none = []
  printed (some text) = text ∷ []

  abbrev pub send_stdio_error : I → ℤ → Failure → List Text
  send_stdio_error i code f = printed (codec.marshal (error_response i code f))

  -- The JSON of a response, or an internal error in its place.
  abbrev pub send_stdio : I → Option Text → List Text
  send_stdio i (some text) = text ∷ []
  send_stdio i none = send_stdio_error i (negsuc 32602) internal_error

  abbrev pub respond_stdio : I → Outcome (Answer R) → Handled
  respond_stdio i (answered a) = prints (send_stdio i (codec.marshal (result_response i a)))
  respond_stdio i (failed f) =
      prints (send_stdio i (codec.marshal (error_response i (negsuc 31999) f)))
  respond_stdio i panicked = stops crashed
  respond_stdio i hung = stops stuck

  -- One line that is not empty.
  unfoldable pub handle_line : Text → S → S × Handled
  unfolding route_request
  handle_line line s =
      let (req, parsed) = codec.unmarshal line in
      let (s', outcome) = route_request tools info req s in
      if parsed
      then (s', respond_stdio req.id outcome)
      else (s, prints (send_stdio_error req.id (negsuc 32699) parse_error))

  -- The loop, with what it prints and how it ends.
  unfoldable pub start_stdio : List Scanned → S → S × List Text × End
  unfolding handle_line
  start_stdio [] s = (s, [], input_ended)
  start_stdio (scanned ∷ rest) s =
      let skipped = start_stdio rest s in
      let (s', handled) = handle_line scanned.line s in
      let later = start_stdio rest s' in
      if scanned.cancelled
      then (s, [], context_done)
      else by_line scanned.line skipped (after_line s' handled later)
