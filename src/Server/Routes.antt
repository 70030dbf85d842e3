-- ===== src/Server/Routes.antt =====
-- A request over HTTP and over the standard input.
use mcp_xlsm_server.Prelude.{none, some, List, negsuc, ◌≡◌, ◌⊎◌}
use mcp_xlsm_server.Models.{Text}
use mcp_xlsm_server.Server.{
  McpResponse, Failure, Answer, ServerInfo, ToolHandler, McpCodec, parse_error, internal_error,
}
use mcp_xlsm_server.Server.Http.{HttpReply, reply, closed, waiting}
use mcp_xlsm_server.Server.Stdio.{Handled, prints, stops, crashed, stuck, printed, send_stdio_error}

-- Two responses with the same result and the same id, and without an error, or with the same error
-- but for its code, -32000 and -32603, or with a parse error.
abbrev pub Agree : {A I : Type 0} → McpResponse A I → McpResponse A I → Type 0
Agree r h =
    (h.result ≡ r.result)
    × (h.id ≡ r.id)
    × (((r.error ≡ none) × (h.error ≡ none))
        ⊎ (((f : Failure) × (r.error ≡ some (record { code = negsuc 31999; message = f }))
              × (h.error ≡ some (record { code = negsuc 32602; message = f })))
            ⊎ ((r.error ≡ some (record { code = negsuc 32699; message = parse_error }))
                × (h.error ≡ some (record { code = negsuc 32699; message = parse_error })))))

module _ {S P R I : Type 0} (tools : ToolHandler S P R) (info : ServerInfo)
    (codec : McpCodec P (Answer R) I) where
  -- What a line and a body of the same text get.
  pub data Correspond (i : I) : Handled → HttpReply → Type 0 where
    -- Responses that agree.
    alike :
        (r h : McpResponse (Answer R) I) (outs : List Text)
        → outs ≡ printed tools info codec (codec.marshal r)
        → Agree r h
        → Correspond i (prints outs) (reply (codec.marshal h))
    -- The result has no JSON: an internal error, and an empty body.
    no_json :
        Correspond i
          (prints (send_stdio_error tools info codec i (negsuc 32602) internal_error))
          (reply none)
    -- The tool panics: the program ends, and the connection is closed.
    both_panic : Correspond i (stops crashed) closed
    -- The tool does not return: no later line is read, and the connection waits.
    both_wait : Correspond i (stops stuck) waiting
