-- ===== src/Server.antt =====
-- internal/server/server.go: requests over a pipe and over HTTP, and their way to the tools. JSON and
-- the three tools are interfaces; the log, which nothing reads back, is left out.
pub mod Schema
pub mod Stdio
pub mod Params
pub mod Handlers
pub mod Http
pub mod Loop
pub mod Routes
pub mod Denial
pub mod Answers
use mcp_xlsm_server.Prelude.{
  ℕ, Bool, true, false, Option, none, some, List, [], ◌∷◌, ◌++◌, String, str_eq, ℤ, pos, negsuc,
  if◌then◌else◌,
}
use mcp_xlsm_server.Models.{Text}
use mcp_xlsm_server.Server.Schema.{Tool, list_tools}

pub record McpRequest (P I : Type 0) : Type 0 where
  pub method : String
  pub params : P
  pub id : I

-- The texts of errors.
pub data Failure : Type 0 where
  parse_error internal_error : Failure
  tool_failed : Text → Failure
  unknown_method : String → Failure

pub record McpError : Type 0 where
  pub code : ℤ
  pub message : Failure

pub record McpResponse (A I : Type 0) : Type 0 where
  pub result : Option A
  pub error : Option McpError
  pub id : I

pub data Outcome (A : Type 0) : Type 0 where
  answered : A → Outcome A
  failed : Failure → Outcome A
  -- The tool panics, or does not return.
  panicked hung : Outcome A

-- What the configuration tells of the server.
pub record ServerInfo : Type 0 where
  pub name : String
  pub version : String
  pub capabilities : List String
  pub max_file_size : String
  pub max_concurrent_requests : ℤ
  pub request_timeout : Text

-- The results: what a tool gives, of its own type, or one of the three that the server makes.
pub data Answer (R : Type 0) : Type 0 where
  tool_result : R → Answer R
  tool_list : List Tool → Answer R
  server_info : ServerInfo → Answer R
  -- The version of the protocol, and the name and the version of the server.
  initialized : String → String → String → Answer R

-- What a tool gives, or the text of its error; or it panics, or it does not return.
pub data ToolOutcome (R : Type 0) : Type 0 where
  gives : R → ToolOutcome R
  fails : Text → ToolOutcome R
  panics diverges : ToolOutcome R

-- The three tools, over their common state.
pub record ToolHandler (S P R : Type 0) : Type 0 where
  pub analyze_file : P → S → S × ToolOutcome R
  pub build_navigation_map : P → S → S × ToolOutcome R
  pub query_data : P → S → S × ToolOutcome R

-- What `encoding/json` does: a request as far as it was filled, and whether that succeeded, by
-- `Unmarshal` of a text and by the `Decode` of a body's first value; and the text of a response, which
-- a newline ends both in a body and on the standard output.
pub record McpCodec (P A I : Type 0) : Type 0 where
  pub unmarshal : Text → McpRequest P I × Bool
  pub decode : Text → McpRequest P I × Bool
  pub marshal : McpResponse A I → Option Text

abbrev pub as_answer : {R : Type 0} → ToolOutcome R → Outcome (Answer R)
as_answer (gives r) = answered (tool_result r)
as_answer (fails t) = failed (tool_failed t)
as_answer panics = panicked
as_answer diverges = hung

abbrev pub result_response : {A I : Type 0} → I → A → McpResponse A I
result_response i a = record { result = some a; error = none; id = i }

abbrev pub error_response : {A I : Type 0} → I → ℤ → Failure → McpResponse A I
error_response i code f = record {
  result = none;
  error = some (record { code = code; message = f });
  id = i;
}

abbrev pub initialize : {R : Type 0} → Answer R
initialize = initialized "2024-11-05" "mcp-xlsm-server" "2.0.0"

module _ {S P R I : Type 0} (tools : ToolHandler S P R) (info : ServerInfo) where
  unfoldable pub route_request : McpRequest P I → S → S × Outcome (Answer R)
  route_request req s =
      if str_eq req.method "analyze_file"
      then (let (s', r) = tools.analyze_file req.params s in (s', as_answer r))
      else if str_eq req.method "build_navigation_map"
      then (let (s', r) = tools.build_navigation_map req.params s in (s', as_answer r))
      else if str_eq req.method "query_data"
      then (let (s', r) = tools.query_data req.params s in (s', as_answer r))
      else if str_eq req.method "list_tools"
      then (s, answered (tool_list list_tools))
      else if str_eq req.method "get_server_info"
      then (s, answered (server_info info))
      else if str_eq req.method "initialize"
      then (s, answered initialize)
      else (s, failed (unknown_method req.method))
