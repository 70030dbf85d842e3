-- ===== src/Server/Http.antt =====
-- internal/server/server.go: the handlers of HTTP requests. `ServeMux` picks one by the path, and
-- `net/http` recovers from a panic of a handler: it closes the connection, and the server goes on.
use mcp_xlsm_server.Prelude.{Bool, true, false, Option, ℤ, negsuc, if◌then◌else◌, String}
use mcp_xlsm_server.Cache.Entries.{SmartCache, CacheStats}
use mcp_xlsm_server.Cache.Readers.{
  CacheHealth, MemoryUsage, get_cache_health, get_cache_memory_usage, get_stats, get_hit_ratio,
}
use mcp_xlsm_server.Models.{Text, Ratio}
use mcp_xlsm_server.Server.{
  McpCodec, Failure, parse_error, Outcome, answered, failed, panicked, hung, Answer, ServerInfo,
  ToolHandler, route_request, result_response, error_response,
}

pub data HttpReply : Type 0 where
  method_not_allowed : HttpReply
  -- Status 200, with a body unless the response has no JSON.
  reply : Option Text → HttpReply
  -- The connection is closed without a reply, or is open for ever.
  closed waiting : HttpReply

-- The patterns that the server registers.
pub data Pattern : Type 0 where
  root health metrics : Pattern

pub record Health : Type 0 where
  pub status : String
  pub timestamp : ℤ
  pub version : String
  pub cache : CacheHealth

pub record Metrics : Type 0 where
  pub cache_stats : CacheStats
  pub cache_hit_ratio : Ratio
  pub memory_usage : MemoryUsage
  pub timestamp : ℤ

-- The JSON of the two pages.
pub record PageCodec : Type 0 where
  pub health_json : Health → Option Text
  pub metrics_json : Metrics → Option Text

-- The server: what its tools keep, and its cache.
pub record Server (S Store : Type 0) : Type 0 where
  pub tools : S
  pub cache : SmartCache Store

module _ {Store : Type 0} (pages : PageCodec) where
  unfoldable pub handle_health : ℤ → SmartCache Store → HttpReply
  unfolding get_cache_health
  handle_health now cache = reply (
      pages.health_json (record {
        status = "healthy";
        timestamp = now;
        version = "2.0.0";
        cache = get_cache_health cache;
      }))

  unfoldable pub handle_metrics : ℤ → SmartCache Store → HttpReply
  unfolding get_hit_ratio get_cache_memory_usage
  handle_metrics now cache = reply (
      pages.metrics_json (record {
        cache_stats = get_stats cache;
        cache_hit_ratio = get_hit_ratio cache;
        memory_usage = get_cache_memory_usage cache;
        timestamp = now;
      }))

module _ {S P R I : Type 0} (tools : ToolHandler S P R) (info : ServerInfo)
    (codec : McpCodec P (Answer R) I) where
  abbrev pub send_error : I → ℤ → Failure → HttpReply
  send_error i code f = reply (codec.marshal (error_response i code f))

  abbrev pub send_outcome : I → Outcome (Answer R) → HttpReply
  send_outcome i (failed f) = send_error i (negsuc 32602) f
  send_outcome i (answered a) = reply (codec.marshal (result_response i a))
  send_outcome i panicked = closed
  send_outcome i hung = waiting

  -- Whether the method is POST, and the body.
  unfoldable pub handle_mcp_request : Bool → Text → S → S × HttpReply
  unfolding route_request
  handle_mcp_request false body s = (s, method_not_allowed)
  handle_mcp_request true body s =
      let (req, parsed) = codec.decode body in
      let (s', outcome) = route_request tools info req s in
      if parsed
      then (s', send_outcome req.id outcome)
      else (s, send_error req.id (negsuc 32699) parse_error)

  -- A request on the pattern that is picked for it.
  unfoldable pub serve :
      {Store : Type 0}
      → PageCodec
      → Pattern
      → ℤ
      → Bool
      → Text
      → Server S Store
      → Server S Store × HttpReply
  unfolding handle_mcp_request handle_health handle_metrics
  serve pages root now is_post body server =
      let (s', r) = handle_mcp_request is_post body server.tools in
      (record server { tools = s' }, r)
  serve pages health now is_post body server = (server, handle_health pages now server.cache)
  serve pages metrics now is_post body server = (server, handle_metrics pages now server.cache)
