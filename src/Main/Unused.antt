-- ===== src/Main/Unused.antt =====
-- The cache of the server: no request reads it or fills it.
use mcp_xlsm_server.Prelude.{
  ◌*◌, true, false, List, [], ◌∷◌, ℤ, pos, ◌≡◌, refl, wrap_int64, ℕ, String, lookup,
}
use mcp_xlsm_server.Cache.{new_smart_cache, cleanup, cleanup_step}
use mcp_xlsm_server.Cache.Entries.{Value}
use mcp_xlsm_server.Cache.Readers.{get_cache_health, get_hit_ratio, get_cache_memory_usage}
use mcp_xlsm_server.Lru.{Lru}
use mcp_xlsm_server.Main.{Event, asks, cleans, listener_returns, signalled, serve_events}
use mcp_xlsm_server.Server.{ServerInfo, Answer, McpCodec}
use mcp_xlsm_server.Server.Handlers.{ToolState, ToolResponse, Surroundings}
use mcp_xlsm_server.Server.Http.{
  Server, Pattern, root, health, metrics, PageCodec, Health, Metrics, HttpReply, reply, serve,
  handle_health, handle_metrics,
}
use mcp_xlsm_server.Server.Params.{Params}

-- The two pages for a cache of 100 MB that was never used.
abbrev unused_health : ℤ → Health
unused_health now = record {
  status = "healthy";
  timestamp = now;
  version = "2.0.0";
  cache = record {
    memory_used = pos 0;
    memory_total = pos (100 * (1024 * 1024));
    hit_ratio = record { over = 0; under = 1 };
  };
}

abbrev unused_metrics : ℤ → Metrics
unused_metrics now = record {
  cache_stats = record { hits = 0; misses = 0; evictions = 0; hot_promotions = 0 };
  cache_hit_ratio = record { over = 0; under = 1 };
  memory_usage = record {
    used_bytes = pos 0;
    total_bytes = pos (100 * (1024 * 1024));
    used_mb = pos 0;
    total_mb = pos 100;
  };
  timestamp = now;
}

module _ {A N I : Type 0} (lru : Lru (Value A)) (around : Surroundings N)
    (codec : McpCodec Params (Answer (ToolResponse N)) I) (pages : PageCodec) where
  -- The page that is replied to a request on a pattern; any reply on the pattern of the tools.
  abbrev IsUnusedPage : Pattern → ℤ → HttpReply → Type 0
  IsUnusedPage root now r = Unit
  IsUnusedPage health now r = r ≡ reply (pages.health_json (unused_health now))
  IsUnusedPage metrics now r = r ≡ reply (pages.metrics_json (unused_metrics now))

  -- The replies to the events, one for each request until the program ends.
  abbrev pub ShowUnused : List Event → List HttpReply → Type 0
  ShowUnused [] rs = Unit
  ShowUnused (asks pattern now is_post body ∷ events) [] = ⊥
  ShowUnused (asks pattern now is_post body ∷ events) (r ∷ rs) =
      IsUnusedPage pattern now r × ShowUnused events rs
  ShowUnused (cleans now order ∷ events) rs = ShowUnused events rs
  ShowUnused (listener_returns true ∷ events) rs = ShowUnused events rs
  ShowUnused (listener_returns false ∷ events) rs = rs ≡ []
  ShowUnused (signalled in_time ∷ events) rs = rs ≡ []

  abbrev with_tools : ToolState → Server ToolState lru.Store
  with_tools tools = record { tools = tools; cache = new_smart_cache lru (pos 100) }

  unused_pages :
      (now : ℤ) (tools : ToolState)
      → (handle_health pages now (with_tools tools).cache
          ≡ reply (pages.health_json (unused_health now)))
        × (handle_metrics pages now (with_tools tools).cache
            ≡ reply (pages.metrics_json (unused_metrics now)))
  unfolding new_smart_cache handle_health handle_metrics get_cache_health get_hit_ratio
      get_cache_memory_usage wrap_int64
  unused_pages now tools = (refl, refl)

  cleanup_new :
      (now : ℕ) (order : List String)
      → cleanup lru now order (new_smart_cache lru (pos 100)) ≡ new_smart_cache lru (pos 100)
  unfolding cleanup cleanup_step new_smart_cache lookup
  cleanup_new now [] = refl
  cleanup_new now (key ∷ order) = cleanup_new now order

  -- Whatever the server was asked before, and however often its cache was cleaned up, each reply
  -- on `/health` shows no memory used of 100 MB and the hit ratio 0, and each one on `/metrics`
  -- no hit, no miss, no eviction and no promotion: no request to a tool uses the cache.
  pub serve_events-ShowUnused :
      (info : ServerInfo) (events : List Event) (tools : ToolState)
      → ShowUnused events
          (serve_events lru around codec pages info events
            (record { tools = tools; cache = new_smart_cache lru (pos 100) })).0
  unfolding serve_events serve
  serve_events-ShowUnused info [] tools = tt
  serve_events-ShowUnused info (asks root now is_post body ∷ events) tools =
      (tt, serve_events-ShowUnused info events _)
  serve_events-ShowUnused info (asks health now is_post body ∷ events) tools =
      ((unused_pages now tools).0, serve_events-ShowUnused info events tools)
  serve_events-ShowUnused info (asks metrics now is_post body ∷ events) tools =
      ((unused_pages now tools).1, serve_events-ShowUnused info events tools)
  serve_events-ShowUnused info (cleans now order ∷ events) tools =
      rw (serve_events, cleanup_new now order) (serve_events-ShowUnused info events tools)
  serve_events-ShowUnused info (listener_returns true ∷ events) tools =
      serve_events-ShowUnused info events tools
  serve_events-ShowUnused info (listener_returns false ∷ events) tools = refl
  serve_events-ShowUnused info (signalled true ∷ events) tools = refl
  serve_events-ShowUnused info (signalled false ∷ events) tools = refl
