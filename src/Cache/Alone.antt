-- ===== src/Cache/Alone.antt =====
-- A validated read whose steps no other thread comes between.
use mcp_xlsm_server.Lru.{Lru}
