-- ===== src/Cache/Entries.antt =====
-- internal/cache/smart_cache.go: the state of the cache, its entries and its statistics.
use mcp_xlsm_server.Prelude.{
  ℕ, ◌+◌, ◌*◌, ◌-◌, ◌^◌, String, Bool, ◌&&◌, List, ltb, ℤ, pos, negsuc, Dict, string_eq,
}

abbrev pub minute : ℕ
minute = 60 * 10 ^ 9

-- models.HotEntry
pub record HotEntry : Type 0 where
  pub access_count : ℕ
  pub last_access : ℕ
  pub ttl : ℕ
  pub size : ℤ

pub record CacheStats : Type 0 where
  pub hits : ℕ
  pub misses : ℕ
  pub evictions : ℕ
  pub hot_promotions : ℕ

pub record SmartCache (Store : Type 0) : Type 0 where
  pub lru : Store
  pub hot_data : Dict String HotEntry
  pub max_memory : ℤ
  pub current_mem : ℤ
  pub stats : CacheStats

pub record CacheEntry (A : Type 0) : Type 0 where
  pub value : A
  pub size : ℤ
  pub created_at : ℕ
  pub expires_at : ℕ
  pub checksum : String

-- The `interface{}` that the cache holds: a `*CacheEntry`, or any other value.
pub data Value (A : Type 0) : Type 0 where
  entry : CacheEntry A → Value A
  plain : A → Value A

-- One `range` over the hot data: the clock reading before it, and the order of the visits.
pub record Pass : Type 0 where
  pub now : ℕ
  pub order : List String

-- `last.Before(now.Add(-d))`
abbrev pub older_than : ℕ → ℕ → ℕ → Bool
older_than d now last = ltb (last + d) now

unfoldable pub record_hit : CacheStats → CacheStats
record_hit s = record s { hits = s.hits + 1 }

unfoldable pub record_miss : CacheStats → CacheStats
record_miss s = record s { misses = s.misses + 1 }

unfoldable pub record_eviction : CacheStats → CacheStats
record_eviction s = record s { evictions = s.evictions + 1 }

unfoldable pub record_hot_promotion : CacheStats → CacheStats
record_hot_promotion s = record s { hot_promotions = s.hot_promotions + 1 }

-- An integer, so many times.
abbrev pub times : ℤ → ℕ → ℤ
times (pos n) k = pos (n * k)
times (negsuc n) k = negsuc ((n + 1) * k - 1)

-- The first test of the eviction loop's body, and that of the second loop.
unfoldable pub is_cold : ℕ → HotEntry → Bool
is_cold now e = ltb e.access_count 2 && older_than (5 * minute) now e.last_access

unfoldable pub is_old : ℕ → HotEntry → Bool
is_old now e = older_than (15 * minute) now e.last_access

unfoldable pub is_expired : ℕ → HotEntry → Bool
is_expired now e = older_than e.ttl now e.last_access
