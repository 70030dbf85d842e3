-- ===== src/Cache/Readers.antt =====
-- What the cache tells of itself, the responses of the server that show it, and the cache of
-- checksums.
use mcp_xlsm_server.Prelude.{
  ℕ, zero, suc, ◌+◌, ◌*◌, ◌==◌, ◌≡◌, refl, Bool, true, not, Option, none, some, [], String, str_eq,
  string_eq, ℤ, pos, negsuc, Dict, lookup, store, lookup-store, if◌then◌else◌, Bool-cases, inl, inr,
  ◌/◌,
}
use mcp_xlsm_server.Cache.Entries.{SmartCache, CacheStats}
use mcp_xlsm_server.Models.{Ratio}

pub record MemoryUsage : Type 0 where
  pub used_bytes : ℤ
  pub total_bytes : ℤ
  pub used_mb : ℤ
  pub total_mb : ℤ

pub record CacheHealth : Type 0 where
  pub memory_used : ℤ
  pub memory_total : ℤ
  pub hit_ratio : Ratio

-- Go's `/ (1024 * 1024)`, which cuts toward zero.
abbrev pub megabytes : ℤ → ℤ
megabytes (pos n) = pos (n / (1024 * 1024))
megabytes (negsuc n) = negate ((n + 1) / (1024 * 1024))
  where
    negate : ℕ → ℤ
    negate zero = pos 0
    negate (suc k) = negsuc k

module _ {S : Type 0} where
  abbrev pub get_stats : SmartCache S → CacheStats
  get_stats c = c.stats

  abbrev pub get_memory_usage : SmartCache S → ℤ × ℤ
  get_memory_usage c = (c.current_mem, c.max_memory)

  -- The hits over all reads.
  unfoldable pub get_hit_ratio : SmartCache S → Ratio
  get_hit_ratio c =
      let total = c.stats.hits + c.stats.misses in
      if total == 0
      then record { over = 0; under = 1 }
      else record { over = c.stats.hits; under = total }

  unfoldable pub get_cache_health : SmartCache S → CacheHealth
  unfolding get_hit_ratio
  get_cache_health c =
      let (used, total) = get_memory_usage c in
      record { memory_used = used; memory_total = total; hit_ratio = get_hit_ratio c }

  -- The utilization, a quotient of the first two, is left out.
  unfoldable pub get_cache_memory_usage : SmartCache S → MemoryUsage
  get_cache_memory_usage c =
      let (used, total) = get_memory_usage c in
      record {
        used_bytes = used;
        total_bytes = total;
        used_mb = megabytes used;
        total_mb = megabytes total;
      }

abbrev pub ChecksumCache : Type 0
ChecksumCache = Dict String String

abbrev pub new_checksum_cache : ChecksumCache
new_checksum_cache = []

abbrev pub set_checksum : String → String → ChecksumCache → ChecksumCache
set_checksum filepath checksum cache = store filepath checksum cache

abbrev pub get_checksum : String → ChecksumCache → Option String
get_checksum filepath cache = lookup filepath cache

abbrev pub differs : Option String → String → Bool
differs none new_checksum = true
differs (some old) new_checksum = not (str_eq old new_checksum)

unfoldable pub is_changed : String → String → ChecksumCache → Bool
is_changed filepath new_checksum cache = differs (get_checksum filepath cache) new_checksum

-- After a checksum is set, the file is changed exactly for another checksum, and every other file as
-- it was before.
is_changed-set_checksum :
    (filepath other checksum new_checksum : String) (cache : ChecksumCache)
    → is_changed other new_checksum (set_checksum filepath checksum cache) ≡ (
        if str_eq filepath other
        then not (str_eq checksum new_checksum)
        else is_changed other new_checksum cache)
unfolding is_changed
is_changed-set_checksum filepath other checksum new_checksum cache =
    elim (Bool-cases (str_eq filepath other)) [
      | inl e ↦ rw (is_changed, lookup-store, e) refl
      | inr e ↦ rw (is_changed, lookup-store, e) refl
    ]
