-- ===== src/Tests/CacheRuns.antt =====
-- The cache over a bounded list: runs, and its theorems at concrete inputs.
use mcp_xlsm_server.Prelude.{
  ℕ, ◌+◌, ◌*◌, String, ◌≡◌, ◌≢◌, refl, true, false, none, some, List, [], ◌∷◌, pos, arith, lookup,
  store, delete, string_eq, eq_iff, if◌then◌else◌, ◌&&◌, add_int64, sub_int64, wrap_int64, ◌+ℤ◌,
}
use mcp_xlsm_server.Lru.{Lru}
use mcp_xlsm_server.Lru.Bounded.{bounded_lru, touched, added}
use mcp_xlsm_server.Cache.{
  new_smart_cache, update_hot_data, get, drop_entry, evict_step, evict_pass, evict_both,
  evict_cold_data, release_old, admit, make_room, set, delete_key, clear, cleanup_step, cleanup,
  validate, get_with_validation,
}
use mcp_xlsm_server.Cache.Calls.{
  Call, get_call, set_call, delete_call, clear_call, cleanup_call, perform, run,
}
use mcp_xlsm_server.Cache.Entries.{
  minute, HotEntry, SmartCache, Value, entry, plain, CacheEntry, Pass, is_cold, is_old, is_expired,
  record_eviction, record_hit, record_miss,
}
use mcp_xlsm_server.Cache.Accounting.{IsAccounted}
use mcp_xlsm_server.Cache.Reach.{new_smart_cache-run-IsAccounted}
use mcp_xlsm_server.Cache.Lookup.{get-set_self}
use mcp_xlsm_server.Cache.Cleanup.{lookup-cleanup, survivor, contains, is_expired_at}
use mcp_xlsm_server.Cache.Eviction.{lookup-set_recent}
use mcp_xlsm_server.Cache.Usage.{get_times-set, get_times, read_entry, promotions}
use mcp_xlsm_server.Cache.Validation.{get_with_validation_lem, IsStale}
use mcp_xlsm_server.Cache.Leak.{set_leaks}
use mcp_xlsm_server.Cache.Totals.{total}

unfoldable pub program : Unit {0}
unfolding new_smart_cache update_hot_data get drop_entry evict_step evict_pass evict_both
    evict_cold_data release_old admit make_room set delete_key clear cleanup_step cleanup validate
    get_with_validation is_cold is_old is_expired perform run lookup store delete add_int64
    sub_int64 wrap_int64 touched added record_eviction record_hit record_miss
program = tt

abbrev pub lru : Lru (Value ℕ)
lru = bounded_lru 999

-- An LRU for a single value.
abbrev tiny : Lru (Value ℕ)
tiny = bounded_lru 0

abbrev pub no_pass : Pass
no_pass = record { now = 0; order = [] }

abbrev pub start : SmartCache (Lru.Store lru)
start = record {
  lru = [];
  hot_data = [];
  max_memory = pos 100;
  current_mem = pos 0;
  stats = record { hits = 0; misses = 0; evictions = 0; hot_promotions = 0 };
}

abbrev a_entry : HotEntry
a_entry = record { access_count = 1; last_access = 5 * minute; ttl = 5 * minute; size = pos 60 }

-- One key of size 60, read never, used last at five minutes.
abbrev one : SmartCache (Lru.Store lru)
one = record start {
  lru = ("a", plain 1) ∷ [];
  hot_data = ("a", a_entry) ∷ [];
  current_mem = pos 60;
}

abbrev at : ℕ → Pass
at now = record { now = now; order = "a" ∷ [] }

first_set : set lru "a" (plain 1) (pos 60) no_pass no_pass (5 * minute) start ≡ (one, true)
unfolding program
first_set = refl

-- At six minutes the entry is neither cold nor old, and a second one of its size does not fit.
set_refused :
    set lru "b" (plain 2) (pos 60) (at (6 * minute)) (at (6 * minute)) (6 * minute) one
    ≡ (one, false)
unfolding program
set_refused = refl

-- Past ten minutes it is cold, and makes room.
set_evicts :
    (set lru "b" (plain 2) (pos 60) (at (11 * minute)) (at (11 * minute)) (11 * minute) one).1
    ≡ true
unfolding program
set_evicts = refl

abbrev pub calls : List (Call lru)
calls =
    set_call "a" (plain 1) (pos 60) no_pass no_pass 0
    ∷ get_call "a" 1
    ∷ set_call "b" (plain 2) (pos 60) (at (11 * minute)) (at (20 * minute)) (20 * minute)
    ∷ cleanup_call (30 * minute) ("b" ∷ [])
    ∷ delete_call "b"
    ∷ clear_call
    ∷ []

new_smart_cache-run-IsAccounted_example :
    IsAccounted (run lru (new_smart_cache lru (pos 1)) calls)
    × ((run lru (new_smart_cache lru (pos 1)) calls).max_memory ≡ pos (1 * (1024 * 1024)))
new_smart_cache-run-IsAccounted_example =
    new_smart_cache-run-IsAccounted lru 1 calls (omega arith) (omega arith)

get-set_self_example :
    (get lru "a" 7 (set lru "a" (plain 1) (pos 60) no_pass no_pass (5 * minute) start).0).1
    ≡ some (plain 1)
unfolding program
get-set_self_example =
    get-set_self lru "a" (plain 1) (pos 60) no_pass no_pass (5 * minute) 7 start refl

b_not_a : ◌≢◌ {A = String} "b" "a"
b_not_a = ground (arith, eq_iff "b" "a")

lookup-cleanup_example :
    (lookup "a" (cleanup lru (11 * minute) ("a" ∷ []) one).hot_data
      ≡ survivor (11 * minute) ("a" ∷ []) "a" (lookup "a" one.hot_data))
    × (lru.peek (cleanup lru (11 * minute) ("a" ∷ []) one).lru "a" ≡ (
        if contains "a" ("a" ∷ []) && is_expired_at (11 * minute) (lookup "a" one.hot_data)
        then none
        else lru.peek one.lru "a"))
lookup-cleanup_example = lookup-cleanup lru (11 * minute) ("a" ∷ []) "a" one

lookup-set_recent_example :
    lookup "a"
      (set lru "b"
        (plain 2)
        (pos 60)
        (at (6 * minute))
        (at (6 * minute))
        (6 * minute)
        one).0.hot_data
    ≡ some a_entry
unfolding program
lookup-set_recent_example =
    lookup-set_recent lru "b" "a" (plain 2) (pos 60) (at (6 * minute)) (at (6 * minute))
      (6 * minute) a_entry one b_not_a refl refl refl

get_times-set_example :
    let c = (set lru "a" (plain 1) (pos 60) no_pass no_pass (5 * minute) start).0 in
    let d = get_times lru 3 "a" (λ n. n) c in
    (lru.peek d.lru "a" ≡ some (plain 1))
    × (lookup "a" d.hot_data ≡ some (read_entry lru 3 (pos 60) (5 * minute) (λ n. n)))
    × (d.stats.hits ≡ c.stats.hits + 3)
    × (d.stats.hot_promotions ≡ c.stats.hot_promotions + promotions lru 3)
unfolding program
get_times-set_example =
    get_times-set lru "a" (plain 1) (pos 60) no_pass no_pass (5 * minute) 3 (λ n. n) start refl

abbrev pub dated : CacheEntry ℕ
dated = record { value = 7; size = pos 60; created_at = 0; expires_at = 100; checksum = "c1" }

abbrev pub holds_dated : SmartCache (Lru.Store lru)
holds_dated = record one { lru = ("a", entry dated) ∷ [] }

get_with_validation_lem_example :
    let r = get_with_validation lru "a" "c2" 40 50 holds_dated in
    (IsStale "c2" 50 dated
      → (r.1 ≡ none) × ((get lru "a" 60 r.0).1 ≡ none) × (lookup "a" r.0.hot_data ≡ none))
    × (¬ IsStale "c2" 50 dated
        → (r.1 ≡ some (plain 7)) × (lru.peek r.0.lru "a" ≡ some (entry dated)))
unfolding program
get_with_validation_lem_example =
    get_with_validation_lem lru "a" "c2" 40 50 60 holds_dated dated refl

-- An LRU of one value has dropped "a", which the hot data still records.
abbrev dropped : SmartCache (Lru.Store tiny)
dropped = record {
  lru = ("b", plain 2) ∷ [];
  hot_data = ("a", a_entry) ∷ ("b", record a_entry { size = pos 10 }) ∷ [];
  max_memory = pos 200;
  current_mem = pos 70;
  stats = start.stats;
}

dropped-IsAccounted : IsAccounted dropped
unfolding program ◌+ℤ◌
dropped-IsAccounted = record {
  unique = (refl, (refl, tt));
  sized = omega arith;
  covered = omega arith;
  bounded = omega arith;
  limit = omega arith;
}

set_leaks_example :
    let c' = (set tiny "a" (plain 1) (pos 60) no_pass no_pass 0 dropped).0 in
    c'.current_mem +ℤ total dropped.hot_data ≡ pos 70 +ℤ total c'.hot_data +ℤ pos 60
unfolding program
set_leaks_example =
    set_leaks tiny "a" (plain 1) (pos 60) no_pass no_pass 0 a_entry dropped dropped-IsAccounted
      (record { nonneg = omega arith; room = omega arith }) (unfold ◌+ℤ◌ in omega arith) refl refl
