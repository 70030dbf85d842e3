-- ===== src/Cache.antt =====
-- internal/cache/smart_cache.go: the methods of `SmartCache`. Each holds the mutex for its whole body,
-- so it is one step from state to state, but for `GetWithValidation`, which Cache/Threads cuts. The
-- clock readings of a call and the orders in which it visits the hot data are arguments. Times and
-- durations are in nanoseconds.
pub mod Entries
pub mod Calls
pub mod Totals
pub mod Accounting
pub mod Storing
pub mod Operations
pub mod Reach
pub mod Lookup
pub mod Cleanup
pub mod Eviction
pub mod Usage
pub mod Validation
pub mod Readers
pub mod Leak
pub mod Spec
pub mod Retention
pub mod Refinement
pub mod Threads
pub mod Alone
pub mod Races
use mcp_xlsm_server.Prelude.{
  ℕ, ◌+◌, ◌*◌, ◌-◌, ◌^◌, String, Bool, true, false, ◌&&◌, not, Option, none, some, List, [], ◌∷◌,
  ltb, leb, if◌then◌else◌, ℤ, pos, negsuc, ltb_ℤ, leb_ℤ, wrap_int64, add_int64, sub_int64, Dict,
  lookup, store, delete, string_eq, str_eq,
}
use mcp_xlsm_server.Lru.{Lru}
use mcp_xlsm_server.Cache.Entries.{
  minute, HotEntry, CacheStats, SmartCache, CacheEntry, Value, Pass, older_than, record_hit,
  record_miss, record_eviction, record_hot_promotion, times, is_cold, is_old, is_expired, entry,
  plain,
}

module _ {A : Type 0} (lru : Lru (Value A)) where
  open lru use {Store, empty, peek, touch, add, remove, purge}

  unfoldable pub new_smart_cache : ℤ → SmartCache Store
  new_smart_cache max_memory_mb = record {
    lru = empty;
    hot_data = [];
    max_memory = wrap_int64 (times max_memory_mb (1024 * 1024));
    current_mem = pos 0;
    stats = record { hits = 0; misses = 0; evictions = 0; hot_promotions = 0 };
  }

  unfoldable pub update_hot_data : String → Bool → ℕ → SmartCache Store → SmartCache Store
  unfolding record_hot_promotion
  update_hot_data key is_hit now c = elim (lookup key c.hot_data) [
    | some e ↦
        let n = e.access_count + 1 in
        if ltb 3 n && ltb e.ttl (10 * minute)
        then record c {
          hot_data =
              store key
                (record { access_count = n; last_access = now; ttl = 10 * minute; size = e.size })
                c.hot_data;
          stats = record_hot_promotion c.stats;
        }
        else record c {
          hot_data = store key (record e { access_count = n; last_access = now }) c.hot_data;
        }
    | none ↦
        if is_hit
        then record c {
          hot_data =
              store key
                (record { access_count = 1; last_access = now; ttl = 5 * minute; size = pos 0 })
                c.hot_data;
        }
        else c
  ]

  unfoldable pub get : String → ℕ → SmartCache Store → SmartCache Store × Option (Value A)
  unfolding record_hit record_miss
  get key now c = elim (peek c.lru key) [
    | some v ↦ (
      update_hot_data key true now (record c { lru = touch c.lru key; stats = record_hit c.stats }),
      some v,
    )
    | none ↦ (record c { lru = touch c.lru key; stats = record_miss c.stats }, none)
  ]

  -- `lru.Remove`, the subtraction and `delete`, which four loops and methods share.
  unfoldable pub drop_entry : String → HotEntry → SmartCache Store → SmartCache Store
  drop_entry key e c = record c {
    lru = remove c.lru key;
    current_mem = sub_int64 c.current_mem e.size;
    hot_data = delete key c.hot_data;
  }

  -- The body of an eviction loop, behind its `break`: the cache, and the space freed so far.
  unfoldable pub evict_step :
      (HotEntry → Bool) → String → SmartCache Store × ℤ → SmartCache Store × ℤ
  unfolding record_eviction
  evict_step test key (c, freed) = elim (lookup key c.hot_data) [
    | none ↦ (c, freed)
    | some e ↦
        if test e
        then (
          record (drop_entry key e c) { stats = record_eviction c.stats },
          add_int64 freed e.size,
        )
        else (c, freed)
  ]

  unfoldable pub evict_pass :
      (HotEntry → Bool) → ℤ → List String → SmartCache Store × ℤ → SmartCache Store × ℤ
  evict_pass test needed [] s = s
  evict_pass test needed (key ∷ order) s = elim (leb_ℤ needed s.1) [
    | true ↦ s
    | false ↦ evict_pass test needed order (evict_step test key s)
  ]

  -- The two loops of `evictColdData`; the second runs if the first has not freed enough.
  unfoldable pub evict_both : ℤ → Pass → Pass → SmartCache Store → SmartCache Store × ℤ
  evict_both needed cold old c =
      let first = evict_pass (is_cold cold.now) needed cold.order (c, pos 0) in
      if ltb_ℤ first.1 needed then evict_pass (is_old old.now) needed old.order first else first

  unfoldable pub evict_cold_data : ℤ → Pass → Pass → SmartCache Store → SmartCache Store × Bool
  evict_cold_data needed cold old c =
      let (c', freed) = evict_both needed cold old c in (c', leb_ℤ needed freed)

  -- `Set` looks the key up in the LRU, which also makes it the most recent.
  unfoldable pub release_old : String → SmartCache Store → SmartCache Store
  release_old key c = elim (peek c.lru key) [
    | none ↦ record c { lru = touch c.lru key }
    | some _ ↦ elim (lookup key c.hot_data) [
      | none ↦ record c { lru = touch c.lru key }
      | some old ↦ record c {
        lru = touch c.lru key;
        current_mem = sub_int64 c.current_mem old.size;
      }
    ]
  ]

  unfoldable pub admit : String → Value A → ℤ → ℕ → SmartCache Store → SmartCache Store
  admit key value size now c = record c {
    lru = add c.lru key value;
    current_mem = add_int64 c.current_mem size;
    hot_data =
        store key (record { access_count = 1; last_access = now; ttl = 5 * minute; size = size })
          c.hot_data;
  }

  -- The memory test of `Set`.
  unfoldable pub make_room : ℤ → Pass → Pass → SmartCache Store → SmartCache Store × Bool
  make_room size cold old c =
      if ltb_ℤ c.max_memory (add_int64 c.current_mem size)
      then evict_cold_data size cold old c
      else (c, true)

  unfoldable pub set :
      String → Value A → ℤ → Pass → Pass → ℕ → SmartCache Store → SmartCache Store × Bool
  set key value size cold old now c =
      let (c', room) = make_room size cold old c in
      if room then (admit key value size now (release_old key c'), true) else (c', false)

  unfoldable pub set_with_metadata :
      String → CacheEntry A → Pass → Pass → ℕ → SmartCache Store → SmartCache Store × Bool
  set_with_metadata key e = set key (entry e) e.size

  unfoldable pub delete_key : String → SmartCache Store → SmartCache Store
  delete_key key c = elim (lookup key c.hot_data) [
    | some e ↦ drop_entry key e c
    | none ↦ record c { lru = remove c.lru key }
  ]

  unfoldable pub clear : SmartCache Store → SmartCache Store
  clear c = record c { lru = purge c.lru; hot_data = []; current_mem = pos 0 }

  unfoldable pub cleanup_step : ℕ → String → SmartCache Store → SmartCache Store
  cleanup_step now key c = elim (lookup key c.hot_data) [
    | none ↦ c
    | some e ↦ if is_expired now e then drop_entry key e c else c
  ]

  -- The loop of `cleanup` over the keys that it visits.
  unfoldable pub cleanup : ℕ → List String → SmartCache Store → SmartCache Store
  cleanup now [] c = c
  cleanup now (key ∷ order) c = cleanup now order (cleanup_step now key c)

  -- What `GetWithValidation` does with the value that it found; `later` is its clock reading.
  unfoldable pub validate :
      String
      → String
      → ℕ
      → SmartCache Store
      → Option (Value A)
      → SmartCache Store × Option (Value A)
  validate key expected later c none = (c, none)
  validate key expected later c (some (plain v)) = (c, some (plain v))
  validate key expected later c (some (entry e)) =
      if ltb e.expires_at later
      then (delete_key key c, none)
      else if not (str_eq expected "") && not (str_eq e.checksum expected)
      then (delete_key key c, none)
      else (c, some (plain e.value))

  unfoldable pub get_with_validation :
      String → String → ℕ → ℕ → SmartCache Store → SmartCache Store × Option (Value A)
  get_with_validation key expected now later c =
      let (c', found) = get key now c in validate key expected later c' found
