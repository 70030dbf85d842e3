-- ===== src/Cache/Cleanup.antt =====
-- `cleanup`: what its visits remove, from the hot data and from the LRU.
use mcp_xlsm_server.Prelude.{
  ℕ, String, ◌≡◌, refl, Bool, false, ◌&&◌, ◌||◌, Option, none, some, List, [], ◌∷◌, ap, arith,
  lookup, string_eq, str_eq, eq_iff, lookup-delete, if◌then◌else◌,
}
use mcp_xlsm_server.Lru.{Lru}
use mcp_xlsm_server.Cache.{drop_entry, cleanup_step, cleanup}
use mcp_xlsm_server.Cache.Entries.{HotEntry, SmartCache, Value, is_expired}

abbrev pub contains : String → List String → Bool
contains k [] = false
contains k (j ∷ ks) = str_eq j k || contains k ks

-- What the visits of `cleanup` leave of an entry.
abbrev pub survivor : ℕ → List String → String → Option HotEntry → Option HotEntry
survivor now order j none = none
survivor now order j (some e) = if contains j order && is_expired now e then none else some e

abbrev pub is_expired_at : ℕ → Option HotEntry → Bool
is_expired_at now none = false
is_expired_at now (some e) = is_expired now e

module _ {A : Type 0} (lru : Lru (Value A)) where
  open lru use {Store, peek}

  hot-cleanup_step :
      (now : ℕ) (key j : String) (c : SmartCache Store)
      → lookup j (cleanup_step lru now key c).hot_data
        ≡ survivor now (key ∷ []) j (lookup j c.hot_data)
  unfolding cleanup_step drop_entry
  hot-cleanup_step now key j c = ground (
    arith,
    eq_iff key j,
    lookup-delete key j c.hot_data,
    λ (e : key ≡ j). ap (λ (k : String). lookup k c.hot_data) e,
  )

  peek-cleanup_step :
      (now : ℕ) (key j : String) (c : SmartCache Store)
      → peek (cleanup_step lru now key c).lru j
        ≡ (if str_eq key j && is_expired_at now (lookup j c.hot_data) then none else peek c.lru j)
  unfolding cleanup_step drop_entry
  peek-cleanup_step now key j c = ground (
    arith,
    eq_iff key j,
    lru.peek-remove c.lru key j,
    λ (e : key ≡ j). ap (λ (k : String). lookup k c.hot_data) e,
  )

  hot-cleanup :
      (now : ℕ) (order : List String) (j : String) (c : SmartCache Store)
      → lookup j (cleanup lru now order c).hot_data ≡ survivor now order j (lookup j c.hot_data)
  unfolding cleanup
  hot-cleanup now [] j c = ground arith
  hot-cleanup now (key ∷ order) j c =
      ground
        (arith, hot-cleanup now order j (cleanup_step lru now key c), hot-cleanup_step now key j c)

  peek-cleanup :
      (now : ℕ) (order : List String) (j : String) (c : SmartCache Store)
      → peek (cleanup lru now order c).lru j ≡ (
          if contains j order && is_expired_at now (lookup j c.hot_data)
          then none
          else peek c.lru j)
  unfolding cleanup
  peek-cleanup now [] j c = refl
  peek-cleanup now (key ∷ order) j c = ground (
    arith,
    peek-cleanup now order j (cleanup_step lru now key c),
    hot-cleanup_step now key j c,
    peek-cleanup_step now key j c,
  )

  -- `cleanup` removes a key from the hot data exactly when it visits the key and the entry has
  -- outlived its TTL, removes the same keys from the LRU, and changes no other key in either.
  pub lookup-cleanup :
      (now : ℕ) (order : List String) (j : String) (c : SmartCache Store)
      → (lookup j (cleanup lru now order c).hot_data ≡ survivor now order j (lookup j c.hot_data))
        × (peek (cleanup lru now order c).lru j ≡ (
            if contains j order && is_expired_at now (lookup j c.hot_data)
            then none
            else peek c.lru j))
  lookup-cleanup now order j c = (hot-cleanup now order j c, peek-cleanup now order j c)
