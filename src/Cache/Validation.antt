-- ===== src/Cache/Validation.antt =====
-- `GetWithValidation`: which entries it hands out, and what it forgets.
use mcp_xlsm_server.Prelude.{
  ℕ, ◌<◌, String, ◌≡◌, ◌≢◌, ◌⊎◌, refl, none, some, arith, lookup, string_eq, eq_iff, beq_self,
}
use mcp_xlsm_server.Lru.{Lru}
use mcp_xlsm_server.Cache.{get, delete_key, validate, get_with_validation}
use mcp_xlsm_server.Cache.Entries.{SmartCache, Value, entry, plain, CacheEntry}
use mcp_xlsm_server.Cache.Lookup.{get_lem, get-delete_key}

-- The entry has expired at the clock reading, or a checksum is asked for and it has another.
abbrev pub IsStale : {A : Type 0} → String → ℕ → CacheEntry A → Type 0
IsStale expected later e = (e.expires_at < later) ⊎ ((expected ≢ "") × (e.checksum ≢ expected))

module _ {A : Type 0} (lru : Lru (Value A)) where
  open lru use {Store, peek}

  validate_stale :
      (key expected : String) (later : ℕ) (c : SmartCache Store) (e : CacheEntry A)
      → IsStale expected later e
      → validate lru key expected later c (some (entry e)) ≡ (delete_key lru key c, none)
  unfolding validate
  validate_stale key expected later c e stale =
      ground (arith, eq_iff expected "", eq_iff e.checksum expected)

  validate_good :
      (key expected : String) (later : ℕ) (c : SmartCache Store) (e : CacheEntry A)
      → ¬ IsStale expected later e
      → validate lru key expected later c (some (entry e)) ≡ (c, some (plain e.value))
  unfolding validate
  validate_good key expected later c e good =
      ground (arith, eq_iff expected "", eq_iff e.checksum expected)

  -- Where the LRU holds an entry with metadata: if it is stale, the read misses, every later `Get` of
  -- the key misses and the hot data has forgotten the key; if it is not, the read returns the
  -- entry's value and the entry is still held.
  pub get_with_validation_lem :
      (key expected : String) (now later next : ℕ) (c : SmartCache Store) (e : CacheEntry A)
      → peek c.lru key ≡ some (entry e)
      → let r = get_with_validation lru key expected now later c in
        (IsStale expected later e
          → (r.1 ≡ none) × ((get lru key next r.0).1 ≡ none) × (lookup key r.0.hot_data ≡ none))
        × (¬ IsStale expected later e
            → (r.1 ≡ some (plain e.value)) × (peek r.0.lru key ≡ some (entry e)))
  unfolding get_with_validation
  get_with_validation_lem key expected now later next c e held =
      let c' = (get lru key now c).0 in
      let (found, same) = get_lem lru key key now c in
      let gone = get-delete_key lru key key next c' in
      (
        λ stale.
            rw (found, held, validate_stale key expected later c' e stale)
              (refl, rw (gone.0, beq_self key), rw (gone.1, beq_self key)),
        λ good. rw (found, held, validate_good key expected later c' e good) (refl, rw same held),
      )
