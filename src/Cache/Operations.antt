-- ===== src/Cache/Operations.antt =====
-- Every operation of `SmartCache` keeps the memory accounting.
use mcp_xlsm_server.Prelude.{
  ℕ, ◌+◌, ◌*◌, String, ◌≡◌, refl, Bool, true, none, some, List, [], ◌∷◌, inl, inr, ℤ, pos, arith,
  int_laws, parts_of_eq, lookup, store, ltb, ◌&&◌, not, str_eq, Option, string_eq, Bool-cases,
  Option-cases, store-Unique,
}
use mcp_xlsm_server.Lru.{Lru}
use mcp_xlsm_server.Cache.{
  update_hot_data, get, delete_key, clear, cleanup_step, cleanup, validate, get_with_validation,
}
use mcp_xlsm_server.Cache.Calls.{
  Call, get_call, set_call, delete_call, clear_call, cleanup_call, validate_call, perform,
}
use mcp_xlsm_server.Cache.Entries.{
  CacheStats, minute, HotEntry, SmartCache, Value, record_hit, entry, plain, is_expired,
}
use mcp_xlsm_server.Cache.Totals.{size_le_total, total-store, total-store_new, store-IsSized}
use mcp_xlsm_server.Cache.Accounting.{IsAccounted, Fits, current_nonneg, drop_entry-IsAccounted}
use mcp_xlsm_server.Cache.Storing.{set-IsAccounted}

-- The entry of unknown size that `Get` records for a key that is not hot.
abbrev blank : ℕ → HotEntry
blank now = record { access_count = 1; last_access = now; ttl = 5 * minute; size = pos 0 }

module _ {A : Type 0} (lru : Lru (Value A)) where
  open lru use {Store}

  delete_key-IsAccounted :
      (key : String) (c : SmartCache Store) → IsAccounted c → IsAccounted (delete_key lru key c)
  unfolding delete_key
  delete_key-IsAccounted key c v = elim (Option-cases (lookup key c.hot_data)) [
    | inl cold ↦
        rw (cold, delete_key)
          (record {
            unique = v.unique;
            sized = v.sized;
            covered = v.covered;
            bounded = v.bounded;
            limit = v.limit;
          })
    | inr (e, hot) ↦ rw (hot, delete_key) (drop_entry-IsAccounted lru key e c v hot).0
  ]

  clear-IsAccounted : (c : SmartCache Store) → IsAccounted c → IsAccounted (clear lru c)
  unfolding clear
  clear-IsAccounted c v =
      let low = current_nonneg v in
      record {
        unique = tt;
        sized = tt;
        covered = omega arith;
        bounded = omega arith;
        limit = v.limit;
      }

  cleanup_step-IsAccounted :
      (now : ℕ) (key : String) (c : SmartCache Store)
      → IsAccounted c
      → IsAccounted (cleanup_step lru now key c)
  unfolding cleanup_step
  cleanup_step-IsAccounted now key c v = elim (Option-cases (lookup key c.hot_data)) [
    | inl cold ↦ rw (cold, cleanup_step) v
    | inr (e, hot) ↦ elim (Bool-cases (is_expired now e)) [
      | inl gone ↦ rw (hot, cleanup_step, gone) (drop_entry-IsAccounted lru key e c v hot).0
      | inr fine ↦ rw (hot, cleanup_step, fine) v
    ]
  ]

  cleanup-IsAccounted :
      (now : ℕ) (order : List String) (c : SmartCache Store)
      → IsAccounted c
      → IsAccounted (cleanup lru now order c)
  unfolding cleanup
  cleanup-IsAccounted now [] c v = v
  cleanup-IsAccounted now (key ∷ order) c v =
      cleanup-IsAccounted now order _ (cleanup_step-IsAccounted now key c v)

  -- A hot entry written anew at its size, or a new one of size 0, changes no total.
  rewrite-IsAccounted :
      (key : String) (e f : HotEntry) (stats : CacheStats) (c : SmartCache Store)
      → IsAccounted c
      → lookup key c.hot_data ≡ some e
      → f.size ≡ e.size
      → IsAccounted (record c { hot_data = store key f c.hot_data; stats = stats })
  rewrite-IsAccounted key e f stats c v hot same =
      let (low, high) = size_le_total key c.hot_data e v.sized hot in
      record {
        unique = store-Unique key f c.hot_data v.unique;
        sized = store-IsSized key f c.hot_data (rw same low) v.sized;
        covered = omega (
          int_laws,
          parts_of_eq (total-store key f c.hot_data e hot),
          parts_of_eq same,
          v.covered,
        );
        bounded = v.bounded;
        limit = v.limit;
      }

  update_hot_data-IsAccounted :
      (key : String) (is_hit : Bool) (now : ℕ) (c : SmartCache Store)
      → IsAccounted c
      → IsAccounted (update_hot_data lru key is_hit now c)
  unfolding update_hot_data
  update_hot_data-IsAccounted key is_hit now c v = elim (Option-cases (lookup key c.hot_data)) [
    | inr (e, hot) ↦ elim (Bool-cases (ltb 3 (e.access_count + 1) && ltb e.ttl (10 * minute))) [
      | inl promoted ↦
          rw (hot, update_hot_data, promoted) (rewrite-IsAccounted key e _ _ c v hot refl)
      | inr same ↦
          rw (hot, update_hot_data, same) (rewrite-IsAccounted key e _ c.stats c v hot refl)
    ]
    | inl cold ↦ elim (Bool-cases is_hit) [
      | inl h ↦
          rw (cold, update_hot_data, h)
            (record {
              unique = store-Unique key (blank now) c.hot_data v.unique;
              sized = store-IsSized key (blank now) c.hot_data (omega arith) v.sized;
              covered = omega (
                int_laws,
                parts_of_eq (total-store_new key (blank now) c.hot_data cold),
                v.covered,
              );
              bounded = v.bounded;
              limit = v.limit;
            })
      | inr h ↦ rw (cold, update_hot_data, h) v
    ]
  ]

  get-IsAccounted :
      (key : String) (now : ℕ) (c : SmartCache Store)
      → IsAccounted c
      → IsAccounted (get lru key now c).0
  unfolding get
  get-IsAccounted key now c v = elim (Option-cases (lru.peek c.lru key)) [
    | inl miss ↦
        rw (miss, get)
          (record {
            unique = v.unique;
            sized = v.sized;
            covered = v.covered;
            bounded = v.bounded;
            limit = v.limit;
          })
    | inr (w, hit) ↦
        rw (hit, get)
          (update_hot_data-IsAccounted key true now
            (record c { lru = lru.touch c.lru key; stats = record_hit c.stats })
            (record {
              unique = v.unique;
              sized = v.sized;
              covered = v.covered;
              bounded = v.bounded;
              limit = v.limit;
            }))
  ]

  validate-IsAccounted :
      (key expected : String) (later : ℕ) (c : SmartCache Store) (found : Option (Value A))
      → IsAccounted c
      → IsAccounted (validate lru key expected later c found).0
  unfolding validate
  validate-IsAccounted key expected later c none v = v
  validate-IsAccounted key expected later c (some (plain w)) v = v
  validate-IsAccounted key expected later c (some (entry e)) v =
      let dropped = delete_key-IsAccounted key c v in
      elim (Bool-cases (ltb e.expires_at later)) [
        | inl late ↦ rw late dropped
        | inr fresh_enough ↦
            elim (Bool-cases (not (str_eq expected "") && not (str_eq e.checksum expected))) [
              | inl stale ↦ rw (fresh_enough, stale) dropped
              | inr good ↦ rw (fresh_enough, good) v
            ]
      ]

  -- The sizes that a call stores are not negative and leave room in 64 bits.
  abbrev pub IsSound : ℤ → Call lru → Type 0
  IsSound limit (set_call key value size cold old now) = Fits limit size
  IsSound limit _ = Unit

  pub perform-IsAccounted :
      (c : SmartCache Store) (call : Call lru)
      → IsAccounted c
      → IsSound c.max_memory call
      → IsAccounted (perform lru c call)
  unfolding perform get_with_validation
  perform-IsAccounted c (get_call key now) v s = get-IsAccounted key now c v
  perform-IsAccounted c (set_call key value size cold old now) v s =
      set-IsAccounted lru key value size cold old now c v s
  perform-IsAccounted c (delete_call key) v s = delete_key-IsAccounted key c v
  perform-IsAccounted c clear_call v s = clear-IsAccounted c v
  perform-IsAccounted c (cleanup_call now order) v s = cleanup-IsAccounted now order c v
  perform-IsAccounted c (validate_call key expected now later) v s =
      validate-IsAccounted key expected later _ _ (get-IsAccounted key now c v)
