-- ===== src/Cache/Reach.antt =====
-- What holds after any sequence of calls on a new cache.
use mcp_xlsm_server.Prelude.{
  ℕ, ◌<◌, ◌^◌, String, ◌≡◌, refl, ◌∙◌, ◌*◌, Bool, Option, none, some, List, [], ◌∷◌, inl, inr, ℤ,
  pos, leb_ℤ, arith, string_eq, Bool-cases, All, wrap_int64-eq,
}
use mcp_xlsm_server.Lru.{Lru}
use mcp_xlsm_server.Cache.{
  update_hot_data, get, drop_entry, evict_step, evict_pass, evict_both, evict_cold_data,
  release_old, admit, make_room, set, delete_key, clear, cleanup_step, cleanup, validate,
  get_with_validation, new_smart_cache,
}
use mcp_xlsm_server.Cache.Calls.{
  Call, get_call, set_call, delete_call, clear_call, cleanup_call, validate_call, perform, run,
}
use mcp_xlsm_server.Cache.Entries.{HotEntry, SmartCache, Value, entry, plain, Pass, is_cold, is_old}
use mcp_xlsm_server.Cache.Accounting.{IsAccounted}
use mcp_xlsm_server.Cache.Operations.{IsSound, perform-IsAccounted}

module _ {A : Type 0} (lru : Lru (Value A)) where
  open lru use {Store}

  max_memory-evict_step :
      (test : HotEntry → Bool) (key : String) (s : SmartCache Store × ℤ)
      → (evict_step lru test key s).0.max_memory ≡ s.0.max_memory
  unfolding evict_step drop_entry
  max_memory-evict_step test key s = ground arith

  max_memory-evict_pass :
      (test : HotEntry → Bool) (needed : ℤ) (order : List String) (s : SmartCache Store × ℤ)
      → (evict_pass lru test needed order s).0.max_memory ≡ s.0.max_memory
  unfolding evict_pass
  max_memory-evict_pass test needed [] s = refl
  max_memory-evict_pass test needed (key ∷ order) s = elim (Bool-cases (leb_ℤ needed s.1)) [
    | inl enough ↦ rw (enough, evict_pass)
    | inr more ↦
        rw (more, evict_pass)
          (max_memory-evict_pass test needed order _ ∙ max_memory-evict_step test key s)
  ]

  max_memory-evict_both :
      (needed : ℤ) (cold old : Pass) (c : SmartCache Store)
      → (evict_both lru needed cold old c).0.max_memory ≡ c.max_memory
  unfolding evict_both
  max_memory-evict_both needed cold old c = ground (
    arith,
    max_memory-evict_pass (is_cold cold.now) needed cold.order (c, pos 0),
    max_memory-evict_pass (is_old old.now) needed old.order
        (evict_pass lru (is_cold cold.now) needed cold.order (c, pos 0)),
  )

  max_memory-set :
      (key : String) (value : Value A) (size : ℤ) (cold old : Pass) (now : ℕ) (c : SmartCache Store)
      → (set lru key value size cold old now c).0.max_memory ≡ c.max_memory
  unfolding set make_room evict_cold_data admit release_old
  max_memory-set key value size cold old now c =
      ground (arith, max_memory-evict_both size cold old c)

  max_memory-delete_key :
      (key : String) (c : SmartCache Store) → (delete_key lru key c).max_memory ≡ c.max_memory
  unfolding delete_key drop_entry
  max_memory-delete_key key c = ground arith

  max_memory-cleanup :
      (now : ℕ) (order : List String) (c : SmartCache Store)
      → (cleanup lru now order c).max_memory ≡ c.max_memory
  unfolding cleanup cleanup_step drop_entry
  max_memory-cleanup now [] c = refl
  max_memory-cleanup now (key ∷ order) c = max_memory-cleanup now order _ ∙ step
    where
      step : (cleanup_step lru now key c).max_memory ≡ c.max_memory
      step = ground arith

  max_memory-get :
      (key : String) (now : ℕ) (c : SmartCache Store)
      → (get lru key now c).0.max_memory ≡ c.max_memory
  unfolding get update_hot_data
  max_memory-get key now c = ground arith

  max_memory-validate :
      (key expected : String) (later : ℕ) (c : SmartCache Store) (found : Option (Value A))
      → (validate lru key expected later c found).0.max_memory ≡ c.max_memory
  unfolding validate
  max_memory-validate key expected later c none = refl
  max_memory-validate key expected later c (some (plain w)) = refl
  max_memory-validate key expected later c (some (entry e)) =
      ground (arith, max_memory-delete_key key c)

  max_memory-perform :
      (c : SmartCache Store) (call : Call lru) → (perform lru c call).max_memory ≡ c.max_memory
  unfolding perform get_with_validation clear
  max_memory-perform c (get_call key now) = max_memory-get key now c
  max_memory-perform c (set_call key value size cold old now) =
      max_memory-set key value size cold old now c
  max_memory-perform c (delete_call key) = max_memory-delete_key key c
  max_memory-perform c clear_call = refl
  max_memory-perform c (cleanup_call now order) = max_memory-cleanup now order c
  max_memory-perform c (validate_call key expected now later) =
      max_memory-validate key expected later _ _ ∙ max_memory-get key now c

  run-IsAccounted :
      (limit : ℤ) (calls : List (Call lru)) (c : SmartCache Store)
      → IsAccounted c
      → c.max_memory ≡ limit
      → All (IsSound lru limit) calls
      → IsAccounted (run lru c calls) × ((run lru c calls).max_memory ≡ limit)
  unfolding run
  run-IsAccounted limit [] c v same s = (v, same)
  run-IsAccounted limit (call ∷ calls) c v same s =
      run-IsAccounted limit calls _ (perform-IsAccounted lru c call v (rw same s.0))
        (max_memory-perform c call ∙ same) s.1

  -- A new cache of `mb` megabytes, whatever is called on it, whichever clock readings and map orders
  -- the calls meet, never counts more memory than its limit, and never less than the sizes that its
  -- hot data records. The limit is below 2 ^ 63 bytes, and the sizes stored are not negative and
  -- leave room for one more in 64 bits.
  pub new_smart_cache-run-IsAccounted :
      (mb : ℕ) (calls : List (Call lru))
      → mb < 2 ^ 43
      → All (IsSound lru (pos (mb * (1024 * 1024)))) calls
      → IsAccounted (run lru (new_smart_cache lru (pos mb)) calls)
        × ((run lru (new_smart_cache lru (pos mb)) calls).max_memory ≡ pos (mb * (1024 * 1024)))
  unfolding new_smart_cache
  new_smart_cache-run-IsAccounted mb calls small s =
      let exact = wrap_int64-eq (pos (mb * (1024 * 1024))) (omega arith) in
      run-IsAccounted (pos (mb * (1024 * 1024))) calls _
        (record {
          unique = tt;
          sized = tt;
          covered = omega arith;
          bounded = rw exact (omega arith);
          limit = rw exact (omega arith);
        })
        exact s
