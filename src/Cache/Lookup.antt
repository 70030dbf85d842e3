-- ===== src/Cache/Lookup.antt =====
-- What a `Get` finds after the other calls.
use mcp_xlsm_server.Prelude.{
  ℕ, String, ◌≡◌, ◌≢◌, ◌⊎◌, refl, Bool, true, none, some, List, [], ◌∷◌, inl, ℤ, pos, arith, lookup,
  string_eq, str_eq, eq_iff, lookup-delete, if◌then◌else◌,
}
use mcp_xlsm_server.Lru.{Lru}
use mcp_xlsm_server.Cache.{
  update_hot_data, get, drop_entry, evict_step, evict_pass, evict_both, evict_cold_data,
  release_old, admit, make_room, set, delete_key,
}
use mcp_xlsm_server.Cache.Entries.{HotEntry, SmartCache, Value, Pass, is_cold, is_old}

module _ {A : Type 0} (lru : Lru (Value A)) where
  open lru use {Store, peek}

  -- A loop of evictions leaves a key as it is or removes it.
  peek-evict_step :
      (test : HotEntry → Bool) (key j : String) (s : SmartCache Store × ℤ)
      → (peek (evict_step lru test key s).0.lru j ≡ peek s.0.lru j)
        ⊎ (peek (evict_step lru test key s).0.lru j ≡ none)
  unfolding evict_step drop_entry
  peek-evict_step test key j s = ground (arith, lru.peek-remove s.0.lru key j)

  peek-evict_pass :
      (test : HotEntry → Bool) (needed : ℤ) (order : List String) (j : String)
      (s : SmartCache Store × ℤ)
      → (peek (evict_pass lru test needed order s).0.lru j ≡ peek s.0.lru j)
        ⊎ (peek (evict_pass lru test needed order s).0.lru j ≡ none)
  unfolding evict_pass
  peek-evict_pass test needed [] j s = inl refl
  peek-evict_pass test needed (key ∷ order) j s = ground (
    arith,
    peek-evict_pass test needed order j (evict_step lru test key s),
    peek-evict_step test key j s,
  )

  pub peek-make_room :
      (size : ℤ) (cold old : Pass) (j : String) (c : SmartCache Store)
      → (peek (make_room lru size cold old c).0.lru j ≡ peek c.lru j)
        ⊎ (peek (make_room lru size cold old c).0.lru j ≡ none)
  unfolding make_room evict_cold_data evict_both
  peek-make_room size cold old j c = ground (
    arith,
    peek-evict_pass (is_cold cold.now) size cold.order j (c, pos 0),
    peek-evict_pass (is_old old.now) size old.order j
        (evict_pass lru (is_cold cold.now) size cold.order (c, pos 0)),
  )

  peek-release_old :
      (key j : String) (c : SmartCache Store) → peek (release_old lru key c).lru j ≡ peek c.lru j
  unfolding release_old
  peek-release_old key j c = ground (arith, lru.peek-touch c.lru key j)

  -- `Get` returns what the LRU holds, and no `Get` changes what a later one returns.
  pub get_lem :
      (key j : String) (now : ℕ) (c : SmartCache Store)
      → ((get lru key now c).1 ≡ peek c.lru key) × (peek (get lru key now c).0.lru j ≡ peek c.lru j)
  unfolding get update_hot_data
  get_lem key j now c = ground (arith, lru.peek-touch c.lru key j)

  -- After a `Set` that returns true, a `Get` of the key returns the value.
  pub get-set_self :
      (key : String) (value : Value A) (size : ℤ) (cold old : Pass) (now later : ℕ)
      (c : SmartCache Store)
      → (set lru key value size cold old now c).1 ≡ true
      → (get lru key later (set lru key value size cold old now c).0).1 ≡ some value
  unfolding set admit get
  get-set_self key value size cold old now later c h = ground (
    arith,
    lru.peek-add_self (release_old lru key (make_room lru size cold old c).0).lru key value,
  )

  -- After a `Set`, successful or not, a `Get` of another key returns what it returned before, or
  -- misses.
  pub get-set_ne :
      (key j : String) (value : Value A) (size : ℤ) (cold old : Pass) (now later : ℕ)
      (c : SmartCache Store)
      → key ≢ j
      → ((get lru j later (set lru key value size cold old now c).0).1 ≡ (get lru j later c).1)
        ⊎ ((get lru j later (set lru key value size cold old now c).0).1 ≡ none)
  unfolding set admit get
  get-set_ne key j value size cold old now later c h =
      let c' = (make_room lru size cold old c).0 in
      ground (
        arith,
        lru.peek-add_ne (release_old lru key c').lru key j value,
        peek-release_old key j c',
        peek-make_room size cold old j c,
      )

  -- After `Delete`, a `Get` of the key misses, and the hot data has forgotten it; every other key is
  -- found as before in both.
  pub get-delete_key :
      (key j : String) (now : ℕ) (c : SmartCache Store)
      → ((get lru j now (delete_key lru key c)).1
          ≡ (if str_eq key j then none else (get lru j now c).1))
        × (lookup j (delete_key lru key c).hot_data
            ≡ (if str_eq key j then none else lookup j c.hot_data))
  unfolding delete_key drop_entry get
  get-delete_key key j now c =
      ground (arith, lru.peek-remove c.lru key j, lookup-delete key j c.hot_data, eq_iff key j)
