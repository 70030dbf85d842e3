-- ===== src/Cache/Usage.antt =====
-- What repeated reads record: hits, misses, and the promotion of a key that is read often.
use mcp_xlsm_server.Prelude.{
  ℕ, zero, suc, ◌+◌, ◌*◌, String, ◌≡◌, refl, ◌∙◌, true, ◌&&◌, some, inl, inr, ℤ, ltb, arith, lookup,
  string_eq, lookup-store_self, Bool-cases, if◌then◌else◌,
}
use mcp_xlsm_server.Lru.{Lru}
use mcp_xlsm_server.Cache.{update_hot_data, get, release_old, admit, make_room, set}
use mcp_xlsm_server.Cache.Entries.{minute, HotEntry, SmartCache, Value, Pass}
use mcp_xlsm_server.Cache.Accounting.{fresh}

module _ {A : Type 0} (lru : Lru (Value A)) where
  open lru use {Store, peek}

  -- `n` reads of a key, at the clock readings that `at` gives.
  abbrev pub get_times : ℕ → String → (ℕ → ℕ) → SmartCache Store → SmartCache Store
  get_times zero key at c = c
  get_times (suc n) key at c = (get lru key (at n) (get_times n key at c)).0

  abbrev pub last_read : ℕ → ℕ → (ℕ → ℕ) → ℕ
  last_read zero now at = now
  last_read (suc n) now at = at n

  -- The entry after `n` reads of a fresh one.
  abbrev pub read_entry : ℕ → ℤ → ℕ → (ℕ → ℕ) → HotEntry
  read_entry n size now at = record {
    access_count = n + 1;
    last_access = last_read n now at;
    ttl = if ltb 2 n then 10 * minute else 5 * minute;
    size = size;
  }

  abbrev pub promotions : ℕ → ℕ
  promotions n = if ltb 2 n then 1 else 0

  record IsRead (key : String) (v : Value A) (e : HotEntry) (hits promoted : ℕ)
      (c : SmartCache Store) : Type 0 where
    held : peek c.lru key ≡ some v
    hot : lookup key c.hot_data ≡ some e
    counted : c.stats.hits ≡ hits
    raised : c.stats.hot_promotions ≡ promoted

  get-IsRead :
      (key : String) (v : Value A) (n : ℕ) (size : ℤ) (now : ℕ) (at : ℕ → ℕ) (hits raised : ℕ)
      (c : SmartCache Store)
      → IsRead key v (read_entry n size now at) (hits + n) (raised + promotions n) c
      → IsRead key v
          (read_entry (suc n) size now at)
          (hits + suc n)
          (raised + promotions (suc n))
          (get lru key (at n) c).0
  unfolding get update_hot_data
  get-IsRead key v n size now at hits raised c r =
      rw (r.held, get, r.hot, update_hot_data)
        (elim (Bool-cases
          (ltb 3 (n + 1 + 1) && ltb (if ltb 2 n then 10 * minute else 5 * minute) (10 * minute))) [
            | inl now_hot ↦ rw now_hot (record {
              held = lru.peek-touch c.lru key key ∙ r.held;
              hot = lookup-store_self key _ _ c.hot_data (ground arith);
              counted = ground arith;
              raised = ground arith;
            })
            | inr same ↦ rw same (record {
              held = lru.peek-touch c.lru key key ∙ r.held;
              hot = lookup-store_self key _ _ c.hot_data (ground arith);
              counted = ground arith;
              raised = ground arith;
            })
          ])

  get_times-IsRead :
      (key : String) (v : Value A) (n : ℕ) (size : ℤ) (now : ℕ) (at : ℕ → ℕ) (hits raised : ℕ)
      (c : SmartCache Store)
      → IsRead key v (fresh size now) hits raised c
      → IsRead key v
          (read_entry n size now at)
          (hits + n)
          (raised + promotions n)
          (get_times n key at c)
  get_times-IsRead key v zero size now at hits raised c r = record {
    held = r.held;
    hot = r.hot;
    counted = omega arith;
    raised = omega arith;
  }
  get_times-IsRead key v (suc n) size now at hits raised c r =
      get-IsRead key v n size now at hits raised _
        (get_times-IsRead key v n size now at hits raised c r)

  set-IsRead :
      (key : String) (value : Value A) (size : ℤ) (cold old : Pass) (now : ℕ) (c : SmartCache Store)
      → (set lru key value size cold old now c).1 ≡ true
      → let c' = (set lru key value size cold old now c).0 in
        IsRead key value (fresh size now) c'.stats.hits c'.stats.hot_promotions c'
  unfolding set admit
  set-IsRead key value size cold old now c done =
      let c' = (make_room lru size cold old c).0 in
      elim (Bool-cases (make_room lru size cold old c).1) [
        | inl room ↦ rw room (record {
          held = lru.peek-add_self (release_old lru key c').lru key value;
          hot = lookup-store_self key _ _ _ refl;
          counted = refl;
          raised = refl;
        })
        | inr full ↦ absurd (ground arith)
      ]

  -- After a `Set` that returns true, `n` reads of the key all hit: the value is still held, the entry
  -- counts one use more than there were reads, and its TTL is ten minutes from the third read on and
  -- five before; the statistics count `n` hits, and one promotion if there were three reads or more.
  pub get_times-set :
      (key : String) (value : Value A) (size : ℤ) (cold old : Pass) (now n : ℕ) (at : ℕ → ℕ)
      (c : SmartCache Store)
      → (set lru key value size cold old now c).1 ≡ true
      → let c' = (set lru key value size cold old now c).0 in
        let d = get_times n key at c' in
        (peek d.lru key ≡ some value)
        × (lookup key d.hot_data ≡ some (read_entry n size now at))
        × (d.stats.hits ≡ c'.stats.hits + n)
        × (d.stats.hot_promotions ≡ c'.stats.hot_promotions + promotions n)
  get_times-set key value size cold old now n at c done =
      let r =
        get_times-IsRead key value n size now at _ _ _
          (set-IsRead key value size cold old now c done) in
      (r.held, r.hot, r.counted, r.raised)
