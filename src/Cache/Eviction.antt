-- ===== src/Cache/Eviction.antt =====
-- Which entries `evictColdData` may drop, and when it may give up.
use mcp_xlsm_server.Prelude.{
  ℕ, String, ◌≡◌, ◌≢◌, refl, ap, Bool, true, false, some, List, [], ◌∷◌, inl, inr, ℤ, pos, leb_ℤ,
  ltb_ℤ, add_int64, arith, lookup, string_eq, eq_iff, lookup-store, lookup-delete, beq_ne,
  Bool-cases,
}
use mcp_xlsm_server.Lru.{Lru}
use mcp_xlsm_server.Cache.{
  drop_entry, evict_step, evict_pass, evict_both, evict_cold_data, release_old, admit, make_room,
  set,
}
use mcp_xlsm_server.Cache.Entries.{HotEntry, SmartCache, Value, Pass, is_cold, is_old}
use mcp_xlsm_server.Cache.Cleanup.{contains}
use mcp_xlsm_server.Cache.Accounting.{fresh}

module _ {A : Type 0} (lru : Lru (Value A)) where
  open lru use {Store, peek}

  -- The key is where it was, in the hot data and in the LRU.
  abbrev IsKept : String → HotEntry → SmartCache Store → SmartCache Store → Type 0
  IsKept j e c c' = (lookup j c'.hot_data ≡ some e) × (peek c'.lru j ≡ peek c.lru j)

  evict_step-IsKept :
      (test : HotEntry → Bool) (key j : String) (e : HotEntry) (c : SmartCache Store)
      (s : SmartCache Store × ℤ)
      → test e ≡ false
      → IsKept j e c s.0
      → IsKept j e c (evict_step lru test key s).0
  unfolding evict_step drop_entry
  evict_step-IsKept test key j e c s spared kept = ground (
    arith,
    eq_iff key j,
    lookup-delete key j s.0.hot_data,
    lru.peek-remove s.0.lru key j,
    λ (p : key ≡ j). ap (λ (k : String). lookup k s.0.hot_data) p,
  )

  evict_pass-IsKept :
      (test : HotEntry → Bool) (needed : ℤ) (order : List String) (j : String) (e : HotEntry)
      (c : SmartCache Store) (s : SmartCache Store × ℤ)
      → test e ≡ false
      → IsKept j e c s.0
      → IsKept j e c (evict_pass lru test needed order s).0
  unfolding evict_pass
  evict_pass-IsKept test needed [] j e c s spared kept = kept
  evict_pass-IsKept test needed (key ∷ order) j e c s spared kept =
      let step = evict_step-IsKept test key j e c s spared kept in
      elim (Bool-cases (leb_ℤ needed s.1)) [
        | inl enough ↦ rw (enough, evict_pass) kept
        | inr more ↦ rw (more, evict_pass) (evict_pass-IsKept test needed order j e c _ spared step)
      ]

  evict_both-IsKept :
      (size : ℤ) (cold old : Pass) (j : String) (e : HotEntry) (c : SmartCache Store)
      → lookup j c.hot_data ≡ some e
      → is_cold cold.now e ≡ false
      → is_old old.now e ≡ false
      → IsKept j e c (evict_both lru size cold old c).0
  unfolding evict_both
  evict_both-IsKept size cold old j e c hot warm recent =
      let first =
        evict_pass-IsKept (is_cold cold.now) size cold.order j e c (c, pos 0) warm (hot, refl) in
      let second = evict_pass-IsKept (is_old old.now) size old.order j e c _ recent first in
      elim (Bool-cases
        (ltb_ℤ (evict_pass lru (is_cold cold.now) size cold.order (c, pos 0)).1 size)) [
          | inl short ↦ rw short second
          | inr enough ↦ rw enough first
        ]

  make_room-IsKept :
      (size : ℤ) (cold old : Pass) (j : String) (e : HotEntry) (c : SmartCache Store)
      → lookup j c.hot_data ≡ some e
      → is_cold cold.now e ≡ false
      → is_old old.now e ≡ false
      → IsKept j e c (make_room lru size cold old c).0
  unfolding make_room evict_cold_data
  make_room-IsKept size cold old j e c hot warm recent =
      elim (Bool-cases (ltb_ℤ c.max_memory (add_int64 c.current_mem size))) [
        | inl over ↦ rw over (evict_both-IsKept size cold old j e c hot warm recent)
        | inr room ↦ rw room (hot, refl)
      ]

  pub hot_data-release_old :
      (key : String) (c : SmartCache Store) → (release_old lru key c).hot_data ≡ c.hot_data
  unfolding release_old
  hot_data-release_old key c = ground arith

  -- However short of memory, `Set` drops no other hot entry that is neither cold (fewer than two
  -- uses, and none in five minutes) nor old (no use in fifteen).
  pub lookup-set_recent :
      (key j : String) (value : Value A) (size : ℤ) (cold old : Pass) (now : ℕ) (e : HotEntry)
      (c : SmartCache Store)
      → key ≢ j
      → lookup j c.hot_data ≡ some e
      → is_cold cold.now e ≡ false
      → is_old old.now e ≡ false
      → lookup j (set lru key value size cold old now c).0.hot_data ≡ some e
  unfolding set admit
  lookup-set_recent key j value size cold old now e c other hot warm recent =
      let kept = make_room-IsKept size cold old j e c hot warm recent in
      let c' = (make_room lru size cold old c).0 in
      elim (Bool-cases (make_room lru size cold old c).1) [
        | inl room ↦
            rw
              (
                room,
                hot_data-release_old key c',
                lookup-store key j (fresh size now) c'.hot_data,
                beq_ne key j other,
              )
              kept.0
        | inr full ↦ rw full kept.0
      ]

  -- What an eviction leaves was there before it, and a visit spares only what its test spares.
  evict_step_back :
      (test : HotEntry → Bool) (key j : String) (e : HotEntry) (s : SmartCache Store × ℤ)
      → lookup j (evict_step lru test key s).0.hot_data ≡ some e
      → lookup j s.0.hot_data ≡ some e
  unfolding evict_step drop_entry
  evict_step_back test key j e s h = ground (arith, eq_iff key j, lookup-delete key j s.0.hot_data)

  evict_step_spares :
      (test : HotEntry → Bool) (key j : String) (e : HotEntry) (s : SmartCache Store × ℤ)
      → key ≡ j
      → lookup j (evict_step lru test key s).0.hot_data ≡ some e
      → test e ≡ false
  unfolding evict_step drop_entry
  evict_step_spares test key j e s p h = ground (
    arith,
    eq_iff key j,
    lookup-delete key j s.0.hot_data,
    ap (λ (k : String). lookup k s.0.hot_data) p,
  )

  evict_pass_back :
      (test : HotEntry → Bool) (needed : ℤ) (order : List String) (j : String) (e : HotEntry)
      (s : SmartCache Store × ℤ)
      → lookup j (evict_pass lru test needed order s).0.hot_data ≡ some e
      → lookup j s.0.hot_data ≡ some e
  unfolding evict_pass
  evict_pass_back test needed [] j e s h = h
  evict_pass_back test needed (key ∷ order) j e s h = ground (
    arith,
    evict_pass_back test needed order j e (evict_step lru test key s),
    evict_step_back test key j e s,
  )

  -- A loop that ends short of its target has dropped every entry it visits that passes its test.
  evict_pass_visited :
      (test : HotEntry → Bool) (needed : ℤ) (order : List String) (j : String) (e : HotEntry)
      (s : SmartCache Store × ℤ)
      → leb_ℤ needed (evict_pass lru test needed order s).1 ≡ false
      → contains j order ≡ true
      → lookup j (evict_pass lru test needed order s).0.hot_data ≡ some e
      → test e ≡ false
  unfolding evict_pass
  evict_pass_visited test needed [] j e s short seen hot = cc
  evict_pass_visited test needed (key ∷ order) j e s short seen hot =
      let next = evict_step lru test key s in
      ground (
        arith,
        eq_iff key j,
        evict_pass_visited test needed order j e next,
        evict_pass_back test needed order j e next,
        evict_step_spares test key j e s,
      )

  evict_both_short :
      (size : ℤ) (cold old : Pass) (j : String) (e : HotEntry) (c : SmartCache Store)
      → leb_ℤ size (evict_both lru size cold old c).1 ≡ false
      → contains j old.order ≡ true
      → lookup j (evict_both lru size cold old c).0.hot_data ≡ some e
      → (lookup j c.hot_data ≡ some e) × (is_old old.now e ≡ false)
  unfolding evict_both
  evict_both_short size cold old j e c short seen hot =
      let first = evict_pass lru (is_cold cold.now) size cold.order (c, pos 0) in
      ground (
        arith,
        evict_pass_visited (is_old old.now) size old.order j e first,
        evict_pass_back (is_old old.now) size old.order j e first,
        evict_pass_back (is_cold cold.now) size cold.order j e (c, pos 0),
      )

  -- `Set` gives up only when nothing is left that it may drop: every entry that its second loop
  -- would visit and that is still there was there before, and was used in the last fifteen minutes.
  pub set_full :
      (key j : String) (value : Value A) (size : ℤ) (cold old : Pass) (now : ℕ) (e : HotEntry)
      (c : SmartCache Store)
      → (set lru key value size cold old now c).1 ≡ false
      → contains j old.order ≡ true
      → lookup j (set lru key value size cold old now c).0.hot_data ≡ some e
      → (lookup j c.hot_data ≡ some e) × (is_old old.now e ≡ false)
  unfolding set make_room evict_cold_data
  set_full key j value size cold old now e c full seen hot =
      ground (arith, evict_both_short size cold old j e c)
