-- ===== src/Cache/Storing.antt =====
-- `Set` keeps the memory accounting.
use mcp_xlsm_server.Prelude.{
  ℕ, ◌<◌, ◌^◌, String, ◌≡◌, refl, true, inl, inr, ℤ, pos, pos_part, ◌+ℤ◌, ◌-ℤ◌, ◌≤ℤ◌, ltb_ℤ,
  add_int64-eq, sub_int64-eq, int_laws, parts_of_eq, ltb_ℤ-false, lookup, store, string_eq,
  Bool-cases, Option-cases, Unique, store-Unique,
}
use mcp_xlsm_server.Lru.{Lru}
use mcp_xlsm_server.Cache.{release_old, admit, make_room, set}
use mcp_xlsm_server.Cache.Entries.{SmartCache, Value, Pass}
use mcp_xlsm_server.Cache.Totals.{
  total, IsSized, size_le_total, total-store, total-store-le, store-IsSized,
}
use mcp_xlsm_server.Cache.Accounting.{
  IsAccounted, Fits, fresh, current_nonneg, evict_cold_data-IsAccounted,
}

module _ {A : Type 0} (lru : Lru (Value A)) where
  open lru use {Store}

  admit-IsAccounted :
      (key : String) (value : Value A) (size : ℤ) (now : ℕ) (c : SmartCache Store)
      → Unique c.hot_data
      → IsSized c.hot_data
      → pos_part c.max_memory < 2 ^ 63
      → pos 0 ≤ℤ c.current_mem
      → pos 0 ≤ℤ size
      → c.current_mem +ℤ size ≤ℤ c.max_memory
      → total (store key (fresh size now) c.hot_data) ≤ℤ c.current_mem +ℤ size
      → IsAccounted (admit lru key value size now c)
  unfolding admit
  admit-IsAccounted key value size now c u s limit low nonneg fits covered =
      let exact = add_int64-eq c.current_mem size (omega int_laws) in
      record {
        unique = store-Unique key (fresh size now) c.hot_data u;
        sized = store-IsSized key (fresh size now) c.hot_data nonneg s;
        covered = rw exact covered;
        bounded = rw exact fits;
        limit = limit;
      }

  -- The last part of `Set`: with room for the new size, the accounting holds again after the old
  -- value is taken off and the new one counted.
  pub replace-IsAccounted :
      (key : String) (value : Value A) (size : ℤ) (now : ℕ) (c : SmartCache Store)
      → IsAccounted c
      → pos 0 ≤ℤ size
      → c.current_mem +ℤ size ≤ℤ c.max_memory
      → IsAccounted (admit lru key value size now (release_old lru key c))
  unfolding release_old
  replace-IsAccounted key value size now c v nonneg fits =
      let low = current_nonneg v in
      let kept =
        admit-IsAccounted key value size now (record c { lru = lru.touch c.lru key }) v.unique
          v.sized v.limit low nonneg fits
          (omega (int_laws, total-store-le key (fresh size now) c.hot_data v.sized)) in
      elim (Option-cases (lru.peek c.lru key)) [
        | inl miss ↦ rw (miss, release_old) kept
        | inr (w, hit) ↦ elim (Option-cases (lookup key c.hot_data)) [
          | inl cold ↦ rw (hit, release_old, cold) kept
          | inr (old, hot) ↦
              let (at_least, at_most) = size_le_total key c.hot_data old v.sized hot in
              let exact = sub_int64-eq c.current_mem old.size (omega int_laws) in
              let change = parts_of_eq (total-store key (fresh size now) c.hot_data old hot) in
              rw (hit, release_old, hot, exact)
                (admit-IsAccounted key value size now
                  (record c { lru = lru.touch c.lru key; current_mem = c.current_mem -ℤ old.size })
                  v.unique v.sized v.limit (omega int_laws) nonneg (omega int_laws)
                  (omega int_laws))
        ]
      ]

  make_room-IsAccounted :
      (size : ℤ) (cold old : Pass) (c : SmartCache Store)
      → IsAccounted c
      → Fits c.max_memory size
      → IsAccounted (make_room lru size cold old c).0
        × ((make_room lru size cold old c).0.max_memory ≡ c.max_memory)
        × ((make_room lru size cold old c).1 ≡ true
            → (make_room lru size cold old c).0.current_mem +ℤ size ≤ℤ c.max_memory)
  unfolding make_room
  make_room-IsAccounted size cold old c v f =
      let low = current_nonneg v in
      let (kept, same, freed) = evict_cold_data-IsAccounted lru size cold old c v in
      let exact = add_int64-eq c.current_mem size (omega int_laws) in
      elim (Bool-cases (ltb_ℤ c.max_memory (c.current_mem +ℤ size))) [
        | inl over ↦ rw (exact, over) (kept, same, λ done. omega (int_laws, freed done))
        | inr room ↦
            rw (exact, room) (v, refl, λ _. ltb_ℤ-false c.max_memory (c.current_mem +ℤ size) room)
      ]

  -- `Set` keeps the accounting whether it stores the value or gives up.
  pub set-IsAccounted :
      (key : String) (value : Value A) (size : ℤ) (cold old : Pass) (now : ℕ) (c : SmartCache Store)
      → IsAccounted c
      → Fits c.max_memory size
      → IsAccounted (set lru key value size cold old now c).0
  unfolding set
  set-IsAccounted key value size cold old now c v f =
      let (kept, same, fits) = make_room-IsAccounted size cold old c v f in
      elim (Bool-cases (make_room lru size cold old c).1) [
        | inl room ↦ rw room (
            replace-IsAccounted key value size now (make_room lru size cold old c).0 kept f.nonneg
              (rw same (fits room)))
        | inr full ↦ rw full kept
      ]
