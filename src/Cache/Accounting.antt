-- ===== src/Cache/Accounting.antt =====
-- The memory accounting of `SmartCache`, and that every operation keeps it.
use mcp_xlsm_server.Prelude.{
  ℕ, ◌+◌, ◌*◌, ◌<◌, ◌^◌, String, ◌≡◌, refl, Bool, true, some, List, [], ◌∷◌, inl, inr, ℤ, pos,
  pos_part, neg_part, ◌+ℤ◌, ◌-ℤ◌, ◌≤ℤ◌, leb_ℤ, ltb_ℤ, sub_int64, add_int64-eq, sub_int64-eq, arith,
  int_laws, parts_of_eq, leb_ℤ→le, lookup, delete, string_eq, Bool-cases, Option-cases, Unique,
  delete-Unique,
}
use mcp_xlsm_server.Lru.{Lru}
use mcp_xlsm_server.Cache.{drop_entry, evict_step, evict_pass, evict_both, evict_cold_data}
use mcp_xlsm_server.Cache.Entries.{minute, HotEntry, SmartCache, Value, Pass, is_cold, is_old}
use mcp_xlsm_server.Cache.Totals.{
  total, IsSized, total_nonneg, size_le_total, total-delete, delete-IsSized,
}

-- The recorded sizes never exceed the memory counter, nor the counter the limit.
pub record IsAccounted {Store : Type 0} (c : SmartCache Store) : Type 0 where
  pub unique : Unique c.hot_data
  pub sized : IsSized c.hot_data
  pub covered : total c.hot_data ≤ℤ c.current_mem
  pub bounded : c.current_mem ≤ℤ c.max_memory
  pub limit : pos_part c.max_memory < 2 ^ 63

-- A size that the counter's type leaves room for.
pub record Fits (max_memory size : ℤ) : Type 0 where
  pub nonneg : pos 0 ≤ℤ size
  pub room : pos_part max_memory + pos_part size < 2 ^ 63

pub current_nonneg :
    {Store : Type 0} {c : SmartCache Store} → IsAccounted c → pos 0 ≤ℤ c.current_mem
current_nonneg {c = c} v = omega (arith, total_nonneg c.hot_data v.sized)

-- The entry that `Set` records.
abbrev pub fresh : ℤ → ℕ → HotEntry
fresh size now = record { access_count = 1; last_access = now; ttl = 5 * minute; size = size }

-- What an eviction that began at `start` has done so far.
pub record IsEvicting {Store : Type 0} (start : SmartCache Store) (s : SmartCache Store × ℤ)
    : Type 0 where
  pub accounted : IsAccounted s.0
  pub nonneg : pos 0 ≤ℤ s.1
  pub balance :
      pos_part s.0.current_mem + pos_part s.1 + neg_part start.current_mem
      ≡ pos_part start.current_mem + neg_part s.0.current_mem + neg_part s.1
  pub same_max : s.0.max_memory ≡ start.max_memory

module _ {A : Type 0} (lru : Lru (Value A)) where
  open lru use {Store}

  pub drop_entry-IsAccounted :
      (key : String) (e : HotEntry) (c : SmartCache Store)
      → IsAccounted c
      → lookup key c.hot_data ≡ some e
      → IsAccounted (drop_entry lru key e c)
        × ((drop_entry lru key e c).current_mem ≡ c.current_mem -ℤ e.size)
  unfolding drop_entry
  drop_entry-IsAccounted key e c v h =
      let (low, high) = size_le_total key c.hot_data e v.sized h in
      let nonneg = total_nonneg c.hot_data v.sized in
      let rest = delete-IsSized key c.hot_data v.sized in
      let rest_nonneg = total_nonneg (delete key c.hot_data) rest in
      let split = parts_of_eq (total-delete key c.hot_data e v.unique h) in
      let exact : sub_int64 c.current_mem e.size ≡ c.current_mem -ℤ e.size =
        sub_int64-eq _ _ (omega int_laws) in
      (
        record {
          unique = delete-Unique key c.hot_data v.unique;
          sized = rest;
          covered = rw exact (omega int_laws);
          bounded = rw exact (omega int_laws);
          limit = v.limit;
        },
        exact,
      )

  evict_step-IsEvicting :
      (test : HotEntry → Bool) (key : String) (start : SmartCache Store) (s : SmartCache Store × ℤ)
      → IsAccounted start
      → IsEvicting start s
      → IsEvicting start (evict_step lru test key s)
  unfolding evict_step
  evict_step-IsEvicting test key start (c, freed) ok v =
      elim (Option-cases (lookup key c.hot_data)) [
        | inl miss ↦ rw (miss, evict_step) v
        | inr (e, hit) ↦ elim (Bool-cases (test e)) [
          | inr spared ↦ rw (hit, evict_step, spared) v
          | inl picked ↦
              let (after, exact) = drop_entry-IsAccounted key e c v.accounted hit in
              let low = (size_le_total key c.hot_data e v.accounted.sized hit).0 in
              let added =
                add_int64-eq freed e.size
                  (omega (int_laws, parts_of_eq exact, current_nonneg after)) in
              rw (hit, evict_step, picked, added)
                (record {
                  accounted = record {
                    unique = after.unique;
                    sized = after.sized;
                    covered = after.covered;
                    bounded = after.bounded;
                    limit = after.limit;
                  };
                  nonneg = omega int_laws;
                  balance = omega (int_laws, parts_of_eq exact);
                  same_max = unfold drop_entry in v.same_max;
                })
        ]
      ]

  evict_pass-IsEvicting :
      (test : HotEntry → Bool) (needed : ℤ) (order : List String) (start : SmartCache Store)
      (s : SmartCache Store × ℤ)
      → IsAccounted start
      → IsEvicting start s
      → IsEvicting start (evict_pass lru test needed order s)
  unfolding evict_pass
  evict_pass-IsEvicting test needed [] start s ok v = v
  evict_pass-IsEvicting test needed (key ∷ order) start s ok v =
      elim (Bool-cases (leb_ℤ needed s.1)) [
        | inl enough ↦ rw (enough, evict_pass) v
        | inr more ↦
            rw (more, evict_pass)
              (evict_pass-IsEvicting test needed order start _ ok
                (evict_step-IsEvicting test key start s ok v))
      ]

  evict_both-IsEvicting :
      (needed : ℤ) (cold old : Pass) (c : SmartCache Store)
      → IsAccounted c
      → IsEvicting c (evict_both lru needed cold old c)
  unfolding evict_both
  evict_both-IsEvicting needed cold old c v =
      let none_yet : IsEvicting c (c, pos 0) = record {
        accounted = v;
        nonneg = omega arith;
        balance = omega arith;
        same_max = refl;
      } in
      let first = evict_pass-IsEvicting (is_cold cold.now) needed cold.order c _ v none_yet in
      elim (Bool-cases
        (ltb_ℤ (evict_pass lru (is_cold cold.now) needed cold.order (c, pos 0)).1 needed)) [
          | inl short ↦
              rw short (evict_pass-IsEvicting (is_old old.now) needed old.order c _ v first)
          | inr enough ↦ rw enough first
        ]

  -- An eviction keeps the accounting and the limit. If it reports success, it has made room for
  -- what was asked.
  pub evict_cold_data-IsAccounted :
      (needed : ℤ) (cold old : Pass) (c : SmartCache Store)
      → IsAccounted c
      → IsAccounted (evict_cold_data lru needed cold old c).0
        × ((evict_cold_data lru needed cold old c).0.max_memory ≡ c.max_memory)
        × ((evict_cold_data lru needed cold old c).1 ≡ true
            → (evict_cold_data lru needed cold old c).0.current_mem +ℤ needed ≤ℤ c.current_mem)
  unfolding evict_cold_data
  evict_cold_data-IsAccounted needed cold old c v =
      let e = evict_both-IsEvicting needed cold old c v in
      (
        e.accounted,
        e.same_max,
        λ enough.
            omega
              (int_laws, leb_ℤ→le needed (evict_both lru needed cold old c).1 enough, e.balance),
      )
