-- ===== src/Cache/Leak.antt =====
-- The memory counter and the LRU's own evictions. The LRU drops a value when it holds a thousand
-- others, and its eviction callback does nothing: the key stays in the hot data.
use mcp_xlsm_server.Prelude.{
  ℕ, String, ◌≡◌, false, none, some, ℤ, ◌+ℤ◌, ◌≤ℤ◌, ltb_ℤ, add_int64-eq, arith, int_laws,
  parts_of_eq, lookup, string_eq,
}
use mcp_xlsm_server.Lru.{Lru}
use mcp_xlsm_server.Cache.{release_old, admit, make_room, set}
use mcp_xlsm_server.Cache.Entries.{HotEntry, SmartCache, Value, Pass}
use mcp_xlsm_server.Cache.Eviction.{hot_data-release_old}
use mcp_xlsm_server.Cache.Totals.{total, total-store}
use mcp_xlsm_server.Cache.Accounting.{IsAccounted, Fits, fresh, current_nonneg}

module _ {A : Type 0} (lru : Lru (Value A)) where
  open lru use {Store, peek}

  current_mem-release_old :
      (key : String) (c : SmartCache Store)
      → peek c.lru key ≡ none
      → (release_old lru key c).current_mem ≡ c.current_mem
  unfolding release_old
  current_mem-release_old key c dropped = ground arith

  -- `Set` of a key that the LRU has dropped and the hot data still records counts the new size and
  -- never takes the old one off: beyond what the hot data records, the counter grows by the old
  -- size, though there is room and the cache was well accounted.
  pub set_leaks :
      (key : String) (value : Value A) (size : ℤ) (cold old : Pass) (now : ℕ) (e : HotEntry)
      (c : SmartCache Store)
      → IsAccounted c
      → Fits c.max_memory size
      → c.current_mem +ℤ size ≤ℤ c.max_memory
      → lookup key c.hot_data ≡ some e
      → peek c.lru key ≡ none
      → let c' = (set lru key value size cold old now c).0 in
        c'.current_mem +ℤ total c.hot_data ≡ c.current_mem +ℤ total c'.hot_data +ℤ e.size
  unfolding set make_room admit
  set_leaks key value size cold old now e c v f fits hot dropped =
      let low = current_nonneg v in
      let exact = add_int64-eq c.current_mem size (omega int_laws) in
      let change = parts_of_eq (total-store key (fresh size now) c.hot_data e hot) in
      rw
        (
          exact,
          within,
          current_mem-release_old key c dropped,
          hot_data-release_old lru key c,
          exact,
        )
        (omega int_laws)
    where
      within : ltb_ℤ c.max_memory (c.current_mem +ℤ size) ≡ false
      within = ground arith
