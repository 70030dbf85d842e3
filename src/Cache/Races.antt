-- ===== src/Cache/Races.antt =====
-- A validated read whose `Delete` comes after another thread's `Set` of the key.
use mcp_xlsm_server.Prelude.{
  ℕ, String, [], ◌∷◌, ◌≡◌, refl, sym, ◌∙◌, true, none, some, ℤ, arith, beq_self, string_eq, eq_iff,
}
use mcp_xlsm_server.Lru.{Lru}
use mcp_xlsm_server.Cache.{get, set, set_with_metadata, delete_key, get_with_validation}
use mcp_xlsm_server.Cache.Calls.{set_call, perform}
use mcp_xlsm_server.Cache.Entries.{SmartCache, Value, entry, Pass, CacheEntry}
use mcp_xlsm_server.Cache.Accounting.{Fits}
use mcp_xlsm_server.Cache.Lookup.{get_lem, get-set_self, get-delete_key}
use mcp_xlsm_server.Cache.Validation.{IsStale, get_with_validation_lem}
use mcp_xlsm_server.Cache.Threads.{
  System, Reach, looked, called, tested, removed, start, after_step, call, look, check, remove,
  idle, is_rejected,
}

IsStale-is_rejected :
    {A : Type 0} (expected : String) (later : ℕ) (e : CacheEntry A)
    → IsStale expected later e
    → is_rejected expected later (some (entry e)) ≡ true
unfolding is_rejected
IsStale-is_rejected expected later e stale =
    ground (arith, eq_iff expected "", eq_iff e.checksum expected)

module _ {A : Type 0} (lru : Lru (Value A)) where
  open lru use {Store, peek}

  -- A validated read and a `Set` that overlap. Thread 0, in `GetWithValidation`, gets a stale entry;
  -- thread 1 stores a good one under the key, which succeeds; thread 0 tests what it got and deletes
  -- the key. Then both calls have returned and every `Get` of the key misses. In neither order of the
  -- whole calls is the good entry lost: from any cache `d` on which the `Set` succeeds, it is found
  -- behind the `Set`, and still behind a validated read that follows.
  pub get_with_validation-set_with_metadata_races :
      (limit : ℤ) (key expected : String) (now later at next : ℕ) (cold old : Pass)
      (c d : SmartCache Store) (e good : CacheEntry A)
      → peek c.lru key ≡ some (entry e)
      → IsStale expected later e
      → ¬ IsStale expected later good
      → Fits limit good.size
      → (set_with_metadata lru key good cold old at (get lru key now c).0).1 ≡ true
      → (set_with_metadata lru key good cold old at d).1 ≡ true
      → ((s : System lru) × Reach lru limit c
            (looked 0 key expected now
              ∷ called 1 (set_call key (entry good) good.size cold old at)
              ∷ tested 0 later
              ∷ removed 0
              ∷ [])
            s
          × (s.place 0 ≡ idle)
          × (s.place 1 ≡ idle)
          × (s.cache
              ≡ delete_key lru key
                  (set_with_metadata lru key good cold old at (get lru key now c).0).0)
          × ((get lru key next s.cache).1 ≡ none))
        × (let d' = (set_with_metadata lru key good cold old at d).0 in
            ((get lru key next d').1 ≡ some (entry good))
            × ((get lru key next (get_with_validation lru key expected now later d').0).1
                ≡ some (entry good)))
  unfolding set_with_metadata perform
  get_with_validation-set_with_metadata_races limit key expected now later at next cold old c d e
        good held stale fine fits stored stored_d =
      let (found, same) = get_lem lru key key now c in
      let rejected : is_rejected expected later (get lru key now c).1 ≡ true =
        rw (found, held) (IsStale-is_rejected expected later e stale) in
      let looked = after_step start (look 0 key expected now refl) in
      let added =
        after_step looked (call 1 (set_call key (entry good) good.size cold old at) refl tt fits) in
      let checked = after_step added (check 0 key expected later (get lru key now c).1 refl) in
      let gone = after_step checked (remove 0 key (rw rejected)) in
      let c' = (set lru key (entry good) good.size cold old at (get lru key now c).0).0 in
      let d' = (set lru key (entry good) good.size cold old at d).0 in
      let has = get-set_self lru key (entry good) good.size cold old at next d stored_d in
      let holds = sym (get_lem lru key key next d').0 ∙ has in
      let valid = get_with_validation_lem lru key expected now later next d' good holds in
      let e' = (get_with_validation lru key expected now later d').0 in
      (
        (
          record { cache = delete_key lru key c'; place = _ },
          gone,
          refl,
          refl,
          refl,
          rw ((get-delete_key lru key key next c').0, beq_self key) refl,
        ),
        (has, (get_lem lru key key next e').0 ∙ (valid.1 fine).1),
      )
