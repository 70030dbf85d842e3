-- ===== src/Tests/CacheThreads.antt =====
-- The abstract view of the cache and its threads: runs, and their theorems at concrete inputs.
use mcp_xlsm_server.Prelude.{
  ℕ, ◌*◌, ◌≡◌, refl, true, none, some, List, [], ◌∷◌, pos, arith, eq_iff, ℤ,
}
use mcp_xlsm_server.Cache.{get, set_with_metadata, delete_key, get_with_validation, new_smart_cache}
use mcp_xlsm_server.Cache.Calls.{Call, get_call, set_call, validate_call}
use mcp_xlsm_server.Cache.Entries.{entry, plain, CacheEntry}
use mcp_xlsm_server.Cache.Validation.{IsStale}
use mcp_xlsm_server.Cache.Spec.{found, stored, outcome, outcomes, Permits}
use mcp_xlsm_server.Cache.Refinement.{new_smart_cache-outcomes-Permits}
use mcp_xlsm_server.Cache.Threads.{System, Reach, looked, called, tested, removed, idle}
use mcp_xlsm_server.Cache.Races.{get_with_validation-set_with_metadata_races}
use mcp_xlsm_server.Tests.CacheRuns.{program, lru, no_pass, dated, holds_dated}

-- The value read is stale for the checksum that is asked for.
abbrev reads : List (Call lru)
reads =
    set_call "a" (entry dated) (pos 60) no_pass no_pass 0
    ∷ get_call "a" 1
    ∷ validate_call "a" "c1" 2 3
    ∷ validate_call "a" "c2" 4 5
    ∷ get_call "a" 6
    ∷ []

reads_seen : outcomes lru (new_smart_cache lru (pos 1)) reads ≡ (
    stored true
    ∷ found (some (entry dated))
    ∷ found (some (plain 7))
    ∷ found none
    ∷ found none
    ∷ [])
unfolding program outcomes outcome
reads_seen = refl

new_smart_cache-outcomes-Permits_example :
    Permits lru (λ _. none) (λ _. none) reads (outcomes lru (new_smart_cache lru (pos 1)) reads)
new_smart_cache-outcomes-Permits_example = new_smart_cache-outcomes-Permits lru (pos 1) reads

abbrev limit : ℤ
limit = pos (1 * (1024 * 1024))

abbrev good : CacheEntry ℕ
good = record { value = 8; size = pos 20; created_at = 45; expires_at = 100; checksum = "c2" }

dated-IsStale : IsStale "c2" 50 dated
dated-IsStale = ground (arith, eq_iff "c2" "", eq_iff "c1" "c2")

good_not-IsStale : ¬ IsStale "c2" 50 good
good_not-IsStale = ground (arith, eq_iff "c2" "c2")

get_with_validation-set_with_metadata_races_example :
    ((s : System lru) × Reach lru limit holds_dated
        (looked 0 "a" "c2" 40
          ∷ called 1 (set_call "a" (entry good) (pos 20) no_pass no_pass 45)
          ∷ tested 0 50
          ∷ removed 0
          ∷ [])
        s
      × (s.place 0 ≡ idle)
      × (s.place 1 ≡ idle)
      × (s.cache
          ≡ delete_key lru "a"
              (set_with_metadata lru "a" good no_pass no_pass 45 (get lru "a" 40 holds_dated).0).0)
      × ((get lru "a" 60 s.cache).1 ≡ none))
    × (let d' = (set_with_metadata lru "a" good no_pass no_pass 45 holds_dated).0 in
        ((get lru "a" 60 d').1 ≡ some (entry good))
        × ((get lru "a" 60 (get_with_validation lru "a" "c2" 40 50 d').0).1 ≡ some (entry good)))
unfolding program set_with_metadata
get_with_validation-set_with_metadata_races_example =
    get_with_validation-set_with_metadata_races lru limit "a" "c2" 40 50 45 60 no_pass no_pass
      holds_dated holds_dated dated good refl dated-IsStale good_not-IsStale
      (record { nonneg = omega arith; room = omega arith }) refl refl
