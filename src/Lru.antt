-- ===== src/Lru.antt =====
-- `github.com/hashicorp/golang-lru`, which internal/cache/smart_cache.go keeps its values in. The
-- library is not part of the repository: it is an interface, with the documented effect of each call
-- on what a later `Get` finds.
pub mod Bounded
use mcp_xlsm_server.Prelude.{String, ◌≡◌, ◌≢◌, ◌⊎◌, Option, none, some, str_eq, if◌then◌else◌}

pub record Lru (V : Type 0) : Type 1 where
  pub Store : Type 0
  -- `NewWithEvict(1000, …)`
  pub empty : Store
  -- The value that `Get` returns, and the store that it leaves, where the key is the most recent.
  pub peek : Store → String → Option V
  pub touch : Store → String → Store
  pub add : Store → String → V → Store
  pub remove : Store → String → Store
  pub purge : Store → Store
  pub peek-empty : (k : String) → peek empty k ≡ none
  pub peek-touch : (s : Store) (k j : String) → peek (touch s k) j ≡ peek s j
  pub peek-add_self : (s : Store) (k : String) (v : V) → peek (add s k v) k ≡ some v
  -- An `Add` may evict another key to make room.
  pub peek-add_ne :
      (s : Store) (k j : String) (v : V)
      → k ≢ j
      → (peek (add s k v) j ≡ peek s j) ⊎ (peek (add s k v) j ≡ none)
  pub peek-remove :
      (s : Store) (k j : String) → peek (remove s k) j ≡ (if str_eq k j then none else peek s j)
  pub peek-purge : (s : Store) (k : String) → peek (purge s) k ≡ none
