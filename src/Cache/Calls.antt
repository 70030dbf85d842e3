-- ===== src/Cache/Calls.antt =====
-- The calls of the methods of `SmartCache`, and sequences of them.
use mcp_xlsm_server.Prelude.{ℕ, String, List, [], ◌∷◌, ℤ, string_eq}
use mcp_xlsm_server.Lru.{Lru}
use mcp_xlsm_server.Cache.{get, set, delete_key, clear, cleanup, get_with_validation}
use mcp_xlsm_server.Cache.Entries.{SmartCache, Value, Pass}

module _ {A : Type 0} (lru : Lru (Value A)) where
  open lru use {Store}

  -- The calls of the public methods that change the cache, with what each reads of its surroundings.
  pub data Call : Type 0 where
    get_call : String → ℕ → Call
    set_call : String → Value A → ℤ → Pass → Pass → ℕ → Call
    delete_call : String → Call
    clear_call : Call
    cleanup_call : ℕ → List String → Call
    validate_call : String → String → ℕ → ℕ → Call

  unfoldable pub perform : SmartCache Store → Call → SmartCache Store
  perform c (get_call key now) = (get lru key now c).0
  perform c (set_call key value size cold old now) = (set lru key value size cold old now c).0
  perform c (delete_call key) = delete_key lru key c
  perform c clear_call = clear lru c
  perform c (cleanup_call now order) = cleanup lru now order c
  perform c (validate_call key expected now later) =
      (get_with_validation lru key expected now later c).0

  unfoldable pub run : SmartCache Store → List Call → SmartCache Store
  run c [] = c
  run c (call ∷ calls) = run (perform c call) calls
