-- ===== src/Cache/Spec.antt =====
-- The abstract view of `SmartCache`: a map of the values that a read may find, which may lose what it
-- holds, and a map of those that it must find. A client sees the outcomes of its calls; the maps say
-- which outcomes it may see.
use mcp_xlsm_server.Prelude.{
  ℕ, String, ◌≡◌, ◌⊎◌, Bool, true, not, ◌&&◌, Option, none, some, List, [], ◌∷◌, str_eq, string_eq,
  if◌then◌else◌, ltb,
}
use mcp_xlsm_server.Lru.{Lru}
use mcp_xlsm_server.Cache.{get, set, get_with_validation}
use mcp_xlsm_server.Cache.Calls.{
  Call, get_call, set_call, delete_call, clear_call, cleanup_call, validate_call, perform,
}
use mcp_xlsm_server.Cache.Entries.{SmartCache, Value, entry, plain}

-- What a call returns to its caller.
pub data Outcome (A : Type 0) : Type 0 where
  found : Option (Value A) → Outcome A
  stored : Bool → Outcome A
  done : Outcome A

-- The map: at each key the value that a read may find.
abbrev pub View : Type 0 → Type 0
View A = String → Option (Value A)

abbrev pub update : {A : Type 0} → View A → String → Option (Value A) → View A
update f key w j = if str_eq key j then w else f j

abbrev pub forget : {A : Type 0} → View A → String → View A
forget f key = update f key none

-- What a validated read gives for the value of the key.
unfoldable pub checked : {A : Type 0} → String → ℕ → Option (Value A) → Option (Value A)
checked expected later none = none
checked expected later (some (plain v)) = some (plain v)
checked expected later (some (entry e)) =
    if ltb e.expires_at later
    then none
    else if not (str_eq expected "") && not (str_eq e.checksum expected)
    then none
    else some (plain e.value)

-- What a read gives, `pass` of the value that is held, where one must be.
abbrev pub IsHeld :
    {A : Type 0}
    → (Option (Value A) → Option (Value A))
    → Option (Value A)
    → Option (Value A)
    → Type 0
IsHeld pass none r = Unit
IsHeld pass (some v) r = r ≡ pass (some v)

module _ {A : Type 0} (lru : Lru (Value A)) where
  open lru use {Store, peek}

  unfoldable pub outcome : SmartCache Store → Call lru → Outcome A
  outcome c (get_call key now) = found (get lru key now c).1
  outcome c (set_call key value size cold old now) =
      stored (set lru key value size cold old now c).1
  outcome c (delete_call key) = done
  outcome c clear_call = done
  outcome c (cleanup_call now order) = done
  outcome c (validate_call key expected now later) =
      found (get_with_validation lru key expected now later c).1

  -- The outcomes of a sequence of calls, in their order.
  unfoldable pub outcomes : SmartCache Store → List (Call lru) → List (Outcome A)
  outcomes c [] = []
  outcomes c (call ∷ calls) = outcome c call ∷ outcomes (perform lru c call) calls

  -- The outcomes that the map allows: a read finds the value of the map or nothing.
  unfoldable pub IsAllowed : View A → Call lru → Outcome A → Type 0
  IsAllowed f (get_call key now) (found r) = (r ≡ f key) ⊎ (r ≡ none)
  IsAllowed f (validate_call key expected now later) (found r) =
      (r ≡ checked expected later (f key)) ⊎ (r ≡ none)
  IsAllowed f (set_call key value size cold old now) (stored b) = Unit
  IsAllowed f (delete_call key) done = Unit
  IsAllowed f clear_call done = Unit
  IsAllowed f (cleanup_call now order) done = Unit
  IsAllowed f _ _ = ⊥

  -- The map after a call: a value that was stored is the value of its key, and a key that was
  -- deleted or missed has none.
  unfoldable pub advance : View A → Call lru → Outcome A → View A
  advance f (get_call key now) (found none) = forget f key
  advance f (validate_call key expected now later) (found none) = forget f key
  advance f (set_call key value size cold old now) (stored true) = update f key (some value)
  advance f (delete_call key) r = forget f key
  advance f clear_call r = λ _. none
  advance f _ _ = f

  -- The outcomes that values which cannot be lost demand: a read finds such a value, and a validated
  -- read finds it if it passes the check, and otherwise nothing.
  unfoldable pub IsKept : View A → Call lru → Outcome A → Type 0
  IsKept g (get_call key now) (found r) = IsHeld (λ o. o) (g key) r
  IsKept g (validate_call key expected now later) (found r) =
      IsHeld (checked expected later) (g key) r
  IsKept g _ _ = Unit

  -- The values that cannot be lost after a call. Only a `Set` and a clean-up lose values that were
  -- not deleted; behind a `Set` that has stored its value, that one is kept.
  unfoldable pub retain : View A → Call lru → Outcome A → View A
  retain g (get_call key now) r = g
  retain g (validate_call key expected now later) (found none) = forget g key
  retain g (set_call key value size cold old now) (stored true) =
      update (λ _. none) key (some value)
  retain g (set_call key value size cold old now) r = λ _. none
  retain g (delete_call key) r = forget g key
  retain g clear_call r = λ _. none
  retain g (cleanup_call now order) r = λ _. none
  retain g _ _ = g

  -- The maps, of the values that a read may find and of those that it must, allow every outcome of the
  -- calls, one after the other.
  unfoldable pub Permits : View A → View A → List (Call lru) → List (Outcome A) → Type 0
  Permits f g [] [] = Unit
  Permits f g (call ∷ calls) (r ∷ rs) =
      IsAllowed f call r × IsKept g call r × Permits (advance f call r) (retain g call r) calls rs
  Permits f g _ _ = ⊥
