-- ===== src/Cache/Threads.antt =====
-- Threads that share a `SmartCache`. Each method is one step, but for `GetWithValidation`: it calls
-- `Get`, reads the clock and then may call `Delete`, and other threads may come in between.
use mcp_xlsm_server.Prelude.{
  set_at, ap, All-append, ℕ, ◌*◌, ◌<◌, ◌^◌, String, ◌≡◌, refl, sym, ◌∙◌, Bool, true, false, not,
  ◌&&◌, Option, none, some, List, [], ◌∷◌, ◌++◌, ℤ, pos, str_eq, string_eq, if◌then◌else◌, ltb, All,
  arith,
}
use mathlib.Core.Path.{subst}
use mcp_xlsm_server.Lru.{Lru}
use mcp_xlsm_server.Cache.{get, delete_key, validate, new_smart_cache}
use mcp_xlsm_server.Cache.Calls.{Call, get_call, delete_call, validate_call, perform, run}
use mcp_xlsm_server.Cache.Entries.{SmartCache, Value, entry, plain}
use mcp_xlsm_server.Cache.Accounting.{IsAccounted}
use mcp_xlsm_server.Cache.Operations.{IsSound}
use mcp_xlsm_server.Cache.Reach.{new_smart_cache-run-IsAccounted}

-- Where a thread is in `GetWithValidation`: outside, behind its `Get`, or before its `Delete`.
pub data Place (A : Type 0) : Type 0 where
  idle : Place A
  checking : String → String → Option (Value A) → Place A
  removing : String → Place A

-- The two tests of the entry.
unfoldable pub is_rejected : {A : Type 0} → String → ℕ → Option (Value A) → Bool
is_rejected expected later none = false
is_rejected expected later (some (plain v)) = false
is_rejected expected later (some (entry e)) =
    if ltb e.expires_at later
    then true
    else not (str_eq expected "") && not (str_eq e.checksum expected)

-- What is handed out of what passes.
unfoldable pub handed_out : {A : Type 0} → Option (Value A) → Option (Value A)
handed_out none = none
handed_out (some (plain v)) = some (plain v)
handed_out (some (entry e)) = some (plain e.value)

-- Where the thread goes from the tests.
abbrev pub next_place : {A : Type 0} → String → String → ℕ → Option (Value A) → Place A
next_place key expected later r = if is_rejected expected later r then removing key else idle

module _ {A : Type 0} (lru : Lru (Value A)) where
  open lru use {Store, peek}

  pub record System : Type 0 where
    pub cache : SmartCache Store
    pub place : ℕ → Place A

  -- The calls that are one step.
  abbrev pub IsAtomic : Call lru → Type 0
  IsAtomic (validate_call key expected now later) = ⊥
  IsAtomic _ = Unit

  -- A step, with its thread: a call that is one step; or, of `GetWithValidation`, its `Get` of a key
  -- with a checksum at a clock reading, its tests at a later reading, or its `Delete`.
  pub data Event : Type 0 where
    called : ℕ → Call lru → Event
    looked : ℕ → String → String → ℕ → Event
    tested : ℕ → ℕ → Event
    removed : ℕ → Event

  -- The steps of the threads, where the sizes stored are sound for the limit.
  pub data Step (limit : ℤ) (s : System) : Event → System → Type 0 where
    call :
        (i : ℕ) (c : Call lru)
        → s.place i ≡ idle
        → IsAtomic c
        → IsSound lru limit c
        → Step limit s (called i c) (record s { cache = perform lru s.cache c })
    look :
        (i : ℕ) (key expected : String) (now : ℕ)
        → s.place i ≡ idle
        → Step limit s (looked i key expected now) (record {
          cache = (get lru key now s.cache).0;
          place = set_at s.place i (checking key expected (get lru key now s.cache).1);
        })
    check :
        (i : ℕ) (key expected : String) (later : ℕ) (r : Option (Value A))
        → s.place i ≡ checking key expected r
        → Step limit s
            (tested i later)
            (record s { place = set_at s.place i (next_place key expected later r) })
    remove :
        (i : ℕ) (key : String)
        → s.place i ≡ removing key
        → Step limit s
            (removed i)
            (record { cache = delete_key lru key s.cache; place = set_at s.place i idle })

  -- Any number of threads, over one cache, and their steps in order.
  pub data Reach (limit : ℤ) (c : SmartCache Store) : List Event → System → Type 0 where
    start : Reach limit c [] (record { cache = c; place = λ _. idle })
    after_step :
        {events : List Event} {event : Event} {s t : System}
        → Reach limit c events s
        → Step limit s event t
        → Reach limit c (events ++ event ∷ []) t

  -- Without a step in between, the three steps are `GetWithValidation`.
  pub validate-is_rejected :
      (key expected : String) (later : ℕ) (c : SmartCache Store) (r : Option (Value A))
      → validate lru key expected later c r
        ≡ (if is_rejected expected later r then (delete_key lru key c, none) else (c, handed_out r))
  unfolding validate is_rejected handed_out
  validate-is_rejected key expected later c none = refl
  validate-is_rejected key expected later c (some (plain v)) = refl
  validate-is_rejected key expected later c (some (entry e)) = ground arith

  -- The calls of the steps, in the order of the steps.
  record IsSerial (limit : ℤ) (c d : SmartCache Store) : Type 0 where
    calls : List (Call lru)
    atomic : All IsAtomic calls
    sound : All (IsSound lru limit) calls
    same : run lru c calls ≡ d

  run-append :
      (c : SmartCache Store) (calls : List (Call lru)) (last : Call lru)
      → run lru c (calls ++ (last ∷ [])) ≡ perform lru (run lru c calls) last
  unfolding run
  run-append c [] last = refl
  run-append c (k ∷ calls) last = run-append (perform lru c k) calls last

  add_call-IsSerial :
      {limit : ℤ} {c d : SmartCache Store} (last : Call lru)
      → IsAtomic last
      → IsSound lru limit last
      → IsSerial limit c d
      → IsSerial limit c (perform lru d last)
  add_call-IsSerial {limit} {c} last one fits s = record {
    calls = s.calls ++ (last ∷ []);
    atomic = All-append IsAtomic s.calls (last ∷ []) s.atomic (one, tt);
    sound = All-append (IsSound lru limit) s.calls (last ∷ []) s.sound (fits, tt);
    same = run-append c s.calls last ∙ ap (λ d'. perform lru d' last) s.same;
  }

  Step-IsSerial :
      {limit : ℤ} {c : SmartCache Store} {event : Event} {s t : System}
      → Step limit s event t
      → IsSerial limit c s.cache
      → IsSerial limit c t.cache
  Step-IsSerial (call i k free one fits) h = add_call-IsSerial k one fits h
  Step-IsSerial (look i key expected now free) h =
      unfold perform in add_call-IsSerial (get_call key now) tt tt h
  Step-IsSerial (check i key expected l r at) h = h
  Step-IsSerial (remove i key at) h = unfold perform in add_call-IsSerial (delete_call key) tt tt h

  Reach-IsSerial :
      {limit : ℤ} {c : SmartCache Store} {events : List Event} {s : System}
      → Reach limit c events s
      → IsSerial limit c s.cache
  unfolding run
  Reach-IsSerial start = record { calls = []; atomic = tt; sound = tt; same = refl }
  Reach-IsSerial (after_step r step) = Step-IsSerial step (Reach-IsSerial r)

  -- Every step is a call or the part of one that is a call itself or does not change the cache, so that
  -- the memory is accounted for as in a sequence of calls.
  Reach-IsAccounted :
      (mb : ℕ) (events : List Event) (s : System)
      → mb < 2 ^ 43
      → Reach (pos (mb * (1024 * 1024))) (new_smart_cache lru (pos mb)) events s
      → (calls : List (Call lru)) × All IsAtomic calls
        × (run lru (new_smart_cache lru (pos mb)) calls ≡ s.cache)
        × IsAccounted s.cache
        × (s.cache.max_memory ≡ pos (mb * (1024 * 1024)))
  Reach-IsAccounted mb events s small r =
      let h = Reach-IsSerial r in
      let (kept, limit) = new_smart_cache-run-IsAccounted lru mb h.calls small h.sound in
      (h.calls, h.atomic, h.same, subst IsAccounted h.same kept, rw (sym h.same) limit)
