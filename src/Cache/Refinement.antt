-- ===== src/Cache/Refinement.antt =====
-- `SmartCache` against its abstract view, the map of Cache/Spec.
use mcp_xlsm_server.Prelude.{
  ℕ, String, ◌≡◌, ◌⊎◌, refl, false, not, ◌&&◌, Option, none, some, List, [], ◌∷◌, inl, inr, ℤ,
  arith, str_eq, string_eq, eq_iff, ltb, ap, sym, ◌∙◌, Option-cases, Bool-cases,
}
use mcp_xlsm_server.Lru.{Lru}
use mcp_xlsm_server.Cache.{
  get, set, delete_key, clear, cleanup, validate, get_with_validation, new_smart_cache,
}
use mcp_xlsm_server.Cache.Calls.{
  Call, get_call, set_call, delete_call, clear_call, cleanup_call, validate_call, perform,
}
use mcp_xlsm_server.Cache.Entries.{SmartCache, Value, entry, plain, Pass}
use mcp_xlsm_server.Cache.Lookup.{get_lem, get-set_self, get-set_ne, peek-make_room}
use mcp_xlsm_server.Cache.Cleanup.{lookup-cleanup}
use mcp_xlsm_server.Cache.Retention.{IsAbove, peek-delete_key, perform-IsAbove}
use mcp_xlsm_server.Cache.Spec.{
  found, stored, View, forget, checked, outcome, outcomes, IsAllowed, advance, Permits,
}

module _ {A : Type 0} (lru : Lru (Value A)) where
  open lru use {Store, peek}

  -- What the LRU holds is what the map has at the key.
  abbrev pub IsBelow : Store → View A → Type 0
  IsBelow s f = (j : String) (v : Value A) → peek s j ≡ some v → f j ≡ some v

  -- A key is found as before or lost.
  abbrev Shrinks : Store → Store → Type 0
  Shrinks s t = (j : String) → (peek t j ≡ peek s j) ⊎ (peek t j ≡ none)

  shrink-IsBelow : (s t : Store) (f : View A) → IsBelow s f → Shrinks s t → IsBelow t f
  shrink-IsBelow s t f below shrinks j v held = ground (arith, below j v, shrinks j)

  -- Where the key is lost too, the map may forget it.
  forget-IsBelow :
      (key : String) (s t : Store) (f : View A)
      → IsBelow s f
      → Shrinks s t
      → peek t key ≡ none
      → IsBelow t (forget f key)
  forget-IsBelow key s t f below shrinks gone j v held =
      ground (
        arith,
        below j v,
        shrinks j,
        eq_iff key j,
        λ (e : key ≡ j). ap (λ (k : String). peek t k) e,
      )

  get-Shrinks :
      (key : String) (now : ℕ) (c : SmartCache Store) → Shrinks c.lru (get lru key now c).0.lru
  get-Shrinks key now c j = inl (get_lem lru key j now c).1

  get_call-IsBelow :
      (key : String) (now : ℕ) (c : SmartCache Store) (f : View A)
      → IsBelow c.lru f
      → IsAllowed lru f (get_call key now) (found (get lru key now c).1)
        × IsBelow
            (get lru key now c).0.lru
            (advance lru f (get_call key now) (found (get lru key now c).1))
  unfolding IsAllowed advance
  get_call-IsBelow key now c f below =
      let (same, kept) = get_lem lru key key now c in
      let rest = get-Shrinks key now c in
      elim (Option-cases (get lru key now c).1) [
        | inl miss ↦
            rw miss (inr refl, forget-IsBelow key c.lru _ f below rest (kept ∙ sym same ∙ miss))
        | inr (v, hit) ↦
            rw hit (inl (sym (below key v (sym same ∙ hit))), shrink-IsBelow c.lru _ f below rest)
      ]

  set_full-Shrinks :
      (key : String) (value : Value A) (size : ℤ) (cold old : Pass) (now : ℕ) (c : SmartCache Store)
      → (set lru key value size cold old now c).1 ≡ false
      → Shrinks c.lru (set lru key value size cold old now c).0.lru
  unfolding set
  set_full-Shrinks key value size cold old now c full j =
      ground (arith, peek-make_room lru size cold old j c)

  set_call-IsBelow :
      (key : String) (value : Value A) (size : ℤ) (cold old : Pass) (now : ℕ) (c : SmartCache Store)
      (f : View A)
      → IsBelow c.lru f
      → IsBelow (set lru key value size cold old now c).0.lru (
          advance lru f
            (set_call key value size cold old now)
            (stored (set lru key value size cold old now c).1))
  unfolding advance
  set_call-IsBelow key value size cold old now c f below =
      elim (Bool-cases (set lru key value size cold old now c).1) [
        | inl room ↦ rw room (λ j v held.
            let d = (set lru key value size cold old now c).0 in
            ground (
              arith,
              eq_iff key j,
              below j v,
              get-set_self lru key value size cold old now now c room,
              get-set_ne lru key j value size cold old now now c,
              get_lem lru j j now c,
              get_lem lru j j now d,
              λ (e : key ≡ j). ap (λ (k : String). (get lru k now d).1) e,
            ))
        | inr full ↦
            rw full
              (shrink-IsBelow c.lru _ f below (set_full-Shrinks key value size cold old now c full))
      ]

  delete_key-IsBelow :
      (key : String) (c : SmartCache Store) (f : View A)
      → IsBelow c.lru f
      → IsBelow (delete_key lru key c).lru (forget f key)
  delete_key-IsBelow key c f below j v held =
      ground (arith, eq_iff key j, peek-delete_key lru key j c, below j v)

  cleanup-Shrinks :
      (now : ℕ) (order : List String) (c : SmartCache Store)
      → Shrinks c.lru (cleanup lru now order c).lru
  cleanup-Shrinks now order c j = ground (arith, (lookup-cleanup lru now order j c).1)

  -- What a validated read does after its `Get`: the value of the map passes the check, or the key is
  -- lost.
  validate-IsBelow :
      (key expected : String) (now later : ℕ) (c : SmartCache Store) (f : View A)
      (r : Option (Value A))
      → IsBelow c.lru f
      → peek c.lru key ≡ r
      → let (d, w) = validate lru key expected later c r in
        IsAllowed lru f (validate_call key expected now later) (found w)
        × IsBelow d.lru (advance lru f (validate_call key expected now later) (found w))
  unfolding validate IsAllowed advance checked
  validate-IsBelow key expected now later c f none below held =
      (inr refl, forget-IsBelow key c.lru c.lru f below (λ j. inl refl) held)
  validate-IsBelow key expected now later c f (some (plain v)) below held =
      rw (below key (plain v) held) (inl refl, below)
  validate-IsBelow key expected now later c f (some (entry e)) below held =
      elim (Bool-cases (ltb e.expires_at later)) [
        | inl late ↦ rw late (inr refl, delete_key-IsBelow key c f below)
        | inr fresh_enough ↦
            elim (Bool-cases (not (str_eq expected "") && not (str_eq e.checksum expected))) [
              | inl stale ↦ rw (fresh_enough, stale) (inr refl, delete_key-IsBelow key c f below)
              | inr good ↦
                  rw (fresh_enough, good, below key (entry e) held, checked, fresh_enough, good)
                    (inl refl, below)
            ]
      ]

  perform-IsBelow :
      (c : SmartCache Store) (call : Call lru) (f : View A)
      → IsBelow c.lru f
      → IsAllowed lru f call (outcome lru c call)
        × IsBelow (perform lru c call).lru (advance lru f call (outcome lru c call))
  unfolding perform outcome get_with_validation clear
  perform-IsBelow c (get_call key now) f below = get_call-IsBelow key now c f below
  perform-IsBelow c (set_call key value size cold old now) f below =
      (unfold IsAllowed in tt, set_call-IsBelow key value size cold old now c f below)
  perform-IsBelow c (delete_call key) f below =
      unfold IsAllowed advance in (tt, delete_key-IsBelow key c f below)
  perform-IsBelow c clear_call f below =
      unfold IsAllowed advance in (tt, λ j v held. ground (arith, lru.peek-purge c.lru j))
  perform-IsBelow c (cleanup_call now order) f below =
      unfold IsAllowed advance in (tt, shrink-IsBelow c.lru _ f below (cleanup-Shrinks now order c))
  perform-IsBelow c (validate_call key expected now later) f below =
      let (same, kept) = get_lem lru key key now c in
      validate-IsBelow key expected now later (get lru key now c).0 f (get lru key now c).1
        (shrink-IsBelow c.lru _ f below (get-Shrinks key now c)) (kept ∙ sym same)

  outcomes-Permits :
      (c : SmartCache Store) (calls : List (Call lru)) (f g : View A)
      → IsBelow c.lru f
      → IsAbove lru c.lru g
      → Permits lru f g calls (outcomes lru c calls)
  unfolding Permits outcomes
  outcomes-Permits c [] f g below above = tt
  outcomes-Permits c (call ∷ calls) f g below above =
      let (allowed, next) = perform-IsBelow c call f below in
      let (kept, still) = perform-IsAbove lru c call g above in
      (allowed, kept, outcomes-Permits (perform lru c call) calls _ _ next still)

  -- Whatever is called on a new cache, whichever clock readings and map orders the calls meet: what a
  -- read finds is never another value than the one that was stored last for its key, nor one that has
  -- been deleted, cleared or missed since; and a validated read gives it only if it is neither late
  -- nor of another checksum. A read may miss, but not a value that a `Set` has stored, while no other
  -- `Set` and no clean-up follows and it is not deleted, cleared or refused by a validated read: `Get`
  -- finds that value, and a validated read gives it exactly if it is neither late nor of another
  -- checksum.
  pub new_smart_cache-outcomes-Permits :
      (mb : ℤ) (calls : List (Call lru))
      → Permits lru (λ _. none) (λ _. none) calls (outcomes lru (new_smart_cache lru mb) calls)
  unfolding new_smart_cache
  new_smart_cache-outcomes-Permits mb calls =
      outcomes-Permits (new_smart_cache lru mb) calls (λ _. none) (λ _. none)
        (λ j v held. ground (arith, lru.peek-empty j)) (λ j v held. ground (arith, held))
