-- ===== src/Cache/Retention.antt =====
-- The values that `SmartCache` keeps: what a read must find.
use mcp_xlsm_server.Prelude.{
  ℕ, String, ◌≡◌, refl, not, ◌&&◌, Option, none, some, inl, inr, ℤ, arith, str_eq, string_eq,
  eq_iff, if◌then◌else◌, ltb, ap, sym, ◌∙◌, Option-cases, Bool-cases,
}
use mcp_xlsm_server.Lru.{Lru}
use mcp_xlsm_server.Cache.{drop_entry, get, set, delete_key, clear, validate, get_with_validation}
use mcp_xlsm_server.Cache.Calls.{
  Call, get_call, set_call, delete_call, clear_call, cleanup_call, validate_call, perform,
}
use mcp_xlsm_server.Cache.Entries.{SmartCache, Value, entry, plain, Pass}
use mcp_xlsm_server.Cache.Lookup.{get_lem, get-set_self}
use mcp_xlsm_server.Cache.Spec.{
  found, stored, View, forget, checked, outcome, IsHeld, IsKept, retain,
}

module _ {A : Type 0} (lru : Lru (Value A)) where
  open lru use {Store, peek}

  -- The LRU holds every value of the map.
  abbrev pub IsAbove : Store → View A → Type 0
  IsAbove s g = (j : String) (v : Value A) → g j ≡ some v → peek s j ≡ some v

  pub peek-delete_key :
      (key j : String) (c : SmartCache Store)
      → peek (delete_key lru key c).lru j ≡ (if str_eq key j then none else peek c.lru j)
  unfolding delete_key drop_entry
  peek-delete_key key j c = ground (arith, lru.peek-remove c.lru key j)

  read-IsHeld :
      (s : Store) (g : View A) (key : String) (pass : Option (Value A) → Option (Value A))
      (o r : Option (Value A))
      → IsAbove s g
      → peek s key ≡ o
      → r ≡ pass o
      → IsHeld pass (g key) r
  read-IsHeld s g key pass o r above held e = elim (Option-cases (g key)) [
    | inl k ↦ rw k tt
    | inr (v, k) ↦ rw k (e ∙ ap pass (sym held ∙ above key v k))
  ]

  delete_key-IsAbove :
      (key : String) (c : SmartCache Store) (g : View A)
      → IsAbove c.lru g
      → IsAbove (delete_key lru key c).lru (forget g key)
  delete_key-IsAbove key c g above j v held =
      ground (arith, peek-delete_key key j c, above j v, held)

  forget-IsAbove : (key : String) (s : Store) (g : View A) → IsAbove s g → IsAbove s (forget g key)
  forget-IsAbove key s g above j v held = ground (arith, above j v, held)

  get-IsAbove :
      (key : String) (now : ℕ) (c : SmartCache Store) (g : View A)
      → IsAbove c.lru g
      → IsAbove (get lru key now c).0.lru g
  get-IsAbove key now c g above j v held = (get_lem lru key j now c).1 ∙ above j v held

  set_call-IsAbove :
      (key : String) (value : Value A) (size : ℤ) (cold old : Pass) (now : ℕ) (c : SmartCache Store)
      (g : View A)
      → IsAbove (set lru key value size cold old now c).0.lru (
          retain lru g
            (set_call key value size cold old now)
            (stored (set lru key value size cold old now c).1))
  unfolding retain
  set_call-IsAbove key value size cold old now c g =
      let d = (set lru key value size cold old now c).0 in
      elim (Bool-cases (set lru key value size cold old now c).1) [
        | inl room ↦
            let here : peek d.lru key ≡ some value =
              sym (get_lem lru key key now d).0
              ∙ get-set_self lru key value size cold old now now c room in
            rw room (λ j v held. ground (
              arith,
              held,
              here,
              eq_iff key j,
              λ (e : key ≡ j). ap (λ (k : String). peek d.lru k) e,
            ))
        | inr full ↦ rw full (λ j v held. ground (arith, held))
      ]

  validate-checked :
      (key expected : String) (later : ℕ) (c : SmartCache Store) (r : Option (Value A))
      → (validate lru key expected later c r).1 ≡ checked expected later r
  unfolding validate checked
  validate-checked key expected later c none = refl
  validate-checked key expected later c (some (plain v)) = refl
  validate-checked key expected later c (some (entry e)) = ground arith

  validate-IsAbove :
      (key expected : String) (now later : ℕ) (c : SmartCache Store) (g : View A)
      (r : Option (Value A))
      → IsAbove c.lru g
      → let (d, w) = validate lru key expected later c r in
        IsAbove d.lru (retain lru g (validate_call key expected now later) (found w))
  unfolding validate retain
  validate-IsAbove key expected now later c g none above = forget-IsAbove key c.lru g above
  validate-IsAbove key expected now later c g (some (plain v)) above = above
  validate-IsAbove key expected now later c g (some (entry e)) above =
      elim (Bool-cases (ltb e.expires_at later)) [
        | inl late ↦ rw late (delete_key-IsAbove key c g above)
        | inr fresh ↦
            elim (Bool-cases (not (str_eq expected "") && not (str_eq e.checksum expected))) [
              | inl stale ↦ rw (fresh, stale) (delete_key-IsAbove key c g above)
              | inr good ↦ rw (fresh, good) above
            ]
      ]

  pub perform-IsAbove :
      (c : SmartCache Store) (call : Call lru) (g : View A)
      → IsAbove c.lru g
      → IsKept lru g call (outcome lru c call)
        × IsAbove (perform lru c call).lru (retain lru g call (outcome lru c call))
  unfolding perform outcome get_with_validation clear IsKept
  perform-IsAbove c (get_call key now) g above =
      let same = (get_lem lru key key now c).0 in
      unfold retain in
      (
        read-IsHeld c.lru g key (λ o. o) (peek c.lru key) (get lru key now c).1 above refl same,
        get-IsAbove key now c g above,
      )
  perform-IsAbove c (set_call key value size cold old now) g above =
      (tt, set_call-IsAbove key value size cold old now c g)
  perform-IsAbove c (delete_call key) g above =
      unfold retain in (tt, delete_key-IsAbove key c g above)
  perform-IsAbove c clear_call g above = unfold retain in (tt, λ j v held. ground (arith, held))
  perform-IsAbove c (cleanup_call now order) g above =
      unfold retain in (tt, λ j v held. ground (arith, held))
  perform-IsAbove c (validate_call key expected now later) g above =
      let c' = (get lru key now c).0 in
      let r = (get lru key now c).1 in
      let (same, kept) = get_lem lru key key now c in
      let above' = get-IsAbove key now c g above in
      (
        read-IsHeld c'.lru g key (checked expected later) r (validate lru key expected later c' r).1
            above' (kept ∙ sym same) (validate-checked key expected later c' r),
        validate-IsAbove key expected now later c' g r above',
      )
