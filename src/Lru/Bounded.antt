-- ===== src/Lru/Bounded.antt =====
-- A list of bounded length, most recent first, meets the interface of golang-lru.
use mcp_xlsm_server.Prelude.{
  ℕ, zero, suc, String, ◌≡◌, ◌≢◌, ◌⊎◌, refl, ap, inl, inr, none, some, [], ◌∷◌, take, Dict, lookup,
  delete, string_eq, str_eq, eq_iff, lookup-delete, beq_self, arith, if◌then◌else◌,
}
use mcp_xlsm_server.Lru.{Lru}

module _ {V : Type 0} where
  -- Moves a key to the front.
  unfoldable pub touched : Dict String V → String → Dict String V
  touched s k = elim (lookup k s) [ none ↦ s | some v ↦ (k, v) ∷ delete k s ]

  -- Adds at the front and keeps the first `n + 1` entries.
  unfoldable pub added : ℕ → Dict String V → String → V → Dict String V
  added n s k v = take (suc n) ((k, v) ∷ delete k s)

  lookup-take :
      (j : String) (n : ℕ) (m : Dict String V)
      → (lookup j (take n m) ≡ lookup j m) ⊎ (lookup j (take n m) ≡ none)
  unfolding lookup
  lookup-take j zero m = inr refl
  lookup-take j (suc n) [] = inl refl
  lookup-take j (suc n) ((k, v) ∷ m) = ground (arith, lookup-take j n m)

  pub lookup-touched : (s : Dict String V) (k j : String) → lookup j (touched s k) ≡ lookup j s
  unfolding touched lookup
  lookup-touched s k j =
      ground
        (arith, eq_iff k j, lookup-delete k j s, λ (e : k ≡ j). ap (λ (i : String). lookup i s) e)

  pub lookup-added_self :
      (n : ℕ) (s : Dict String V) (k : String) (v : V) → lookup k (added n s k v) ≡ some v
  unfolding added lookup
  lookup-added_self n s k v = rw (beq_self k)

  pub lookup-added_ne :
      (n : ℕ) (s : Dict String V) (k j : String) (v : V)
      → k ≢ j
      → (lookup j (added n s k v) ≡ lookup j s) ⊎ (lookup j (added n s k v) ≡ none)
  unfolding added lookup
  lookup-added_ne n s k j v h =
      ground (arith, eq_iff k j, lookup-delete k j s, lookup-take j n (delete k s))

  pub lookup-delete_if :
      (s : Dict String V) (k j : String)
      → lookup j (delete k s) ≡ (if str_eq k j then none else lookup j s)
  lookup-delete_if s k j = lookup-delete k j s

  pub lookup-nil : (k : String) → lookup k (take {A = String × V} 0 []) ≡ none
  unfolding lookup
  lookup-nil k = refl

  abbrev pub bounded_lru : ℕ → Lru V
  bounded_lru n = record {
    Store = Dict String V;
    empty = [];
    peek = λ s k. lookup k s;
    touch = touched;
    add = added n;
    remove = λ s k. delete k s;
    purge = λ s. [];
    peek-empty = lookup-nil;
    peek-touch = lookup-touched;
    peek-add_self = lookup-added_self n;
    peek-add_ne = lookup-added_ne n;
    peek-remove = lookup-delete_if;
    peek-purge = λ s. lookup-nil;
  }
