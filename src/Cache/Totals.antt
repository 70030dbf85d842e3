-- ===== src/Cache/Totals.antt =====
-- The sum of the sizes that the hot data records.
use mcp_xlsm_server.Prelude.{
  String, ◌≡◌, none, some, [], ◌∷◌, inl, inr, ℤ, pos, ◌+ℤ◌, ◌≤ℤ◌, arith, int_laws, parts_of_eq,
  Dict, lookup, store, delete, string_eq, str_eq, eq_iff, Bool-cases, Option-cases, Unique, All,
  delete_absent,
}
use mcp_xlsm_server.Cache.Entries.{HotEntry}

abbrev pub total : Dict String HotEntry → ℤ
total [] = pos 0
total ((k, e) ∷ m) = e.size +ℤ total m

-- No recorded size is negative.
abbrev pub IsSized : Dict String HotEntry → Type 0
IsSized = All (λ (e : String × HotEntry). pos 0 ≤ℤ e.1.size)

pub total_nonneg : (m : Dict String HotEntry) → IsSized m → pos 0 ≤ℤ total m
total_nonneg [] s = omega arith
total_nonneg ((k, e) ∷ m) s = omega (int_laws, total_nonneg m s.1)

pub size_le_total :
    (k : String) (m : Dict String HotEntry) (e : HotEntry)
    → IsSized m
    → lookup k m ≡ some e
    → (pos 0 ≤ℤ e.size) × (e.size ≤ℤ total m)
unfolding lookup
size_le_total k [] e s h = cc
size_le_total k ((j, f) ∷ m) e s h = elim (Bool-cases (str_eq j k)) [
  | inl same ↦ let here : f ≡ e = ground arith in rw (← here) (omega (int_laws, total_nonneg m s.1))
  | inr other ↦ let (a, b) = size_le_total k m e s.1 (rw other at h) in omega int_laws
]

pub total-delete :
    (k : String) (m : Dict String HotEntry) (e : HotEntry)
    → Unique m
    → lookup k m ≡ some e
    → total (delete k m) +ℤ e.size ≡ total m
unfolding lookup delete
total-delete k [] e u h = cc
total-delete k ((j, f) ∷ m) e u h = elim (Bool-cases (str_eq j k)) [
  | inl same ↦
      let here : f ≡ e = ground arith in
      let jk : j ≡ k = (eq_iff j k).0 same in
      let absent : lookup k m ≡ none = rw (← jk) u.0 in
      rw (same, ← here, delete_absent k m absent) (omega int_laws)
  | inr other ↦ rw other (omega (int_laws, parts_of_eq (total-delete k m e u.1 (rw other at h))))
]

pub total-store :
    (k : String) (f : HotEntry) (m : Dict String HotEntry) (e : HotEntry)
    → lookup k m ≡ some e
    → total (store k f m) +ℤ e.size ≡ total m +ℤ f.size
unfolding lookup store
total-store k f [] e h = cc
total-store k f ((j, x) ∷ m) e h = elim (Bool-cases (str_eq j k)) [
  | inl same ↦ let here : x ≡ e = ground arith in rw (same, ← here) (omega int_laws)
  | inr other ↦ rw other (omega (int_laws, parts_of_eq (total-store k f m e (rw other at h))))
]

pub total-store_new :
    (k : String) (f : HotEntry) (m : Dict String HotEntry)
    → lookup k m ≡ none
    → total (store k f m) ≡ total m +ℤ f.size
unfolding lookup store
total-store_new k f [] h = omega int_laws
total-store_new k f ((j, x) ∷ m) h = elim (Bool-cases (str_eq j k)) [
  | inl same ↦ absurd (ground arith)
  | inr other ↦ rw other (omega (int_laws, parts_of_eq (total-store_new k f m (rw other at h))))
]

pub store-IsSized :
    (k : String) (f : HotEntry) (m : Dict String HotEntry)
    → pos 0 ≤ℤ f.size
    → IsSized m
    → IsSized (store k f m)
unfolding store
store-IsSized k f [] p s = (p, tt)
store-IsSized k f ((j, x) ∷ m) p s = ground (arith, store-IsSized k f m p)

pub delete-IsSized : (k : String) (m : Dict String HotEntry) → IsSized m → IsSized (delete k m)
unfolding delete
delete-IsSized k [] s = tt
delete-IsSized k ((j, x) ∷ m) s = ground (arith, delete-IsSized k m)

-- A store never adds more than the new size.
pub total-store-le :
    (k : String) (f : HotEntry) (m : Dict String HotEntry)
    → IsSized m
    → total (store k f m) ≤ℤ total m +ℤ f.size
total-store-le k f m s = elim (Option-cases (lookup k m)) [
  | inl absent ↦ omega (int_laws, parts_of_eq (total-store_new k f m absent))
  | inr (e, held) ↦
      omega (int_laws, parts_of_eq (total-store k f m e held), (size_le_total k m e s held).0)
]
