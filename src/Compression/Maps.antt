-- ===== src/Compression/Maps.antt =====
-- What a truncated map holds.
use mathlib.Core.Path.{subst}
use mcp_xlsm_server.Prelude.{
  ℕ, ◌+◌, ◌-◌, ◌≡◌, refl, sym, ◌∙◌, arith, none, some, List, [], ◌∷◌, leb, inl, inr, ◌⊎◌, Bool,
  Bool-cases, Option-cases, ◌||◌, false, if◌then◌else◌, nats_beq, nats_beq_iff,
}
use mcp_xlsm_server.Compression.Truncation.{
  keep_priority, keep_priorities, keep_fields, truncate_data, is_kept, keep_cut_field, by_count,
  Kept, mark, priority_fields,
}
use mcp_xlsm_server.Compression.Values.{Value, Fields, end, field, object, field_count, find, put}
use mcp_xlsm_server.Decimal.{codes}
use mcp_xlsm_server.Models.{Text}
use mcp_xlsm_server.Token.{Encoder, Counter, count}
use mcp_xlsm_server.Token.Counts.{Result-cases}

pub find-put :
    (k j : Text) (v : Value) (fields : Fields)
    → find j (put k v fields) ≡ (if nats_beq k j then some v else find j fields)
unfolding find put
find-put k j v end = refl
find-put k j v (field i w fields) =
    ground (arith, nats_beq_iff k j, nats_beq_iff i k, nats_beq_iff i j, find-put k j v fields)

find-field_self : (k : Text) (v : Value) (fields : Fields) → find k (field k v fields) ≡ some v
unfolding find
find-field_self k v fields = ground (arith, nats_beq_iff k k)

-- No key stands twice.
abbrev pub AreDistinct : Fields → Type 0
AreDistinct end = Unit
AreDistinct (field k v fields) = (find k fields ≡ none) × AreDistinct fields

-- Each field of the one map is a field of the other.
abbrev pub IsPart : Fields → Fields → Type 0
IsPart part whole = (j : Text) (u : Value) → find j part ≡ some u → find j whole ≡ some u

IsPart-rest :
    (k : Text) (v : Value) (rest whole : Fields)
    → find k rest ≡ none
    → IsPart (field k v rest) whole
    → IsPart rest whole
unfolding find
IsPart-rest k v rest whole h p j u e = p j u (ground (arith, e, h, nats_beq_iff k j))

find-put_ne :
    (k j : Text) (v : Value) (fields : Fields)
    → nats_beq k j ≡ false
    → find j (put k v fields) ≡ find j fields
find-put_ne k j v fields h = find-put k j v fields ∙ rw h refl

none_of : (a b c : Bool) → (a || b || c) ≡ false → (a ≡ false) × (b ≡ false) × (c ≡ false)
none_of a b c h = ground (arith, h)

-- The fields that `mark` sets.
abbrev pub is_marker : Text → Bool
is_marker k =
    nats_beq (codes "_truncated") k
    || nats_beq (codes "_original_size") k
    || nats_beq (codes "_included_fields") k

abbrev pub fields_of : Value → Fields
fields_of (object fields) = fields
fields_of v = end

find-mark :
    (k : Text) (size : ℕ) (kept : Fields)
    → is_marker k ≡ false
    → find k (mark size kept) ≡ find k kept
unfolding mark
find-mark k size kept h =
    let (h1, h2, h3) =
      none_of (nats_beq (codes "_truncated") k) (nats_beq (codes "_original_size") k)
        (nats_beq (codes "_included_fields") k) h in
    find-put_ne (codes "_included_fields") k _ _ h3
    ∙ find-put_ne (codes "_original_size") k _ _ h2
    ∙ find-put_ne (codes "_truncated") k _ _ h1

module _ (encoder : Encoder Value) where
  -- The value is the field's, or the field's truncated to some target.
  abbrev pub IsFrom : Fields → Text → Value → Type 0
  IsFrom whole k w =
      (find k whole ≡ some w)
      ⊎ ((v : Value) × (left : ℕ) × (c : Counter) × (find k whole ≡ some v)
          × (w ≡ (truncate_data encoder v left c).1))

  abbrev pub AreFrom : Fields → Fields → Type 0
  AreFrom whole kept = (k : Text) (w : Value) → find k kept ≡ some w → IsFrom whole k w

  put-AreFrom :
      (whole kept : Fields) (k : Text) (v : Value)
      → IsFrom whole k v
      → AreFrom whole kept
      → AreFrom whole (put k v kept)
  put-AreFrom whole kept k v h hs j w e =
      let found = sym (find-put k j v kept) ∙ e in
      elim (Bool-cases (nats_beq k j)) [
        | inr x ↦ hs j w (ground (arith, found, x))
        | inl x ↦
            let same : k ≡ j = (nats_beq_iff k j).0 x in
            let value : v ≡ w = ground (arith, found, x) in
            subst (λ j'. IsFrom whole j' w) same (subst (IsFrom whole k) value h)
      ]

  end-AreFrom : (whole : Fields) → AreFrom whole end
  unfolding find
  end-AreFrom whole k w h = ground (arith, h)

  keep_priority-AreFrom :
      (name : Text) (whole : Fields) (target : ℕ) (c : Counter) (kept : Kept)
      → AreFrom whole kept.0
      → AreFrom whole (keep_priority encoder name whole target c kept).1.0
  unfolding keep_priority
  keep_priority-AreFrom name whole target c (kept, current) h =
      elim (Option-cases (find name whole)) [
        | inl k ↦ rw (keep_priority, k) h
        | inr (v, k) ↦ elim (Result-cases (count encoder v c).1) [
          | inr (e, q) ↦ rw (keep_priority, k, q) h
          | inl (n, q) ↦ elim (Bool-cases (leb (current + n) target)) [
            | inl f ↦ rw (keep_priority, k, q, f) (put-AreFrom whole kept name v (inl k) h)
            | inr f ↦ rw (keep_priority, k, q, f) h
          ]
        ]
      ]

  keep_priorities-AreFrom :
      (names : List Text) (whole : Fields) (target : ℕ) (c : Counter) (kept : Kept)
      → AreFrom whole kept.0
      → AreFrom whole (keep_priorities encoder names whole target c kept).1.0
  unfolding keep_priorities
  keep_priorities-AreFrom [] whole target c kept h = h
  keep_priorities-AreFrom (name ∷ names) whole target c kept h =
      let (c', kept') = keep_priority encoder name whole target c kept in
      keep_priorities-AreFrom names whole target c' kept'
        (keep_priority-AreFrom name whole target c kept h)

  keep_cut_field-AreFrom :
      (whole : Fields) (k : Text) (kept : Fields) (current : ℕ) (c : Counter) (cut : Value)
      → IsFrom whole k cut
      → AreFrom whole kept
      → AreFrom whole (keep_cut_field encoder k kept current (c, cut)).1.0
  keep_cut_field-AreFrom whole k kept current c cut from h =
      elim (Bool-cases (is_kept (count encoder cut c).1)) [
        | inl e ↦ rw e (put-AreFrom whole kept k cut from h)
        | inr e ↦ rw e h
      ]

  keep_fields-AreFrom :
      (fields whole : Fields) (target : ℕ) (c : Counter) (kept : Kept)
      → AreDistinct fields
      → IsPart fields whole
      → AreFrom whole kept.0
      → AreFrom whole (keep_fields encoder fields target c kept).1.0
  unfolding keep_fields by_count
  keep_fields-AreFrom end whole target c kept d p h = h
  keep_fields-AreFrom (field k v fields) whole target c (kept, current) (d, ds) p h =
      let rest = IsPart-rest k v fields whole d p in
      let here : find k whole ≡ some v = p k v (find-field_self k v fields) in
      elim (Option-cases (find k kept)) [
        | inr (w, e) ↦
            rw (keep_fields, e)
              (keep_fields-AreFrom fields whole target c (kept, current) ds rest h)
        | inl e ↦ elim (Result-cases (count encoder v c).1) [
          | inr (f, q) ↦
              rw (keep_fields, e, q, by_count)
                (keep_fields-AreFrom fields whole target (count encoder v c).0 (kept, current) ds
                  rest h)
          | inl (n, q) ↦ elim (Bool-cases (leb (current + n) target)) [
            | inl f ↦
                rw (keep_fields, e, q, by_count, f)
                  (keep_fields-AreFrom fields whole target (count encoder v c).0
                    (put k v kept, current + n) ds rest (put-AreFrom whole kept k v (inl here) h))
            | inr f ↦
                let (c2, cut) = truncate_data encoder v (target - current) (count encoder v c).0 in
                rw (keep_fields, e, q, by_count, f)
                  (keep_cut_field-AreFrom whole k kept current c2 cut
                    (inr (v, target - current, (count encoder v c).0, here, refl)) h)
          ]
        ]
      ]

  -- Each field of a truncated map but the three markers is a field of the map, with its value or with
  -- its value truncated to some target. No key of the map stands twice.
  pub find-truncate_data :
      (fields : Fields) (target : ℕ) (c : Counter) (k : Text) (w : Value)
      → AreDistinct fields
      → is_marker k ≡ false
      → find k (fields_of (truncate_data encoder (object fields) target c).1) ≡ some w
      → IsFrom fields k w
  unfolding truncate_data
  find-truncate_data fields target c k w d h e =
      let (c1, kept) = keep_priorities encoder priority_fields fields target c (end, 0) in
      let first =
        keep_priorities-AreFrom priority_fields fields target c (end, 0) (end-AreFrom fields) in
      let (c2, whole) = keep_fields encoder fields target c1 kept in
      keep_fields-AreFrom fields fields target c1 kept d (λ j u f. f) first k w
        (sym (find-mark k (field_count fields) whole.0 h) ∙ e)
