-- ===== src/Token/Counts.antt =====
-- The cache of the counter: when its counts are those of the tokenizer. What prints alike need not have
-- the same count, so this is assumed of the values that are counted only.
use mcp_xlsm_server.Prelude.{
  ℕ, ◌+◌, ◌≡◌, refl, none, some, List, [], ◌∷◌, inl, inr, ◌⊎◌, arith, lookup, store, lookup-store,
  nats_eq, nats_beq_iff, Option-cases, nats_beq, lookup-store_self, Bool-cases, sym, ◌∙◌, ap, ◌++◌,
  length, All,
}
use mcp_xlsm_server.Models.{Text}
use mcp_xlsm_server.Token.{
  Encoder, Counter, CountError, Result, ok, err, marshal_failed, count, count_string, batch_from,
  batch_count, batch_step, item_failed,
}

pub Result-cases {ℓ} :
    {A : Type ℓ} (r : Result A) → ((a : A) × (r ≡ ok a)) ⊎ ((e : CountError) × (r ≡ err e))
Result-cases (ok a) = inl (a, refl)
Result-cases (err e) = inr (e, refl)

-- The count of a value without a cache.
abbrev pub true_count : {D : Type 0} → Encoder D → D → Result ℕ
true_count encoder d = elim (encoder.marshal d) [
  | none ↦ err marshal_failed
  | some json ↦ ok (encoder.token_length json)
]

-- The values that a caller counts are those that `Counted` holds of.
module _ {D : Type 0} (encoder : Encoder D) (Counted : D → Type 0) where
  open encoder use {key, marshal, token_length}

  -- Every count that the cache has for one of the values is the value's.
  abbrev pub IsExact : Counter → Type 0
  IsExact c = (d : D) (n : ℕ) → Counted d → lookup (key d) c ≡ some n → true_count encoder d ≡ ok n

  -- Two of the values that print alike have the same count.
  abbrev pub KeysDetermine : Type 0
  KeysDetermine =
      (d e : D)
      → Counted d
      → Counted e
      → key d ≡ key e
      → true_count encoder d ≡ true_count encoder e

  pub store-IsExact :
      KeysDetermine
      → (d : D) (n : ℕ) (c : Counter) → Counted d
      → true_count encoder d ≡ ok n
      → IsExact c
      → IsExact (store (key d) n c)
  store-IsExact same d n c one e x j m other h =
      let found = sym (lookup-store (key d) (key j) n c) ∙ h in
      elim (Bool-cases (nats_beq (key d) (key j))) [
        | inr k ↦ x j m other (ground (arith, found, k))
        | inl k ↦
            let equal = (nats_beq_iff (key d) (key j)).0 k in
            ground (arith, same d j one other equal, e)
      ]

  -- A count is the tokenizer's, whatever was counted before, and the cache stays exact.
  pub count-IsExact :
      KeysDetermine
      → (d : D) (c : Counter) → Counted d
      → IsExact c
      → IsExact (count encoder d c).0 × ((count encoder d c).1 ≡ true_count encoder d)
  unfolding count
  count-IsExact same d c one x = elim (Option-cases (lookup (key d) c)) [
    | inr (n, h) ↦ rw (h, count) (x, sym (x d n one h))
    | inl h ↦
        rw (h, count)
          (elim (Option-cases (marshal d)) [
            | inl k ↦ rw (k, count) (x, rw (k, true_count) refl)
            | inr (json, k) ↦
                rw (k, count)
                  (
                    store-IsExact same d (token_length json) c one (rw (k, true_count) refl) x,
                    rw (k, true_count) refl,
                  )
          ])
  ]

  -- The numbers are the counts of the values, in their order.
  abbrev pub AreCounts : List D → List ℕ → Type 0
  AreCounts [] [] = Unit
  AreCounts (d ∷ ds) (n ∷ ns) = (true_count encoder d ≡ ok n) × AreCounts ds ns
  AreCounts _ _ = ⊥

  -- The counts of all the values; or, of the first that has no JSON, its index, counted from `i` on.
  abbrev pub IsBatch : ℕ → List D → Result (List ℕ) → Type 0
  IsBatch i ds r =
      ((ns : List ℕ) × (r ≡ ok ns) × AreCounts ds ns)
      ⊎ ((before : List D) × (counts : List ℕ) × (d : D) × (after : List D) × (ds
            ≡ before ++ d ∷ after)
          × AreCounts before counts
          × (marshal d ≡ none)
          × (r ≡ err (item_failed (i + length before))))

  -- A value that is counted, before the others.
  batch_step-IsBatch :
      (i n : ℕ) (d : D) (ds : List D) (r : Result (List ℕ))
      → true_count encoder d ≡ ok n
      → IsBatch (i + 1) ds r
      → IsBatch i (d ∷ ds) (batch_step i (ok n) r)
  batch_step-IsBatch i n d ds r k (inl (ns, e, counts)) =
      inl (n ∷ ns, ap (batch_step i (ok n)) e, (k, counts))
  batch_step-IsBatch i n d ds r k (inr (before, counts, bad, after, split, known, unmarked, e)) =
      let at : i + 1 + length before ≡ i + length (d ∷ before) = omega arith in
      inr (
        d ∷ before,
        n ∷ counts,
        bad,
        after,
        ap (λ xs. d ∷ xs) split,
        (k, known),
        unmarked,
        ap (batch_step i (ok n)) e ∙ ap (λ j. err (item_failed j)) at,
      )

  batch_from-IsBatch :
      KeysDetermine
      → (i : ℕ) (ds : List D) (c : Counter) → All Counted ds
      → IsExact c
      → IsBatch i ds (batch_from encoder i ds c).1
  unfolding batch_from
  batch_from-IsBatch same i [] c all x = inl ([], refl, tt)
  batch_from-IsBatch same i (d ∷ ds) c (one, all) x =
      let (exact, counted) = count-IsExact same d c one x in
      let rest = batch_from-IsBatch same (i + 1) ds (count encoder d c).0 all exact in
      elim (Option-cases (marshal d)) [
        | inl k ↦
            let failed : (count encoder d c).1 ≡ err marshal_failed =
              counted ∙ rw (true_count, k) refl in
            let start : i ≡ i + 0 = omega arith in
            inr (
              [],
              [],
              d,
              ds,
              refl,
              tt,
              k,
              rw (batch_from, failed) (ap (λ j. err (item_failed j)) start),
            )
        | inr (json, k) ↦
            let known : true_count encoder d ≡ ok (token_length json) = rw (true_count, k) refl in
            let found = counted ∙ known in
            rw (batch_from, found)
              (batch_step-IsBatch i (token_length json) d ds
                (batch_from encoder (i + 1) ds (count encoder d c).0).1 known rest)
      ]

  -- Counting a list with the cache gives the token count of the JSON of every value, in their order;
  -- or, where a value has no JSON, the index of the first that has none. Among the values that are
  -- counted, those that print alike must have the same count, and the cache at the start must have no
  -- wrong count for any of them.
  pub batch_count-IsBatch :
      KeysDetermine
      → (ds : List D) (c : Counter) → All Counted ds
      → IsExact c
      → IsBatch 0 ds (batch_count encoder ds c).1
  unfolding batch_count
  batch_count-IsBatch same ds c all x = batch_from-IsBatch same 0 ds c all x

module _ {D : Type 0} (encoder : Encoder D) where
  open encoder use {key, marshal, token_length}

  -- `Count` and `CountString` share one cache. Once a value is counted, `CountString` of the text that
  -- is its key gives the count of the value's JSON, not that of the text.
  pub count_string-key :
      (d : D) (json : Text) (c : Counter)
      → marshal d ≡ some json
      → lookup (key d) c ≡ none
      → (count_string encoder (key d) (count encoder d c).0).1 ≡ token_length json
  unfolding count count_string
  count_string-key d json c h k =
      rw
        (
          k,
          count,
          h,
          count_string,
          lookup-store_self (key d) (token_length json) (token_length json) c refl,
        )
        refl
