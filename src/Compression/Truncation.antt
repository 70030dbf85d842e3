-- ===== src/Compression/Truncation.antt =====
-- `truncateData` and its cases. What has been counted is kept by the token counter, whose cache is the
-- state. A target is never negative: what has been taken is subtracted only where it was within.
use mcp_xlsm_server.Prelude.{
  ℕ, suc, ◌+◌, ◌-◌, ◌*◌, ◌/◌, Bool, true, false, Option, none, some, List, [], ◌∷◌, ◌++◌, length,
  take, ltb, leb, ◌==◌, if◌then◌else◌,
}
use mcp_xlsm_server.Compression.Values.{
  Value, Items, Fields, object, array, string, integer, boolean, other, nil, cons, end, field,
  item_count, field_count, find, put, single,
}
use mcp_xlsm_server.Decimal.{codes}
use mcp_xlsm_server.Models.{Text}
use mcp_xlsm_server.Token.{Encoder, Counter, Result, ok, err, count, count_string}

-- `bytes.LastIndexByte`
unfoldable pub last_index : ℕ → Text → Option ℕ
last_index c [] = none
last_index c (d ∷ text) = elim (last_index c text) [
  | some i ↦ some (suc i)
  | none ↦ if d == c then some 0 else none
]

-- The first `size` bytes of a text that is longer, or fewer if the last space among them lies behind
-- the middle.
unfoldable pub cut_text : ℕ → Text → Text
unfolding last_index
cut_text size text =
    let truncated = take size text in
    elim (last_index 32 truncated) [
      | none ↦ truncated
      | some i ↦ if ltb (size / 2) i then take i truncated else truncated
    ]

abbrev pub truncation_mark : Text
truncation_mark = codes "... [truncated]"

-- `truncateString`, given the count of the text.
unfoldable pub truncate_text : ℕ → Text → ℕ → Text
unfolding cut_text
truncate_text tokens text target =
    if leb tokens target
    then text
    else if leb (length text) (target * 4)
    then text
    else cut_text (target * 4) text ++ truncation_mark

-- The fields that are kept first, in their order.
abbrev pub priority_fields : List Text
priority_fields = codes "metadata" ∷ codes "summary" ∷ codes "index" ∷ codes "pagination" ∷ []

-- The map that is being built, with the tokens taken so far.
abbrev pub Kept : Type 0
Kept = Fields × ℕ

-- The markers of a truncated map: the last counts the fields but for the two markers before it.
unfoldable pub mark : ℕ → Fields → Fields
mark size kept =
    let marked =
      put (codes "_original_size") (integer size) (put (codes "_truncated") (boolean true) kept) in
    put (codes "_included_fields") (integer (field_count marked - 2)) marked

-- What stands for the items behind the one at `i`.
abbrev pub remaining_summary : ℕ → ℕ → Value
remaining_summary i total = object (
    field (codes "_truncated_items") (integer (total - i - 1))
      (field (codes "_total_items") (integer total) end))

-- The outcome of counting a truncated value: whether the value is kept.
abbrev pub is_kept : Result ℕ → Bool
is_kept (ok n) = ltb 0 n
is_kept (err e) = false

abbrev pub count_or : Result ℕ → ℕ
count_or (ok n) = n
count_or (err e) = 0

-- An `if err != nil`, and the test whether what was counted fits.
unfoldable pub by_count {ℓ} : {A : Type ℓ} → Result ℕ → ℕ → ℕ → A → (ℕ → A) → A → A
by_count (err e) current target failed fits large = failed
by_count (ok n) current target failed fits large =
    if leb (current + n) target then fits n else large

abbrev pub unless_kept {ℓ} : {A : Type ℓ} → Option Value → A → A → A
unless_kept (some w) kept absent = kept
unless_kept none kept absent = absent

abbrev pub before : Value → Counter × Items → Counter × Items
before v (c, items) = (c, cons v items)

module _ (encoder : Encoder Value) where
  -- A priority field that the map has, if it can be counted and fits.
  unfoldable pub keep_priority : Text → Fields → ℕ → Counter → Kept → Counter × Kept
  keep_priority name fields target c (kept, current) = elim (find name fields) [
    | none ↦ (c, (kept, current))
    | some v ↦
        let (c', counted) = count encoder v c in
        elim counted [
          | err e ↦ (c', (kept, current))
          | ok n ↦
              if leb (current + n) target
              then (c', (put name v kept, current + n))
              else (c', (kept, current))
        ]
  ]

  unfoldable pub keep_priorities : List Text → Fields → ℕ → Counter → Kept → Counter × Kept
  unfolding keep_priority
  keep_priorities [] fields target c kept = (c, kept)
  keep_priorities (name ∷ names) fields target c kept =
      let (c', kept') = keep_priority name fields target c kept in
      keep_priorities names fields target c' kept'

  -- A truncated field, which is kept if its count is positive.
  abbrev pub keep_cut_field : Text → Fields → ℕ → Counter × Value → Counter × Kept
  keep_cut_field k kept current (c, cut) =
      let (c', recount) = count encoder cut c in
      (
        c',
        if is_kept recount then (put k cut kept, current + count_or recount) else (kept, current),
      )

  -- The truncated item at `i`, which is kept if its count is positive, and the summary of the items
  -- behind it, if there are any.
  abbrev pub keep_cut_item : ℕ → ℕ → Counter × Value → Counter × Items
  keep_cut_item i total (c, cut) =
      let (c', recount) = count encoder cut c in
      let summary = if ltb i (total - 1) then single (remaining_summary i total) else nil in
      (c', if is_kept recount then cons cut summary else summary)

  unfoldable mutual
    pub truncate_data : Value → ℕ → Counter → Counter × Value
    truncate_data (object fields) target c =
        let (c1, kept) = keep_priorities priority_fields fields target c (end, 0) in
        let (c2, whole) = keep_fields fields target c1 kept in
        (c2, object (mark (field_count fields) whole.0))
    truncate_data (array items) target c =
        let (c', kept) = keep_items items 0 (item_count items) target 0 c in (c', array kept)
    truncate_data (string text) target c =
        let (c', tokens) = count_string encoder text c in
        (c', string (truncate_text tokens text target))
    truncate_data (integer n) target c = (c, integer n)
    truncate_data (boolean b) target c = (c, boolean b)
    truncate_data (other t) target c = (c, other t)

    -- The loop of `truncateMap` over the fields that are not kept yet; the first that does not fit is
    -- truncated and ends it.
    pub keep_fields : Fields → ℕ → Counter → Kept → Counter × Kept
    keep_fields end target c kept = (c, kept)
    keep_fields (field k v fields) target c (kept, current) =
        let (c1, counted) = count encoder v c in
        unless_kept (find k kept) (keep_fields fields target c (kept, current)) (
          by_count counted current target (keep_fields fields target c1 (kept, current))
            (λ n. keep_fields fields target c1 (put k v kept, current + n))
            (keep_cut_field k kept current (truncate_data v (target - current) c1)))

    -- The loop of `truncateSlice` from the item `i` on, of which `total` are in all.
    pub keep_items : Items → ℕ → ℕ → ℕ → ℕ → Counter → Counter × Items
    keep_items nil i total target current c = (c, nil)
    keep_items (cons v items) i total target current c =
        let (c1, counted) = count encoder v c in
        by_count counted current target (keep_items items (i + 1) total target current c1)
          (λ n. before v (keep_items items (i + 1) total target (current + n) c1))
          (keep_cut_item i total (truncate_data v (target - current) c1))
