-- ===== src/Compression/Strings.antt =====
-- What a truncated text is.
use mcp_xlsm_server.Prelude.{
  ℕ, suc, zero, ◌*◌, ◌/◌, ◌≤◌, ◌<◌, ◌≡◌, refl, arith, some, [], ◌∷◌, ◌++◌, length, take, get_elem?,
  ltb, leb, inl, inr, ◌⊎◌, Bool-cases, Option-cases,
}
use mcp_xlsm_server.Compression.Truncation.{last_index, cut_text, truncate_text, truncation_mark}
use mcp_xlsm_server.Models.{Text}

-- The last index of a byte is one where the byte stands.
last_index-get_elem? :
    (c : ℕ) (text : Text) (i : ℕ) → last_index c text ≡ some i → get_elem? text i ≡ some c
unfolding last_index
last_index-get_elem? c [] i h = ground (arith, h)
last_index-get_elem? c (d ∷ text) zero h = elim (Option-cases (last_index c text)) [
  | inr (j, k) ↦ ground (arith, h, k)
  | inl k ↦ ground (arith, h, k)
]
last_index-get_elem? c (d ∷ text) (suc i) h = elim (Option-cases (last_index c text)) [
  | inr (j, k) ↦ ground (arith, h, k, last_index-get_elem? c text i)
  | inl k ↦ ground (arith, h, k)
]

get_elem?-take :
    (n i : ℕ) (text : Text) (c : ℕ)
    → get_elem? (take n text) i ≡ some c
    → (i < n) × (get_elem? text i ≡ some c) × (take i (take n text) ≡ take i text)
get_elem?-take zero i text c h = ground (arith, h)
get_elem?-take (suc n) i [] c h = ground (arith, h)
get_elem?-take (suc n) zero (d ∷ text) c h = (omega arith, h, refl)
get_elem?-take (suc n) (suc i) (d ∷ text) c h =
    let (lt, at, same) = get_elem?-take n i text c h in (omega (arith, lt), at, rw same refl)

-- A cut text is a beginning of the text: all of the size, or what stands before a space behind the
-- middle.
cut_text-take :
    (size : ℕ) (text : Text)
    → (kept : ℕ) × (cut_text size text ≡ take kept text)
      × ((kept ≡ size) ⊎ ((size / 2 < kept) × (kept < size) × (get_elem? text kept ≡ some 32)))
unfolding cut_text
cut_text-take size text = elim (Option-cases (last_index 32 (take size text))) [
  | inl k ↦ (size, rw (cut_text, k) refl, inl refl)
  | inr (i, k) ↦
      let (lt, at, same) =
        get_elem?-take size i text 32 (last_index-get_elem? 32 (take size text) i k) in
      elim (Bool-cases (ltb (size / 2) i)) [
        | inl e ↦ (i, rw (cut_text, k, e, same) refl, inr (ground (arith, e), lt, at))
        | inr e ↦ (size, rw (cut_text, k, e) refl, inl refl)
      ]
]

-- A truncated text is the text itself, if its count is within the target or it has at most four
-- bytes for each token of it; otherwise it is a beginning of the text with the mark behind it, which
-- has four bytes for each token, or ends before a space of the second half of these.
pub truncate_text-take :
    (tokens : ℕ) (text : Text) (target : ℕ)
    → (((tokens ≤ target) ⊎ (length text ≤ 4 * target)) × (truncate_text tokens text target ≡ text))
      ⊎ ((target < tokens)
          × (4 * target < length text)
          × ((kept : ℕ) × (truncate_text tokens text target ≡ take kept text ++ truncation_mark)
              × ((kept ≡ 4 * target)
                  ⊎ ((2 * target < kept) × (kept < 4 * target) × (get_elem? text kept ≡ some 32)))))
unfolding truncate_text
truncate_text-take tokens text target = elim (Bool-cases (leb tokens target)) [
  | inl e ↦ inl (inl (ground (arith, e)), rw (truncate_text, e) refl)
  | inr e ↦ elim (Bool-cases (leb (length text) (target * 4))) [
    | inl k ↦ inl (inr (ground (arith, k)), rw (truncate_text, e, k) refl)
    | inr k ↦
        let (kept, same, where_cut) = cut_text-take (target * 4) text in
        inr (
          ground (arith, e),
          ground (arith, k),
          (
            kept,
            rw (truncate_text, e, k, same) refl,
            elim where_cut [
              | inl q ↦ inl (omega (arith, q))
              | inr (q1, q2, q3) ↦ inr (omega (arith, q1), omega (arith, q2), q3)
            ],
          ),
        )
  ]
]
