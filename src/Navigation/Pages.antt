-- ===== src/Navigation/Pages.antt =====
-- The pages of `build_navigation_map`, and the cursors to the next.
use mcp_xlsm_server.Prelude.{
  ℕ, zero, suc, ◌+◌, ◌-◌, ◌<◌, ◌≤◌, ◌^◌, ◌≡◌, ◌≢◌, refl, ap, sym, ◌∙◌, arith, Option, none, some,
  List, [], ◌∷◌, length, length-drop, take, drop, ℤ, pos, ◌-ℤ◌, ◌≤ℤ◌, InInt64, add_int64-pos,
  if◌then◌else◌, ltb_ℤ, Option-cases, inl, inr, min,
}
use native.Mathlib.Decide.{dec_lt}
use mcp_xlsm_server.Streaming.{between}
use mcp_xlsm_server.Cursor.{
  Codec, Manager, create_navigation_cursor, generate_cursor, parse_cursor, max_age,
}
use mcp_xlsm_server.Cursor.Life.{cursor_lifetime}
use mcp_xlsm_server.Cursor.Fields.{cursor_data}
use mcp_xlsm_server.Cursor
use mcp_xlsm_server.Decimal.{codes}
use mathlib.Core.Path.{subst}
use mcp_xlsm_server.Query.Results.{none-ne-some}
use mcp_xlsm_server.Models.{Text, Pagination, CursorData}
use mcp_xlsm_server.Navigation.Handler.{read_position, page_of, ok}
use mcp_xlsm_server.Navigation.Paging.{create_pagination, chunks_of}

take_all {ℓ} : {A : Type ℓ} (n : ℕ) (xs : List A) → length xs ≤ n → take n xs ≡ xs
take_all zero [] h = refl
take_all zero (x ∷ xs) h = absurd (omega arith)
take_all (suc n) [] h = refl
take_all (suc n) (x ∷ xs) h = ap (λ ys. x ∷ ys) (take_all n xs (omega arith))

between-nat :
    {A : Type 0} (first end : ℕ) (xs : List A)
    → between (pos first) (pos end -ℤ pos 1) xs ≡ some (take (end - first) (drop first xs))
unfolding between ◌-ℤ◌
between-nat first end xs = elim (dec_lt first end) [
  | yes q ↦ let last : end - 1 + 1 - first ≡ end - first = omega arith in ground (arith, last)
  | no q ↦ let last : end - first ≡ 0 = omega arith in rw last (ground arith)
]

-- A page that begins at a sheet of the workbook or behind the last holds the sheets from there on, up
-- to the window size, which is positive.
pub page_of-take :
    (names : List Text) (start size : ℕ)
    → 0 < size
    → start + size < 2 ^ 63
    → page_of names (pos start) (pos size) ≡ some (take size (drop start names))
unfolding page_of
page_of-take names start size h1 h2 =
    let limit = add_int64-pos start size h2 in
    let end : ℕ = min (length names) (start + size) in
    let clipped : (if ltb_ℤ (pos (length names)) (pos (start + size))
          then pos (length names)
          else pos (start + size))
        ≡ pos end =
      ground arith in
    let page : page_of names (pos start) (pos size) ≡ some (take (end - start) (drop start names)) =
      rw (page_of, limit, clipped) (between-nat start end names) in
    let left = length-drop start names in
    elim (dec_lt (length names) (start + size)) [
      | yes q ↦
          page
          ∙ ap some (
              take_all (end - start) (drop start names) (omega arith)
              ∙ sym (take_all size (drop start names) (omega arith)))
      | no q ↦ let all : end - start ≡ size = omega arith in page ∙ rw all refl
    ]

abbrev next_of : Option Pagination → Text
next_of none = []
next_of (some p) = p.next_cursor

module _ (codec : Codec) (m : Manager) where
  read_position-parse_cursor :
      (now : ℤ) (cursor : Text) (d : CursorData)
      → parse_cursor codec m now cursor ≡ Cursor.ok d
      → read_position codec m now (some cursor) ≡ ok (d.chunk_id, d.offset)
  unfolding read_position parse_cursor
  read_position-parse_cursor now [] d h = absurd (ground (arith, h))
  read_position-parse_cursor now (c ∷ cs) d h = rw (read_position, h) refl

  -- Without a cursor in the request the response offers none: a client that begins at the first sheet
  -- is not told how to go on, however many sheets there are. With one, the next cursor leads to sheet
  -- 1, wherever the client is, if it is used within its 24 hours and its fields survive JSON.
  pub create_pagination-next_cursor :
      (now later used : ℤ) (current : Text) (items : ℕ) (size : ℤ) (p : Pagination)
      → codec.IsPlain (cursor_data m now (codes "next_chunk") (pos 1) [] none)
      → InInt64 (used -ℤ now)
      → used -ℤ now ≤ℤ max_age
      → create_pagination codec m now later current items size ≡ some p
      → (current ≡ [] → p.next_cursor ≡ [])
        × (current ≢ []
            → read_position codec m used (some p.next_cursor) ≡ ok (codes "next_chunk", pos 1))
  unfolding create_pagination create_navigation_cursor generate_cursor
  create_pagination-next_cursor now later used [] items size p h1 h2 h3 h4 =
      (λ e. ground (arith, h4), λ e. absurd (e refl))
  create_pagination-next_cursor now later used (c ∷ cs) items size p h1 h2 h3 h4 =
      let alive =
        (cursor_lifetime codec m now used (cursor_data m now (codes "next_chunk") (pos 1) [] none)
            h1 h2).0
          h3 in
      (
        λ e. absurd (ground (arith, e)),
        λ e. elim (Option-cases (chunks_of items size)) [
          | inl k ↦ absurd (none-ne-some (sym (rw (create_pagination, k) refl) ∙ h4))
          | inr (total, k) ↦
              let made : next_of (create_pagination codec m now later (c ∷ cs) items size)
                  ≡ create_navigation_cursor codec m now (codes "next_chunk") (pos 1) [] =
                rw (create_pagination, k) refl in
              subst (λ s. read_position codec m used (some s) ≡ ok (codes "next_chunk", pos 1))
                (sym made ∙ ap next_of h4)
                (read_position-parse_cursor used
                  (create_navigation_cursor codec m now (codes "next_chunk") (pos 1) [])
                  (cursor_data m now (codes "next_chunk") (pos 1) [] none) alive)
        ],
      )
