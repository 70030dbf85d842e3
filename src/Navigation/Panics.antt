-- ===== src/Navigation/Panics.antt =====
-- Requests that make `buildNavigationIndex` panic.
use mcp_xlsm_server.Prelude.{
  ℕ, suc, ◌+◌, ◌-◌, ◌<◌, ◌^◌, ◌≡◌, refl, arith, Bool, true, false, none, List, length, ℤ, pos,
  negsuc, ◌+ℤ◌, ◌-ℤ◌, ◌≤ℤ◌, add_int64, add_int64-eq, add_int64-pos, sub_int64-pos, ltb_ℤ,
  if◌then◌else◌, int_laws, Bool-cases, inl, inr,
}
use mcp_xlsm_server.Models.{Text}
use mcp_xlsm_server.Navigation.Handler.{build_navigation_index, page_of, err, panicked}
use mcp_xlsm_server.Navigation.Paging.{chunks_of, quotient}
use mcp_xlsm_server.Streaming.{between}
use mcp_xlsm_server.Workbook.{Workbook}

between_negative {ℓ} :
    {A : Type ℓ} (k : ℕ) (last : ℤ) (xs : List A)
    → negsuc k ≤ℤ last
    → between (negsuc k) last xs ≡ none
unfolding between
between_negative k last xs h =
    let reads : ltb_ℤ last (negsuc k) ≡ false = ground arith in
    let low : ltb_ℤ (negsuc k) (pos 0) ≡ true = ground arith in rw (between, reads, low) refl

page_of_negative :
    (names : List Text) (k s : ℕ)
    → k < 2 ^ 63
    → suc s < 2 ^ 63
    → page_of names (negsuc k) (pos (suc s)) ≡ none
unfolding page_of
page_of_negative names k s h1 h2 =
    let total = pos (length names) in
    let limit : add_int64 (negsuc k) (pos (suc s)) ≡ negsuc k +ℤ pos (suc s) =
      add_int64-eq (negsuc k) (pos (suc s)) (omega int_laws, omega int_laws) in
    let sum = negsuc k +ℤ pos (suc s) in
    rw limit (
      between_negative k ((if ltb_ℤ total sum then total else sum) -ℤ pos 1) names
        (elim (Bool-cases (ltb_ℤ total sum)) [
          | inl e ↦ rw e (omega int_laws)
          | inr e ↦ rw e (omega int_laws)
        ]))

chunks_of-some :
    (items s : ℕ)
    → items + suc s < 2 ^ 63
    → chunks_of items (pos (suc s)) ≡ quotient (pos (items + suc s - 1)) (pos (suc s))
unfolding chunks_of
chunks_of-some items s h =
    rw (add_int64-pos items (suc s) h, sub_int64-pos (items + suc s) 1 (omega arith) (omega arith))
      refl

-- The window size 0 makes the handler divide by zero, for every workbook and every cursor. With a
-- window size that is positive, a cursor with a negative offset makes it read a negative index, for
-- every workbook; the offset and the sum of the sheets and the window size are within 64 bits.
pub build_navigation_index_panics :
    (file : Workbook) (chunk : Text) (stream matches : Bool) (offset : ℤ) (k s : ℕ)
    → k < 2 ^ 63
    → length file.sheet_list + suc s < 2 ^ 63
    → (build_navigation_index file chunk offset (pos 0) stream matches ≡ err panicked)
      × (build_navigation_index file chunk (negsuc k) (pos (suc s)) stream matches ≡ err panicked)
unfolding build_navigation_index chunks_of quotient
build_navigation_index_panics file chunk stream matches offset k s h1 h2 = (
  refl,
  rw
      (
        build_navigation_index,
        chunks_of-some (length file.sheet_list) s h2,
        page_of_negative file.sheet_list k s h1 (omega arith),
      )
      refl,
)
