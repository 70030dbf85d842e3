-- ===== src/Tools/Second.antt =====
-- How the loop of CreateChunks ends, or goes on, behind its first chunk.
use mathlib.Core.Path.{subst}
use native.Mathlib.Decide.{dec_lt}
use mcp_xlsm_server.Prelude.{
  ℕ, suc, ◌+◌, ◌-◌, ◌<◌, ◌≤◌, pos_part, ◌^◌, ◌≡◌, refl, sym, ap, Bool, some, List, [], ◌∷◌, ℤ, pos,
  arith, inl, inr, ◌⊎◌,
}
use mcp_xlsm_server.Cursor.{Codec, Manager}
use mcp_xlsm_server.Models.{Text, Chunk}
use mcp_xlsm_server.Tools.Partition.{
  IsPartition, rounds, chunk_at, chunk_loop_done, chunk_loop_round, chunk_loop-IsPartition,
}
use mcp_xlsm_server.Workbook.{Workbook}

-- There is a second chunk exactly where the first cannot hold the sheets, and it begins behind them.
abbrev pub IsSecond : ℕ → ℕ → List Chunk → Type 0
IsSecond count size [] = count ≤ size
IsSecond count size (c ∷ []) = count ≤ size
IsSecond count size (c0 ∷ c1 ∷ rest) = (size < count) × (c1.first_sheet ≡ pos size)

first-IsPartition :
    (size from to : ℤ) (chunks : List Chunk)
    → IsPartition size from to chunks
    → (from ≡ to)
      ⊎ ((c : Chunk) × (rest : List Chunk) × (chunks ≡ c ∷ rest) × (c.first_sheet ≡ from))
first-IsPartition size from to [] h = inl h
first-IsPartition size from to (c ∷ rest) h = inr (c, rest, refl, h.0)

module _ (codec : Codec) (m : Manager) (file : Workbook) (count size : ℕ) (stream_mode : Bool)
    (checksum : Text) (clock : ℤ → ℤ) (fuel : ℕ) (h1 : 0 < size) (h2 : size < 2 ^ 62)
    (h3 : count < 2 ^ 62) (h4 : count < suc fuel) where
  two_chunks :
      size < count
      → (chunks : List Chunk) × (rounds codec m file count size stream_mode checksum clock
            (suc fuel)
            (pos 0)
          ≡ some chunks)
        × IsSecond count size chunks
  two_chunks q =
      let (chunks, done, parts) =
        chunk_loop-IsPartition codec m file count size stream_mode checksum clock fuel size h1 h2 h3
          (omega arith) (omega arith) in
      let start : size ≡ 0 + size = omega arith in
      let done' : rounds codec m file count size stream_mode checksum clock fuel (pos (0 + size))
          ≡ some chunks =
        rw (sym start) done in
      let c0 = chunk_at codec m file count size stream_mode checksum clock 0 in
      elim (first-IsPartition (pos size) (pos size) (pos count) chunks parts) [
        | inl e ↦ absurd (omega (arith, ap pos_part e))
        | inr (c1, rest, same, at) ↦ (
          c0 ∷ chunks,
          chunk_loop_round codec m file count size stream_mode checksum clock fuel 0 chunks
              (omega arith) (omega arith) done',
          subst (λ cs. IsSecond count size (c0 ∷ cs)) (sym same) (q, at),
        )
      ]

  one_chunk :
      count ≤ size
      → (chunks : List Chunk) × (rounds codec m file count size stream_mode checksum clock
            (suc fuel)
            (pos 0)
          ≡ some chunks)
        × IsSecond count size chunks
  one_chunk q = elim (dec_lt 0 count) [
    | no z ↦ (
      [],
      chunk_loop_done codec m file count size stream_mode checksum clock fuel 0 (omega arith),
      q,
    )
    | yes p ↦
        let one : fuel ≡ suc (fuel - 1) = omega arith in
        let done : rounds codec m file count size stream_mode checksum clock fuel (pos (0 + size))
            ≡ some [] =
          rw one (
            chunk_loop_done codec m file count size stream_mode checksum clock (fuel - 1) (0 + size)
              (omega arith)) in
        let c0 = chunk_at codec m file count size stream_mode checksum clock 0 in
        (
          c0 ∷ [],
          chunk_loop_round codec m file count size stream_mode checksum clock fuel 0 [] p
              (omega arith) done,
          q,
        )
  ]

  pub walked_chunks :
      (chunks : List Chunk) × (rounds codec m file count size stream_mode checksum clock
          (suc fuel)
          (pos 0)
        ≡ some chunks)
      × IsSecond count size chunks
  walked_chunks = elim (dec_lt size count) [ yes q ↦ two_chunks q | no q ↦ one_chunk (omega arith) ]
