-- ===== src/Tools/Partition.antt =====
-- The chunks of a workbook are a partition of its sheets.
use mcp_xlsm_server.Prelude.{
  ℕ, zero, suc, ◌+◌, ◌-◌, ◌<◌, ◌≤◌, ◌^◌, ◌≡◌, refl, Bool, Option, none, some, List, [], ◌∷◌, ℤ, pos,
  ◌+ℤ◌, ◌≤ℤ◌, ◌<ℤ◌, add_int64-pos, sub_int64-pos, arith, int_laws,
}
use native.Mathlib.Decide.{dec_lt}
use mcp_xlsm_server.Cursor.{Codec, Manager}
use mcp_xlsm_server.Models.{Text, Chunk}
use mcp_xlsm_server.Workbook.{Workbook}
use mcp_xlsm_server.Tools.{make_chunk, chunk_loop, create_chunks}

-- The chunks are consecutive from one sheet up to before another; each has a sheet, and none more
-- than `size`.
abbrev pub IsPartition : ℤ → ℤ → ℤ → List Chunk → Type 0
IsPartition size from to [] = from ≡ to
IsPartition size from to (c ∷ chunks) =
    (c.first_sheet ≡ from)
    × (from ≤ℤ c.last_sheet)
    × (c.last_sheet <ℤ from +ℤ size)
    × IsPartition size (c.last_sheet +ℤ pos 1) to chunks

module _ (codec : Codec) (m : Manager) (file : Workbook) (count size : ℕ) (stream_mode : Bool)
    (checksum : Text) (clock : ℤ → ℤ) where
  abbrev pub rounds : ℕ → ℤ → Option (List Chunk)
  rounds = chunk_loop codec m file (pos count) (pos size) stream_mode checksum clock

  abbrev pub chunk_at : ℕ → Chunk
  chunk_at i = make_chunk codec m file (pos count) (pos size) stream_mode checksum clock (pos i)

  pub chunk_loop_done : (fuel i : ℕ) → count ≤ i → rounds (suc fuel) (pos i) ≡ some []
  unfolding chunk_loop
  chunk_loop_done fuel i h = ground arith

  pub chunk_loop_round :
      (fuel i : ℕ) (chunks : List Chunk)
      → i < count
      → i + size < 2 ^ 63
      → rounds fuel (pos (i + size)) ≡ some chunks
      → rounds (suc fuel) (pos i) ≡ some (chunk_at i ∷ chunks)
  unfolding chunk_loop
  chunk_loop_round fuel i chunks h k rest = ground (arith, add_int64-pos i size k)

  -- The last sheet of a chunk, where it is the workbook's last and where it is not.
  last_sheet-make_chunk :
      (i : ℕ)
      → i < count
      → 0 < size
      → i + size < 2 ^ 63
      → (count ≤ i + size → (chunk_at i).last_sheet ≡ pos (count - 1))
        × (i + size < count → (chunk_at i).last_sheet ≡ pos (i + size - 1))
  unfolding make_chunk
  last_sheet-make_chunk i h p k =
      ground (arith, add_int64-pos i size k, sub_int64-pos count 1, sub_int64-pos (i + size) 1)

  first_sheet-make_chunk : (i : ℕ) → (chunk_at i).first_sheet ≡ pos i
  unfolding make_chunk
  first_sheet-make_chunk i = refl

  chunk_at-IsPartition :
      (i end : ℕ) (chunks : List Chunk)
      → i < end
      → end ≤ i + size
      → (chunk_at i).last_sheet ≡ pos (end - 1)
      → IsPartition (pos size) (pos end) (pos count) chunks
      → IsPartition (pos size) (pos i) (pos count) (chunk_at i ∷ chunks)
  chunk_at-IsPartition i end chunks low high last rest =
      let next : pos (end - 1) +ℤ pos 1 ≡ pos end = omega int_laws in
      rw last (first_sheet-make_chunk i, omega arith, omega int_laws, rw next rest)

  pub chunk_loop-IsPartition :
      (fuel i : ℕ)
      → 0 < size
      → size < 2 ^ 62
      → count < 2 ^ 62
      → i ≤ count
      → count < i + fuel
      → (chunks : List Chunk) × (rounds fuel (pos i) ≡ some chunks)
        × IsPartition (pos size) (pos i) (pos count) chunks
  chunk_loop-IsPartition zero i h1 h2 h3 h4 h5 = absurd (omega arith)
  chunk_loop-IsPartition (suc fuel) i h1 h2 h3 h4 h5 = elim (dec_lt i count) [
    | no q ↦
        let e : i ≡ count = omega arith in ([], chunk_loop_done fuel i (omega arith), rw e refl)
    | yes p ↦
        let (at_end, inside) = last_sheet-make_chunk i p h1 (omega arith) in
        elim (dec_lt (i + size) count) [
          | yes q ↦
              let (chunks, done, parts) =
                chunk_loop-IsPartition fuel (i + size) h1 h2 h3 (omega arith) (omega arith) in
              (
                chunk_at i ∷ chunks,
                chunk_loop_round fuel i chunks p (omega arith) done,
                chunk_at-IsPartition i (i + size) chunks (omega arith) (omega arith) (inside q)
                    parts,
              )
          | no q ↦
              let one : fuel ≡ suc (fuel - 1) = omega arith in
              let done : rounds fuel (pos (i + size)) ≡ some [] =
                rw one (chunk_loop_done (fuel - 1) (i + size) (omega arith)) in
              (
                chunk_at i ∷ [],
                chunk_loop_round fuel i [] p (omega arith) done,
                chunk_at-IsPartition i count [] p (omega arith) (at_end (omega arith)) refl,
              )
        ]
  ]

  -- With a positive chunk size the loop of `createChunks` ends, within one round more than there are
  -- sheets. Its chunks are consecutive from sheet 0 to the last, none is empty and none has more
  -- sheets than the chunk size.
  pub create_chunks-IsPartition :
      0 < size
      → size < 2 ^ 62
      → count < 2 ^ 62
      → (fuel : ℕ) → count < fuel
      → (chunks : List Chunk) × (create_chunks codec m file
            (pos count)
            (pos size)
            stream_mode
            checksum
            clock
            fuel
          ≡ some chunks)
        × IsPartition (pos size) (pos 0) (pos count) chunks
  unfolding create_chunks
  create_chunks-IsPartition h1 h2 h3 fuel h4 =
      chunk_loop-IsPartition fuel 0 h1 h2 h3 (omega arith) (omega arith)

-- With the chunk size 0, which a client may ask for, the loop does not end for any workbook that has
-- a sheet: after any number of rounds it is still running.
pub create_chunks_diverges :
    (codec : Codec) (m : Manager) (file : Workbook) (count : ℕ) (stream_mode : Bool)
    (checksum : Text) (clock : ℤ → ℤ) (fuel : ℕ)
    → 0 < count
    → create_chunks codec m file (pos count) (pos 0) stream_mode checksum clock fuel ≡ none
unfolding create_chunks chunk_loop
create_chunks_diverges codec m file count stream_mode checksum clock zero h = refl
create_chunks_diverges codec m file count stream_mode checksum clock (suc fuel) h =
    let rest = create_chunks_diverges codec m file count stream_mode checksum clock fuel h in
    let same = add_int64-pos 0 0 (omega arith) in ground arith
