-- ===== src/Tools.antt =====
-- internal/server/tools.go: the parts of `analyze_file` that cut a workbook into chunks.
pub mod Partition
pub mod Patterns
pub mod Complexity
pub mod Handler
pub mod Second
pub mod Walk
use mcp_xlsm_server.Prelude.{
  ℕ, zero, suc, ◌+◌, ◌*◌, Bool, true, false, ◌&&◌, Option, none, some, List, [], ◌∷◌, ◌++◌, length,
  take, drop, ℤ, pos, negsuc, pos_part, ◌-ℤ◌, ltb_ℤ, add_int64, sub_int64, if◌then◌else◌, ltb, ◌-◌,
}
use mcp_xlsm_server.Cursor.{Codec, Manager, create_chunk_cursor}
use mcp_xlsm_server.Decimal.{decimal, codes}
use mcp_xlsm_server.Models.{Text, Chunk}
use mcp_xlsm_server.Workbook.{Workbook}

-- The cells of the rows, at 50 bytes each; a sheet that cannot be read counts nothing.
unfoldable pub cells : List (List Text) → ℕ
cells [] = 0
cells (row ∷ rows) = length row + cells rows

unfoldable pub sheet_bytes : Workbook → Text → ℕ
unfolding cells
sheet_bytes file name = elim (file.get_rows name) [ none ↦ 0 | some rows ↦ cells rows * 50 ]

unfoldable pub sum_bytes : Workbook → List Text → ℕ
unfolding sheet_bytes
sum_bytes file [] = 0
sum_bytes file (name ∷ names) = sheet_bytes file name + sum_bytes file names

-- The loop from `start_idx` to before `end_idx` stops at the end of the sheet list.
unfoldable pub estimate_chunk_size : Workbook → ℕ → ℕ → ℕ
unfolding sum_bytes
estimate_chunk_size file start_idx end_idx =
    sum_bytes file (take (end_idx - start_idx) (drop start_idx file.sheet_list))

unfoldable pub estimate_memory_usage : ℕ → ℕ
estimate_memory_usage sheets_count = 1 * 1024 * 1024 + sheets_count * 500 * 1024

-- `fmt.Sprintf("chunk_%d_%d", …)`
unfoldable pub chunk_name : ℤ → ℤ → Text
unfolding decimal
chunk_name first last = codes "chunk_" ++ decimal first ++ codes "_" ++ decimal last

-- The smaller of the two bounds: the `if endIdx > sheetsCount`.
abbrev pub clip : ℤ → ℤ → ℤ
clip limit i = if ltb_ℤ limit i then limit else i

module _ (codec : Codec) (m : Manager) (file : Workbook) (sheets_count chunk_size : ℤ)
    (stream_mode : Bool) (checksum : Text) (clock : ℤ → ℤ) where
  -- The chunk of one round, which begins at sheet `i`; `clock i` is the reading when its cursor is
  -- made.
  unfoldable pub make_chunk : ℤ → Chunk
  unfolding chunk_name
  make_chunk i =
      let last = sub_int64 (clip sheets_count (add_int64 i chunk_size)) (pos 1) in
      let size =
        estimate_chunk_size file (pos_part i)
          (pos_part (clip sheets_count (add_int64 i chunk_size))) in
      record {
        chunk_id = chunk_name i last;
        first_sheet = i;
        last_sheet = last;
        size_bytes = pos size;
        cursor = create_chunk_cursor codec m (clock i) (chunk_name i last) i checksum none;
        streaming_required = stream_mode && ltb (10 * 1024 * 1024) size;
      }

  -- The loop of `createChunks`, with fuel: `none` means that it has not ended.
  unfoldable pub chunk_loop : ℕ → ℤ → Option (List Chunk)
  chunk_loop zero i = none
  chunk_loop (suc fuel) i = elim (ltb_ℤ i sheets_count) [
    | false ↦ some []
    | true ↦ elim (chunk_loop fuel (add_int64 i chunk_size)) [
      | none ↦ none
      | some chunks ↦ some (make_chunk i ∷ chunks)
    ]
  ]

  unfoldable pub create_chunks : ℕ → Option (List Chunk)
  create_chunks fuel = chunk_loop fuel (pos 0)
