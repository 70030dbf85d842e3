-- ===== src/Streaming.antt =====
-- internal/streaming/reader.go: chunks and windows of a workbook as a stream of JSON messages. What
-- the writer accepts is an argument: `fails log m` says whether writing `m` fails behind `log`.
pub mod Batches
pub mod Rows
pub mod Windows
pub mod Failures
pub mod Cuts
pub mod Response
use mcp_xlsm_server.Prelude.{
  ℕ, zero, suc, ◌+◌, ◌-◌, Bool, true, false, ◌||◌, Option, none, some, List, [], ◌∷◌, ◌++◌, length,
  take, drop, ℤ, pos, pos_part, ltb_ℤ, add_int64, if◌then◌else◌, ltb, leb, ◌==◌,
}
use mcp_xlsm_server.Models.{Text, Window, Chunk}
use mcp_xlsm_server.Workbook.{Workbook}

abbrev pub Rows : Type 0
Rows = List (List Text)

-- The messages, by their `type`.
pub data Message : Type 0 where
  -- chunk_id, sheets_range
  metadata : Text → ℤ → ℤ → Message
  -- sheet_index, sheet_name, total_rows
  sheet_start : ℕ → Text → ℕ → Message
  -- sheet_index, sheet_name, start_row, rows
  rows_batch : ℕ → Text → ℕ → Rows → Message
  sheet_complete : ℕ → Text → Message
  complete : Text → Message
  -- sheet_name, window, rows
  window_start : Text → Window → ℕ → Message
  -- start_row, rows
  window_data : ℤ → Rows → Message
  window_complete : Message

abbrev pub Log : Type 0
Log = List Message

pub data Outcome : Type 0 where
  done write_failed sheet_unreadable panicked : Outcome
  -- The loop of a model has not ended.
  running : Outcome

abbrev pub Run : Type 0
Run = Log × Outcome

-- `if err := …; err != nil { return err }`
abbrev pub and_then : Run → (Log → Run) → Run
and_then (log, done) next = next log
and_then (log, write_failed) next = (log, write_failed)
and_then (log, sheet_unreadable) next = (log, sheet_unreadable)
and_then (log, panicked) next = (log, panicked)
and_then (log, running) next = (log, running)

-- The elements at the indices from `first` to `last` that a list has; `none` where the loop would
-- read a negative index.
unfoldable pub between {ℓ} : {A : Type ℓ} → ℤ → ℤ → List A → Option (List A)
between first last xs =
    if ltb_ℤ last first
    then some []
    else if ltb_ℤ first (pos 0)
    then none
    else some (take (pos_part last + 1 - pos_part first) (drop (pos_part first) xs))

-- The columns of every row; `none` at the first that panics.
unfoldable pub columns_between : ℤ → ℤ → Rows → Option Rows
columns_between first last [] = some []
columns_between first last (row ∷ rows) = elim (between first last row) [
  | none ↦ none
  | some cells ↦ elim (columns_between first last rows) [
    | none ↦ none
    | some rest ↦ some (cells ∷ rest)
  ]
]

pub data ReadResult : Type 0 where
  read : Rows → ReadResult
  unreadable read_panicked : ReadResult

-- A row that is shorter than the window is not padded: the source's branch for that is never taken.
unfoldable pub read_window : Workbook → Text → Window → ReadResult
read_window file name w = elim (file.get_rows name) [
  | none ↦ unreadable
  | some rows ↦ elim (between w.start_row w.end_row rows) [
    | none ↦ read_panicked
    | some kept ↦ elim (columns_between w.start_col w.end_col kept) [
      | none ↦ read_panicked
      | some cut ↦ read cut
    ]
  ]
]

module _ (fails : Log → Message → Bool) where
  unfoldable pub write : Message → Log → Run
  write m log = if fails log m then (log, write_failed) else (log ++ m ∷ [], done)

  -- The loop over the rows of a sheet, of which `total` are in all: `i` is the index of the next row
  -- and `batch` the rows that are not sent yet.
  unfoldable pub stream_rows : ℕ → Text → ℕ → ℕ → Rows → Rows → Log → Run
  stream_rows idx name total i batch [] log = (log, done)
  stream_rows idx name total i batch (row ∷ rows) log =
      let batch' = batch ++ row ∷ [] in
      let full = leb 100 (length batch') || (i == total - 1) in
      let sent =
        if full
        then write (rows_batch idx name (i + 1 - length batch') batch') log
        else (log, done) in
      and_then sent (stream_rows idx name total (i + 1) (if full then [] else batch') rows)

  unfoldable pub stream_sheet : Workbook → Text → ℕ → Log → Run
  stream_sheet file name idx log = elim (file.get_rows name) [
    | none ↦ (log, sheet_unreadable)
    | some rows ↦ and_then (write (sheet_start idx name (length rows)) log) λ log1.
        and_then (stream_rows idx name (length rows) 0 [] rows log1)
          (write (sheet_complete idx name))
  ]

  unfoldable pub stream_sheets : Workbook → List Text → ℕ → Log → Run
  stream_sheets file [] idx log = (log, done)
  stream_sheets file (name ∷ names) idx log =
      and_then (stream_sheet file name idx log) (stream_sheets file names (idx + 1))

  unfoldable pub stream_chunk : Workbook → Chunk → Log → Run
  stream_chunk file c log =
      and_then (write (metadata c.chunk_id c.first_sheet c.last_sheet) log) λ log1.
        elim (between c.first_sheet c.last_sheet file.sheet_list) [
          | none ↦ (log1, panicked)
          | some names ↦
              and_then (stream_sheets file names (pos_part c.first_sheet) log1)
                (write (complete c.chunk_id))
        ]

  -- The loop over the batches of a window, with fuel.
  unfoldable pub stream_batches : ℕ → ℤ → Rows → ℕ → Log → Run
  stream_batches zero start window i log = (log, running)
  stream_batches (suc fuel) start window i log = elim (ltb i (length window)) [
    | false ↦ (log, done)
    | true ↦
        let end = if ltb (length window) (i + 50) then length window else i + 50 in
        let batch = take (end - i) (drop i window) in
        and_then (write (window_data (add_int64 (pos i) start) batch) log)
          (stream_batches fuel start window (i + 50))
  ]

  -- The fuel is one more than the rows.
  unfoldable pub stream_window : Workbook → Text → Window → Log → Run
  stream_window file name w log = elim (read_window file name w) [
    | unreadable ↦ (log, sheet_unreadable)
    | read_panicked ↦ (log, panicked)
    | read window ↦ and_then (write (window_start name w (length window)) log) λ log1.
        and_then (stream_batches (length window + 1) w.start_row window 0 log1)
          (write window_complete)
  ]
