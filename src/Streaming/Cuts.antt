-- ===== src/Streaming/Cuts.antt =====
-- What a failing writer has of a chunk.
use mcp_xlsm_server.Prelude.{
  ℕ, pos_part, ◌+◌, ◌-◌, refl, sym, ap, Bool, ◌||◌, List, [], ◌∷◌, ◌++◌, length, leb, ◌==◌,
  Bool-cases, Option-cases, inl, inr,
}
use mathlib.Core.List.{append-nil}
use mcp_xlsm_server.Models.{Text, Chunk}
use mcp_xlsm_server.Workbook.{Workbook}
use mcp_xlsm_server.Streaming.{
  Message, Log, Rows, panicked, sheet_unreadable, done, write_failed, rows_batch, metadata,
  complete, stream_chunk, between, sheet_start, sheet_complete, write, and_then, stream_rows,
  stream_sheet, stream_sheets,
}
use mcp_xlsm_server.Streaming.Failures.{accept_all, IsCut, and_then-IsCut, unchanged-IsCut}

module _ (fails : Log → Message → Bool) where
  write-IsCut :
      (m : Message) (log : Log) → IsCut fails log (write fails m log) (write accept_all m log)
  unfolding write
  write-IsCut m log = elim (Bool-cases (fails log m)) [
    | inl e ↦
        let end = append-nil log in
        rw (write, e)
          (
            [],
            tt,
            inr (
              m,
              [],
              rw end e,
              ap (λ k. k ++ m ∷ []) (sym end),
              ap (λ (k : Log). (k, write_failed)) (sym end),
            ),
          )
    | inr e ↦ rw (write, e) (m ∷ [], (e, tt), inl (refl, refl))
  ]

  stream_rows-IsCut :
      (idx : ℕ) (name : Text) (total i : ℕ) (batch rows : Rows) (log : Log)
      → IsCut fails log
          (stream_rows fails idx name total i batch rows log)
          (stream_rows accept_all idx name total i batch rows log)
  unfolding stream_rows
  stream_rows-IsCut idx name total i batch [] log = unchanged-IsCut fails log (log, done) refl
  stream_rows-IsCut idx name total i batch (row ∷ rows) log =
      let batch' = batch ++ row ∷ [] in
      let m = rows_batch idx name (i + 1 - length batch') batch' in
      elim (Bool-cases (leb 100 (length batch') || (i == total - 1))) [
        | inl full ↦
            rw (stream_rows, full)
              (and_then-IsCut fails log (write fails m log) (write accept_all m log)
                (stream_rows fails idx name total (i + 1) [] rows)
                (stream_rows accept_all idx name total (i + 1) [] rows) (write-IsCut m log)
                (stream_rows-IsCut idx name total (i + 1) [] rows))
        | inr more ↦
            rw (stream_rows, more) (stream_rows-IsCut idx name total (i + 1) batch' rows log)
      ]

  stream_sheet-IsCut :
      (file : Workbook) (name : Text) (idx : ℕ) (log : Log)
      → IsCut fails log
          (stream_sheet fails file name idx log)
          (stream_sheet accept_all file name idx log)
  unfolding stream_sheet
  stream_sheet-IsCut file name idx log = elim (Option-cases (file.get_rows name)) [
    | inl e ↦ rw (stream_sheet, e) (unchanged-IsCut fails log (log, sheet_unreadable) refl)
    | inr (rows, e) ↦
        let start = sheet_start idx name (length rows) in
        let last = sheet_complete idx name in
        rw (stream_sheet, e)
          (and_then-IsCut fails log (write fails start log) (write accept_all start log)
            (λ log1.
              and_then (stream_rows fails idx name (length rows) 0 [] rows log1) (write fails last))
            (λ log1.
              and_then (stream_rows accept_all idx name (length rows) 0 [] rows log1)
                (write accept_all last))
            (write-IsCut start log)
            (λ log1.
              and_then-IsCut fails log1 (stream_rows fails idx name (length rows) 0 [] rows log1)
                (stream_rows accept_all idx name (length rows) 0 [] rows log1) (write fails last)
                (write accept_all last) (stream_rows-IsCut idx name (length rows) 0 [] rows log1)
                (write-IsCut last)))
  ]

  stream_sheets-IsCut :
      (file : Workbook) (names : List Text) (idx : ℕ) (log : Log)
      → IsCut fails log
          (stream_sheets fails file names idx log)
          (stream_sheets accept_all file names idx log)
  unfolding stream_sheets
  stream_sheets-IsCut file [] idx log = unchanged-IsCut fails log (log, done) refl
  stream_sheets-IsCut file (name ∷ names) idx log =
      and_then-IsCut fails log (stream_sheet fails file name idx log)
        (stream_sheet accept_all file name idx log) (stream_sheets fails file names (idx + 1))
        (stream_sheets accept_all file names (idx + 1)) (stream_sheet-IsCut file name idx log)
        (stream_sheets-IsCut file names (idx + 1))

  -- Streaming a chunk to a writer that may refuse messages, against the stream that a writer has that
  -- accepts everything: either the writer accepts every message of that stream, each behind those
  -- before it, and both have the same stream and the same outcome; or it accepts those before some
  -- message of the stream and refuses that one, and then has those before it, and the outcome is the
  -- failed write.
  pub stream_chunk-IsCut :
      (file : Workbook) (c : Chunk) (log : Log)
      → IsCut fails log (stream_chunk fails file c log) (stream_chunk accept_all file c log)
  unfolding stream_chunk
  stream_chunk-IsCut file c log =
      let start = metadata c.chunk_id c.first_sheet c.last_sheet in
      let last = complete c.chunk_id in
      elim (Option-cases (between c.first_sheet c.last_sheet file.sheet_list)) [
        | inl e ↦
            rw (stream_chunk, e)
              (and_then-IsCut fails log (write fails start log) (write accept_all start log)
                (λ log1. (log1, panicked)) (λ log1. (log1, panicked)) (write-IsCut start log)
                (λ log1. unchanged-IsCut fails log1 (log1, panicked) refl))
        | inr (names, e) ↦
            let first = pos_part c.first_sheet in
            rw (stream_chunk, e)
              (and_then-IsCut fails log (write fails start log) (write accept_all start log)
                (λ log1. and_then (stream_sheets fails file names first log1) (write fails last))
                (λ log1.
                  and_then (stream_sheets accept_all file names first log1) (write accept_all last))
                (write-IsCut start log)
                (λ log1.
                  and_then-IsCut fails log1 (stream_sheets fails file names first log1)
                    (stream_sheets accept_all file names first log1) (write fails last)
                    (write accept_all last) (stream_sheets-IsCut file names first log1)
                    (write-IsCut last)))
      ]
