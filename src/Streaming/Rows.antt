-- ===== src/Streaming/Rows.antt =====
-- What is streamed of a sheet to a writer that accepts everything.
use mcp_xlsm_server.Prelude.{
  ℕ, ◌+◌, ◌-◌, ◌<◌, ◌≤◌, ◌≡◌, refl, Bool, false, ◌||◌, some, List, [], ◌∷◌, ◌++◌, length,
  length-append, arith, sym, ap, ◌∙◌, map, leb, ◌==◌, Bool-cases, inl, inr,
}
use mathlib.Core.Path.{subst}
use mathlib.Core.List.{append-nil, append_assoc}
use mcp_xlsm_server.Models.{Text}
use mcp_xlsm_server.Workbook.{Workbook}
use mcp_xlsm_server.Streaming.{
  Message, Log, Rows, done, rows_batch, sheet_start, sheet_complete, stream_rows, stream_sheet,
  write,
}
use mcp_xlsm_server.Streaming.Batches.{IsBatched}

abbrev pub batch_messages : ℕ → Text → List (ℕ × Rows) → Log
batch_messages idx name = map (λ part. rows_batch idx name part.0 part.1)

module _ (fails : Log → Message → Bool)
    (accepts : (log : Log) (m : Message) → fails log m ≡ false) where
  pub write_done : (m : Message) (log : Log) → write fails m log ≡ (log ++ m ∷ [], done)
  unfolding write
  write_done m log = rw (accepts log m) refl

  stream_rows-IsBatched :
      (idx : ℕ) (name : Text) (total i : ℕ) (batch rows : Rows) (log : Log)
      → length batch ≤ i
      → length batch < 100
      → i + length rows ≡ total
      → (length rows ≡ 0 → batch ≡ [])
      → (parts : List (ℕ × Rows)) × (stream_rows fails idx name total i batch rows log
          ≡ (log ++ batch_messages idx name parts, done))
        × IsBatched 100 (i - length batch) (batch ++ rows) parts
  unfolding stream_rows
  stream_rows-IsBatched idx name total i batch [] log h1 h2 h3 h4 =
      ([], rw append-nil refl, rw (h4 refl) refl)
  stream_rows-IsBatched idx name total i batch (row ∷ rows) log h1 h2 h3 h4 =
      let batch' = batch ++ row ∷ [] in
      let size : length batch' ≡ length batch + 1 = length-append batch (row ∷ []) in
      elim (Bool-cases (leb 100 (length batch') || (i == total - 1))) [
        | inl full ↦
            let sent = write_done (rows_batch idx name (i + 1 - length batch') batch') log in
            let (parts, e, p) =
              stream_rows-IsBatched idx name total (i + 1) [] rows
                (log ++ rows_batch idx name (i + 1 - length batch') batch' ∷ []) (omega arith)
                (omega arith) (omega arith) (λ q. refl) in
            (
              (i + 1 - length batch', batch') ∷ parts,
              rw (full, sent) (e ∙ rw append_assoc refl),
              (
                omega arith,
                omega arith,
                omega arith,
                rows,
                sym (append_assoc batch (row ∷ []) rows),
                subst (λ j. IsBatched 100 j rows parts) (omega arith) p,
              ),
            )
        | inr more ↦
            let (parts, e, p) =
              stream_rows-IsBatched idx name total (i + 1) batch' rows log (omega arith)
                (ground arith) (omega arith) (λ k. absurd (ground arith)) in
            (
              parts,
              rw more e,
              subst (λ xs. IsBatched 100 (i - length batch) xs parts)
                  (append_assoc batch (row ∷ []) rows)
                  (subst (λ j. IsBatched 100 j (batch' ++ rows) parts) (omega arith) p),
            )
      ]

  -- A sheet that can be read is streamed as its start, with the number of rows, batches of rows and
  -- its end. The batches hold all rows in order, each batch with the index of its first row; none is
  -- empty and none has more than 100 rows. The writer accepts every message.
  pub stream_sheet-IsBatched :
      (file : Workbook) (name : Text) (idx : ℕ) (rows : Rows) (log : Log)
      → file.get_rows name ≡ some rows
      → (parts : List (ℕ × Rows)) × (stream_sheet fails file name idx log ≡ (
        log
            ++ sheet_start idx name (length rows)
              ∷ (batch_messages idx name parts ++ sheet_complete idx name ∷ []),
        done,
      ))
        × IsBatched 100 0 rows parts
  unfolding stream_sheet
  stream_sheet-IsBatched file name idx rows log h =
      let log1 = log ++ sheet_start idx name (length rows) ∷ [] in
      let (parts, e, p) =
        stream_rows-IsBatched idx name (length rows) 0 [] rows log1 (omega arith) (omega arith)
          (omega arith) (λ k. refl) in
      (
        parts,
        rw (stream_sheet, h, write_done, e, write_done)
            (ap (λ l. (l, done))
              (append_assoc log1 (batch_messages idx name parts) (sheet_complete idx name ∷ [])
                ∙ append_assoc log (sheet_start idx name (length rows) ∷ [])
                    (batch_messages idx name parts ++ sheet_complete idx name ∷ []))),
        p,
      )
