-- ===== src/Tests/StreamRuns.antt =====
-- Streaming: runs to a writer that accepts everything, and the theorems at it.
use mcp_xlsm_server.Prelude.{
  ℕ, ◌≡◌, refl, Bool, true, ◌==◌, false, List, [], ◌∷◌, ◌++◌, length, pos,
}
use mcp_xlsm_server.Decimal.{codes}
use mcp_xlsm_server.Models.{Window, Chunk}
use mcp_xlsm_server.Streaming.{
  Message, Log, Rows, done, sheet_start, rows_batch, sheet_complete, window_start, window_complete,
  stream_sheet, stream_chunk, stream_window, stream_rows, read_window, between, columns_between,
  write,
}
use mcp_xlsm_server.Streaming.Batches.{IsBatched}
use mcp_xlsm_server.Streaming.Cuts.{stream_chunk-IsCut}
use mcp_xlsm_server.Streaming.Failures.{IsCut, accept_all}
use mcp_xlsm_server.Streaming.Rows.{batch_messages, stream_sheet-IsBatched}
use mcp_xlsm_server.Streaming.Windows.{window_messages, stream_window-IsBatched}
use mcp_xlsm_server.Tests.ToolRuns.{book}

abbrev never : Log → Message → Bool
never log m = false

abbrev book_rows : Rows
book_rows = (codes "a" ∷ codes "b" ∷ []) ∷ (codes "c" ∷ []) ∷ []

stream_run : stream_sheet never book (codes "Sales") 0 [] ≡ (
  sheet_start 0 (codes "Sales") 2
      ∷ rows_batch 0 (codes "Sales") 0 book_rows
      ∷ sheet_complete 0 (codes "Sales")
      ∷ [],
  done,
)
unfolding stream_sheet stream_rows write
stream_run = refl

stream_sheet-IsBatched_example :
    (parts : List (ℕ × Rows)) × (stream_sheet never book (codes "Sales") 0 [] ≡ (
      []
          ++ sheet_start 0 (codes "Sales") (length book_rows)
            ∷ (batch_messages 0 (codes "Sales") parts ++ sheet_complete 0 (codes "Sales") ∷ []),
      done,
    ))
    × IsBatched 100 0 book_rows parts
stream_sheet-IsBatched_example =
    stream_sheet-IsBatched never (λ log m. refl) book (codes "Sales") 0 book_rows [] refl

abbrev second_column : Window
second_column = record { start_row = pos 0; end_row = pos 9; start_col = pos 1; end_col = pos 5 }

abbrev column_rows : Rows
column_rows = (codes "b" ∷ []) ∷ [] ∷ []

stream_window-IsBatched_example :
    (parts : List (ℕ × Rows)) × (stream_window never book (codes "Sales") second_column [] ≡ (
      []
          ++ window_start (codes "Sales") second_column (length column_rows)
            ∷ (window_messages (pos 0) parts ++ window_complete ∷ []),
      done,
    ))
    × IsBatched 50 0 column_rows parts
unfolding read_window between columns_between
stream_window-IsBatched_example =
    stream_window-IsBatched never (λ log m. refl) book (codes "Sales") second_column column_rows []
      refl

-- A writer that refuses the message behind two.
abbrev third_fails : Log → Message → Bool
third_fails log m = length log == 2

abbrev two_sheets : Chunk
two_sheets = record {
  chunk_id = codes "chunk_0_1";
  first_sheet = pos 0;
  last_sheet = pos 1;
  size_bytes = pos 100;
  cursor = [];
  streaming_required = true;
}

stream_chunk-IsCut_example :
    IsCut third_fails []
      (stream_chunk third_fails book two_sheets [])
      (stream_chunk accept_all book two_sheets [])
stream_chunk-IsCut_example = stream_chunk-IsCut third_fails book two_sheets []
