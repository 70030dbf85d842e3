-- ===== src/Tests/ToolRuns.antt =====
-- The handlers: runs on a small workbook, and the theorems at it.
use mcp_xlsm_server.Prelude.{◌≡◌, refl, false, length, true, none, some, List, [], ◌∷◌, pos, arith}
use mcp_xlsm_server.Decimal.{codes}
use mcp_xlsm_server.Models.{Chunk}
use mcp_xlsm_server.Workbook.{Workbook}
use mcp_xlsm_server.Tools.{create_chunks, chunk_name, estimate_chunk_size}
use mcp_xlsm_server.Tools.Partition.{IsPartition, create_chunks-IsPartition}
use mcp_xlsm_server.Query.Parse.{contains, has_prefix}
use mcp_xlsm_server.Tools.{estimate_memory_usage}
use mcp_xlsm_server.Tools.Handler.{
  Disk, AnalyzeParams, FileMetadata, AnalyzeFileResponse, analyzed, analyze_file, detect_patterns,
  metadata_of, hex,
}
use mcp_xlsm_server.Tools.Patterns.{no_formulas}
use mcp_xlsm_server.Float.Exact.{exact, decimal_fraction}
use mcp_xlsm_server.Index.QuadTree.Fractions.{below}
use mcp_xlsm_server.Tools.Complexity.{calculate_complexity_score}
use mcp_xlsm_server.Tools.Walk.{LeadsOn, analyze_file-LeadsOn}
use mcp_xlsm_server.Tests.CursorRuns.{single, sample, v1}

abbrev pub book : Workbook
book = record {
  sheet_list = codes "Sales" ∷ codes "Costs" ∷ codes "2025" ∷ [];
  get_rows = λ name. some ((codes "a" ∷ codes "b" ∷ []) ∷ (codes "c" ∷ []) ∷ []);
  get_cell_formula = λ name col row. none;
  cell_name = λ col row. some (codes "A1");
}

chunk_name_run : chunk_name (pos 0) (pos 49) ≡ codes "chunk_0_49"
unfolding chunk_name
chunk_name_run = refl

estimate_run : estimate_chunk_size book 1 9 ≡ 300
unfolding estimate_chunk_size
estimate_run = refl

chunking_run :
    (chunks : List Chunk) × (create_chunks
        (single sample)
        v1
        book
        (pos 3)
        (pos 2)
        true
        (codes "abc")
        (λ i. i)
        4
      ≡ some chunks)
    × IsPartition (pos 2) (pos 0) (pos 3) chunks
chunking_run =
    create_chunks-IsPartition (single sample) v1 book 3 2 true (codes "abc") (λ i. i) (omega arith)
      (omega arith) (omega arith) 4 (omega arith)

-- A file of three sheets, with 160 for its hash.
abbrev pub disk : Disk
disk = record {
  open_file = λ path. some book;
  stat_size = λ path. some (pos 2048);
  read_file = λ path. some (codes "PK");
}

abbrev book_params : AnalyzeParams
book_params = record {
  filepath = some (codes "b.xlsm");
  chunk_size = some (pos 2);
  stream_mode = none;
}

abbrev book_metadata : FileMetadata
book_metadata = record {
  checksum = codes "a0";
  file_size = pos 2048;
  sheets_count = 3;
  memory_estimate = 2_584_576;
}

patterns_run : detect_patterns book ≡ record {
  naming_patterns = record {
    underscore_separated = false;
    space_separated = false;
    starts_with_number = true;
    contains_year = true;
  };
  data_types = ("text", 0) ∷ ("numeric", 0) ∷ ("formula", 0) ∷ ("date", 0) ∷ [];
  structural_groups = 3;
  formula_complexity = no_formulas;
}
unfolding detect_patterns contains has_prefix
patterns_run = refl

analyze_file-LeadsOn_example :
    (r : AnalyzeFileResponse) × (analyze_file
        (single sample)
        v1
        disk
        (λ bytes. 160 ∷ [])
        (λ i. i)
        (pos 9)
        4
        book_params
      ≡ analyzed r)
    × (3 ≡ length book.sheet_list)
    × (r.metadata ≡ book_metadata)
    × IsPartition (pos 2) (pos 0) (pos 3) r.chunks
    × LeadsOn (single sample) v1 (pos 9) book_metadata 2 r
unfolding metadata_of hex estimate_memory_usage
analyze_file-LeadsOn_example =
    analyze_file-LeadsOn (single sample) v1 disk (λ bytes. 160 ∷ []) (λ i. i) (pos 9) book_params
      (codes "b.xlsm") book book_metadata 2 3 refl refl refl refl (omega arith) (omega arith)
      (omega arith) (omega arith)

-- Three sheets of two rows, without formulas: 0.3 and three times 0.002.
score_run : below (calculate_complexity_score exact book 3) (decimal_fraction 307 3) ≡ true
unfolding calculate_complexity_score
score_run = refl
