-- ===== src/Tools/Handler.antt =====
-- `AnalyzeFile`: the request and the response. The complexity score and the tokens per chunk, which
-- are floating-point products, the times and the parts that are always empty are left out.
use mcp_xlsm_server.Prelude.{
  ℕ, ◌+◌, ◌*◌, ◌/◌, ◌%◌, Bool, true, false, ◌||◌, Option, none, some, List, [], ◌∷◌, length, ltb,
  ltb_ℤ, ℤ, pos, if◌then◌else◌, String,
}
use mcp_xlsm_server.Cursor.{Codec, Manager, create_chunk_cursor}
use mcp_xlsm_server.Models.{Text, Chunk, IndexSummary}
use mcp_xlsm_server.Token.{ModelLimits, get_model_limits}
use mcp_xlsm_server.Tools.{create_chunks, estimate_memory_usage}
use mcp_xlsm_server.Tools.Patterns.{
  NamingPatterns, FormulaComplexity, analyze_naming_patterns, detect_structural_groups,
  analyze_formula_complexity,
}
use mcp_xlsm_server.Workbook.{Workbook}

-- The parameters that have the type that the code asks for; `chunk_size` as `int(cs)`.
pub record AnalyzeParams : Type 0 where
  pub filepath : Option Text
  pub chunk_size : Option ℤ
  pub stream_mode : Option Bool

-- What the system and excelize answer for a path: the workbook, the size and the bytes.
pub record Disk : Type 0 where
  pub open_file : Text → Option Workbook
  pub stat_size : Text → Option ℤ
  pub read_file : Text → Option Text

pub record FileMetadata : Type 0 where
  pub checksum : Text
  pub file_size : ℤ
  pub sheets_count : ℕ
  pub memory_estimate : ℕ

pub record PatternsDetected : Type 0 where
  pub naming_patterns : NamingPatterns
  pub data_types : List (String × ℕ)
  pub structural_groups : ℕ
  pub formula_complexity : FormulaComplexity

pub record TokenManagement : Type 0 where
  pub model_detected : String
  pub counting_method : String
  pub limits : ModelLimits
  pub sheets_per_chunk : ℤ

pub record AnalyzeFileResponse : Type 0 where
  pub metadata : FileMetadata
  pub chunks : List Chunk
  pub patterns_detected : PatternsDetected
  pub token_management : TokenManagement
  pub index_summary : IndexSummary
  pub next_cursor : Text
  pub has_more : Bool
  pub memory_used : ℕ

pub data AnalyzeError : Type 0 where
  filepath_required open_failed metadata_failed : AnalyzeError

-- The chunk loop may not end.
pub data AnalyzeResult : Type 0 where
  analyzed : AnalyzeFileResponse → AnalyzeResult
  refused : AnalyzeError → AnalyzeResult
  not_ended : AnalyzeResult

abbrev pub or_default : {A : Type 0} → Option A → A → A
or_default none d = d
or_default (some a) d = a

abbrev pub hex_digit : ℕ → ℕ
hex_digit d = if ltb d 10 then 48 + d else 87 + d

-- `fmt.Sprintf("%x", …)` of bytes.
unfoldable pub hex : Text → Text
hex [] = []
hex (b ∷ bytes) = hex_digit (b / 16) ∷ hex_digit (b % 16) ∷ hex bytes

abbrev pub detect_model : String
detect_model = "sonnet-4"

unfoldable pub create_token_management : String → ℤ → TokenManagement
create_token_management model chunk_size = record {
  model_detected = model;
  counting_method = "tiktoken";
  limits = get_model_limits model;
  sheets_per_chunk = chunk_size;
}

-- The same for every workbook.
abbrev pub create_index_summary : IndexSummary
create_index_summary = record {
  value_types = ("numeric", 0) ∷ ("text", 0) ∷ ("formula", 0) ∷ ("empty", 0) ∷ [];
  formula_patterns = [];
  sheet_groups = [];
  circular_refs = [];
}

unfoldable pub detect_patterns : Workbook → PatternsDetected
unfolding analyze_naming_patterns detect_structural_groups analyze_formula_complexity
detect_patterns file = record {
  naming_patterns = analyze_naming_patterns file.sheet_list;
  data_types = ("text", 0) ∷ ("numeric", 0) ∷ ("formula", 0) ∷ ("date", 0) ∷ [];
  structural_groups = detect_structural_groups file.sheet_list;
  formula_complexity = analyze_formula_complexity file file.sheet_list;
}

module _ (codec : Codec) (m : Manager) (disk : Disk) (sha256 : Text → Text) where
  -- The metadata, given the size and the bytes where the system has them.
  unfoldable pub metadata_of : Workbook → Option ℤ → Option Text → Option FileMetadata
  unfolding hex
  metadata_of file (some size) (some bytes) = some (record {
    checksum = hex (sha256 bytes);
    file_size = size;
    sheets_count = length file.sheet_list;
    memory_estimate = estimate_memory_usage (length file.sheet_list);
  })
  metadata_of file (some size) none = none
  metadata_of file none bytes = none

  abbrev pub calculate_file_metadata : Text → Workbook → Option FileMetadata
  calculate_file_metadata path file = metadata_of file (disk.stat_size path) (disk.read_file path)

  -- The cursor of the second chunk, if there is one.
  unfoldable pub next_chunk_cursor : ℤ → Text → List Chunk → Text × Bool
  next_chunk_cursor now checksum (c0 ∷ c1 ∷ chunks) =
      (create_chunk_cursor codec m now c1.chunk_id c1.first_sheet checksum none, true)
  next_chunk_cursor now checksum _ = ([], false)

  -- The response once the chunks are made.
  unfoldable pub analysis_of : ℤ → ℤ → Workbook → FileMetadata → Option (List Chunk) → AnalyzeResult
  unfolding detect_patterns create_token_management next_chunk_cursor
  analysis_of now chunk_size file metadata none = not_ended
  analysis_of now chunk_size file metadata (some chunks) =
      let (cursor, more) = next_chunk_cursor now metadata.checksum chunks in
      analyzed (record {
        metadata = metadata;
        chunks = chunks;
        patterns_detected = detect_patterns file;
        token_management = create_token_management detect_model chunk_size;
        index_summary = create_index_summary;
        next_cursor = cursor;
        has_more = more;
        memory_used = estimate_memory_usage metadata.sheets_count;
      })

  -- The rest of the handler, once the parameters are read and the file is open.
  unfoldable pub analyze_opened :
      (ℤ → ℤ) → ℤ → ℕ → ℤ → Bool → Workbook → Option FileMetadata → AnalyzeResult
  unfolding analysis_of
  analyze_opened clock now fuel chunk_size stream_mode file none = refused metadata_failed
  analyze_opened clock now fuel chunk_size stream_mode file (some metadata) =
      let streamed = ltb_ℤ (pos (100 * 1024 * 1024)) metadata.file_size || stream_mode in
      analysis_of now chunk_size file metadata (
        create_chunks codec m file (pos metadata.sheets_count) chunk_size streamed metadata.checksum
          clock fuel)

  -- `clock` gives the readings when the cursors of the chunks are made, `now` that of the next cursor;
  -- `fuel` is that of the chunk loop.
  unfoldable pub analyze_file : (ℤ → ℤ) → ℤ → ℕ → AnalyzeParams → AnalyzeResult
  unfolding metadata_of analyze_opened
  analyze_file clock now fuel params =
      let chunk_size = or_default params.chunk_size (pos 50) in
      let stream_mode = or_default params.stream_mode true in
      elim params.filepath [
        | none ↦ refused filepath_required
        | some path ↦ elim (disk.open_file path) [
          | none ↦ refused open_failed
          | some file ↦
              analyze_opened clock now fuel chunk_size stream_mode file
                (calculate_file_metadata path file)
        ]
      ]
