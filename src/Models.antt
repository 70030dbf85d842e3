-- ===== src/Models.antt =====
-- internal/models/types.go: the data that the components exchange. A Go `int` or `int64` is an
-- integer; text is a list of bytes.
use mcp_xlsm_server.Prelude.{ℕ, Bool, Option, List, ℤ, pos, String}

abbrev pub Text : Type 0
Text = List ℕ

abbrev pub cursor_version : ℤ
cursor_version = pos 1

pub record Window : Type 0 where
  pub start_row : ℤ
  pub end_row : ℤ
  pub start_col : ℤ
  pub end_col : ℤ

pub record CursorData : Type 0 where
  pub chunk_id : Text
  pub offset : ℤ
  pub version : ℤ
  pub checksum : Text
  pub timestamp : ℤ
  pub window_info : Option Window

pub record Chunk : Type 0 where
  pub chunk_id : Text
  pub first_sheet : ℤ
  pub last_sheet : ℤ
  pub size_bytes : ℤ
  pub cursor : Text
  pub streaming_required : Bool

-- A quotient that the code takes in floating point, as its two integers; 0 over 1 is the code's 0.0.
pub record Ratio : Type 0 where
  pub over : ℕ
  pub under : ℕ

pub record SheetMetadata : Type 0 where
  pub rows : ℕ
  pub cols : ℕ
  pub data_density : Ratio
  pub has_formulas : Bool
  pub memory_footprint : ℕ

pub record Zone : Type 0 where
  pub zone_id : Text
  pub range : Text
  pub window_size : ℕ
  pub compressed : Bool

pub record SheetIndex : Type 0 where
  pub sheet_id : Text
  pub name : Text
  pub metadata : SheetMetadata
  pub zones : List Zone
  pub key_points : List Text
  pub hot_zones : List Text

pub record ChunkInfo : Type 0 where
  pub current : Text
  pub total_chunks : ℤ
  pub sheets_in_chunk : List Text
  pub streaming_active : Bool

pub record Pagination : Type 0 where
  pub current_cursor : Text
  pub next_cursor : Text
  pub previous_cursor : Text
  pub remaining_chunks : ℤ
  pub estimated_time_remaining : ℤ

pub record CacheControl : Type 0 where
  pub ttl_seconds : ℕ
  pub invalidate_on_checksum : Bool
  pub hot_data_extension : Bool
  pub cache_key : Text

-- The strategies of a query; the code's strings of the same names.
pub data Strategy : Type 0 where
  index scan hybrid : Strategy

pub data IndexType : Type 0 where
  no_index btree spatial inverted hybrid_index : IndexType

pub record QueryExecution : Type 0 where
  pub used_index : Bool
  pub index_type : IndexType
  pub chunks_scanned : List Text
  pub strategy : Strategy
  pub bloom_filter_used : Bool

pub record ModelContext : Type 0 where
  pub detected : Text
  pub limit : ℕ
  pub used : ℕ
  pub precise_count : ℕ

pub record StrategyConfig : Type 0 where
  pub max_results : ℕ
  pub window_rows : ℕ
  pub compression : Text

pub record AdaptiveResponse : Type 0 where
  pub model_context : ModelContext
  pub if_sonnet_beta : StrategyConfig
  pub if_standard : StrategyConfig
  pub if_opus : StrategyConfig

pub record IndexUpdates : Type 0 where
  pub new_patterns : List Text
  pub suggested_chunks : List Text
  pub delta_applied : Bool

-- `DataChunk` with its metadata and context. The data is that of a sheet or of one cell.
pub record DataChunk {ℓ} (D : Type ℓ) : Type ℓ where
  pub location : Text
  pub window : Text
  pub content : D
  pub size : ℕ
  pub truncated : Bool
  pub compressed : Bool
  pub headers : List Text
  -- `sheet_data`, where the nearby data has it
  pub nearby : Option ℕ
  pub formulas : List Text

-- Parts of the responses that the code leaves empty, or at zero.
pub record IndexSummary : Type 0 where
  pub value_types : List (String × ℕ)
  pub formula_patterns : List Text
  pub sheet_groups : List Text
  pub circular_refs : List Text

pub record Connection : Type 0 where
  pub formula_links : List Text
  pub structural_similarities : List Text
  pub circular_dependencies : List Text

-- Without the time of the last update.
pub record DeltaTracking : Type 0 where
  pub changed_cells : List Text
  pub rebuild_required : Bool

-- The elements by their JSON.
pub record Statistics : Type 0 where
  pub aggregations : List Text
  pub patterns : List Text
  pub outliers : List Text
  pub formula_evaluations : List Text
