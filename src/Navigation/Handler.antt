-- ===== src/Navigation/Handler.antt =====
-- internal/server/navigation.go, `BuildNavigationMap`: the request, the page of sheets that it asks for
-- and the response, but for its search index, which is in Navigation/SearchIndex and does not fail where
-- this page could be indexed. The time of the last update is left out.
use mcp_xlsm_server.Prelude.{
  ℕ, ◌+◌, Bool, false, not, Option, none, some, List, [], ◌∷◌, String, ℤ, pos, pos_part, ltb_ℤ,
  add_int64, sub_int64, ◌-ℤ◌, length, if◌then◌else◌, nats_beq,
}
use mcp_xlsm_server.Cursor.{Codec, Manager, CursorError, create_navigation_cursor, parse_cursor}
use mcp_xlsm_server.Cursor
use mcp_xlsm_server.Decimal.{codes}
use mcp_xlsm_server.Models.{
  Text, SheetIndex, ChunkInfo, Pagination, CacheControl, Connection, DeltaTracking,
}
use mcp_xlsm_server.Navigation.Sheets.{build_sheet_index}
use mcp_xlsm_server.Streaming.{between}
use mcp_xlsm_server.Token.{
  Encoder, Counter, count, get_model_limits, get_compression_strategy, ModelLimits,
}
use mcp_xlsm_server.Token
use mcp_xlsm_server.Workbook.{Workbook}
use mcp_xlsm_server.Navigation.Paging.{chunks_of, create_cache_control, create_pagination}

-- What the type assertions on the parameters give; `window_size` after the conversion to `int`.
pub record NavigationParams : Type 0 where
  pub filepath : Option Text
  pub checksum : Option Text
  pub chunk_cursor : Option Text
  pub window_size : Option ℤ
  pub stream_results : Option Bool
  pub model : Option String

pub record NavigationIndex : Type 0 where
  pub checksum_match : Bool
  pub invalidation_required : Bool
  pub chunk_info : ChunkInfo
  pub sheet_index : List SheetIndex
  pub connections : Connection
  pub delta_tracking : DeltaTracking

pub record TokenTracking : Type 0 where
  pub used : ℕ
  pub remaining : ℤ
  pub compression_applied : Token.Strategy
  pub actual_count : ℕ

pub record NavigationResponse : Type 0 where
  pub navigation_index : NavigationIndex
  pub token_tracking : TokenTracking
  pub pagination : Pagination
  pub cache_control : CacheControl

pub data NavigationError : Type 0 where
  filepath_required checksum_required open_failed : NavigationError
  invalid_cursor : CursorError → NavigationError
  -- The name of the sheet.
  sheet_failed : Text → NavigationError
  count_failed : Token.CountError → NavigationError
  -- The code panics.
  panicked : NavigationError

pub data Result {ℓ} (A : Type ℓ) : Type ℓ where
  ok : A → Result A
  err : NavigationError → Result A

infixl 5 ◌>>=◌
abbrev ◌>>=◌ {ℓ κ} : {A : Type ℓ} {B : Type κ} → Result A → (A → Result B) → Result B
ok a >>= f = f a
err e >>= f = err e

abbrev require {ℓ} : {A : Type ℓ} → Option A → NavigationError → Result A
require none e = err e
require (some a) e = ok a

abbrev or_else {ℓ} : {A : Type ℓ} → Option A → A → A
or_else none default = default
or_else (some a) default = a

-- The navigation handler does not read the file for its checksum.
abbrev pub calculate_file_checksum : Text → Text
calculate_file_checksum filepath = codes "dummy_checksum"

module _ (codec : Codec) (m : Manager) where
  -- The chunk and the offset of the cursor; an empty cursor is none.
  unfoldable pub read_position : ℤ → Option Text → Result (Text × ℤ)
  read_position now none = ok ([], pos 0)
  read_position now (some []) = ok ([], pos 0)
  read_position now (some (c ∷ cs)) = elim (parse_cursor codec m now (c ∷ cs)) [
    | Cursor.err e ↦ err (invalid_cursor e)
    | Cursor.ok d ↦ ok (d.chunk_id, d.offset)
  ]

-- The loop over the sheets of the page, from the sheet with the number `id` on.
unfoldable pub index_sheets : Workbook → List Text → ℕ → Result (List SheetIndex)
index_sheets file [] id = ok []
index_sheets file (name ∷ names) id =
    require (build_sheet_index file name id) (sheet_failed name) >>= λ sheet.
    index_sheets file names (id + 1) >>= λ sheets. ok (sheet ∷ sheets)

-- The names of the sheets from `start_idx` on, up to `window_size` of them; `none` where the loop reads
-- a negative index.
unfoldable pub page_of : List Text → ℤ → ℤ → Option (List Text)
unfolding between
page_of sheet_list start_idx window_size =
    let total = pos (length sheet_list) in
    let limit = add_int64 start_idx window_size in
    between start_idx ((if ltb_ℤ total limit then total else limit) -ℤ pos 1) sheet_list

-- The same for every workbook.
abbrev pub build_connections : Connection
build_connections = record {
  formula_links = [];
  structural_similarities = [];
  circular_dependencies = [];
}

unfoldable pub build_navigation_index :
    Workbook → Text → ℤ → ℤ → Bool → Bool → Result NavigationIndex
build_navigation_index file current_chunk offset window_size stream_results checksum_match =
    require (chunks_of (length file.sheet_list) window_size) panicked >>= λ total_chunks.
    require (page_of file.sheet_list offset window_size) panicked >>= λ names.
    index_sheets file names (pos_part offset) >>= λ sheets. ok (record {
      checksum_match = checksum_match;
      invalidation_required = not checksum_match;
      chunk_info = record {
        current = current_chunk;
        total_chunks = total_chunks;
        sheets_in_chunk = names;
        streaming_active = stream_results;
      };
      sheet_index = sheets;
      connections = build_connections;
      delta_tracking = record { changed_cells = []; rebuild_required = not checksum_match };
    })

module _ (encoder : Encoder NavigationIndex) where
  unfoldable pub calculate_token_tracking :
      NavigationIndex → Option String → Counter → Counter × Result TokenTracking
  calculate_token_tracking index model c =
      let (c', counted) = count encoder index c in
      let name = or_else model "sonnet-4" in
      (
        c',
        elim counted [
          | Token.err e ↦ err (count_failed e)
          | Token.ok n ↦ ok (record {
            used = n;
            remaining = sub_int64 (pos (get_model_limits name).safe_buffer) (pos n);
            compression_applied = get_compression_strategy n name;
            actual_count = n;
          })
        ],
      )

-- The index that a request asks for, with the chunk it names.
unfoldable pub requested_index :
    Codec
    → Manager
    → (Text → Option Workbook)
    → ℤ
    → NavigationParams
    → Result (Text × Text × NavigationIndex)
requested_index codec m open_file now p = require p.filepath filepath_required >>= λ filepath.
    require p.checksum checksum_required >>= λ checksum.
    require (open_file filepath) open_failed >>= λ file.
    read_position codec m now p.chunk_cursor >>= λ at.
    build_navigation_index file at.0 at.1 (or_else p.window_size (pos 1000))
      (or_else p.stream_results false) (nats_beq (calculate_file_checksum filepath) checksum)
    >>= λ index. ok (checksum, at.0, index)

module _ (codec : Codec) (m : Manager) (encoder : Encoder NavigationIndex)
    (open_file : Text → Option Workbook) where
  -- The readings of the clock are in the order of their use.
  unfoldable pub build_navigation_map :
      ℤ → ℤ → ℤ → NavigationParams → Counter → Counter × Result NavigationResponse
  build_navigation_map now next_now previous_now p c =
      elim (requested_index codec m open_file now p) [
        | err e ↦ (c, err e)
        | ok (checksum, current_chunk, index) ↦
            let (c', tracked) = calculate_token_tracking encoder index p.model c in
            (
              c',
              tracked >>= λ token_tracking.
                  require
                    (create_pagination codec m next_now previous_now current_chunk
                      (length index.sheet_index) (or_else p.window_size (pos 1000)))
                    panicked
                  >>= λ pagination. ok (record {
                    navigation_index = index;
                    token_tracking = token_tracking;
                    pagination = pagination;
                    cache_control = create_cache_control checksum index.checksum_match;
                  }),
            )
      ]
