-- ===== src/Cursor.antt =====
-- internal/cursor/cursor.go: the tokens that carry a position from one call to the next. A token is
-- the base64 of the JSON of a `CursorData`. The JSON codec is an argument here.
pub mod Life
pub mod Fields
use mcp_xlsm_server.Prelude.{
  ℕ, ◌*◌, ◌≡◌, ◌≢◌, Bool, true, false, Option, none, some, List, [], ◌∷◌, ℤ, pos, leb_ℤ, ltb_ℤ,
  sub_int64, if◌then◌else◌, ◌&&◌, not, Eq, nats_eq, int_beq,
}
use mcp_xlsm_server.Base64.{Bytes, IsBytes, encode, decode}
use mcp_xlsm_server.Models.{Text, Window, CursorData, cursor_version}

-- `json.Marshal` and `json.Unmarshal` at `CursorData`. What is plain comes back as it was.
pub record Codec : Type 1 where
  pub marshal : CursorData → Bytes
  pub unmarshal : Bytes → Option CursorData
  pub IsPlain : CursorData → Type 0
  pub marshal-IsBytes : (d : CursorData) → IsPlain d → IsBytes (marshal d)
  -- A JSON object begins with a brace.
  pub marshal-ne-nil : (d : CursorData) → marshal d ≢ []
  pub unmarshal-marshal : (d : CursorData) → IsPlain d → unmarshal (marshal d) ≡ some d

pub data CursorError : Type 0 where
  empty_cursor invalid_format parsing_failed expired : CursorError
  version_mismatch : ℤ → ℤ → CursorError
  checksum_mismatch : Text → Text → CursorError

pub data Result {ℓ} (A : Type ℓ) : Type ℓ where
  ok : A → Result A
  err : CursorError → Result A

infixl 5 ◌>>=◌
abbrev pub ◌>>=◌ {ℓ κ} : {A : Type ℓ} {B : Type κ} → Result A → (A → Result B) → Result B
ok a >>= f = f a
err e >>= f = err e

-- The error where there is no value.
abbrev pub require {ℓ} : {A : Type ℓ} → Option A → CursorError → Result A
require none e = err e
require (some a) e = ok a

pub record Manager : Type 0 where
  pub version : ℤ

unfoldable pub new_manager : Manager
new_manager = record { version = cursor_version }

-- 24 hours in seconds.
abbrev pub max_age : ℤ
max_age = pos (24 * 60 * 60)

module _ (codec : Codec) where
  open codec use {marshal, unmarshal}

  -- `now` is `time.Now().Unix()`.
  unfoldable pub generate_cursor : Manager → ℤ → CursorData → Bytes
  generate_cursor m now d = encode (marshal (record d { version = m.version; timestamp = now }))

  unfoldable pub check_cursor : Manager → ℤ → CursorData → Result CursorData
  check_cursor m now d =
      if not (int_beq d.version m.version)
      then err (version_mismatch m.version d.version)
      else if ltb_ℤ max_age (sub_int64 now d.timestamp)
      then err expired
      else ok d

  unfoldable pub parse_cursor : Manager → ℤ → Bytes → Result CursorData
  parse_cursor m now [] = err empty_cursor
  parse_cursor m now (c ∷ cursor) = do
    decoded ← require (decode (c ∷ cursor)) invalid_format
    d ← require (unmarshal decoded) parsing_failed
    check_cursor m now d

  unfoldable pub create_chunk_cursor : Manager → ℤ → Text → ℤ → Text → Option Window → Bytes
  create_chunk_cursor m now chunk_id offset checksum window = generate_cursor m now (record {
    chunk_id = chunk_id;
    offset = offset;
    version = pos 0;
    checksum = checksum;
    timestamp = pos 0;
    window_info = window;
  })

  unfoldable pub create_navigation_cursor : Manager → ℤ → Text → ℤ → Text → Bytes
  create_navigation_cursor m now chunk_id sheet_index checksum = generate_cursor m now (record {
    chunk_id = chunk_id;
    offset = sheet_index;
    version = pos 0;
    checksum = checksum;
    timestamp = pos 0;
    window_info = none;
  })

  -- The query travels in the chunk id.
  unfoldable pub create_query_cursor : Manager → ℤ → Text → ℤ → Text → Option Window → Bytes
  create_query_cursor m now query offset checksum window = generate_cursor m now (record {
    chunk_id = query;
    offset = offset;
    version = pos 0;
    checksum = checksum;
    timestamp = pos 0;
    window_info = window;
  })

  unfoldable pub validate_checksum : Manager → ℤ → Bytes → Text → Result (Unit {0})
  validate_checksum m now cursor expected = do
    d ← parse_cursor m now cursor
    if nats_eq.beq d.checksum expected then ok tt else err (checksum_mismatch d.checksum expected)

  unfoldable pub extract_chunk_id : Manager → ℤ → Bytes → Result Text
  extract_chunk_id m now cursor = do d ← parse_cursor m now cursor; ok d.chunk_id

  unfoldable pub extract_offset : Manager → ℤ → Bytes → Result ℤ
  extract_offset m now cursor = do d ← parse_cursor m now cursor; ok d.offset

  unfoldable pub extract_window : Manager → ℤ → Bytes → Result (Option Window)
  extract_window m now cursor = do d ← parse_cursor m now cursor; ok d.window_info
