-- ===== src/Cursor/Fields.antt =====
-- What the creators of cursors put in, and the extractors get out.
use mcp_xlsm_server.Prelude.{
  ◌≡◌, ◌≢◌, Option, none, ℤ, pos, ◌-ℤ◌, ◌≤ℤ◌, InInt64, nats_eq, nats_beq_iff, arith,
}
use mcp_xlsm_server.Models.{Text, Window, CursorData}
use mcp_xlsm_server.Cursor.{
  Codec, checksum_mismatch, ok, err, Manager, max_age, create_chunk_cursor,
  create_navigation_cursor, create_query_cursor, validate_checksum, extract_chunk_id,
  extract_offset, extract_window,
}
use mcp_xlsm_server.Cursor.Life.{cursor_lifetime}

-- The data of a new cursor.
abbrev pub cursor_data : Manager → ℤ → Text → ℤ → Text → Option Window → CursorData
cursor_data m now chunk_id offset checksum window = record {
  chunk_id = chunk_id;
  offset = offset;
  version = m.version;
  checksum = checksum;
  timestamp = now;
  window_info = window;
}

-- What the creators pass on to be stamped.
abbrev unstamped : Text → ℤ → Text → Option Window → CursorData
unstamped chunk_id offset checksum window = record {
  chunk_id = chunk_id;
  offset = offset;
  version = pos 0;
  checksum = checksum;
  timestamp = pos 0;
  window_info = window;
}

module _ (codec : Codec) (m : Manager) (now later : ℤ) (range : InInt64 (later -ℤ now))
    (young : later -ℤ now ≤ℤ max_age) where
  -- For 24 hours the three extractors read from a chunk cursor and from a query cursor the chunk id
  -- or the query, the offset and the window that it was made with. The data come back from JSON as
  -- they were, and the two clock readings are less than 2 ^ 63 seconds apart.
  pub extract-create :
      (chunk_id : Text) (offset : ℤ) (checksum : Text) (window : Option Window)
      → codec.IsPlain (cursor_data m now chunk_id offset checksum window)
      → let chunk = create_chunk_cursor codec m now chunk_id offset checksum window in
        let query = create_query_cursor codec m now chunk_id offset checksum window in
        (extract_chunk_id codec m later chunk ≡ ok chunk_id)
        × (extract_offset codec m later chunk ≡ ok offset)
        × (extract_window codec m later chunk ≡ ok window)
        × (extract_chunk_id codec m later query ≡ ok chunk_id)
        × (extract_offset codec m later query ≡ ok offset)
        × (extract_window codec m later query ≡ ok window)
  unfolding create_chunk_cursor create_query_cursor extract_chunk_id extract_offset extract_window
  extract-create chunk_id offset checksum window plain =
      let parsed =
        (cursor_lifetime codec m now later (unstamped chunk_id offset checksum window) plain
            range).0
          young in
      ground arith

  -- For 24 hours a navigation cursor gives its sheet index back and has no window, and its checksum
  -- is accepted exactly when it is the expected one.
  pub validate-create_navigation_cursor :
      (chunk_id : Text) (sheet_index : ℤ) (checksum expected : Text)
      → codec.IsPlain (cursor_data m now chunk_id sheet_index checksum none)
      → let cursor = create_navigation_cursor codec m now chunk_id sheet_index checksum in
        (extract_offset codec m later cursor ≡ ok sheet_index)
        × (extract_window codec m later cursor ≡ ok none)
        × (checksum ≡ expected → validate_checksum codec m later cursor expected ≡ ok tt)
        × (checksum ≢ expected
            → validate_checksum codec m later cursor expected
              ≡ err (checksum_mismatch checksum expected))
  unfolding create_navigation_cursor extract_offset extract_window validate_checksum
  validate-create_navigation_cursor chunk_id sheet_index checksum expected plain =
      let parsed =
        (cursor_lifetime codec m now later (unstamped chunk_id sheet_index checksum none) plain
            range).0
          young in
      ground (arith, nats_beq_iff checksum expected)
