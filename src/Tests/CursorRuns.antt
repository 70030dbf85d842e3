-- ===== src/Tests/CursorRuns.antt =====
-- Cursors: the theorems at a codec that writes one value.
use mcp_xlsm_server.Prelude.{
  ◌≡◌, ◌≢◌, refl, sym, ap, none, some, [], pos, negsuc, ◌-ℤ◌, ◌≤ℤ◌, ◌<ℤ◌, InInt64, sub_int64, arith,
  ◌^◌, ◌-◌,
}
use mcp_xlsm_server.Base64.{Bytes, IsBytes, encode, decode}
use mcp_xlsm_server.Decimal.{codes}
use mcp_xlsm_server.Models.{CursorData}
use mcp_xlsm_server.Cursor.{
  Codec, expired, version_mismatch, ok, err, Manager, max_age, generate_cursor, check_cursor,
  parse_cursor, create_chunk_cursor, create_query_cursor, extract_chunk_id, extract_offset,
  extract_window,
}
use mcp_xlsm_server.Cursor.Life.{
  stamped, cursor_lifetime, cursor_version_mismatch, parse_cursor_sound, check_cursor_overflow,
}
use mcp_xlsm_server.Cursor.Fields.{extract-create, cursor_data}

abbrev pub some_bytes : Bytes
some_bytes = codes "{}"

pub some_bytes-IsBytes : IsBytes some_bytes
some_bytes-IsBytes = omega arith

pub some_bytes-ne-nil : some_bytes ≢ []
some_bytes-ne-nil e = cc

abbrev pub single : CursorData → Codec
single d0 = record {
  marshal = λ d. some_bytes;
  unmarshal = λ s. some d0;
  IsPlain = λ d. d ≡ d0;
  marshal-IsBytes = λ d e. some_bytes-IsBytes;
  marshal-ne-nil = λ d. some_bytes-ne-nil;
  unmarshal-marshal = λ d e. ap some (sym e);
}

abbrev pub v1 : Manager
v1 = record { version = pos 1 }

abbrev pub sample : CursorData
sample = cursor_data v1 (pos 1000) (codes "chunk_0_49") (pos 50) (codes "abc") none

run_in_time :
    parse_cursor
      (single sample)
      v1
      (pos 87400)
      (generate_cursor (single sample) v1 (pos 1000) sample)
    ≡ ok sample
unfolding parse_cursor generate_cursor check_cursor encode decode sub_int64
run_in_time = refl

day : InInt64 (pos 87400 -ℤ pos 1000)
unfolding ◌-ℤ◌
day = omega arith

cursor_lifetime_example :
    (pos 87400 -ℤ pos 1000 ≤ℤ max_age
      → parse_cursor
          (single sample)
          v1
          (pos 87400)
          (generate_cursor (single sample) v1 (pos 1000) sample)
        ≡ ok (stamped v1 (pos 1000) sample))
    × (max_age <ℤ pos 87400 -ℤ pos 1000
        → parse_cursor
            (single sample)
            v1
            (pos 87400)
            (generate_cursor (single sample) v1 (pos 1000) sample)
          ≡ err expired)
cursor_lifetime_example = cursor_lifetime (single sample) v1 (pos 1000) (pos 87400) sample refl day

abbrev v2 : Manager
v2 = record { version = pos 2 }

version_mismatch_run :
    parse_cursor
      (single sample)
      v2
      (pos 87400)
      (generate_cursor (single sample) v1 (pos 1000) sample)
    ≡ err (version_mismatch v2.version (pos 1))
version_mismatch_run =
    cursor_version_mismatch (single sample) v1 v2 (pos 1000) (pos 87400) sample refl one_not_two
  where
    one_not_two : v1.version ≢ v2.version
    one_not_two = λ e. cc

parse_cursor_sound_example :
    (sample.version ≡ v1.version)
    × (InInt64 (pos 87400 -ℤ pos 1000) → pos 87400 -ℤ pos 1000 ≤ℤ max_age)
    × ((bytes : Bytes) × (decode (generate_cursor (single sample) v1 (pos 1000) sample)
          ≡ some bytes)
        × (some sample ≡ some sample))
parse_cursor_sound_example =
    parse_cursor_sound (single sample) v1 (pos 87400)
      (generate_cursor (single sample) v1 (pos 1000) sample) sample run_in_time

abbrev ancient : CursorData
ancient = record sample { timestamp = negsuc (2 ^ 63 - 1) }

check_cursor_overflow_example : check_cursor (single sample) v1 (pos 1000) ancient ≡ ok ancient
unfolding ◌-ℤ◌
check_cursor_overflow_example =
    check_cursor_overflow (single sample) v1 (pos 1000) ancient refl (omega arith) (omega arith)
      (omega arith)

extract-create_example :
    let chunk =
      create_chunk_cursor
        (single sample)
        v1
        (pos 1000)
        (codes "chunk_0_49")
        (pos 50)
        (codes "abc")
        none in
    let query =
      create_query_cursor
        (single sample)
        v1
        (pos 1000)
        (codes "chunk_0_49")
        (pos 50)
        (codes "abc")
        none in
    (extract_chunk_id (single sample) v1 (pos 87400) chunk ≡ ok (codes "chunk_0_49"))
    × (extract_offset (single sample) v1 (pos 87400) chunk ≡ ok (pos 50))
    × (extract_window (single sample) v1 (pos 87400) chunk ≡ ok none)
    × (extract_chunk_id (single sample) v1 (pos 87400) query ≡ ok (codes "chunk_0_49"))
    × (extract_offset (single sample) v1 (pos 87400) query ≡ ok (pos 50))
    × (extract_window (single sample) v1 (pos 87400) query ≡ ok none)
unfolding ◌-ℤ◌
extract-create_example =
    extract-create (single sample) v1 (pos 1000) (pos 87400) day (omega arith) (codes "chunk_0_49")
      (pos 50) (codes "abc") none refl
