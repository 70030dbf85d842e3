-- ===== src/Cursor/Life.antt =====
-- The life of a cursor: what comes back from a token, and when it is refused.
use mcp_xlsm_server.Prelude.{
  ◌^◌, ◌≡◌, ◌≢◌, refl, false, some, [], ◌∷◌, inl, inr, ℤ, pos, ◌-ℤ◌, ◌≤ℤ◌, ◌<ℤ◌, ltb_ℤ, sub_int64,
  sub_int64-eq, InInt64, arith, int_laws, int_beq_iff, nats_eq, Option-cases, wrap_int64_over,
  ltb_ℤ-false,
}
use mcp_xlsm_server.Base64.{Bytes, encode, decode, decode-encode, encode-ne-nil}
use mcp_xlsm_server.Models.{CursorData}
use mcp_xlsm_server.Cursor.{
  Codec, CursorError, expired, version_mismatch, ok, err, ◌>>=◌, require, Manager, max_age,
  generate_cursor, check_cursor, parse_cursor,
}

-- The data as `GenerateCursor` stamps it.
abbrev pub stamped : Manager → ℤ → CursorData → CursorData
stamped m now d = record d { version = m.version; timestamp = now }

module _ (codec : Codec) where
  open codec use {marshal, unmarshal, IsPlain}

  parse_cursor-cons :
      (m : Manager) (now : ℤ) (s : Bytes)
      → s ≢ []
      → parse_cursor codec m now s ≡ (
          require (decode s) CursorError.invalid_format >>= λ decoded.
          require (unmarshal decoded) CursorError.parsing_failed >>= λ d.
          check_cursor codec m now d)
  unfolding parse_cursor
  parse_cursor-cons m now [] h = absurd (h refl)
  parse_cursor-cons m now (c ∷ s) h = refl

  -- A token is read back as the stamped data, and then checked.
  pub parse_cursor-generate_cursor :
      (m reader : Manager) (now later : ℤ) (d : CursorData)
      → IsPlain (stamped m now d)
      → parse_cursor codec reader later (generate_cursor codec m now d)
        ≡ check_cursor codec reader later (stamped m now d)
  unfolding generate_cursor
  parse_cursor-generate_cursor m reader now later d plain =
      let bytes = marshal (stamped m now d) in
      rw (
        parse_cursor-cons reader later (encode bytes)
            (encode-ne-nil bytes (codec.marshal-ne-nil _)),
        decode-encode bytes (codec.marshal-IsBytes _ plain),
        codec.unmarshal-marshal _ plain,
      )

  -- A token is accepted by the manager that made it for 24 hours, with all its data, and refused as
  -- expired ever after. The data come back from JSON as they were, which all data do whose texts are
  -- UTF-8, and the two clock readings are less than 2 ^ 63 seconds apart.
  pub cursor_lifetime :
      (m : Manager) (now later : ℤ) (d : CursorData)
      → IsPlain (stamped m now d)
      → InInt64 (later -ℤ now)
      → (later -ℤ now ≤ℤ max_age
          → parse_cursor codec m later (generate_cursor codec m now d) ≡ ok (stamped m now d))
        × (max_age <ℤ later -ℤ now
            → parse_cursor codec m later (generate_cursor codec m now d) ≡ err expired)
  unfolding check_cursor
  cursor_lifetime m now later d plain range =
      rw (parse_cursor-generate_cursor m m now later d plain, sub_int64-eq later now range)
        (ground (arith, int_beq_iff m.version m.version))

  -- A token of another version is refused for its version, whatever its age.
  pub cursor_version_mismatch :
      (m reader : Manager) (now later : ℤ) (d : CursorData)
      → IsPlain (stamped m now d)
      → m.version ≢ reader.version
      → parse_cursor codec reader later (generate_cursor codec m now d)
        ≡ err (version_mismatch reader.version m.version)
  unfolding check_cursor
  cursor_version_mismatch m reader now later d plain other =
      rw (parse_cursor-generate_cursor m reader now later d plain)
        (ground (arith, int_beq_iff m.version reader.version))

  check_cursor_ok :
      (m : Manager) (now : ℤ) (d d' : CursorData)
      → check_cursor codec m now d ≡ ok d'
      → (d ≡ d') × (d'.version ≡ m.version) × (ltb_ℤ max_age (sub_int64 now d'.timestamp) ≡ false)
  unfolding check_cursor
  check_cursor_ok m now d d' h = ground (arith, int_beq_iff d.version m.version)

  -- Whatever token a client presents, accepted data has the manager's version, is not empty text, is
  -- what the token's bytes decode to, and is at most 24 hours old unless the age overflows 64 bits.
  pub parse_cursor_sound :
      (m : Manager) (now : ℤ) (cursor : Bytes) (d : CursorData)
      → parse_cursor codec m now cursor ≡ ok d
      → (d.version ≡ m.version)
        × (InInt64 (now -ℤ d.timestamp) → now -ℤ d.timestamp ≤ℤ max_age)
        × ((bytes : Bytes) × (decode cursor ≡ some bytes) × (unmarshal bytes ≡ some d))
  unfolding parse_cursor
  parse_cursor_sound m now [] d h = cc
  parse_cursor_sound m now (c ∷ s) d h = elim (Option-cases (decode (c ∷ s))) [
    | inl bad ↦ absurd (ground arith)
    | inr (bytes, decoded) ↦ elim (Option-cases (unmarshal bytes)) [
      | inl bad ↦ absurd (ground arith)
      | inr (d', parsed) ↦
          let checked : check_cursor codec m now d' ≡ ok d = ground arith in
          let (same, version, young) = check_cursor_ok m now d' d checked in
          (version, λ range. age_ok d.timestamp young range, (bytes, decoded, rw (← same) parsed))
    ]
  ]
    where
      age_ok :
          (ts : ℤ)
          → ltb_ℤ max_age (sub_int64 now ts) ≡ false
          → InInt64 (now -ℤ ts)
          → now -ℤ ts ≤ℤ max_age
      age_ok ts young range =
          rw (← sub_int64-eq now ts range) (ltb_ℤ-false max_age (sub_int64 now ts) young)

  -- The age test overflows: data stamped 2 ^ 63 seconds ago or more is taken for young.
  pub check_cursor_overflow :
      (m : Manager) (now : ℤ) (d : CursorData)
      → d.version ≡ m.version
      → InInt64 now
      → InInt64 d.timestamp
      → pos (2 ^ 63) ≤ℤ now -ℤ d.timestamp
      → check_cursor codec m now d ≡ ok d
  unfolding check_cursor sub_int64
  check_cursor_overflow m now d same range stamp old =
      let negative = wrap_int64_over (now -ℤ d.timestamp) old (omega int_laws) in
      ground (arith, int_beq_iff d.version m.version)
