-- ===== src/Compression/Manager.antt =====
-- `OptimizeResponse` and the methods of compression. gzip and brotli are libraries: an interface says
-- that what they compress comes back.
use mcp_xlsm_server.Prelude.{
  ℕ, ◌≡◌, Option, none, some, [], ◌∷◌, ◌++◌, if◌then◌else◌, ℤ, pos, negsuc,
}
use mcp_xlsm_server.Compression.Truncation.{truncate_data}
use mcp_xlsm_server.Compression.Values.{Value}
use mcp_xlsm_server.Models.{Text}
use mcp_xlsm_server.Token.{Encoder, Counter, Result, ok, err, marshal_failed, count, ratio_below}

pub record Codecs : Type 0 where
  pub gzip : Text → Text
  pub gunzip : Text → Option Text
  -- The level, and the text.
  pub brotli : ℕ → Text → Text
  pub unbrotli : Text → Option Text
  pub gunzip-gzip : (s : Text) → gunzip (gzip s) ≡ some s
  pub unbrotli-brotli : (level : ℕ) (s : Text) → unbrotli (brotli level s) ≡ some s

-- The names of the methods; `unknown` is any other.
pub data Method : Type 0 where
  uncompressed gzip brotli_4 brotli_11 brotli_11_truncated unknown : Method

-- The method for so many tokens. A quotient of floating-point numbers that is below a bound is a
-- comparison of products; with the limit 0 no quotient is, and with a negative one each is.
unfoldable pub choose_method : ℕ → ℤ → Method
choose_method tokens (negsuc n) = uncompressed
choose_method tokens (pos limit) =
    if ratio_below tokens limit 5
    then uncompressed
    else if ratio_below tokens limit 8
    then gzip
    else if ratio_below tokens limit 10
    then brotli_4
    else brotli_11_truncated

-- A limit that is not negative.
abbrev pub limit_of : ℤ → ℕ
limit_of (pos n) = n
limit_of (negsuc n) = 0

-- The outcome with the name of the method.
abbrev pub answer_of : Method → Option Text → Result (Text × Method)
answer_of method none = err marshal_failed
answer_of method (some bytes) = ok (bytes, method)

abbrev pub tenths_of : Method → ℕ
tenths_of uncompressed = 10
tenths_of gzip = 7
tenths_of brotli_4 = 6
tenths_of brotli_11 = 5
tenths_of brotli_11_truncated = 10
tenths_of unknown = 10

module _ (codecs : Codecs) (encoder : Encoder Value) where
  -- `json.Encoder.Encode` ends the text with a newline.
  unfoldable pub compress_gzip : Value → Option Text
  compress_gzip v = elim (encoder.marshal v) [
    | none ↦ none
    | some json ↦ some (codecs.gzip (json ++ 10 ∷ []))
  ]

  unfoldable pub compress_brotli : Value → ℕ → Option Text
  compress_brotli v level = elim (encoder.marshal v) [
    | none ↦ none
    | some json ↦ some (codecs.brotli level json)
  ]

  -- The answer by a method; `target` is `int(float64(limit)*0.7)`.
  unfoldable pub apply_method : Method → Value → ℕ → Counter → Counter × Option Text
  unfolding compress_gzip compress_brotli
  apply_method uncompressed v target c = (c, encoder.marshal v)
  apply_method gzip v target c = (c, compress_gzip v)
  apply_method brotli_4 v target c = (c, compress_brotli v 4)
  apply_method brotli_11_truncated v target c =
      let (c', cut) = truncate_data encoder v target c in (c', compress_brotli cut 11)
  apply_method brotli_11 v target c = (c, none)
  apply_method unknown v target c = (c, none)

  -- `seven_tenths` is `int(float64(limit)*0.7)` for a limit that is not negative.
  unfoldable pub optimize_response :
      (ℕ → ℕ) → Value → ℤ → Counter → Counter × Result (Text × Method)
  optimize_response seven_tenths v limit c =
      let (c1, counted) = count encoder v c in
      elim counted [
        | err e ↦ (c1, err e)
        | ok tokens ↦
            let method = choose_method tokens limit in
            let (c2, bytes) = apply_method method v (seven_tenths (limit_of limit)) c1 in
            (c2, answer_of method bytes)
      ]

  unfoldable pub suggest_compression_method : Value → ℤ → Counter → Counter × Result Method
  suggest_compression_method v limit c =
      let (c1, counted) = count encoder v c in
      (c1, elim counted [ err e ↦ err e | ok tokens ↦ ok (choose_method tokens limit) ])

  -- The estimate in tenths.
  unfoldable pub estimate_compression_ratio : Value → Method → Counter → Counter × Result ℕ
  estimate_compression_ratio v method c =
      let (c1, counted) = count encoder v c in
      (c1, elim counted [ err e ↦ err e | ok tokens ↦ ok (tenths_of method) ])

  -- A reader over the bytes, read to its end.
  abbrev pub decompress_gzip : Text → Option Text
  decompress_gzip bytes = codecs.gunzip bytes

  abbrev pub decompress_brotli : Text → Option Text
  decompress_brotli bytes = codecs.unbrotli bytes

  unfoldable pub decompress : Text → Method → Option Text
  decompress bytes uncompressed = some bytes
  decompress bytes gzip = decompress_gzip bytes
  decompress bytes brotli_4 = decompress_brotli bytes
  decompress bytes brotli_11 = decompress_brotli bytes
  decompress bytes brotli_11_truncated = decompress_brotli bytes
  decompress bytes unknown = none
