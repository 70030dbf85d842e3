-- ===== src/Compression/RoundTrip.antt =====
-- What comes back from a compressed answer, and which method it has.
use mathlib.Core.Path.{subst}
use mcp_xlsm_server.Prelude.{
  ℕ, ◌≡◌, ◌≢◌, refl, sym, ◌∙◌, arith, Option, none, some, [], ◌∷◌, ◌++◌, inl, inr, ℤ, Option-cases,
}
use mcp_xlsm_server.Compression.Manager.{
  Codecs, Method, uncompressed, gzip, brotli_4, brotli_11, brotli_11_truncated, unknown,
  choose_method, answer_of, limit_of, apply_method, compress_gzip, compress_brotli,
  optimize_response, suggest_compression_method, decompress,
}
use mcp_xlsm_server.Compression.Truncation.{truncate_data}
use mcp_xlsm_server.Compression.Values.{Value}
use mcp_xlsm_server.Models.{Text}
use mcp_xlsm_server.Token.{Encoder, Counter, CountError, ok, err, count}
use mcp_xlsm_server.Token.Counts.{Result-cases}

err-ne-ok {ℓ} : {A : Type ℓ} {e : CountError} {a : A} → err e ≢ ok a
err-ne-ok h = ground (arith, h)

module _ (codecs : Codecs) (encoder : Encoder Value) where
  -- The value that a method sends.
  abbrev pub sent_value : Method → Value → ℕ → Counter → Value
  sent_value brotli_11_truncated v target c = (truncate_data encoder v target c).1
  sent_value method v target c = v

  -- The JSON that a method sends.
  abbrev pub sent_json : Method → Option Text → Option Text
  sent_json gzip (some json) = some (json ++ 10 ∷ [])
  sent_json gzip none = none
  sent_json method json = json

  apply_method-decompress :
      (method : Method) (v : Value) (target : ℕ) (c : Counter) (b : Text)
      → (apply_method codecs encoder method v target c).1 ≡ some b
      → decompress codecs encoder b method
        ≡ sent_json method (encoder.marshal (sent_value method v target c))
  unfolding apply_method decompress compress_gzip compress_brotli
  apply_method-decompress uncompressed v target c b h = sym h
  apply_method-decompress gzip v target c b h = elim (Option-cases (encoder.marshal v)) [
    | inl k ↦ ground (arith, k, h)
    | inr (json, k) ↦ ground (arith, k, h, codecs.gunzip-gzip (json ++ 10 ∷ []))
  ]
  apply_method-decompress brotli_4 v target c b h = elim (Option-cases (encoder.marshal v)) [
    | inl k ↦ ground (arith, k, h)
    | inr (json, k) ↦ ground (arith, k, h, codecs.unbrotli-brotli 4 json)
  ]
  apply_method-decompress brotli_11_truncated v target c b h =
      let cut = (truncate_data encoder v target c).1 in
      elim (Option-cases (encoder.marshal cut)) [
        | inl k ↦ ground (arith, k, h)
        | inr (json, k) ↦ ground (arith, k, h, codecs.unbrotli-brotli 11 json)
      ]
  apply_method-decompress brotli_11 v target c b h = ground (arith, h)
  apply_method-decompress unknown v target c b h = ground (arith, h)

  finished :
      (bytes : Option Text) (method m : Method) (b : Text)
      → answer_of method bytes ≡ ok (b, m)
      → (bytes ≡ some b) × (method ≡ m)
  finished none method m b h = ground (arith, h)
  finished (some t) method m b h = ground (arith, h)

  -- An answer that `optimize_response` gives was counted, has the method that the count and the limit
  -- ask for, and is what `apply_method` made of the value.
  optimize_response-apply_method :
      (seven_tenths : ℕ → ℕ) (v : Value) (limit : ℤ) (c : Counter) (b : Text) (method : Method)
      → (optimize_response codecs encoder seven_tenths v limit c).1 ≡ ok (b, method)
      → (tokens : ℕ) × ((count encoder v c).1 ≡ ok tokens)
        × (choose_method tokens limit ≡ method)
        × ((apply_method codecs encoder method v
              (seven_tenths (limit_of limit))
              (count encoder v c).0).1
            ≡ some b)
  unfolding optimize_response
  optimize_response-apply_method seven_tenths v limit c b method h =
      elim (Result-cases (count encoder v c).1) [
        | inr (e, k) ↦
            let failed : (optimize_response codecs encoder seven_tenths v limit c).1 ≡ err e =
              rw (optimize_response, k) refl in
            absurd (err-ne-ok (sym failed ∙ h))
        | inl (tokens, k) ↦
            let m = choose_method tokens limit in
            let bytes =
              (apply_method codecs encoder m v (seven_tenths (limit_of limit))
                (count encoder v c).0).1 in
            let same : (optimize_response codecs encoder seven_tenths v limit c).1
                ≡ answer_of m bytes =
              rw (optimize_response, k) refl in
            let (made, named) = finished bytes m method b (sym same ∙ h) in
            (
              tokens,
              k,
              named,
              subst
                  (λ m'.
                    (apply_method codecs encoder m' v (seven_tenths (limit_of limit))
                      (count encoder v c).0).1
                    ≡ some b)
                  named made,
            )
      ]

  -- Decompressing an answer of OptimizeResponse gives the JSON of the value, with a newline behind it
  -- if the method is gzip; or the JSON of the truncated value, if the method is the truncating one.
  pub decompress-optimize_response :
      (seven_tenths : ℕ → ℕ) (v : Value) (limit : ℤ) (c : Counter) (b : Text) (method : Method)
      → (optimize_response codecs encoder seven_tenths v limit c).1 ≡ ok (b, method)
      → decompress codecs encoder b method
        ≡ sent_json method (
            encoder.marshal
              (sent_value method v (seven_tenths (limit_of limit)) (count encoder v c).0))
  decompress-optimize_response seven_tenths v limit c b method h =
      let (tokens, counted, named, made) =
        optimize_response-apply_method seven_tenths v limit c b method h in
      apply_method-decompress method v (seven_tenths (limit_of limit)) (count encoder v c).0 b made

  -- The method of an answer of OptimizeResponse is the one that SuggestCompressionMethod suggests.
  pub suggest_compression_method-optimize_response :
      (seven_tenths : ℕ → ℕ) (v : Value) (limit : ℤ) (c : Counter) (b : Text) (method : Method)
      → (optimize_response codecs encoder seven_tenths v limit c).1 ≡ ok (b, method)
      → (suggest_compression_method codecs encoder v limit c).1 ≡ ok method
  unfolding suggest_compression_method
  suggest_compression_method-optimize_response seven_tenths v limit c b method h =
      let (tokens, counted, named, made) =
        optimize_response-apply_method seven_tenths v limit c b method h in
      rw (suggest_compression_method, counted, named) refl
