-- ===== src/Token/Limits.antt =====
-- The limits of the models: validation, the number of chunks and the compression agree.
use mcp_xlsm_server.Prelude.{
  ℕ, ◌⊎◌, ◌≢◌, ◌+◌, ◌-◌, ◌*◌, ◌/◌, ◌<◌, ◌≤◌, ◌≡◌, refl, Bool, true, false, String, arith, inl, inr,
  leb, Bool-cases,
}
use native.Mathlib.Nat.{mod-add-div', mod-lt}
use mcp_xlsm_server.Token.{
  Encoder, Counter, Result, ok, err, over_limit, get_model_limits, count, within_limit, chunks_for,
  validate_token_limit, estimate_chunking_needed, get_compression_strategy, brotli_aggressive,
}

-- Every model has a safe buffer that is not 0, and context for the buffer.
limits_bounds :
    (name : String)
    → 0 < (get_model_limits name).safe_buffer
      × (get_model_limits name).safe_buffer < (get_model_limits name).context
unfolding get_model_limits
limits_bounds name = ground arith

div_bounds : (m d : ℕ) → 0 < d → m < m / d * d + d × m / d * d ≤ m
div_bounds m d h =
    let whole = mod-add-div' m d in let part = mod-lt m h in (omega arith, omega arith)

-- The outcomes of the validation and of the chunking for a count and a safe buffer.
abbrev pub Agree : ℕ → ℕ → Result (Unit {0}) → Result (Bool × ℕ) → Type 0
Agree limit n valid needed =
    (n ≤ limit × (valid ≡ ok tt) × (needed ≡ ok (false, 1)))
    ⊎ ((chunks : ℕ) × (limit < n)
        × (valid ≡ err (over_limit n limit))
        × (needed ≡ ok (true, chunks))
        × (n ≤ chunks * limit)
        × (chunks * limit < n + limit))

outcomes-Agree :
    (limit n : ℕ) → 0 < limit → Agree limit n (within_limit limit n) (ok (chunks_for limit n))
outcomes-Agree limit n h =
    let (low, high) = div_bounds (n + limit - 1) limit h in
    elim (Bool-cases (leb n limit)) [
      | inl k ↦ inl (ground arith, ground arith, rw k refl)
      | inr k ↦ inr (
        (n + limit - 1) / limit,
        ground arith,
        ground arith,
        rw k refl,
        ground arith,
        omega arith,
      )
    ]

module _ {D : Type 0} (encoder : Encoder D) where
  -- Of a value that can be counted: either its count is within the model's safe buffer, it passes the
  -- validation and needs no chunking; or it does not pass, and the chunks that are then asked for
  -- hold the count at a safe buffer each, which one chunk less would not.
  pub validate_token_limit-estimate_chunking_needed :
      (d : D) (name : String) (c : Counter) (n : ℕ)
      → (count encoder d c).1 ≡ ok n
      → Agree
          (get_model_limits name).safe_buffer
          n
          (validate_token_limit encoder d name c).1
          (estimate_chunking_needed encoder d name c).1
  unfolding validate_token_limit estimate_chunking_needed
  validate_token_limit-estimate_chunking_needed d name c n h =
      rw (validate_token_limit, estimate_chunking_needed, h)
        (outcomes-Agree (get_model_limits name).safe_buffer n (limits_bounds name).0)

  -- Where the strategy for a count is not the aggressive one, the count passes the validation.
  pub get_compression_strategy-validate_token_limit :
      (d : D) (name : String) (c : Counter) (n : ℕ)
      → (count encoder d c).1 ≡ ok n
      → get_compression_strategy n name ≢ brotli_aggressive
      → (validate_token_limit encoder d name c).1 ≡ ok tt
  unfolding validate_token_limit get_compression_strategy
  get_compression_strategy-validate_token_limit d name c n h k =
      let (p, q) = limits_bounds name in rw (validate_token_limit, h) (ground arith)
