-- ===== src/Token/Estimates.antt =====
-- internal/token/counter.go: the estimates that scale counts by constants.
use mcp_xlsm_server.Prelude.{ℕ, String, str_eq, if◌then◌else◌}
use mcp_xlsm_server.Float.{Float}
use mcp_xlsm_server.Token.{Encoder, Counter, Result, ok, err, count, get_model_limits}

module _ {F : Type 0} (float : Float F) where
  open float use {of_count, decimal, times, truncate}

  -- So many tenths of a count.
  abbrev pub tenths : ℕ → ℕ → ℕ
  tenths k n = truncate (times (of_count n) (decimal k 1))

  unfoldable pub compressed_count : String → ℕ → ℕ
  compressed_count method n =
      if str_eq method "gzip"
      then tenths 7 n
      else if str_eq method "brotli"
      then tenths 6 n
      else if str_eq method "brotli-aggressive"
      then tenths 5 n
      else n

  unfoldable pub calculate_optimal_chunk_size : String → F → ℕ
  calculate_optimal_chunk_size name target_utilization =
      truncate (times (of_count (get_model_limits name).safe_buffer) target_utilization)

  module _ {D : Type 0} (encoder : Encoder D) where
    unfoldable pub estimate_compressed : D → String → Counter → Counter × Result ℕ
    unfolding compressed_count
    estimate_compressed d method c =
        let (c', counted) = count encoder d c in
        (c', elim counted [ err e ↦ err e | ok n ↦ ok (compressed_count method n) ])
