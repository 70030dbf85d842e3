-- ===== src/Tests/TokenRuns.antt =====
-- The token counter: runs with a tokenizer that counts bytes, and the theorems at it.
use mcp_xlsm_server.Prelude.{◌≡◌, refl, arith, some, [], ◌∷◌, length, lookup, store, nats_eq}
use mcp_xlsm_server.Decimal.{codes}
use mcp_xlsm_server.Models.{Text}
use mcp_xlsm_server.Query.Results.{none-ne-some}
use mcp_xlsm_server.Token.{
  Encoder, ok, count, count_string, batch_count, batch_from, validate_token_limit, get_model_limits,
  get_compression_strategy, brotli,
}
use mcp_xlsm_server.Token.Counts.{
  IsExact, KeysDetermine, IsBatch, batch_count-IsBatch, count_string-key,
}
use mcp_xlsm_server.Float.Exact.{exact, decimal_fraction}
use mcp_xlsm_server.Token.Estimates.{
  estimate_compressed, compressed_count, calculate_optimal_chunk_size,
}
use mcp_xlsm_server.Token.Limits.{get_compression_strategy-validate_token_limit}

abbrev pub byte_counter : Encoder Text
byte_counter = record { key = λ d. d; marshal = λ d. some (34 ∷ d); token_length = length }

abbrev pub AnyText : Text → Type 0
AnyText t = Unit

pub byte_counter-KeysDetermine : KeysDetermine byte_counter AnyText
byte_counter-KeysDetermine d e one other h = rw h refl

nothing-IsExact : IsExact byte_counter AnyText []
unfolding lookup
nothing-IsExact d n one h = absurd (none-ne-some h)

batch_run : (batch_count byte_counter (codes "ab" ∷ codes "c" ∷ []) []).1 ≡ ok (3 ∷ 2 ∷ [])
unfolding batch_count batch_from count lookup store
batch_run = refl

batch_count-IsBatch_example :
    IsBatch byte_counter AnyText 0
      (codes "ab" ∷ codes "c" ∷ codes "ab" ∷ [])
      (batch_count byte_counter (codes "ab" ∷ codes "c" ∷ codes "ab" ∷ []) []).1
batch_count-IsBatch_example =
    batch_count-IsBatch byte_counter AnyText byte_counter-KeysDetermine
      (codes "ab" ∷ codes "c" ∷ codes "ab" ∷ []) [] (tt, (tt, (tt, tt))) nothing-IsExact

string_key_run :
    (count_string byte_counter (codes "ab") (count byte_counter (codes "ab") []).0).1 ≡ 3
unfolding lookup
string_key_run = count_string-key byte_counter (codes "ab") (codes "\"ab") [] refl refl

strategy_run : get_compression_strategy 150_000 "opus-4-1" ≡ brotli
unfolding get_compression_strategy get_model_limits
strategy_run = refl

-- A tokenizer that finds a million tokens in every text.
abbrev large_counter : Encoder Text
large_counter = record { key = λ d. d; marshal = λ d. some d; token_length = λ t. 1_000_000 }

strategy_limit_run : (validate_token_limit byte_counter (codes "ab") "sonnet-4" []).1 ≡ ok tt
unfolding count lookup get_compression_strategy get_model_limits
strategy_limit_run =
    get_compression_strategy-validate_token_limit byte_counter (codes "ab") "sonnet-4" [] 3 refl
      (λ e. ground (arith, e))

estimate_run : (estimate_compressed exact byte_counter (codes "123456789") "gzip" []).1 ≡ ok 7
unfolding estimate_compressed compressed_count count lookup store
estimate_run = refl

-- Four fifths of the safe buffer.
chunk_size_run : calculate_optimal_chunk_size exact "sonnet-4" (decimal_fraction 8 1) ≡ 144_000
unfolding calculate_optimal_chunk_size get_model_limits
chunk_size_run = refl
