-- ===== src/Token.antt =====
-- internal/token/counter.go: token counts behind a cache, the limits of the models, and what follows
-- from them. The tokenizer is not part of the repository; what `fmt` prints for a value as its cache
-- key, and its JSON, depend on the caller's types. All three are an argument.
pub mod Counts
pub mod Limits
pub mod Estimates
pub mod Threads
use mcp_xlsm_server.Prelude.{
  ℕ, ◌+◌, ◌-◌, ◌*◌, ◌/◌, Bool, Option, none, some, List, [], ◌∷◌, String, str_eq, ltb, leb,
  if◌then◌else◌, Dict, lookup, store, nats_eq,
}
use mcp_xlsm_server.Models.{Text}

pub record Encoder (D : Type 0) : Type 0 where
  -- `fmt.Sprintf("%T_%v", data, data)`
  pub key : D → Text
  -- `json.Marshal`
  pub marshal : D → Option Text
  -- `len(encoder.Encode(text, nil, nil))`
  pub token_length : Text → ℕ

-- The counter's state is its cache, a `sync.Map`.
abbrev pub Counter : Type 0
Counter = Dict Text ℕ

pub data CountError : Type 0 where
  marshal_failed : CountError
  -- The count and the safe buffer.
  over_limit : ℕ → ℕ → CountError
  -- The index of the item.
  item_failed : ℕ → CountError

pub data Result {ℓ} (A : Type ℓ) : Type ℓ where
  ok : A → Result A
  err : CountError → Result A

pub record ModelLimits : Type 0 where
  pub context : ℕ
  pub safe_buffer : ℕ
  pub output_max : ℕ

abbrev pub sonnet_4 : ModelLimits
sonnet_4 = record { context = 200_000; safe_buffer = 180_000; output_max = 64_000 }

abbrev pub sonnet_4_beta : ModelLimits
sonnet_4_beta = record { context = 1_000_000; safe_buffer = 950_000; output_max = 64_000 }

abbrev pub opus_4_1 : ModelLimits
opus_4_1 = record { context = 200_000; safe_buffer = 180_000; output_max = 32_000 }

-- An unknown model has the limits of sonnet-4.
unfoldable pub get_model_limits : String → ModelLimits
get_model_limits name =
    if str_eq name "sonnet-4"
    then sonnet_4
    else if str_eq name "sonnet-4-beta"
    then sonnet_4_beta
    else if str_eq name "opus-4-1"
    then opus_4_1
    else sonnet_4

pub data Strategy : Type 0 where
  uncompressed gzip brotli brotli_aggressive : Strategy

-- `float64(tokens) / float64(limit) < tenths/10`, which for these limits is a comparison of products.
abbrev pub ratio_below : ℕ → ℕ → ℕ → Bool
ratio_below tokens limit tenths = ltb (10 * tokens) (tenths * limit)

unfoldable pub get_compression_strategy : ℕ → String → Strategy
get_compression_strategy tokens name =
    let limit = (get_model_limits name).safe_buffer in
    if ratio_below tokens limit 5
    then uncompressed
    else if ratio_below tokens limit 7
    then gzip
    else if ratio_below tokens limit 9
    then brotli
    else brotli_aggressive

-- The outcome of an item, before those of the items behind it.
abbrev pub batch_step : ℕ → Result ℕ → Result (List ℕ) → Result (List ℕ)
batch_step i (err e) rest = err (item_failed i)
batch_step i (ok n) (err e) = err e
batch_step i (ok n) (ok ns) = ok (n ∷ ns)

-- What a counted value does to the limit.
abbrev pub within_limit : ℕ → ℕ → Result (Unit {0})
within_limit limit n = if ltb limit n then err (over_limit n limit) else ok tt

-- Whether to chunk, and into how many.
abbrev pub chunks_for : ℕ → ℕ → Bool × ℕ
chunks_for limit n = if leb n limit then (Bool.false, 1) else (Bool.true, (n + limit - 1) / limit)

module _ {D : Type 0} (encoder : Encoder D) where
  open encoder use {key, marshal, token_length}

  unfoldable pub count : D → Counter → Counter × Result ℕ
  count d c = elim (lookup (key d) c) [
    | some n ↦ (c, ok n)
    | none ↦ elim (marshal d) [
      | none ↦ (c, err marshal_failed)
      | some json ↦ (store (key d) (token_length json) c, ok (token_length json))
    ]
  ]

  unfoldable pub count_string : Text → Counter → Counter × ℕ
  count_string text c = elim (lookup text c) [
    | some n ↦ (c, n)
    | none ↦ (store text (token_length text) c, token_length text)
  ]

  unfoldable pub validate_token_limit : D → String → Counter → Counter × Result (Unit {0})
  validate_token_limit d name c =
      let (c', counted) = count d c in
      (
        c',
        elim counted [ err e ↦ err e | ok n ↦ within_limit (get_model_limits name).safe_buffer n ],
      )

  unfoldable pub estimate_chunking_needed : D → String → Counter → Counter × Result (Bool × ℕ)
  estimate_chunking_needed d name c =
      let (c', counted) = count d c in
      (
        c',
        elim counted [
          | err e ↦ err e
          | ok n ↦ ok (chunks_for (get_model_limits name).safe_buffer n)
        ],
      )

  unfoldable pub clean_cache : Counter → Counter
  clean_cache c = []

  -- The loop stops at the first item that cannot be counted.
  unfoldable pub batch_from : ℕ → List D → Counter → Counter × Result (List ℕ)
  batch_from i [] c = (c, ok [])
  batch_from i (d ∷ ds) c =
      let (c', counted) = count d c in
      let rest = batch_from (i + 1) ds c' in
      elim counted [
        | err e ↦ (c', err (item_failed i))
        | ok n ↦ (rest.0, batch_step i (ok n) rest.1)
      ]

  unfoldable pub batch_count : List D → Counter → Counter × Result (List ℕ)
  batch_count = batch_from 0
