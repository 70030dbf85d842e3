-- ===== src/Compression/Slices.antt =====
-- What a truncated array holds.
use mcp_xlsm_server.Prelude.{ℕ, ◌+◌, ◌<◌, ◌≡◌, ◌⊎◌}
use mcp_xlsm_server.Compression.Truncation.{count_or}
use mcp_xlsm_server.Compression.Values.{
  Value, Items, nil, cons, end, field, object, integer, item_count, single,
}
use mcp_xlsm_server.Decimal.{codes}
use mcp_xlsm_server.Token.{Encoder, ok}
use mcp_xlsm_server.Token.Counts.{true_count}

-- What stands for the items that are left out, of so many in all.
abbrev pub summary_of : Items → ℕ → Items
summary_of nil total = nil
summary_of (cons v items) total = single (
    object (
      field (codes "_truncated_items") (integer (item_count (cons v items)))
        (field (codes "_total_items") (integer total) end)))

-- What stands behind the items that are kept, where `rest` is not: nothing if nothing is left, and
-- otherwise a truncated item or none, and the summary of the others.
abbrev pub Tail : Items → ℕ → Items → Type 0
Tail nil total tail = tail ≡ nil
Tail (cons v rest) total tail =
    (tail ≡ summary_of rest total) ⊎ ((cut : Value) × (tail ≡ cons cut (summary_of rest total)))

module _ (encoder : Encoder Value) where
  abbrev pub tokens : Value → ℕ
  tokens v = count_or (true_count encoder v)

  abbrev pub all_tokens : Items → ℕ
  all_tokens nil = 0
  all_tokens (cons v items) = tokens v + all_tokens items

  -- The first item that is not kept does not fit.
  abbrev pub IsFull : Items → ℕ → ℕ → Type 0
  IsFull nil current target = Unit
  IsFull (cons v rest) current target = target < current + tokens v

-- The items that are counted are among the values that `Counted` holds of.
module _ (encoder : Encoder Value) (Counted : Value → Type 0) where
  -- Every item is one of the values, and can be counted.
  abbrev pub AreCounted : Items → Type 0
  AreCounted nil = Unit
  AreCounted (cons v items) =
      Counted v × (true_count encoder v ≡ ok (tokens encoder v)) × AreCounted items
