-- ===== src/Navigation/Paging.antt =====
-- internal/server/navigation.go: the pages of a navigation map and its cache control.
use mcp_xlsm_server.Prelude.{
  ℕ, zero, suc, ◌/◌, Bool, true, Option, none, some, [], ◌∷◌, ◌++◌, ℤ, pos, negsuc, add_int64,
  sub_int64, if◌then◌else◌,
}
use mcp_xlsm_server.Cursor.{Codec, Manager, create_navigation_cursor}
use mcp_xlsm_server.Decimal.{codes}
use mcp_xlsm_server.Models.{Text, Pagination, CacheControl}

-- `-n`
abbrev negated : ℕ → ℤ
negated zero = pos 0
negated (suc n) = negsuc n

-- Go's `/` on `int`, which rounds to 0 and panics for the divisor 0.
unfoldable pub quotient : ℤ → ℤ → Option ℤ
quotient a (pos zero) = none
quotient (pos a) (pos (suc b)) = some (pos (a / suc b))
quotient (pos a) (negsuc b) = some (negated (a / suc b))
quotient (negsuc a) (pos (suc b)) = some (negated (suc a / suc b))
quotient (negsuc a) (negsuc b) = some (pos (suc a / suc b))

-- `(items + size - 1) / size`
unfoldable pub chunks_of : ℕ → ℤ → Option ℤ
unfolding quotient
chunks_of items size = quotient (sub_int64 (add_int64 (pos items) size) (pos 1)) size

unfoldable pub create_cache_control : Text → Bool → CacheControl
create_cache_control checksum checksum_match = record {
  ttl_seconds = if checksum_match then 600 else 300;
  invalidate_on_checksum = true;
  hot_data_extension = checksum_match;
  cache_key = codes "nav_" ++ checksum;
}

module _ (codec : Codec) (m : Manager) where
  -- `now` is the reading for the next cursor and `later` the one for the cursor before it.
  unfoldable pub create_pagination : ℤ → ℤ → Text → ℕ → ℤ → Option Pagination
  create_pagination now later [] items size = elim (chunks_of items size) [
    | none ↦ none
    | some total_chunks ↦ some (record {
      current_cursor = [];
      next_cursor = [];
      previous_cursor = [];
      remaining_chunks = pos 0;
      estimated_time_remaining = pos 0;
    })
  ]
  create_pagination now later (c ∷ cs) items size = elim (chunks_of items size) [
    | none ↦ none
    | some total_chunks ↦
        let remaining = sub_int64 total_chunks (pos 1) in
        some (record {
          current_cursor = c ∷ cs;
          next_cursor = create_navigation_cursor codec m now (codes "next_chunk") (pos 1) [];
          previous_cursor = create_navigation_cursor codec m later (codes "prev_chunk") (pos 0) [];
          remaining_chunks = remaining;
          estimated_time_remaining = add_int64 remaining remaining;
        })
  ]
