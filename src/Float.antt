-- ===== src/Float.antt =====
-- Go's `float64`, as far as counts are scaled by constants: an interface with what IEEE 754 fixes of it.
pub mod Exact
use mcp_xlsm_server.Prelude.{ℕ, ◌^◌, ◌≤◌, ◌<◌, ◌≡◌, Bool, false}

pub record Float (F : Type 0) : Type 0 where
  -- `float64(n)`
  pub of_count : ℕ → F
  -- The constant that is written with so many decimals, by its digits.
  pub decimal : ℕ → ℕ → F
  pub plus : F → F → F
  pub times : F → F → F
  -- `<`
  pub below : F → F → Bool
  -- `int(x)` of a number that is not negative
  pub truncate : F → ℕ
  pub below_irreflexive : (x : F) → below x x ≡ false
