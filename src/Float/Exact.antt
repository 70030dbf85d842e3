-- ===== src/Float/Exact.antt =====
-- The interface with exact fractions.
use native.Mathlib.Nat.{mul-pos}
use mcp_xlsm_server.Prelude.{ℕ, zero, suc, ◌*◌, ◌^◌, ◌/◌, ◌<◌, arith}
use mcp_xlsm_server.Float.{Float}
use mcp_xlsm_server.Index.QuadTree.Fractions.{Fraction, of_nat, below, plus, below_irreflexive}

pub ten_pow_pos : (k : ℕ) → 0 < 10 ^ k
ten_pow_pos zero = omega arith
ten_pow_pos (suc k) = omega (arith, ten_pow_pos k)

abbrev pub product : Fraction → Fraction → Fraction
product a b = record {
  numerator = a.numerator * b.numerator;
  denominator = a.denominator * b.denominator;
  positive = mul-pos a.positive b.positive;
}

abbrev pub decimal_fraction : ℕ → ℕ → Fraction
decimal_fraction digits decimals = record {
  numerator = digits;
  denominator = 10 ^ decimals;
  positive = ten_pow_pos decimals;
}

abbrev pub floor : Fraction → ℕ
floor a = a.numerator / a.denominator

abbrev pub exact : Float Fraction
exact = record {
  of_count = of_nat;
  decimal = decimal_fraction;
  plus = plus;
  times = product;
  below = below;
  truncate = floor;
  below_irreflexive = below_irreflexive;
}
