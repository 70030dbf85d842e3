-- ===== src/Decimal.antt =====
-- Go's `%d`: an integer in decimal.
use mcp_xlsm_server.Prelude.{ℕ, zero, suc, ◌+◌, ◌/◌, ◌%◌, true, false, [], ◌∷◌, ltb, ℤ, pos, negsuc}
use mcp_xlsm_server.Models.{Text}
use Prim.Native.Char.{code}
use Prim.Native.String.{String}

-- The bytes of a literal.
abbrev pub codes : String → Text
codes String.[] = []
codes (String.◌∷◌ c s) = code c ∷ codes s

-- The digits of a number, the last one first in hand; a number has fewer digits than its value has
-- units, so that the fuel `n + 1` is enough.
digits : ℕ → ℕ → Text → Text
digits zero n out = out
digits (suc fuel) n out = elim (ltb n 10) [
  | true ↦ (b'0' + n) ∷ out
  | false ↦ digits fuel (n / 10) ((b'0' + n % 10) ∷ out)
]

unfoldable pub decimal : ℤ → Text
unfolding digits
decimal (pos n) = digits (n + 1) n []
decimal (negsuc n) = b'-' ∷ digits (n + 2) (n + 1) []
