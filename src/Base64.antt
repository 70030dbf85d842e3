-- ===== src/Base64.antt =====
-- The URL encoding of Go's encoding/base64, which internal/cursor/cursor.go wraps its tokens in:
-- `base64.URLEncoding.EncodeToString` and `DecodeString`. Bytes are numbers below 256.
use mcp_xlsm_server.Prelude.{
  ℕ, ◌+◌, ◌-◌, ◌*◌, ◌/◌, ◌%◌, ◌<◌, ◌≡◌, ◌≢◌, refl, false, ◌&&◌, ◌||◌, Option, none, some, List, [],
  ◌∷◌, ◌++◌, leb, ltb, ◌==◌, if◌then◌else◌, All, arith,
}

abbrev pub Bytes : Type 0
Bytes = List ℕ

abbrev pub IsBytes : Bytes → Type 0
IsBytes = All (λ b. b < 256)

-- The sextet's letter: A-Z, a-z, 0-9, '-' and '_'.
letter : ℕ → ℕ
letter n =
    if ltb n 26
    then b'A' + n
    else if ltb n 52
    then b'a' + (n - 26)
    else if ltb n 62
    then b'0' + (n - 52)
    else if n == 62
    then b'-'
    else b'_'

value : ℕ → Option ℕ
value c =
    if leb b'A' c && leb c b'Z'
    then some (c - b'A')
    else if leb b'a' c && leb c b'z'
    then some (c - b'a' + 26)
    else if leb b'0' c && leb c b'9'
    then some (c - b'0' + 52)
    else if c == b'-'
    then some 62
    else if c == b'_'
    then some 63
    else none

abbrev pad : ℕ
pad = b'='

unfoldable pub encode : Bytes → Bytes
unfolding letter
encode [] = []
encode (a ∷ []) = letter (a / 4) ∷ letter (a % 4 * 16) ∷ pad ∷ pad ∷ []
encode (a ∷ b ∷ []) = letter (a / 4) ∷ letter (a % 4 * 16 + b / 16) ∷ letter (b % 16 * 4) ∷ pad ∷ []
encode (a ∷ b ∷ c ∷ rest) =
    letter (a / 4)
    ∷ letter (a % 4 * 16 + b / 16)
    ∷ letter (b % 16 * 4 + c / 64)
    ∷ letter (c % 64)
    ∷ encode rest

infixl 5 ◌>>=◌
abbrev ◌>>=◌ {ℓ κ} : {A : Type ℓ} {B : Type κ} → Option A → (A → Option B) → Option B
none >>= f = none
some a >>= f = f a

-- A last group with padding; nothing may follow it.
last_group : ℕ → ℕ → ℕ → ℕ → Option Bytes
unfolding value
last_group p q r s =
    if r == pad
    then (if s == pad then (do x ← value p; y ← value q; some ((x * 4 + y / 16) ∷ [])) else none)
    else do
      x ← value p
      y ← value q
      z ← value r
      some ((x * 4 + y / 16) ∷ (y % 16 * 16 + z / 4) ∷ [])

-- Four letters are three bytes.
full_group : ℕ → ℕ → ℕ → ℕ → Option Bytes
unfolding value
full_group p q r s = do
  x ← value p
  y ← value q
  z ← value r
  w ← value s
  some ((x * 4 + y / 16) ∷ (y % 16 * 16 + z / 4) ∷ (z % 4 * 64 + w) ∷ [])

groups : Bytes → Option Bytes
unfolding last_group full_group
groups [] = some []
groups (p ∷ q ∷ r ∷ s ∷ rest) =
    let more = groups rest in
    if r == pad || s == pad
    then elim rest [ [] ↦ last_group p q r s | _ ↦ none ]
    else (do head ← full_group p q r s; bytes ← more; some (head ++ bytes))
groups _ = none

-- The decoder passes over line breaks wherever they stand.
skip_breaks : Bytes → Bytes
skip_breaks [] = []
skip_breaks (c ∷ s) = let rest = skip_breaks s in if c == 10 || c == 13 then rest else c ∷ rest

unfoldable pub decode : Bytes → Option Bytes
unfolding skip_breaks groups
decode s = groups (skip_breaks s)

value-letter : (n : ℕ) → n < 64 → value (letter n) ≡ some n
unfolding value letter
value-letter n h = ground arith

letter_plain :
    (n : ℕ) → n < 64 → ((letter n == 10 || letter n == 13) ≡ false) × ((letter n == pad) ≡ false)
unfolding letter
letter_plain n h = ground arith

skip_letter : (n : ℕ) (s : Bytes) → n < 64 → skip_breaks (letter n ∷ s) ≡ letter n ∷ skip_breaks s
unfolding skip_breaks
skip_letter n s h = rw (letter_plain n h).0

skip_breaks-encode : (bs : Bytes) → IsBytes bs → skip_breaks (encode bs) ≡ encode bs
unfolding encode
skip_breaks-encode [] h = unfold skip_breaks in refl
skip_breaks-encode (a ∷ []) h =
    rw (skip_letter (a / 4) _ (omega arith), skip_letter (a % 4 * 16) _ (omega arith))
      (unfold skip_breaks in refl)
skip_breaks-encode (a ∷ b ∷ []) h =
    rw
      (
        skip_letter (a / 4) _ (omega arith),
        skip_letter (a % 4 * 16 + b / 16) _ (omega arith),
        skip_letter (b % 16 * 4) _ (omega arith),
      )
      (unfold skip_breaks in refl)
skip_breaks-encode (a ∷ b ∷ c ∷ rest) h = rw (
  skip_letter (a / 4) _ (omega arith),
  skip_letter (a % 4 * 16 + b / 16) _ (omega arith),
  skip_letter (b % 16 * 4 + c / 64) _ (omega arith),
  skip_letter (c % 64) _ (omega arith),
  skip_breaks-encode rest (h.1.1.1),
)

full_group-letters :
    (a b c : ℕ)
    → a < 256
    → b < 256
    → c < 256
    → full_group
        (letter (a / 4))
        (letter (a % 4 * 16 + b / 16))
        (letter (b % 16 * 4 + c / 64))
        (letter (c % 64))
      ≡ some (a ∷ b ∷ c ∷ [])
unfolding full_group
full_group-letters a b c ha hb hc =
    rw
      (
        value-letter (a / 4) (omega arith),
        value-letter (a % 4 * 16 + b / 16) (omega arith),
        value-letter (b % 16 * 4 + c / 64) (omega arith),
        value-letter (c % 64) (omega arith),
      )
      (ground arith)

groups-encode : (bs : Bytes) → IsBytes bs → groups (encode bs) ≡ some bs
unfolding groups encode
groups-encode [] h = refl
groups-encode (a ∷ []) h =
    rw (value-letter (a / 4) (omega arith), value-letter (a % 4 * 16) (omega arith)) (ground arith)
groups-encode (a ∷ b ∷ []) h =
    rw
      (
        (letter_plain (b % 16 * 4) (omega arith)).1,
        value-letter (a / 4) (omega arith),
        value-letter (a % 4 * 16 + b / 16) (omega arith),
        value-letter (b % 16 * 4) (omega arith),
      )
      (ground arith)
groups-encode (a ∷ b ∷ c ∷ rest) h = rw (
  (letter_plain (b % 16 * 4 + c / 64) (omega arith)).1,
  (letter_plain (c % 64) (omega arith)).1,
  full_group-letters a b c h.0 h.1.0 h.1.1.0,
  groups-encode rest h.1.1.1,
)

-- Decoding the encoding of any bytes gives them back.
pub decode-encode : (bs : Bytes) → IsBytes bs → decode (encode bs) ≡ some bs
unfolding decode
decode-encode bs h = rw (skip_breaks-encode bs h) (groups-encode bs h)

pub encode-ne-nil : (bs : Bytes) → bs ≢ [] → encode bs ≢ []
unfolding encode
encode-ne-nil [] h = h
encode-ne-nil (a ∷ []) h = λ e. cc
encode-ne-nil (a ∷ b ∷ []) h = λ e. cc
encode-ne-nil (a ∷ b ∷ c ∷ rest) h = λ e. cc
