-- ===== src/Index/QuadTree/Fractions.antt =====
-- Exact coordinates: the fractions that are not negative.
use native.Mathlib.Nat.{lt_of_mul-lt-mul_right, mul-lt-mul_of_pos_right, mul-le-mul_right, mul-pos}
use mcp_xlsm_server.Prelude.{ℕ, ◌+◌, ◌*◌, ◌≤◌, ◌<◌, ◌≡◌, refl, ◌∙◌, arith, Bool, true, false, ltb}
use mcp_xlsm_server.Index.QuadTree.{Coordinates}

pub record Fraction : Type 0 where
  pub numerator : ℕ
  pub denominator : ℕ
  pub positive : 0 < denominator

-- a/k < b/j and b/j ≤ c/i
lt_le_products :
    (a b c k j i : ℕ) → 0 < i → 0 < k → 0 < j → a * j < b * k → b * i ≤ c * j → a * i < c * k
lt_le_products a b c k j i hi hk hj h1 h2 =
    lt_of_mul-lt-mul_right j (grind (arith, mul-lt-mul_of_pos_right h1 hi, mul-le-mul_right k h2))

le_lt_products :
    (a b c k j i : ℕ) → 0 < i → 0 < k → 0 < j → a * j ≤ b * k → b * i < c * j → a * i < c * k
le_lt_products a b c k j i hi hk hj h1 h2 =
    lt_of_mul-lt-mul_right j (grind (arith, mul-le-mul_right i h1, mul-lt-mul_of_pos_right h2 hk))

abbrev pub of_nat : ℕ → Fraction
of_nat n = record { numerator = n; denominator = 1; positive = omega arith }

abbrev pub below : Fraction → Fraction → Bool
below a b = ltb (a.numerator * b.denominator) (b.numerator * a.denominator)

abbrev pub plus : Fraction → Fraction → Fraction
plus a b = record {
  numerator = a.numerator * b.denominator + b.numerator * a.denominator;
  denominator = a.denominator * b.denominator;
  positive = mul-pos a.positive b.positive;
}

abbrev pub half : Fraction → Fraction
half a = record {
  numerator = a.numerator;
  denominator = a.denominator * 2;
  positive = mul-pos a.positive (omega arith);
}

pub below_le : (a b c : Fraction) → below a b ≡ true → below c b ≡ false → below a c ≡ true
below_le a b c h k = ground (
  arith,
  h,
  k,
  lt_le_products a.numerator b.numerator c.numerator a.denominator b.denominator c.denominator
      c.positive a.positive b.positive,
)

pub le_below : (a b c : Fraction) → below b a ≡ false → below b c ≡ true → below a c ≡ true
le_below a b c h k = ground (
  arith,
  h,
  k,
  le_lt_products a.numerator b.numerator c.numerator a.denominator b.denominator c.denominator
      c.positive a.positive b.positive,
)

plus_numerator_le : (x w a b : ℕ) → x * (a * b) ≤ (x * b + w * a) * a
plus_numerator_le x w a b = grind arith

pub le_plus : (x w : Fraction) → below w (of_nat 0) ≡ false → below (plus x w) x ≡ false
le_plus x w h =
    ground (arith, plus_numerator_le x.numerator w.numerator x.denominator w.denominator)

pub half_le : (w : Fraction) → below w (of_nat 0) ≡ false → below (half w) (of_nat 0) ≡ false
half_le w h = ground arith

same_ltb : {m n i j : ℕ} → m ≡ i → n ≡ j → ltb m n ≡ ltb i j
same_ltb h k = rw (h, k) refl

ltb_scaled : (m n i : ℕ) → 0 < i → ltb (m * i) (n * i) ≡ ltb m n
ltb_scaled m n i h =
    let up : m < n → m * i < n * i = λ q. mul-lt-mul_of_pos_right q h in
    let down : m * i < n * i → m < n = lt_of_mul-lt-mul_right i in ground (arith, up, down)

left_scaled : (p a b : ℕ) → p * (a * (b * 2) * (b * 2)) ≡ p * (a * b) * (4 * b)
left_scaled p a b = grind arith

right_scaled :
    (x w a b p : ℕ)
    → ((x * (b * 2) + w * a) * (b * 2) + w * (a * (b * 2))) * p ≡ (x * b + w * a) * p * (4 * b)
right_scaled x w a b p = grind arith

pub plus_half : (p x w : Fraction) → below p (plus (plus x (half w)) (half w)) ≡ below p (plus x w)
plus_half p x w =
    let a = x.denominator in
    let b = w.denominator in
    let left = left_scaled p.numerator a b in
    let right = right_scaled x.numerator w.numerator a b p.denominator in
    same_ltb left right
    ∙ ltb_scaled (p.numerator * (a * b)) ((x.numerator * b + w.numerator * a) * p.denominator)
        (4 * b) (omega (arith, w.positive))

pub below_irreflexive : (a : Fraction) → below a a ≡ false
below_irreflexive a = ground arith

abbrev pub fractions : Coordinates Fraction
fractions = record {
  zero = of_nat 0;
  below = below;
  plus = plus;
  half = half;
  below_irreflexive = below_irreflexive;
  below_le = below_le;
  le_below = le_below;
  plus_half = plus_half;
  le_plus = le_plus;
  half_le = half_le;
}
