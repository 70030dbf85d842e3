-- ===== src/Index/QuadTree/Points.antt =====
-- Counts of the points that a quad tree holds.

use mcp_xlsm_server.Prelude.{ℕ, ◌+◌, ◌≡◌, arith, Bool, List, [], ◌∷◌, ◌++◌, if◌then◌else◌}
use mcp_xlsm_server.Index.QuadTree.{Bounds, SpatialPoint, QuadTree, leaf, node}

-- How many of a list pass a test.
abbrev pub count_if {ℓ} : {A : Type ℓ} → (A → Bool) → List A → ℕ
count_if f [] = 0
count_if f (a ∷ xs) = (if f a then 1 else 0) + count_if f xs

pub count_if-append {ℓ} :
    {A : Type ℓ} (f : A → Bool) (xs ys : List A)
    → count_if f (xs ++ ys) ≡ count_if f xs + count_if f ys
count_if-append f [] ys = omega arith
count_if-append f (a ∷ xs) ys = omega (arith, count_if-append f xs ys)

pub count_if_five {ℓ} :
    {A : Type ℓ} (f : A → Bool) (xs as0 as1 as2 as3 : List A)
    → count_if f (xs ++ as0 ++ as1 ++ as2 ++ as3)
      ≡ count_if f xs + count_if f as0 + count_if f as1 + count_if f as2 + count_if f as3
count_if_five f xs as0 as1 as2 as3 = omega (
  arith,
  count_if-append f xs as0,
  count_if-append f (xs ++ as0) as1,
  count_if-append f (xs ++ as0 ++ as1) as2,
  count_if-append f (xs ++ as0 ++ as1 ++ as2) as3,
)

module _ {C L : Type 0} where
  -- The points of a tree and of its children.
  abbrev pub all_points : QuadTree C L → List (SpatialPoint C L)
  all_points (leaf b points) = points
  all_points (node b points c0 c1 c2 c3) =
      points ++ all_points c0 ++ all_points c1 ++ all_points c2 ++ all_points c3

  abbrev pub bounds_of : QuadTree C L → Bounds C
  bounds_of (leaf b points) = b
  bounds_of (node b points c0 c1 c2 c3) = b

  pub count_if-node :
      (f : SpatialPoint C L → Bool) (b : Bounds C) (points : List (SpatialPoint C L))
      (c0 c1 c2 c3 : QuadTree C L)
      → count_if f (all_points (node b points c0 c1 c2 c3))
        ≡ count_if f points
          + count_if f (all_points c0)
          + count_if f (all_points c1)
          + count_if f (all_points c2)
          + count_if f (all_points c3)
  count_if-node f b points c0 c1 c2 c3 =
      count_if_five f points (all_points c0) (all_points c1) (all_points c2) (all_points c3)
