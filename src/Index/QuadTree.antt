-- ===== src/Index/QuadTree.antt =====
-- internal/index/manager.go: the quad tree. The coordinates, which the code takes as floating-point
-- numbers, are an argument with the laws of exact arithmetic.
pub mod Points
pub mod Holds
pub mod Inserts
pub mod Queries
pub mod Fractions
use mcp_xlsm_server.Prelude.{
  ℕ, ◌+◌, ◌≡◌, Bool, true, false, ◌&&◌, ◌||◌, not, List, [], ◌∷◌, ◌++◌, length, ltb, if◌then◌else◌,
}

-- The arithmetic that the tree uses, and what it relies on.
pub record Coordinates (C : Type 0) : Type 0 where
  pub zero : C
  -- `<`
  pub below : C → C → Bool
  pub plus : C → C → C
  -- `/ 2`
  pub half : C → C
  pub below_irreflexive : (a : C) → below a a ≡ false
  pub below_le : (a b c : C) → below a b ≡ true → below c b ≡ false → below a c ≡ true
  pub le_below : (a b c : C) → below b a ≡ false → below b c ≡ true → below a c ≡ true
  pub plus_half : (p x w : C) → below p (plus (plus x (half w)) (half w)) ≡ below p (plus x w)
  pub le_plus : (x w : C) → below w zero ≡ false → below (plus x w) x ≡ false
  pub half_le : (w : C) → below w zero ≡ false → below (half w) zero ≡ false

pub record Bounds (C : Type 0) : Type 0 where
  pub x : C
  pub y : C
  pub width : C
  pub height : C

pub record SpatialPoint (C L : Type 0) : Type 0 where
  pub x : C
  pub y : C
  pub loc : L

-- The points of a tree, and its children where it has been subdivided.
pub data QuadTree (C L : Type 0) : Type 0 where
  leaf : Bounds C → List (SpatialPoint C L) → QuadTree C L
  node :
      Bounds C
      → List (SpatialPoint C L)
      → QuadTree C L
      → QuadTree C L
      → QuadTree C L
      → QuadTree C L
      → QuadTree C L

-- `NewManager` gives the root this capacity, and a subdivision gives it on.
abbrev pub tree_capacity : ℕ
tree_capacity = 10

-- A tree without points.
abbrev pub new_quad_tree : {C L : Type 0} → Bounds C → QuadTree C L
new_quad_tree b = leaf b []

unfoldable pub count_points : {C L : Type 0} → QuadTree C L → ℕ
count_points (leaf b points) = length points
count_points (node b points c0 c1 c2 c3) =
    length points + count_points c0 + count_points c1 + count_points c2 + count_points c3

module _ {C : Type 0} (coordinates : Coordinates C) where
  open coordinates use {below, plus, half}

  -- x >= at && x < at+size
  abbrev pub within : C → C → C → Bool
  within p at size = not (below p at) && below p (plus at size)

  unfoldable pub intersects : Bounds C → Bounds C → Bool
  intersects b q = not (
      not (below q.x (plus b.x b.width))
      || not (below b.x (plus q.x q.width))
      || not (below q.y (plus b.y b.height))
      || not (below b.y (plus q.y q.height)))

  -- The bounds that `subdivide` gives the children.
  abbrev pub upper_left : Bounds C → Bounds C
  upper_left b = record { x = b.x; y = b.y; width = half b.width; height = half b.height }

  abbrev pub upper_right : Bounds C → Bounds C
  upper_right b = record {
    x = plus b.x (half b.width);
    y = b.y;
    width = half b.width;
    height = half b.height;
  }

  abbrev pub lower_left : Bounds C → Bounds C
  lower_left b = record {
    x = b.x;
    y = plus b.y (half b.height);
    width = half b.width;
    height = half b.height;
  }

  abbrev pub lower_right : Bounds C → Bounds C
  lower_right b = record {
    x = plus b.x (half b.width);
    y = plus b.y (half b.height);
    width = half b.width;
    height = half b.height;
  }

  module _ {L : Type 0} where
    -- `contains` of a tree, by its bounds, and `Contains` of a rectangle.
    unfoldable pub contains : Bounds C → SpatialPoint C L → Bool
    contains b p = within p.x b.x b.width && within p.y b.y b.height

    -- A new tree after the insertion of a point: the point goes no deeper.
    unfoldable pub insert_new : SpatialPoint C L → Bounds C → QuadTree C L
    unfolding contains
    insert_new p b = if contains b p then leaf b (p ∷ []) else leaf b []

    unfoldable pub points_in : Bounds C → List (SpatialPoint C L) → List (SpatialPoint C L)
    unfolding contains
    points_in q [] = []
    points_in q (p ∷ points) =
        let rest = points_in q points in if contains q p then p ∷ rest else rest

    unfoldable pub query : Bounds C → QuadTree C L → List (SpatialPoint C L)
    unfolding intersects points_in
    query q (leaf b points) = if intersects b q then points_in q points else []
    query q (node b points c0 c1 c2 c3) =
        let deeper = query q c0 ++ query q c1 ++ query q c2 ++ query q c3 in
        if intersects b q then points_in q points ++ deeper else []

    -- A full tree is subdivided; its own points stay where they are.
    unfoldable pub insert : SpatialPoint C L → QuadTree C L → QuadTree C L
    unfolding contains insert_new
    insert p (leaf b points) =
        if contains b p
        then if ltb (length points) tree_capacity
          then leaf b (points ++ p ∷ [])
          else node b points (insert_new p (upper_left b)) (insert_new p (upper_right b))
              (insert_new p (lower_left b)) (insert_new p (lower_right b))
        else leaf b points
    insert p (node b points c0 c1 c2 c3) =
        let deeper = node b points (insert p c0) (insert p c1) (insert p c2) (insert p c3) in
        if contains b p then deeper else node b points c0 c1 c2 c3

    -- The old point of an updated cell is not removed.
    abbrev pub update : SpatialPoint C L → QuadTree C L → QuadTree C L
    update = insert

    -- A new tree after the insertion of points in their order.
    unfoldable pub insert_all : List (SpatialPoint C L) → QuadTree C L → QuadTree C L
    unfolding insert
    insert_all [] t = t
    insert_all (p ∷ points) t = insert_all points (insert p t)
