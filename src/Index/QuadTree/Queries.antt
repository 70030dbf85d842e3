-- ===== src/Index/QuadTree/Queries.antt =====
-- A query of a quad tree finds what was inserted.
use mathlib.Core.Quot
use mathlib.Core.Quot.{Quot}
use mcp_xlsm_server.Prelude.{
  ◌+◌, ◌≡◌, refl, sym, ◌∙◌, arith, Bool, true, false, ◌&&◌, List, [], ◌∷◌, ◌++◌, Bool-cases, inl,
  inr,
}
use mcp_xlsm_server.Index.QuadTree.{
  Coordinates, Bounds, SpatialPoint, QuadTree, leaf, node, contains, intersects, insert, points_in,
  query, insert_all, new_quad_tree,
}
use mcp_xlsm_server.Index.QuadTree.Holds.{
  bounds_of-insert, count_if-insert, IsWide, IsInside, IsWell, added,
}
use mcp_xlsm_server.Index.QuadTree.Points.{
  count_if, count_if-append, count_if-node, all_points, bounds_of,
}
use mcp_xlsm_server.Index.QuadTree.Inserts.{IsWell-insert}

-- Two lists hold the same elements, as often.
abbrev pub SameElements : {A : Type 0} → List A → List A → Type 0
SameElements xs ys = (f : _ → Bool) → count_if f xs ≡ count_if f ys

-- A list without its order.
abbrev pub Bag : Type 0 → Type 0
Bag A = Quot (SameElements {A = A})

abbrev pub bag : {A : Type 0} → List A → Bag A
bag xs = Quot.mk xs

module _ {C L : Type 0} (coordinates : Coordinates C) where
  open coordinates use {zero, below, plus, half, below_le, le_below, plus_half, le_plus, half_le}

  -- A point that lies in two rectangles makes them intersect.
  intersects-contains :
      (b q : Bounds C) (p : SpatialPoint C L)
      → contains coordinates b p ≡ true
      → contains coordinates q p ≡ true
      → intersects coordinates b q ≡ true
  unfolding contains intersects
  intersects-contains b q p h k = ground (
    arith,
    h,
    k,
    le_below q.x p.x (plus b.x b.width),
    le_below b.x p.x (plus q.x q.width),
    le_below q.y p.y (plus b.y b.height),
    le_below b.y p.y (plus q.y q.height),
  )

  count_if-points_in :
      (f : SpatialPoint C L → Bool) (q : Bounds C) (points : List (SpatialPoint C L))
      → count_if f (points_in coordinates q points)
        ≡ count_if (λ p. f p && contains coordinates q p) points
  unfolding points_in
  count_if-points_in f q [] = refl
  count_if-points_in f q (p ∷ points) =
      let rest = count_if-points_in f q points in
      elim (Bool-cases (contains coordinates q p)) [
        | inl e ↦ ground (arith, rest, e)
        | inr e ↦ ground (arith, rest, e)
      ]

  -- Where the rectangle does not meet the bounds, no point of the tree lies in it.
  count_if_apart :
      (f : SpatialPoint C L → Bool) (b q : Bounds C) (points : List (SpatialPoint C L))
      → intersects coordinates b q ≡ false
      → IsInside coordinates b points
      → count_if (λ p. f p && contains coordinates q p) points ≡ 0
  count_if_apart f b q [] h k = refl
  count_if_apart f b q (p ∷ points) h k = elim (Bool-cases (contains coordinates b p)) [
    | inr e ↦ ground (arith, k, e)
    | inl e ↦ elim (Bool-cases (contains coordinates q p)) [
      | inl c ↦ ground (arith, intersects-contains b q p e c, h)
      | inr c ↦ ground (arith, count_if_apart f b q points h, k, e, c)
    ]
  ]

  count_if-query :
      (f : SpatialPoint C L → Bool) (q : Bounds C) (t : QuadTree C L)
      → IsWell coordinates t
      → count_if f (query coordinates q t)
        ≡ count_if (λ p. f p && contains coordinates q p) (all_points t)
  unfolding query
  count_if-query f q (leaf b points) w = elim (Bool-cases (intersects coordinates b q)) [
    | inl e ↦ rw (query, e) (count_if-points_in f q points)
    | inr e ↦ rw (query, e) (sym (count_if_apart f b q points e w.1))
  ]
  count_if-query f q (node b points c0 c1 c2 c3) w =
      let (w0, w1, w2, w3) = w.2 in
      let whole = node b points c0 c1 c2 c3 in
      elim (Bool-cases (intersects coordinates b q)) [
        | inr e ↦ rw (query, e) (sym (count_if_apart f b q (all_points whole) e w.0.1))
        | inl e ↦
            rw (query, e)
              (omega (
                arith,
                count_if-append f (points_in coordinates q points) (
                    query coordinates q c0
                    ++ query coordinates q c1
                    ++ query coordinates q c2
                    ++ query coordinates q c3),
                count_if-append f
                    (query coordinates q c0 ++ query coordinates q c1 ++ query coordinates q c2)
                    (query coordinates q c3),
                count_if-append f (query coordinates q c0 ++ query coordinates q c1)
                    (query coordinates q c2),
                count_if-append f (query coordinates q c0) (query coordinates q c1),
                count_if-node (λ p. f p && contains coordinates q p) b points c0 c1 c2 c3,
                count_if-points_in f q points,
                count_if-query f q c0 w0,
                count_if-query f q c1 w1,
                count_if-query f q c2 w2,
                count_if-query f q c3 w3,
              ))
      ]

  count_if-points_in_cons :
      (f : SpatialPoint C L → Bool) (q : Bounds C) (p : SpatialPoint C L)
      (points : List (SpatialPoint C L))
      → count_if f (points_in coordinates q (p ∷ points))
        ≡ added coordinates f p q + count_if f (points_in coordinates q points)
  unfolding points_in
  count_if-points_in_cons f q p points = elim (Bool-cases (contains coordinates q p)) [
    | inl e ↦ rw (points_in, e) refl
    | inr e ↦ rw (points_in, e) (omega arith)
  ]

  insert_all-IsWell :
      (points : List (SpatialPoint C L)) (t : QuadTree C L)
      → IsWell coordinates t
      → IsWell coordinates (insert_all coordinates points t)
  unfolding insert_all
  insert_all-IsWell [] t w = w
  insert_all-IsWell (p ∷ points) t w =
      insert_all-IsWell points (insert coordinates p t) (IsWell-insert coordinates p t w)

  count_if-insert_all :
      (f : SpatialPoint C L → Bool) (points : List (SpatialPoint C L)) (t : QuadTree C L)
      → IsWell coordinates t
      → count_if f (all_points (insert_all coordinates points t))
        ≡ count_if f (all_points t) + count_if f (points_in coordinates (bounds_of t) points)
  unfolding insert_all points_in
  count_if-insert_all f [] t w = omega arith
  count_if-insert_all f (p ∷ points) t w =
      let t' = insert coordinates p t in
      let rest = count_if-insert_all f points t' (IsWell-insert coordinates p t w) in
      let rest' : count_if f (all_points (insert_all coordinates points t'))
          ≡ count_if f (all_points t') + count_if f (points_in coordinates (bounds_of t) points) =
        rest ∙ rw (bounds_of-insert coordinates p t) refl in
      omega (
        arith,
        rest',
        count_if-insert coordinates f p t w,
        count_if-points_in_cons f (bounds_of t) p points,
      )

  -- A query after insertions into a new tree gives, in some order, each inserted point that lies in
  -- the tree's bounds and in the rectangle, as often as it was inserted. The bounds have no negative
  -- size.
  pub query-insert_all :
      (points : List (SpatialPoint C L)) (b q : Bounds C)
      → IsWide coordinates b
      → bag (query coordinates q (insert_all coordinates points (new_quad_tree b)))
        ≡ bag (points_in coordinates q (points_in coordinates b points))
  query-insert_all points b q wide =
      let start : IsWell coordinates {L = L} (new_quad_tree b) = (wide, refl) in
      let t = insert_all coordinates points (new_quad_tree b) in
      Quot.sound (λ f. omega (
        arith,
        count_if-query f q t (insert_all-IsWell points (new_quad_tree b) start),
        count_if-insert_all (λ p. f p && contains coordinates q p) points (new_quad_tree b) start,
        count_if-points_in f q (points_in coordinates b points),
      ))
