-- ===== src/Index/QuadTree/Inserts.antt =====
-- Insertions keep a quad tree well-formed.
use mcp_xlsm_server.Prelude.{◌≡◌, refl, ◌∙◌, arith, false, not, length, ltb, Bool-cases, inl, inr}
use mcp_xlsm_server.Index.QuadTree.{
  Coordinates, Bounds, SpatialPoint, QuadTree, leaf, node, contains, insert_new, insert, upper_left,
  upper_right, lower_left, lower_right, tree_capacity,
}
use mcp_xlsm_server.Index.QuadTree.Holds.{
  insert-node, bounds_of-insert, count_if-insert, IsWide, IsInside, IsWell, IsWell-IsInside, added,
}
use mcp_xlsm_server.Index.QuadTree.Points.{all_points, bounds_of}

module _ {C L : Type 0} (coordinates : Coordinates C) where
  open coordinates use {zero, below, plus, half, below_le, le_below, plus_half, le_plus, half_le}

  inside_added :
      (p : SpatialPoint C L) (b : Bounds C)
      → added coordinates (λ r. not (contains coordinates b r)) p b ≡ 0
  inside_added p b = elim (Bool-cases (contains coordinates b p)) [
    | inl e ↦ rw e refl
    | inr e ↦ rw e refl
  ]

  IsInside-insert :
      (p : SpatialPoint C L) (t : QuadTree C L)
      → IsWell coordinates t
      → IsInside coordinates (bounds_of t) (all_points (insert coordinates p t))
  IsInside-insert p t w =
      let b = bounds_of t in
      omega (
        arith,
        count_if-insert coordinates (λ r. not (contains coordinates b r)) p t w,
        inside_added p b,
        IsWell-IsInside coordinates t w,
      )

  bounds_of-insert_new :
      (p : SpatialPoint C L) (b : Bounds C) → bounds_of (insert_new coordinates p b) ≡ b
  unfolding insert_new
  bounds_of-insert_new p b = ground arith

  IsWell-insert_new :
      (p : SpatialPoint C L) (b : Bounds C)
      → IsWide coordinates b
      → IsWell coordinates (insert_new coordinates p b)
  unfolding insert_new
  IsWell-insert_new p b w = elim (Bool-cases (contains coordinates b p)) [
    | inl e ↦ rw (insert_new, e) (w, rw e refl)
    | inr e ↦ rw (insert_new, e) (w, refl)
  ]

  -- Insertion keeps a tree well-formed.
  pub IsWell-insert :
      (p : SpatialPoint C L) (t : QuadTree C L)
      → IsWell coordinates t
      → IsWell coordinates (insert coordinates p t)
  unfolding insert
  IsWell-insert p (leaf b points) w =
      let inside = IsInside-insert p (leaf b points) w in
      elim (Bool-cases (contains coordinates b p)) [
        | inr e ↦ rw (insert, e) w
        | inl e ↦ elim (Bool-cases (ltb (length points) tree_capacity)) [
          | inl k ↦ rw (insert, e, k) (w.0, rw (insert, e, k) at inside)
          | inr k ↦
              let halves : (below (half b.width) zero ≡ false)
                  × (below (half b.height) zero ≡ false) =
                (half_le b.width w.0.0, half_le b.height w.0.1) in
              rw (insert, e, k)
                (
                  (w.0, rw (insert, e, k) at inside),
                  (
                    bounds_of-insert_new p (upper_left coordinates b),
                    bounds_of-insert_new p (upper_right coordinates b),
                    bounds_of-insert_new p (lower_left coordinates b),
                    bounds_of-insert_new p (lower_right coordinates b),
                  ),
                  (
                    IsWell-insert_new p (upper_left coordinates b) halves,
                    IsWell-insert_new p (upper_right coordinates b) halves,
                    IsWell-insert_new p (lower_left coordinates b) halves,
                    IsWell-insert_new p (lower_right coordinates b) halves,
                  ),
                )
        ]
      ]
  IsWell-insert p (node b points c0 c1 c2 c3) w =
      let inside = IsInside-insert p (node b points c0 c1 c2 c3) w in
      let (e0, e1, e2, e3) = w.1 in
      let (w0, w1, w2, w3) = w.2 in
      elim (Bool-cases (contains coordinates b p)) [
        | inr e ↦ rw (insert, e) w
        | inl e ↦ rw (insert-node coordinates p b points c0 c1 c2 c3 e) (
          (w.0.0, rw (insert-node coordinates p b points c0 c1 c2 c3 e) at inside),
          (
            bounds_of-insert coordinates p c0 ∙ e0,
            bounds_of-insert coordinates p c1 ∙ e1,
            bounds_of-insert coordinates p c2 ∙ e2,
            bounds_of-insert coordinates p c3 ∙ e3,
          ),
          (
            IsWell-insert p c0 w0,
            IsWell-insert p c1 w1,
            IsWell-insert p c2 w2,
            IsWell-insert p c3 w3,
          ),
        )
      ]
