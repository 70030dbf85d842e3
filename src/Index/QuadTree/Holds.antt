-- ===== src/Index/QuadTree/Holds.antt =====
-- What the quad tree holds, and what a query of it gives.
use mathlib.Core.Path.{subst}
use mcp_xlsm_server.Prelude.{
  ℕ, ◌+◌, ◌≡◌, refl, ◌∙◌, arith, Bool, true, false, ◌&&◌, ◌||◌, not, List, [], ◌∷◌, length, ltb,
  if◌then◌else◌, Bool-cases, inl, inr,
}
use mcp_xlsm_server.Index.QuadTree.{
  Coordinates, Bounds, SpatialPoint, QuadTree, leaf, node, within, contains, insert_new, insert,
  upper_left, tree_capacity, upper_right, lower_left, lower_right,
}
use mcp_xlsm_server.Index.QuadTree.Points.{
  count_if, count_if-append, all_points, bounds_of, count_if-node,
}

quarters :
    (l r x u d y : Bool) (n : ℕ)
    → (l || r) ≡ x
    → (l && r) ≡ false
    → (u || d) ≡ y
    → (u && d) ≡ false
    → (if l && u then n else 0)
        + (if r && u then n else 0)
        + (if l && d then n else 0)
        + (if r && d then n else 0)
      ≡ (if x && y then n else 0)
quarters l r x u d y n h1 h2 h3 h4 = ground (arith, h1, h2, h3, h4)

module _ {C : Type 0} (coordinates : Coordinates C) where
  open coordinates use {zero, below, plus, half, below_le, le_below, plus_half, le_plus, half_le}

  -- An interval of a size that is not negative holds what either half holds; no point is in both.
  within-half :
      (p at size : C)
      → below size zero ≡ false
      → ((within coordinates p at (half size)
            || within coordinates p (plus at (half size)) (half size))
          ≡ within coordinates p at size)
        × ((within coordinates p at (half size)
              && within coordinates p (plus at (half size)) (half size))
            ≡ false)
  within-half p at size h = ground (
    arith,
    below_le p at (plus at (half size)),
    below_le p (plus at (half size)) (plus (plus at (half size)) (half size)),
    plus_half p at size,
    le_plus at (half size) (half_le size h),
    le_plus (plus at (half size)) (half size) (half_le size h),
  )

  -- The bounds have no negative size.
  abbrev pub IsWide : Bounds C → Type 0
  IsWide b = (below b.width zero ≡ false) × (below b.height zero ≡ false)

  module _ {L : Type 0} where
    -- A point is in as many quarters of the bounds as in the bounds.
    contains-quarters :
        (b : Bounds C) (p : SpatialPoint C L) (n : ℕ)
        → IsWide b
        → (if contains coordinates (upper_left coordinates b) p then n else 0)
            + (if contains coordinates (upper_right coordinates b) p then n else 0)
            + (if contains coordinates (lower_left coordinates b) p then n else 0)
            + (if contains coordinates (lower_right coordinates b) p then n else 0)
          ≡ (if contains coordinates b p then n else 0)
    unfolding contains
    contains-quarters b p n (hw, hh) =
        let (x_or, x_and) = within-half p.x b.x b.width hw in
        let (y_or, y_and) = within-half p.y b.y b.height hh in
        quarters (within coordinates p.x b.x (half b.width))
          (within coordinates p.x (plus b.x (half b.width)) (half b.width))
          (within coordinates p.x b.x b.width) (within coordinates p.y b.y (half b.height))
          (within coordinates p.y (plus b.y (half b.height)) (half b.height))
          (within coordinates p.y b.y b.height) n x_or x_and y_or y_and

    -- Every point lies in the bounds, and so in each child, whose bounds are the quarters.
    abbrev pub IsInside : Bounds C → List (SpatialPoint C L) → Type 0
    IsInside b points = count_if (λ p. not (contains coordinates b p)) points ≡ 0

    abbrev pub IsWell : QuadTree C L → Type 0
    IsWell (leaf b points) = IsWide b × IsInside b points
    IsWell (node b points c0 c1 c2 c3) =
        (IsWide b × IsInside b (all_points (node b points c0 c1 c2 c3)))
        × ((bounds_of c0 ≡ upper_left coordinates b)
            × (bounds_of c1 ≡ upper_right coordinates b)
            × (bounds_of c2 ≡ lower_left coordinates b)
            × (bounds_of c3 ≡ lower_right coordinates b))
        × (IsWell c0 × IsWell c1 × IsWell c2 × IsWell c3)

    pub IsWell-IsWide : (t : QuadTree C L) → IsWell t → IsWide (bounds_of t)
    IsWell-IsWide (leaf b points) w = w.0
    IsWell-IsWide (node b points c0 c1 c2 c3) w = w.0.0

    pub IsWell-IsInside : (t : QuadTree C L) → IsWell t → IsInside (bounds_of t) (all_points t)
    IsWell-IsInside (leaf b points) w = w.1
    IsWell-IsInside (node b points c0 c1 c2 c3) w = w.0.1

    -- What a point adds to a count of the points of a tree with these bounds.
    abbrev pub added : (SpatialPoint C L → Bool) → SpatialPoint C L → Bounds C → ℕ
    added f p b = if contains coordinates b p then (if f p then 1 else 0) else 0

    moved :
        (f : SpatialPoint C L → Bool) (p : SpatialPoint C L) (n m : ℕ) {b q : Bounds C}
        → b ≡ q
        → n ≡ m + added f p b
        → n ≡ m + added f p q
    moved f p n m e h = subst (λ q. n ≡ m + added f p q) e h

    pub insert-node :
        (p : SpatialPoint C L) (b : Bounds C) (points : List (SpatialPoint C L))
        (c0 c1 c2 c3 : QuadTree C L)
        → contains coordinates b p ≡ true
        → insert coordinates p (node b points c0 c1 c2 c3)
          ≡ node b points
              (insert coordinates p c0)
              (insert coordinates p c1)
              (insert coordinates p c2)
              (insert coordinates p c3)
    unfolding insert
    insert-node p b points c0 c1 c2 c3 e = rw (insert, e) refl

    pub bounds_of-insert :
        (p : SpatialPoint C L) (t : QuadTree C L) → bounds_of (insert coordinates p t) ≡ bounds_of t
    unfolding insert
    bounds_of-insert p (leaf b points) = ground arith
    bounds_of-insert p (node b points c0 c1 c2 c3) = ground arith

    count_if-insert_new :
        (f : SpatialPoint C L → Bool) (p : SpatialPoint C L) (b : Bounds C)
        → count_if f (all_points (insert_new coordinates p b)) ≡ added f p b
    unfolding insert_new
    count_if-insert_new f p b = elim (Bool-cases (contains coordinates b p)) [
      | inl e ↦ rw (insert_new, e) (omega arith)
      | inr e ↦ rw (insert_new, e) refl
    ]

    added-quarters :
        (f : SpatialPoint C L → Bool) (p : SpatialPoint C L) (b : Bounds C)
        → IsWide b
        → added f p (upper_left coordinates b)
            + added f p (upper_right coordinates b)
            + added f p (lower_left coordinates b)
            + added f p (lower_right coordinates b)
          ≡ added f p b
    added-quarters f p b w = contains-quarters b p (if f p then 1 else 0) w

    added-contains :
        (f : SpatialPoint C L → Bool) (p : SpatialPoint C L) (b : Bounds C)
        → contains coordinates b p ≡ true
        → added f p b ≡ (if f p then 1 else 0)
    added-contains f p b e = rw e refl

    pub count_if-insert :
        (f : SpatialPoint C L → Bool) (p : SpatialPoint C L) (t : QuadTree C L)
        → IsWell t
        → count_if f (all_points (insert coordinates p t))
          ≡ count_if f (all_points t) + added f p (bounds_of t)
    unfolding insert
    count_if-insert f p (leaf b points) w = elim (Bool-cases (contains coordinates b p)) [
      | inr e ↦ rw (insert, e) (omega arith)
      | inl e ↦ elim (Bool-cases (ltb (length points) tree_capacity)) [
        | inl k ↦ rw (insert, e, k) (omega (arith, count_if-append f points (p ∷ [])))
        | inr k ↦
            rw (insert, e, k)
              (count_if-node f b points (insert_new coordinates p (upper_left coordinates b))
                  (insert_new coordinates p (upper_right coordinates b))
                  (insert_new coordinates p (lower_left coordinates b))
                  (insert_new coordinates p (lower_right coordinates b))
                ∙ omega (
                  arith,
                  count_if-insert_new f p (upper_left coordinates b),
                  count_if-insert_new f p (upper_right coordinates b),
                  count_if-insert_new f p (lower_left coordinates b),
                  count_if-insert_new f p (lower_right coordinates b),
                  added-quarters f p b w.0,
                  added-contains f p b e,
                ))
      ]
    ]
    count_if-insert f p (node b points c0 c1 c2 c3) (wide, (e0, e1, e2, e3), (w0, w1, w2, w3)) =
        elim (Bool-cases (contains coordinates b p)) [
          | inr e ↦ rw (insert, e) (omega arith)
          | inl e ↦ rw (insert-node p b points c0 c1 c2 c3 e) (
              count_if-node f b points (insert coordinates p c0) (insert coordinates p c1)
                (insert coordinates p c2) (insert coordinates p c3)
              ∙ omega (
                arith,
                count_if-node f b points c0 c1 c2 c3,
                moved f p _ _ e0 (count_if-insert f p c0 w0),
                moved f p _ _ e1 (count_if-insert f p c1 w1),
                moved f p _ _ e2 (count_if-insert f p c2 w2),
                moved f p _ _ e3 (count_if-insert f p c3 w3),
                added-quarters f p b wide.0,
              ))
        ]
