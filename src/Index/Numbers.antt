-- ===== src/Index/Numbers.antt =====
-- What the index of numbers finds.
use mcp_xlsm_server.Prelude.{
  ℕ, ◌≡◌, refl, ◌∙◌, sym, ap, arith, true, false, List, [], ◌∷◌, map, Option, nats_beq_iff,
}
use mcp_xlsm_server.Index.{Location}
use mcp_xlsm_server.Index.Inverted.{has, same_location}
use mcp_xlsm_server.Index.Keys.{NumericKey, BTree, text_below, less, place, within}
use mcp_xlsm_server.Index.Manager.{Bloom, Manager, update_cell_indexes}
use mcp_xlsm_server.Index.Deltas.{Delta, float64, other, parse_location, parse_number, no_location}
use mcp_xlsm_server.Index.QuadTree.{Coordinates}
use mcp_xlsm_server.Index.Searching.{search_numeric_range, get_stats}
use mcp_xlsm_server.Models.{Text}

text_below_irreflexive : (t : Text) → text_below t t ≡ false
unfolding text_below
text_below_irreflexive [] = refl
text_below_irreflexive (c ∷ t) = ground (arith, text_below_irreflexive t)

text_below_empty : (t : Text) → text_below t [] ≡ false
unfolding text_below
text_below_empty t = ground arith

same_location_self : (l : Location) → same_location l l ≡ true
unfolding same_location
same_location_self l =
    ground (arith, nats_beq_iff l.sheet_name l.sheet_name, nats_beq_iff l.cell_ref l.cell_ref)

module _ {C : Type 0} (coordinates : Coordinates C) where
  open coordinates use {below}

  abbrev pub key : C → Location → NumericKey C
  key v l = record { value = v; loc = l }

  less_irreflexive :
      (v : C) (l k : Location)
      → l.sheet_name ≡ k.sheet_name
      → less coordinates (key v l) (key v k) ≡ false
  unfolding less
  less_irreflexive v l k same =
      rw (coordinates.below_irreflexive v, same, text_below_irreflexive k.sheet_name) refl

  less_left :
      (v : C) (l k : Location) (j : NumericKey C)
      → l.sheet_name ≡ k.sheet_name
      → less coordinates (key v l) j ≡ less coordinates (key v k) j
  unfolding less
  less_left v l k j same = rw same refl

  less_right :
      (v : C) (l k : Location) (j : NumericKey C)
      → l.sheet_name ≡ k.sheet_name
      → less coordinates j (key v l) ≡ less coordinates j (key v k)
  unfolding less
  less_right v l k j same = rw same refl

  -- A key placed after another one of its value and its sheet leaves what it leaves alone.
  place_twice :
      (v : C) (l k : Location) (js : List (NumericKey C))
      → l.sheet_name ≡ k.sheet_name
      → place coordinates (key v k) (place coordinates (key v l) js)
        ≡ place coordinates (key v k) js
  unfolding place
  place_twice v l k [] same =
      ground (arith, less_irreflexive v l k same, less_irreflexive v k l (sym same))
  place_twice v l k (j ∷ js) same = ground (
    arith,
    place_twice v l k js same,
    less_irreflexive v l k same,
    less_irreflexive v k l (sym same),
    less_left v l k j same,
    less_right v l k j same,
  )

  -- A range from a number to itself holds no key.
  within_itself :
      (v : C) (l : Location) (js : List (NumericKey C))
      → within coordinates (key v l) (key v l) js ≡ []
  unfolding within
  within_itself v l [] = refl
  within_itself v l (j ∷ js) = ground (arith, within_itself v l js)

  -- A key that is placed is within a range around it.
  has_place :
      (v : C) (l : Location) (low high : NumericKey C) (js : List (NumericKey C))
      → less coordinates (key v l) low ≡ false
      → less coordinates (key v l) high ≡ true
      → has l (map (λ k. k.loc) (within coordinates low high (place coordinates (key v l) js)))
        ≡ true
  unfolding place within has
  has_place v l low high [] h1 h2 = ground (arith, same_location_self l)
  has_place v l low high (j ∷ js) h1 h2 =
      ground (arith, same_location_self l, has_place v l low high js h1 h2)

module _ {C T B : Type 0} (coordinates : Coordinates C) (of_nat : ℕ → C)
    (btree : BTree coordinates T) (filter : Bloom B) (words : Text → List Text)
    (cell_coordinates : Text → Option (ℕ × ℕ)) where
  open coordinates use {below}

  -- A cell that had no number gets the number.
  pub record SetsNumber (d : Delta C) (v : C) : Type 0 where
    pub new : d.new_value ≡ float64 v
    pub old : d.old_value ≡ other

  abbrev pub updated : Delta C → Manager C T B → Manager C T B
  updated = update_cell_indexes coordinates of_nat btree filter words cell_coordinates

  abbrev pub at : Delta C → Location
  at d = parse_location cell_coordinates d.location

  items-updated :
      (d : Delta C) (v : C) (m : Manager C T B)
      → SetsNumber d v
      → btree.items (updated d m).primary
        ≡ place coordinates (key coordinates v (at d)) (btree.items m.primary)
  unfolding update_cell_indexes parse_number
  items-updated d v m h =
      rw (update_cell_indexes, h.new, h.old)
        (btree.items-replace_or_insert (key coordinates v (at d)) m.primary)

  search_items :
      (low high : C) (m : Manager C T B)
      → search_numeric_range coordinates of_nat btree filter words low high m
        ≡ map
            (λ k. k.loc)
            (within coordinates
              (key coordinates low no_location)
              (key coordinates high no_location)
              (btree.items m.primary))
  unfolding search_numeric_range
  search_items low high m = ap (map (λ k. k.loc)) (btree.ascend_range-items _ _ m.primary)

  -- Two cells of a sheet are set to one number, the first before the second, and had no number
  -- before: every search for a range of numbers finds what it finds if only the second is set, and
  -- the index counts as many numbers.
  pub search_numeric_range-update_cell_indexes_replaces :
      (v low high : C) (d1 d2 : Delta C) (m : Manager C T B)
      → SetsNumber d1 v
      → SetsNumber d2 v
      → (at d1).sheet_name ≡ (at d2).sheet_name
      → (search_numeric_range coordinates of_nat btree filter words low high
            (updated d2 (updated d1 m))
          ≡ search_numeric_range coordinates of_nat btree filter words low high (updated d2 m))
        × ((get_stats coordinates of_nat btree filter words (updated d2 (updated d1 m))).btree_items
            ≡ (get_stats coordinates of_nat btree filter words (updated d2 m)).btree_items)
  unfolding get_stats
  search_numeric_range-update_cell_indexes_replaces v low high d1 d2 m h1 h2 same =
      let twice : btree.items (updated d2 (updated d1 m)).primary
          ≡ btree.items (updated d2 m).primary =
        items-updated d2 v (updated d1 m) h2
        ∙ ap (place coordinates (key coordinates v (at d2))) (items-updated d1 v m h1)
        ∙ place_twice coordinates v (at d1) (at d2) (btree.items m.primary) same
        ∙ sym (items-updated d2 v m h2) in
      (
        rw (search_items, search_items, twice) refl,
        rw (btree.len-items, btree.len-items, twice) refl,
      )

  -- A cell that is set to a number, and had none before, is found by a search for a range that begins
  -- at most at the number and ends above it. A search for a range that ends where it begins finds
  -- nothing, the number itself included.
  pub search_numeric_range-update_cell_indexes :
      (v low high : C) (d : Delta C) (m : Manager C T B)
      → SetsNumber d v
      → below v low ≡ false
      → below v high ≡ true
      → (has
            (at d)
            (search_numeric_range coordinates of_nat btree filter words low high (updated d m))
          ≡ true)
        × (search_numeric_range coordinates of_nat btree filter words v v (updated d m) ≡ [])
  unfolding less
  search_numeric_range-update_cell_indexes v low high d m h above under =
      let l = at d in
      (
        rw (search_items, items-updated d v m h)
            (has_place coordinates v l _ _ (btree.items m.primary)
              (ground (arith, text_below_empty l.sheet_name)) (ground arith)),
        rw (search_items, within_itself coordinates v no_location) refl,
      )
