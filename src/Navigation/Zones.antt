-- ===== src/Navigation/Zones.antt =====
-- The zones of a sheet are a partition of its rows.
use mcp_xlsm_server.Decimal.{codes, decimal}
use mcp_xlsm_server.Models.{Text}
use mcp_xlsm_server.Prelude.{
  ◌⊎◌, inl, inr, Option, none, Option-cases, ◌++◌, pos, true, false, ℕ, zero, suc, ◌+◌, ◌-◌, ◌<◌,
  ◌≤◌, ◌≡◌, refl, arith, some, List, [], ◌∷◌, ltb, if◌then◌else◌,
}
use native.Mathlib.Decide.{dec_lt}
use mcp_xlsm_server.Models.{Zone}
use mcp_xlsm_server.Navigation.Sheets.{cell_ref, range_of, make_zone, zone_loop, create_zones}
use mcp_xlsm_server.Workbook.{Workbook}

-- The text of a cell's name, empty where the cell has none.
abbrev name_text : Option Text → Text
name_text none = []
name_text (some name) = name

-- The zone of the rows from `from`, counted from 0, up to before `end`, in so many columns: its number,
-- the cells at its first and at its last corner, the size of a window, and whether it has more than
-- 500 rows.
pub record IsZone (file : Workbook) (cols id from end : ℕ) (z : Zone) : Type 0 where
  numbered : z.zone_id ≡ codes "zone_" ++ decimal (pos id)
  ranged :
      z.range
      ≡ name_text (file.cell_name 1 (from + 1)) ++ codes ":" ++ name_text (file.cell_name cols end)
  windowed : z.window_size ≡ 1000
  compresses :
      ((from + 500 < end) × (z.compressed ≡ true)) ⊎ ((end ≤ from + 500) × (z.compressed ≡ false))

-- The zones of consecutive rows from one row up to before another, numbered from `id` on; each has
-- 1000 rows, but for the last, which has the rows that are left.
abbrev pub IsZoned : Workbook → ℕ → ℕ → ℕ → ℕ → List Zone → Type 0
IsZoned file cols id from to [] = from ≡ to
IsZoned file cols id from to (z ∷ zones) =
    (end : ℕ) × (from < end)
    × (((end ≡ from + 1000) × (end ≤ to)) ⊎ ((end ≡ to) × (to < from + 1000)))
    × IsZone file cols id from end z
    × IsZoned file cols (id + 1) end to zones

cell_ref-name_text :
    (file : Workbook) (col row : ℕ) → cell_ref file col row ≡ name_text (file.cell_name col row)
unfolding cell_ref
cell_ref-name_text file col row = elim (Option-cases (file.cell_name col row)) [
  | inl e ↦ rw (cell_ref, e) refl
  | inr (name, e) ↦ rw (cell_ref, e) refl
]

make_zone-IsZone :
    (file : Workbook) (cols id from end : ℕ)
    → IsZone file cols id from end (make_zone file cols id from end)
unfolding make_zone range_of
make_zone-IsZone file cols id from end = record {
  numbered = refl;
  ranged = rw (cell_ref-name_text file 1 (from + 1), cell_ref-name_text file cols end) refl;
  windowed = refl;
  compresses = elim (dec_lt (from + 500) end) [
    | yes q ↦ inl (q, ground arith)
    | no q ↦ inr (omega arith, ground arith)
  ];
}

last_zone :
    (from to : ℕ)
    → to ≤ from + 1000
    → ((to ≡ from + 1000) × (to ≤ to)) ⊎ ((to ≡ to) × (to < from + 1000))
last_zone from to h = elim (dec_lt to (from + 1000)) [
  | yes q ↦ inr (refl, q)
  | no q ↦ inl (omega arith, omega arith)
]

module _ (file : Workbook) (rows cols : ℕ) where
  zone_loop_done : (fuel id i : ℕ) → rows ≤ i → zone_loop file (suc fuel) rows cols id i ≡ some []
  unfolding zone_loop
  zone_loop_done fuel id i h = ground arith

  zone_loop_round :
      (fuel id i end : ℕ) (zones : List Zone)
      → i < rows
      → end ≡ (if ltb rows (i + 1000) then rows else i + 1000)
      → zone_loop file fuel rows cols (id + 1) (i + 1000) ≡ some zones
      → zone_loop file (suc fuel) rows cols id i ≡ some (make_zone file cols id i end ∷ zones)
  unfolding zone_loop
  zone_loop_round fuel id i end zones h e rest = ground arith

  zone_loop-IsZoned :
      (fuel id i : ℕ)
      → i ≤ rows
      → rows < i + fuel
      → (zones : List Zone) × (zone_loop file fuel rows cols id i ≡ some zones)
        × IsZoned file cols id i rows zones
  zone_loop-IsZoned zero id i h1 h2 = absurd (omega arith)
  zone_loop-IsZoned (suc fuel) id i h1 h2 = elim (dec_lt i rows) [
    | no q ↦ ([], zone_loop_done fuel id i (omega arith), omega arith)
    | yes p ↦ elim (dec_lt (i + 1000) rows) [
      | yes q ↦
          let (zones, done, parts) =
            zone_loop-IsZoned fuel (id + 1) (i + 1000) (omega arith) (omega arith) in
          (
            make_zone file cols id i (i + 1000) ∷ zones,
            zone_loop_round fuel id i (i + 1000) zones p (ground arith) done,
            (
              i + 1000,
              omega arith,
              inl (refl, omega arith),
              make_zone-IsZone file cols id i (i + 1000),
              parts,
            ),
          )
      | no q ↦
          let last_rows : ((rows ≡ i + 1000) × (rows ≤ rows))
              ⊎ ((rows ≡ rows) × (rows < i + 1000)) =
            last_zone i rows (omega arith) in
          let one : fuel ≡ suc (fuel - 1) = omega arith in
          let done : zone_loop file fuel rows cols (id + 1) (i + 1000) ≡ some [] =
            rw one (zone_loop_done (fuel - 1) (id + 1) (i + 1000) (omega arith)) in
          (
            make_zone file cols id i rows ∷ [],
            zone_loop_round fuel id i rows [] p (ground arith) done,
            (rows, p, last_rows, make_zone-IsZone file cols id i rows, refl),
          )
    ]
  ]

-- The loop of `createZones` ends, and its zones are those of consecutive rows from the first to the
-- last, numbered from 0 on. None is empty, each has 1000 rows but for the last, which has the rows
-- that are left; its range runs from the first column of its first row to the last column of its last
-- row, and it is marked for compression exactly if it has more than 500 rows.
pub create_zones-IsZoned :
    (file : Workbook) (rows cols : ℕ)
    → (zones : List Zone) × (create_zones file rows cols ≡ some zones)
      × IsZoned file cols 0 0 rows zones
unfolding create_zones
create_zones-IsZoned file rows cols =
    zone_loop-IsZoned file rows cols (rows + 1) 0 0 (omega arith) (omega arith)
