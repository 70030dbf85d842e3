-- ===== src/Index/Build/Rows.antt =====
-- What indexing the rows of a sheet finds, and that it loses nothing.
use mathlib.Core.Path.{subst}
use mcp_xlsm_server.Prelude.{
  ℕ, zero, suc, ◌+◌, ◌≡◌, refl, arith, true, some, List, [], ◌∷◌, get_elem?, nats_eq,
}
use mcp_xlsm_server.Index.{Location}
use mcp_xlsm_server.Index.Inverted.{tokenize_text, Inverted, add_to_inverted, add_tokens}
use mcp_xlsm_server.Index.Keys.{BTree}
use mcp_xlsm_server.Index.Manager.{Bloom, Manager, index_cell, index_row, index_rows}
use mcp_xlsm_server.Index.Deltas.{name_or_empty}
use mcp_xlsm_server.Index.QuadTree.{Coordinates}
use mcp_xlsm_server.Index.Search.{all_have, has-add_tokens, all_have-add_tokens}
use mcp_xlsm_server.Models.{Text}
use mcp_xlsm_server.Workbook.{Workbook}

all_have_more :
    (l m : Location) (index : Inverted) (added tokens : List Text)
    → all_have l index tokens ≡ true
    → all_have l (add_tokens m added index) tokens ≡ true
all_have_more l m index added [] h = refl
all_have_more l m index added (t ∷ tokens) h =
    ground (arith, h, has-add_tokens l m added t index, all_have_more l m index added tokens)

-- Where the cell at a row and a column, counted from 0, stands.
abbrev pub cell_location : Workbook → Text → ℕ → ℕ → Location
cell_location file sheet row col = record {
  sheet_name = sheet;
  cell_ref = name_or_empty (file.cell_name (col + 1) (row + 1));
  row = row + 1;
  col = col + 1;
}

module _ {C T B : Type 0} (coordinates : Coordinates C) (of_nat : ℕ → C)
    (btree : BTree coordinates T) (filter : Bloom B) (words : Text → List Text)
    (file : Workbook) where
  -- The filter knows the text, and each of its tokens has the location.
  abbrev pub IsFound : Text → Location → Manager C T B → Type 0
  IsFound text l m =
      (filter.test text m.bloom ≡ true) × (all_have l m.inverted (tokenize_text words text) ≡ true)

  index_cell-keeps :
      (text : Text) (l : Location) (sheet : Text) (row col : ℕ) (cell : Text) (m : Manager C T B)
      → IsFound text l m
      → IsFound text l (index_cell coordinates of_nat btree filter words file sheet row col cell m)
  unfolding index_cell add_to_inverted
  index_cell-keeps text l sheet row col [] m h = h
  index_cell-keeps text l sheet row col (c ∷ s) m (h, k) = (
    filter.test_keeps text (c ∷ s) m.bloom h,
    all_have_more l (cell_location file sheet row col) m.inverted (tokenize_text words (c ∷ s))
        (tokenize_text words text) k,
  )

  index_cell-finds :
      (sheet : Text) (row col c : ℕ) (s : Text) (m : Manager C T B)
      → IsFound
          (c ∷ s)
          (cell_location file sheet row col)
          (index_cell coordinates of_nat btree filter words file sheet row col (c ∷ s) m)
  unfolding index_cell add_to_inverted
  index_cell-finds sheet row col c s m = (
    filter.test-add (c ∷ s) m.bloom,
    all_have-add_tokens (cell_location file sheet row col) (tokenize_text words (c ∷ s)) m.inverted,
  )

  index_row-keeps :
      (text : Text) (l : Location) (sheet : Text) (row col : ℕ) (cells : List Text)
      (m : Manager C T B)
      → IsFound text l m
      → IsFound text l (index_row coordinates of_nat btree filter words file sheet row col cells m)
  unfolding index_row
  index_row-keeps text l sheet row col [] m h = h
  index_row-keeps text l sheet row col (cell ∷ cells) m h =
      index_row-keeps text l sheet row (col + 1) cells
        (index_cell coordinates of_nat btree filter words file sheet row col cell m)
        (index_cell-keeps text l sheet row col cell m h)

  index_row-finds :
      (sheet : Text) (row col j c : ℕ) (s : Text) (cells : List Text) (m : Manager C T B)
      → get_elem? cells j ≡ some (c ∷ s)
      → IsFound
          (c ∷ s)
          (cell_location file sheet row (col + j))
          (index_row coordinates of_nat btree filter words file sheet row col cells m)
  unfolding index_row
  index_row-finds sheet row col j c s [] m h = ground (arith, h)
  index_row-finds sheet row col zero c s (cell ∷ cells) m h =
      let same : cell ≡ c ∷ s = ground (arith, h) in
      let at : col ≡ col + 0 = omega arith in
      let here : IsFound (c ∷ s) (cell_location file sheet row col)
          (index_cell coordinates of_nat btree filter words file sheet row col cell m) =
        rw same (index_cell-finds sheet row col c s m) in
      subst
        (λ n. IsFound (c ∷ s) (cell_location file sheet row n) (
          index_row coordinates of_nat btree filter words file sheet row (col + 1) cells
            (index_cell coordinates of_nat btree filter words file sheet row col cell m)))
        at
        (index_row-keeps (c ∷ s) (cell_location file sheet row col) sheet row (col + 1) cells
          (index_cell coordinates of_nat btree filter words file sheet row col cell m) here)
  index_row-finds sheet row col (suc j) c s (cell ∷ cells) m h =
      let at : col + 1 + j ≡ col + suc j = omega arith in
      subst
        (λ n. IsFound (c ∷ s) (cell_location file sheet row n) (
          index_row coordinates of_nat btree filter words file sheet row (col + 1) cells
            (index_cell coordinates of_nat btree filter words file sheet row col cell m)))
        at
        (index_row-finds sheet row (col + 1) j c s cells
          (index_cell coordinates of_nat btree filter words file sheet row col cell m) h)

  pub index_rows-keeps :
      (text : Text) (l : Location) (sheet : Text) (row : ℕ) (rows : List (List Text))
      (m : Manager C T B)
      → IsFound text l m
      → IsFound text l (index_rows coordinates of_nat btree filter words file sheet row rows m)
  unfolding index_rows
  index_rows-keeps text l sheet row [] m h = h
  index_rows-keeps text l sheet row (cells ∷ rows) m h =
      index_rows-keeps text l sheet (row + 1) rows
        (index_row coordinates of_nat btree filter words file sheet row 0 cells m)
        (index_row-keeps text l sheet row 0 cells m h)

  pub index_rows-finds :
      (sheet : Text) (row i j c : ℕ) (s : Text) (cells : List Text) (rows : List (List Text))
      (m : Manager C T B)
      → get_elem? rows i ≡ some cells
      → get_elem? cells j ≡ some (c ∷ s)
      → IsFound
          (c ∷ s)
          (cell_location file sheet (row + i) j)
          (index_rows coordinates of_nat btree filter words file sheet row rows m)
  unfolding index_rows
  index_rows-finds sheet row i j c s cells [] m h k = ground (arith, h)
  index_rows-finds sheet row zero j c s cells (first ∷ rows) m h k =
      let same : first ≡ cells = ground (arith, h) in
      let at : (row ≡ row + 0) = omega arith in
      let col : (0 + j ≡ j) = omega arith in
      let m' = index_row coordinates of_nat btree filter words file sheet row 0 first m in
      let here : IsFound (c ∷ s) (cell_location file sheet row (0 + j)) m' =
        rw same (index_row-finds sheet row 0 j c s cells m k) in
      subst
        (λ n.
          IsFound (c ∷ s) (cell_location file sheet n j)
            (index_rows coordinates of_nat btree filter words file sheet (row + 1) rows m'))
        at
        (index_rows-keeps (c ∷ s) (cell_location file sheet row j) sheet (row + 1) rows m'
          (subst (λ n. IsFound (c ∷ s) (cell_location file sheet row n) m') col here))
  index_rows-finds sheet row (suc i) j c s cells (first ∷ rows) m h k =
      let at : (row + 1 + i ≡ row + suc i) = omega arith in
      let m' = index_row coordinates of_nat btree filter words file sheet row 0 first m in
      subst
        (λ n.
          IsFound (c ∷ s) (cell_location file sheet n j)
            (index_rows coordinates of_nat btree filter words file sheet (row + 1) rows m'))
        at (index_rows-finds sheet (row + 1) i j c s cells rows m' h k)
