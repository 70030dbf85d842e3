-- ===== src/Index/Build.antt =====
-- What a manager that is built from a file finds.
pub mod Rows
use mathlib.Core.Path.{subst}
use mcp_xlsm_server.Prelude.{
  ℕ, zero, suc, ◌+◌, ◌≡◌, refl, sym, ◌∙◌, ap, arith, true, false, none, some, List, [], ◌∷◌,
  get_elem?, nats_eq, Option-cases, inl, inr,
}
use mcp_xlsm_server.Index.{Location}
use mcp_xlsm_server.Index.Inverted.{has, tokenize_text, Inverted, add_to_inverted, add_tokens}
use mcp_xlsm_server.Index.Keys.{BTree}
use mcp_xlsm_server.Index.Manager.{
  Bloom, Manager, index_cell, index_row, index_rows, index_sheet, build_from_file,
}
use mcp_xlsm_server.Index.Deltas.{name_or_empty}
use mcp_xlsm_server.Index.Searching.{search_text_in}
use mcp_xlsm_server.Index.QuadTree.{Coordinates}
use mcp_xlsm_server.Index.Search.{
  all_have, has_token, has-search_text, has-add_tokens, all_have-add_tokens,
}
use mcp_xlsm_server.Models.{Text}
use mcp_xlsm_server.Workbook.{Workbook}
use mcp_xlsm_server.Index.Build.Rows.{IsFound, cell_location, index_rows-keeps, index_rows-finds}

module _ {C T B : Type 0} (coordinates : Coordinates C) (of_nat : ℕ → C)
    (btree : BTree coordinates T) (filter : Bloom B) (words : Text → List Text)
    (file : Workbook) where
  pub build_from_file_read :
      (sheet : Text) (sheets : List Text) (rows : List (List Text)) (m : Manager C T B)
      → file.get_rows sheet ≡ some rows
      → build_from_file coordinates of_nat btree filter words file (sheet ∷ sheets) m
        ≡ build_from_file coordinates of_nat btree filter words file sheets
            (index_rows coordinates of_nat btree filter words file sheet 0 rows m)
  unfolding build_from_file index_sheet
  build_from_file_read sheet sheets rows m e = rw (build_from_file, index_sheet, e) refl

  build_from_file_unread :
      (sheet : Text) (sheets : List Text) (m : Manager C T B)
      → file.get_rows sheet ≡ none
      → build_from_file coordinates of_nat btree filter words file (sheet ∷ sheets) m ≡ (m, false)
  unfolding build_from_file index_sheet
  build_from_file_unread sheet sheets m e = rw (build_from_file, index_sheet, e) refl

  build_from_file-keeps :
      (text : Text) (l : Location) (sheets : List Text) (m : Manager C T B)
      → IsFound coordinates of_nat btree filter words file text l m
      → IsFound coordinates of_nat btree filter words file text l
          (build_from_file coordinates of_nat btree filter words file sheets m).0
  unfolding build_from_file
  build_from_file-keeps text l [] m h = h
  build_from_file-keeps text l (sheet ∷ sheets) m h = elim (Option-cases (file.get_rows sheet)) [
    | inl e ↦
        subst (λ b. IsFound coordinates of_nat btree filter words file text l b.0)
          (sym (build_from_file_unread sheet sheets m e)) h
    | inr (rows, e) ↦
        let m' = index_rows coordinates of_nat btree filter words file sheet 0 rows m in
        subst (λ b. IsFound coordinates of_nat btree filter words file text l b.0)
          (sym (build_from_file_read sheet sheets rows m e))
          (build_from_file-keeps text l sheets m'
            (index_rows-keeps coordinates of_nat btree filter words file text l sheet 0 rows m h))
  ]

  build_from_file-finds :
      (sheets : List Text) (m : Manager C T B) (n i j c : ℕ) (s sheet : Text) (cells : List Text)
      (rows : List (List Text))
      → (build_from_file coordinates of_nat btree filter words file sheets m).1 ≡ true
      → get_elem? sheets n ≡ some sheet
      → file.get_rows sheet ≡ some rows
      → get_elem? rows i ≡ some cells
      → get_elem? cells j ≡ some (c ∷ s)
      → IsFound coordinates of_nat btree filter words file
          (c ∷ s)
          (cell_location file sheet i j)
          (build_from_file coordinates of_nat btree filter words file sheets m).0
  build_from_file-finds [] m n i j c s sheet cells rows built h k at_row at_col = ground (arith, h)
  build_from_file-finds (first ∷ sheets) m zero i j c s sheet cells rows built h k at_row at_col =
      let same : first ≡ sheet = ground (arith, h) in
      let read : file.get_rows first ≡ some rows = ap file.get_rows same ∙ k in
      let m' = index_rows coordinates of_nat btree filter words file first 0 rows m in
      let l = cell_location file sheet i j in
      let here : IsFound coordinates of_nat btree filter words file (c ∷ s)
          (cell_location file sheet (0 + i) j) m' =
        rw same (
          index_rows-finds coordinates of_nat btree filter words file sheet 0 i j c s cells rows m
            at_row at_col) in
      let row : 0 + i ≡ i = omega arith in
      subst (λ b. IsFound coordinates of_nat btree filter words file (c ∷ s) l b.0)
        (sym (build_from_file_read first sheets rows m read))
        (build_from_file-keeps (c ∷ s) l sheets m' (
          subst
            (λ r.
              IsFound coordinates of_nat btree filter words file (c ∷ s)
                (cell_location file sheet r j) m')
            row here))
  build_from_file-finds (first ∷ sheets) m (suc n) i j c s sheet cells rows built h k at_row
        at_col =
      elim (Option-cases (file.get_rows first)) [
        | inl e ↦
            let failed = sym (ap (λ b. b.1) (build_from_file_unread first sheets m e)) ∙ built in
            ground (arith, failed)
        | inr (found, e) ↦
            let m' = index_rows coordinates of_nat btree filter words file first 0 found m in
            let read = build_from_file_read first sheets found m e in
            subst
              (λ b.
                IsFound coordinates of_nat btree filter words file (c ∷ s)
                  (cell_location file sheet i j) b.0)
              (sym read)
              (build_from_file-finds sheets m' n i j c s sheet cells rows
                (sym (ap (λ b. b.1) read) ∙ built) h k at_row at_col)
      ]

  -- After a BuildFromFile that reads every sheet, a search for the text of any cell that is not empty
  -- and has a token finds the cell, whatever the index held before.
  pub search_text_in-build_from_file :
      (sheets : List Text) (m : Manager C T B) (n i j c : ℕ) (s sheet : Text) (cells : List Text)
      (rows : List (List Text))
      → (build_from_file coordinates of_nat btree filter words file sheets m).1 ≡ true
      → get_elem? sheets n ≡ some sheet
      → file.get_rows sheet ≡ some rows
      → get_elem? rows i ≡ some cells
      → get_elem? cells j ≡ some (c ∷ s)
      → has_token (tokenize_text words (c ∷ s)) ≡ true
      → has (cell_location file sheet i j) (
          search_text_in coordinates of_nat btree filter words
            (c ∷ s)
            (build_from_file coordinates of_nat btree filter words file sheets m).0)
        ≡ true
  unfolding search_text_in
  search_text_in-build_from_file sheets m n i j c s sheet cells rows built h k at_row at_col token =
      let m' = (build_from_file coordinates of_nat btree filter words file sheets m).0 in
      let (known, all) =
        build_from_file-finds sheets m n i j c s sheet cells rows built h k at_row at_col in
      has-search_text words (filter.test (c ∷ s) m'.bloom) (c ∷ s) m'.inverted
        (cell_location file sheet i j)
      ∙ rw (known, token, all) refl
