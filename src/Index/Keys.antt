-- ===== src/Index/Keys.antt =====
-- internal/index/manager.go, `NumericKey`: the keys of the index of numbers, their order, and the
-- B-tree of `google/btree`, which keeps them.
use mcp_xlsm_server.Prelude.{
  ℕ, ◌≡◌, ◌∙◌, Bool, true, false, not, ◌||◌, List, [], ◌∷◌, ◌==◌, ltb, length, if◌then◌else◌, ap,
}
use mcp_xlsm_server.Index.{Location}
use mcp_xlsm_server.Index.QuadTree.{Coordinates}
use mcp_xlsm_server.Models.{Text}

pub record NumericKey (C : Type 0) : Type 0 where
  pub value : C
  pub loc : Location

-- `<` on texts, byte by byte.
unfoldable pub text_below : Text → Text → Bool
text_below s [] = false
text_below [] (c ∷ t) = true
text_below (b ∷ s) (c ∷ t) = let rest = text_below s t in if b == c then rest else ltb b c

module _ {C : Type 0} (coordinates : Coordinates C) where
  open coordinates use {below}

  -- Two values are unlike if one is below the other; then the names of the sheets decide.
  unfoldable pub less : NumericKey C → NumericKey C → Bool
  unfolding text_below
  less a b =
      if below a.value b.value
      then true
      else if below b.value a.value
      then false
      else text_below a.loc.sheet_name b.loc.sheet_name

  -- The item goes to its place in the ascending items, or replaces the one that is neither less nor
  -- greater.
  unfoldable pub place : NumericKey C → List (NumericKey C) → List (NumericKey C)
  unfolding less
  place k [] = k ∷ []
  place k (j ∷ js) =
      let rest = place k js in
      if less k j then k ∷ j ∷ js else if less j k then j ∷ rest else k ∷ js

  unfoldable pub without : NumericKey C → List (NumericKey C) → List (NumericKey C)
  unfolding less
  without k [] = []
  without k (j ∷ js) = let rest = without k js in if less k j || less j k then j ∷ rest else js

  -- The items that are not less than the first key and less than the second.
  unfoldable pub within : NumericKey C → NumericKey C → List (NumericKey C) → List (NumericKey C)
  unfolding less
  within low high [] = []
  within low high (j ∷ js) =
      let rest = within low high js in if less j low || not (less j high) then rest else j ∷ rest

-- `google/btree` at the order `less` of its items, and what its calls do to the items, in their order.
pub record BTree {C : Type 0} (coordinates : Coordinates C) (T : Type 0) : Type 0 where
  pub empty : T
  pub replace_or_insert : NumericKey C → T → T
  pub delete : NumericKey C → T → T
  pub ascend_range : NumericKey C → NumericKey C → T → List (NumericKey C)
  pub len : T → ℕ
  pub items : T → List (NumericKey C)
  pub items-empty : items empty ≡ []
  pub items-replace_or_insert :
      (k : NumericKey C) (t : T) → items (replace_or_insert k t) ≡ place coordinates k (items t)
  pub items-delete :
      (k : NumericKey C) (t : T) → items (delete k t) ≡ without coordinates k (items t)
  pub ascend_range-items :
      (low high : NumericKey C) (t : T)
      → ascend_range low high t ≡ within coordinates low high (items t)
  pub len-items : (t : T) → len t ≡ length (items t)

module _ {C T : Type 0} {coordinates : Coordinates C} (btree : BTree coordinates T) where
  pub ascend_range_empty : (low high : NumericKey C) → btree.ascend_range low high btree.empty ≡ []
  unfolding within
  ascend_range_empty low high =
      btree.ascend_range-items low high btree.empty
      ∙ ap (λ js. within coordinates low high js) btree.items-empty
