-- ===== src/Tests/IndexRuns.antt =====
-- The inverted index: words that are already cut, and the theorems at them.
use mcp_xlsm_server.Prelude.{◌≡◌, refl, true, List, [], ◌∷◌}
use mcp_xlsm_server.Decimal.{codes}
use mcp_xlsm_server.Index.{Location}
use mcp_xlsm_server.Index.Inverted.{
  Inverted, has, search_text, tokenize_text, add_to_inverted, keep_tokens, is_one_of,
}
use mcp_xlsm_server.Index.Search.{search_text-add_to_inverted}
use mcp_xlsm_server.Models.{Text}

abbrev two_words : Text → List Text
two_words text = codes "total" ∷ codes "the" ∷ codes "sales" ∷ []

abbrev at_b2 : Location
at_b2 = record { sheet_name = codes "Sheet1"; cell_ref = codes "B2"; row = 2; col = 2 }

abbrev indexed : Inverted
indexed = add_to_inverted two_words (codes "Total the Sales") at_b2 []

tokens_run : tokenize_text two_words (codes "Total the Sales") ≡ codes "total" ∷ codes "sales" ∷ []
unfolding tokenize_text keep_tokens is_one_of
tokens_run = refl

own_text_run : has at_b2 (search_text two_words true (codes "Total the Sales") indexed) ≡ true
unfolding tokenize_text keep_tokens is_one_of
own_text_run = search_text-add_to_inverted two_words (codes "Total the Sales") at_b2 [] refl
