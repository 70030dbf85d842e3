-- ===== src/Index/Inverted.antt =====
-- internal/index/manager.go: the inverted index and the search in it. The words of a text,
-- `strings.Fields(strings.ToLower(text))`, follow the Unicode tables and are an argument, as is the
-- answer of the Bloom filter.
use mcp_xlsm_server.Prelude.{
  Bool, false, ◌&&◌, ◌||◌, not, Option, none, some, List, [], ◌∷◌, ◌++◌, length, ltb, ◌==◌,
  if◌then◌else◌, Dict, lookup, store, delete, nats_eq, nats_beq,
}
use mcp_xlsm_server.Decimal.{codes}
use mcp_xlsm_server.Index.{Location}
use mcp_xlsm_server.Models.{Text}

abbrev pub Inverted : Type 0
Inverted = Dict Text (List Location)

-- `==` on locations
unfoldable pub same_location : Location → Location → Bool
same_location a b =
    nats_beq a.sheet_name b.sheet_name
    && nats_beq a.cell_ref b.cell_ref
    && (a.row == b.row)
    && (a.col == b.col)

-- Whether a location is in a list; the code asks a map that it makes of the list.
unfoldable pub has : Location → List Location → Bool
unfolding same_location
has l [] = false
has l (m ∷ ms) = same_location m l || has l ms

unfoldable pub intersect_locations : List Location → List Location → List Location
unfolding has
intersect_locations [] b = []
intersect_locations (l ∷ a) b =
    let rest = intersect_locations a b in if has l b then l ∷ rest else rest

abbrev pub stop_words : List Text
stop_words =
    codes "the"
    ∷ codes "a"
    ∷ codes "an"
    ∷ codes "and"
    ∷ codes "or"
    ∷ codes "but"
    ∷ codes "in"
    ∷ codes "on"
    ∷ codes "at"
    ∷ codes "to"
    ∷ codes "for"
    ∷ codes "of"
    ∷ codes "with"
    ∷ codes "by"
    ∷ codes "is"
    ∷ []

unfoldable pub is_one_of : List Text → Text → Bool
is_one_of [] word = false
is_one_of (w ∷ ws) word = nats_beq w word || is_one_of ws word

-- The words of more than two bytes that are no stop words.
unfoldable pub keep_tokens : List Text → List Text
unfolding is_one_of
keep_tokens [] = []
keep_tokens (word ∷ words) =
    let rest = keep_tokens words in
    if ltb 2 (length word) && not (is_one_of stop_words word) then word ∷ rest else rest

unfoldable pub add_token : Location → Text → Inverted → Inverted
add_token l token index = elim (lookup token index) [
  | some locations ↦ store token (locations ++ l ∷ []) index
  | none ↦ store token (l ∷ []) index
]

unfoldable pub add_tokens : Location → List Text → Inverted → Inverted
unfolding add_token
add_tokens l [] index = index
add_tokens l (token ∷ tokens) index = add_tokens l tokens (add_token l token index)

-- The list without its first entry for the location.
unfoldable pub remove_location : Location → List Location → List Location
unfolding same_location
remove_location l [] = []
remove_location l (m ∷ ms) = if same_location m l then ms else m ∷ remove_location l ms

unfoldable pub remove_token : Location → Text → Inverted → Inverted
remove_token l token index = elim (lookup token index) [
  | none ↦ index
  | some locations ↦ elim (remove_location l locations) [
    | [] ↦ delete token index
    | m ∷ ms ↦ store token (m ∷ ms) index
  ]
]

unfoldable pub remove_tokens : Location → List Text → Inverted → Inverted
unfolding remove_token
remove_tokens l [] index = index
remove_tokens l (token ∷ tokens) index = remove_tokens l tokens (remove_token l token index)

-- The locations of a token, none where the index does not have it.
abbrev pub locations_of : Option (List Location) → List Location
locations_of none = []
locations_of (some locations) = locations

-- The intersection with the locations of the tokens behind the first.
unfoldable pub search_rest : Inverted → List Text → List Location → List Location
search_rest index [] results = results
search_rest index (token ∷ tokens) results = elim (lookup token index) [
  | none ↦ []
  | some locations ↦ search_rest index tokens (intersect_locations results locations)
]

module _ (words : Text → List Text) where
  unfoldable pub tokenize_text : Text → List Text
  unfolding keep_tokens
  tokenize_text text = keep_tokens (words text)

  unfoldable pub add_to_inverted : Text → Location → Inverted → Inverted
  unfolding add_tokens
  add_to_inverted text l index = add_tokens l (tokenize_text text) index

  unfoldable pub remove_from_inverted : Text → Location → Inverted → Inverted
  unfolding remove_tokens
  remove_from_inverted text l index = remove_tokens l (tokenize_text text) index

  -- `in_bloom` is the answer of the Bloom filter to the query.
  unfoldable pub search_text : Bool → Text → Inverted → List Location
  search_text in_bloom query index =
      if in_bloom
      then elim (tokenize_text query) [
        | [] ↦ []
        | token ∷ tokens ↦ search_rest index tokens (locations_of (lookup token index))
      ]
      else []
