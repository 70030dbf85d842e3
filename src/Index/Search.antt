-- ===== src/Index/Search.antt =====
-- What a text search finds.
use mcp_xlsm_server.Prelude.{
  ◌≡◌, refl, ap, ◌∙◌, arith, Bool, true, false, ◌&&◌, ◌||◌, List, [], ◌∷◌, ◌++◌, lookup,
  if◌then◌else◌, nats_eq, nats_beq, nats_beq_iff, Bool-cases, Option-cases, inl, inr, lookup-store,
}
use mcp_xlsm_server.Index.{Location}
use mcp_xlsm_server.Index.Inverted.{
  Inverted, same_location, has, intersect_locations, locations_of, search_rest, search_text,
  tokenize_text, add_token, add_tokens, add_to_inverted,
}
use mcp_xlsm_server.Models.{Text}

same_location-eq : (a b : Location) → same_location a b ≡ true → a ≡ b
unfolding same_location
same_location-eq a b h =
    ground (arith, nats_beq_iff a.sheet_name b.sheet_name, nats_beq_iff a.cell_ref b.cell_ref)

has-intersect_locations :
    (l : Location) (a b : List Location) → has l (intersect_locations a b) ≡ (has l a && has l b)
unfolding has intersect_locations
has-intersect_locations l [] b = refl
has-intersect_locations l (m ∷ a) b =
    let rest = has-intersect_locations l a b in
    elim (Bool-cases (same_location m l)) [
      | inl e ↦ let same = same_location-eq m l e in ground (arith, rest, e, ap (λ x. has x b) same)
      | inr e ↦ ground (arith, rest, e)
    ]

-- Whether every token has the location.
abbrev pub all_have : Location → Inverted → List Text → Bool
all_have l index [] = true
all_have l index (token ∷ tokens) =
    has l (locations_of (lookup token index)) && all_have l index tokens

has-search_rest :
    (l : Location) (index : Inverted) (tokens : List Text) (results : List Location)
    → has l (search_rest index tokens results) ≡ (has l results && all_have l index tokens)
unfolding search_rest has
has-search_rest l index [] results = ground arith
has-search_rest l index (token ∷ tokens) results = elim (Option-cases (lookup token index)) [
  | inl e ↦ rw (search_rest, e) (ground arith)
  | inr (locations, e) ↦
      let rest = has-search_rest l index tokens (intersect_locations results locations) in
      let both = has-intersect_locations l results locations in
      rw (search_rest, e, rest, both) (ground arith)
]

abbrev pub has_token : List Text → Bool
has_token [] = false
has_token (token ∷ tokens) = true

-- A text search finds exactly the locations that every token of the query has, if the Bloom filter
-- knows the query and the query has a token.
pub has-search_text :
    (words : Text → List Text) (in_bloom : Bool) (query : Text) (index : Inverted) (l : Location)
    → has l (search_text words in_bloom query index) ≡ (
        in_bloom
        && (has_token (tokenize_text words query) && all_have l index (tokenize_text words query)))
unfolding search_text has
has-search_text words false query index l = refl
has-search_text words true query index l = go (tokenize_text words query)
  where
    go :
        (tokens : List Text)
        → has l (elim tokens as (λ t. List Location) [
          | [] ↦ []
          | token ∷ tokens ↦ search_rest index tokens (locations_of (lookup token index))
        ])
          ≡ (has_token tokens && all_have l index tokens)
    go [] = refl
    go (token ∷ tokens) = has-search_rest l index tokens (locations_of (lookup token index))

same_location_self : (l : Location) → same_location l l ≡ true
unfolding same_location
same_location_self l =
    ground (arith, nats_beq_iff l.sheet_name l.sheet_name, nats_beq_iff l.cell_ref l.cell_ref)

has-append : (l : Location) (a b : List Location) → has l (a ++ b) ≡ (has l a || has l b)
unfolding has
has-append l [] b = refl
has-append l (m ∷ a) b = ground (arith, has-append l a b)

lookup-add_token :
    (l : Location) (s t : Text) (index : Inverted)
    → locations_of (lookup t (add_token l s index)) ≡ (
        if nats_beq s t
        then locations_of (lookup s index) ++ l ∷ []
        else locations_of (lookup t index))
unfolding add_token
lookup-add_token l s t index = elim (Option-cases (lookup s index)) [
  | inl e ↦ elim (Bool-cases (nats_beq s t)) [
    | inl q ↦ rw (add_token, e, lookup-store, q) refl
    | inr q ↦ rw (add_token, e, lookup-store, q) refl
  ]
  | inr (locations, e) ↦ elim (Bool-cases (nats_beq s t)) [
    | inl q ↦ rw (add_token, e, lookup-store, q) refl
    | inr q ↦ rw (add_token, e, lookup-store, q) refl
  ]
]

has-add_token :
    (l m : Location) (s t : Text) (index : Inverted)
    → has l (locations_of (lookup t index)) ≡ true
    → has l (locations_of (lookup t (add_token m s index))) ≡ true
has-add_token l m s t index h = elim (Bool-cases (nats_beq s t)) [
  | inl q ↦ let same = (nats_beq_iff s t).0 q in rw (lookup-add_token, q, has-append, same, h) refl
  | inr q ↦ rw (lookup-add_token, q) h
]

has-add_token_self :
    (l : Location) (t : Text) (index : Inverted)
    → has l (locations_of (lookup t (add_token l t index))) ≡ true
unfolding has
has-add_token_self l t index =
    let self = (nats_beq_iff t t).1 refl in
    let found = same_location_self l in
    rw (lookup-add_token, self, has-append) (ground (arith, found))

pub has-add_tokens :
    (l m : Location) (tokens : List Text) (t : Text) (index : Inverted)
    → has l (locations_of (lookup t index)) ≡ true
    → has l (locations_of (lookup t (add_tokens m tokens index))) ≡ true
unfolding add_tokens
has-add_tokens l m [] t index h = h
has-add_tokens l m (s ∷ tokens) t index h =
    has-add_tokens l m tokens t (add_token m s index) (has-add_token l m s t index h)

pub all_have-add_tokens :
    (l : Location) (tokens : List Text) (index : Inverted)
    → all_have l (add_tokens l tokens index) tokens ≡ true
unfolding add_tokens
all_have-add_tokens l [] index = refl
all_have-add_tokens l (t ∷ tokens) index =
    rw
      (
        has-add_tokens l l tokens t (add_token l t index) (has-add_token_self l t index),
        all_have-add_tokens l tokens (add_token l t index),
      )
      refl

-- A text that is indexed at a location is found there by a search for the same text, if it has a
-- token and the Bloom filter knows it.
pub search_text-add_to_inverted :
    (words : Text → List Text) (text : Text) (l : Location) (index : Inverted)
    → has_token (tokenize_text words text) ≡ true
    → has l (search_text words true text (add_to_inverted words text l index)) ≡ true
unfolding add_to_inverted
search_text-add_to_inverted words text l index h =
    has-search_text words true text (add_to_inverted words text l index) l
    ∙ rw (h, all_have-add_tokens l (tokenize_text words text) index) refl
