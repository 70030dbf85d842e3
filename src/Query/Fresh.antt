-- ===== src/Query/Fresh.antt =====
-- The index that a query searches is one that `NewManager` has just made.
use mcp_xlsm_server.Prelude.{
  ℕ, zero, suc, ◌≡◌, refl, sym, ap, ◌∙◌, ◌⊎◌, inl, inr, arith, Bool, true, false, Option, none,
  some, List, [], ◌++◌, length, take, map, ℤ, pos, pos_part,
}
use mcp_xlsm_server.Index.{Location, Searches}
use mcp_xlsm_server.Index.Inverted.{search_text}
use mcp_xlsm_server.Index.Keys.{BTree, NumericKey, ascend_range_empty}
use mcp_xlsm_server.Index.Manager.{Bloom, new_manager, root_bounds}
use mcp_xlsm_server.Index.Deltas.{no_location}
use mcp_xlsm_server.Index.Searching.{
  searches, search_numeric_range, search_text_in, search_spatial, bounds_of_rectangle,
}
use mcp_xlsm_server.Index.QuadTree.{Coordinates, query, points_in, Bounds, leaf}
use mcp_xlsm_server.Models.{Text, SheetIndex, QueryExecution, Strategy, index, scan, hybrid}
use mcp_xlsm_server.Workbook.{Workbook}
use mcp_xlsm_server.Query.Parse.{
  Options, int_option, determine_query_strategy, parse_numeric_range, parse_spatial_bounds,
}
use mcp_xlsm_server.Query.Results.{none-ne-some}
use mcp_xlsm_server.Query.Search.{
  Chunks, find_locations, first_of, clip_to, location_chunk, convert_locations, execute_index_query,
  execute_scan_query, run_strategy, execute_query,
}

find_locations_empty :
    (index_manager : Searches) (text : Text)
    → ((low high : ℕ) → index_manager.search_numeric_range low high ≡ [])
    → index_manager.search_text text ≡ []
    → index_manager.search_spatial (parse_spatial_bounds text) ≡ []
    → find_locations index_manager text ≡ []
unfolding find_locations
find_locations_empty index_manager text h1 h2 h3 =
    ground (arith, h1 (parse_numeric_range text).0 (parse_numeric_range text).1, h2, h3)

-- The key of a bound of a range.
abbrev number : {C : Type 0} → (ℕ → C) → ℕ → NumericKey C
number of_nat n = record { value = of_nat n; loc = no_location }

query_empty :
    {C : Type 0} (coordinates : Coordinates C) (b q : Bounds C)
    → query coordinates {L = Location} q (leaf b []) ≡ []
unfolding query points_in
query_empty coordinates b q = ground arith

module _ {C T B : Type 0} (coordinates : Coordinates C) (of_nat : ℕ → C)
    (btree : BTree coordinates T) (filter : Bloom B) (words : Text → List Text) where
  -- In a new index no query finds a location.
  find_locations-new_manager :
      (text : Text)
      → find_locations
          (searches coordinates of_nat btree filter words
            (new_manager coordinates of_nat btree filter words))
          text
        ≡ []
  unfolding search_numeric_range search_text_in search_spatial search_text
  find_locations-new_manager text =
      let m = new_manager coordinates of_nat btree filter words in
      find_locations_empty (searches coordinates of_nat btree filter words m) text
        (λ low high.
          ap (map (λ key. key.loc))
            (ascend_range_empty btree (number of_nat low) (number of_nat high)))
        (rw (search_text_in, search_text, filter.test-empty text) refl)
        (ap (map (λ p. p.loc)) (
          query_empty coordinates (root_bounds coordinates of_nat btree filter words) (
            bounds_of_rectangle coordinates of_nat btree filter words (parse_spatial_bounds text))))

-- The chunks of a run.
abbrev results_of : {N : Type 0} → Option (QueryExecution × Chunks N) → Chunks N
results_of none = []
results_of (some run) = run.1

abbrev strategy_of : {N : Type 0} → Option (QueryExecution × Chunks N) → Strategy
strategy_of none = scan
strategy_of (some run) = run.0.strategy

abbrev use_of : {N : Type 0} → Option (QueryExecution × Chunks N) → Bool
use_of none = false
use_of (some run) = run.0.used_index

-- A run by index says that it used the index and has no result; a scan, and a run by index and scan,
-- which says that it used the index, have the chunks of the scan.
abbrev pub IsUnindexed : {N : Type 0} → Chunks N → QueryExecution → Chunks N → Type 0
IsUnindexed scanned execution results =
    ((execution.strategy ≡ index) × (execution.used_index ≡ true) × (results ≡ []))
    ⊎ (((execution.strategy ≡ scan) × (execution.used_index ≡ false) × (results ≡ scanned))
        ⊎ ((execution.strategy ≡ hybrid) × (execution.used_index ≡ true) × (results ≡ scanned)))

run_strategy-IsUnindexed :
    {N : Type 0} (query : Text) (found : Option (Chunks N)) (scanned : Chunks N × List Text)
    (strategy : Strategy) (execution : QueryExecution) (results : Chunks N)
    → ((xs : Chunks N) → found ≡ some xs → xs ≡ [])
    → run_strategy query found scanned strategy ≡ some (execution, results)
    → IsUnindexed scanned.0 execution results
unfolding run_strategy
run_strategy-IsUnindexed query none scanned index execution results no_match h =
    absurd (none-ne-some h)
run_strategy-IsUnindexed query (some found) scanned index execution results no_match h =
    inl (sym (ap strategy_of h), sym (ap use_of h), sym (ap results_of h) ∙ no_match found refl)
run_strategy-IsUnindexed query found scanned scan execution results no_match h =
    inr (inl (sym (ap strategy_of h), sym (ap use_of h), sym (ap results_of h)))
run_strategy-IsUnindexed query none scanned hybrid execution results no_match h =
    absurd (none-ne-some h)
run_strategy-IsUnindexed query (some found) scanned hybrid execution results no_match h = inr (
    inr (
      sym (ap strategy_of h),
      sym (ap use_of h),
      sym (ap results_of h) ∙ ap (λ xs. xs ++ scanned.0) (no_match found refl),
    ))

take_empty : {A : Type 0} (n : ℕ) → take {A = A} n [] ≡ []
take_empty zero = refl
take_empty (suc n) = refl

clip_to_empty : {A : Type 0} (n : ℤ) (xs : List A) → clip_to n [] ≡ some xs → xs ≡ []
unfolding clip_to
clip_to_empty n xs h = ground (arith, h)

module _ {C T B N : Type 0} (coordinates : Coordinates C) (of_nat : ℕ → C)
    (btree : BTree coordinates T) (filter : Bloom B) (words : Text → List Text)
    (upper : Text → Text) (opened : Option Workbook) (scan_float : Text → Option N) where
  -- A query runs on an index that was just made. Whatever the query and its options, a run by index
  -- has no result, though it says that it used the index; a scan, and a run by both, have exactly the
  -- chunks of the scan.
  pub execute_query-new_manager :
      (query : Text) (sheets : List SheetIndex) (config hints : Options)
      (execution : QueryExecution) (results : Chunks N)
      → execute_query upper opened scan_float
          (searches coordinates of_nat btree filter words
            (new_manager coordinates of_nat btree filter words))
          query
          sheets
          config
          hints
        ≡ some (execution, results)
      → IsUnindexed
          (execute_scan_query upper opened scan_float query sheets config).0
          execution
          results
  unfolding execute_query execute_index_query convert_locations first_of
  execute_query-new_manager query sheets config hints execution results h =
      let fresh =
        searches coordinates of_nat btree filter words
          (new_manager coordinates of_nat btree filter words) in
      let n = int_option config "max_results" (pos 100) in
      let none_found : convert_locations {N = N} (find_locations fresh query) config ≡ [] =
        ap (λ found. convert_locations {N = N} found config)
          (find_locations-new_manager coordinates of_nat btree filter words query)
        ∙ ap (map location_chunk) (take_empty (pos_part n)) in
      run_strategy-IsUnindexed query (execute_index_query fresh query config)
        (execute_scan_query upper opened scan_float query sheets config)
        (determine_query_strategy query (length sheets) hints) execution results
        (λ xs e. clip_to_empty n xs (sym (ap (clip_to n) none_found) ∙ e)) h
