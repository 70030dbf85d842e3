-- ===== src/Index/Searching.antt =====
-- internal/index/manager.go: the searches in the indexes of a manager, and its statistics.
use mcp_xlsm_server.Prelude.{ℕ, List, map, length}
use mcp_xlsm_server.Index.{Location, Searches, Rectangle}
use mcp_xlsm_server.Index.Inverted.{search_text}
use mcp_xlsm_server.Index.QuadTree.{Coordinates, Bounds, query, count_points}
use mcp_xlsm_server.Models.{Text}
use mcp_xlsm_server.Index.Keys.{BTree}
use mcp_xlsm_server.Index.Manager.{Bloom, Manager}
use mcp_xlsm_server.Index.Deltas.{no_location}

pub record IndexStats : Type 0 where
  pub btree_items : ℕ
  pub inverted_tokens : ℕ
  pub spatial_points : ℕ
  pub delta_buffer_size : ℕ

module _ {C T B : Type 0} (coordinates : Coordinates C) (of_nat : ℕ → C)
    (btree : BTree coordinates T) (filter : Bloom B) (words : Text → List Text) where
  unfoldable pub search_numeric_range : C → C → Manager C T B → List Location
  search_numeric_range low high m =
      map (λ key. key.loc)
        (btree.ascend_range (record { value = low; loc = no_location })
          (record { value = high; loc = no_location }) m.primary)

  unfoldable pub search_spatial : Bounds C → Manager C T B → List Location
  search_spatial bounds m = map (λ p. p.loc) (query coordinates bounds m.spatial)

  unfoldable pub search_text_in : Text → Manager C T B → List Location
  search_text_in text m = search_text words (filter.test text m.bloom) text m.inverted

  unfoldable pub get_stats : Manager C T B → IndexStats
  get_stats m = record {
    btree_items = btree.len m.primary;
    inverted_tokens = length m.inverted;
    spatial_points = count_points m.spatial;
    delta_buffer_size = length m.delta_buffer;
  }

  abbrev pub bounds_of_rectangle : Rectangle → Bounds C
  bounds_of_rectangle r = record {
    x = of_nat r.x;
    y = of_nat r.y;
    width = of_nat r.width;
    height = of_nat r.height;
  }

  -- The searches that a query runs on the manager.
  abbrev pub searches : Manager C T B → Searches
  searches m = record {
    search_numeric_range = λ low high. search_numeric_range (of_nat low) (of_nat high) m;
    search_text = λ text. search_text_in text m;
    search_spatial = λ r. search_spatial (bounds_of_rectangle r) m;
  }
