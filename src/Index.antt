-- ===== src/Index.antt =====
-- internal/index/manager.go: locations, and what the query handler sees of an index, its searches.
pub mod Inverted
pub mod Search
pub mod QuadTree
pub mod Keys
pub mod Deltas
pub mod Manager
pub mod Numbers
pub mod Searching
pub mod Build
use mcp_xlsm_server.Prelude.{ℕ, List}
use mcp_xlsm_server.Models.{Text}

pub record Location : Type 0 where
  pub sheet_name : Text
  pub cell_ref : Text
  pub row : ℕ
  pub col : ℕ

-- The rectangles that the handlers ask for have natural coordinates.
pub record Rectangle : Type 0 where
  pub x : ℕ
  pub y : ℕ
  pub width : ℕ
  pub height : ℕ

-- The searches of the index that a query is run on.
pub record Searches : Type 0 where
  pub search_numeric_range : ℕ → ℕ → List Location
  pub search_text : Text → List Location
  pub search_spatial : Rectangle → List Location
