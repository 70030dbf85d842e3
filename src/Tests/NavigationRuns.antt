-- ===== src/Tests/NavigationRuns.antt =====
-- Navigation: the theorems on a small workbook.
use mcp_xlsm_server.Prelude.{
  ◌*◌, ◌≡◌, ◌≤◌, ◌<◌, arith, none, some, List, [], ◌∷◌, pos, ◌==◌, if◌then◌else◌,
}
use mcp_xlsm_server.Cursor.{create_navigation_cursor}
use mcp_xlsm_server.Cursor.Fields.{cursor_data}
use mcp_xlsm_server.Decimal.{codes}
use mcp_xlsm_server.Models.{CursorData, Pagination, Text, Zone}
use mcp_xlsm_server.Navigation.Handler.{page_of}
use mcp_xlsm_server.Navigation.Pages.{page_of-take}
use mcp_xlsm_server.Navigation.Sheets.{sheet_metadata, create_zones}
use mcp_xlsm_server.Navigation.Density.{sheet_metadata-density}
use mcp_xlsm_server.Navigation.Zones.{IsZoned, create_zones-IsZoned}
use mcp_xlsm_server.Tests.CursorRuns.{single, v1}
use mcp_xlsm_server.Tests.ToolRuns.{book}
use mcp_xlsm_server.Workbook.{Workbook}

abbrev small_rows : List (List Text)
small_rows = (codes "a" ∷ [] ∷ codes "b" ∷ []) ∷ (codes "c" ∷ []) ∷ []

create_zones-IsZoned_example :
    (zones : List Zone) × (create_zones book 2500 3 ≡ some zones) × IsZoned book 3 0 0 2500 zones
create_zones-IsZoned_example = create_zones-IsZoned book 2500 3

density_run :
    (sheet_metadata book (codes "Sales") small_rows).data_density.over
      ≤ (sheet_metadata book (codes "Sales") small_rows).data_density.under
    × 0 < (sheet_metadata book (codes "Sales") small_rows).data_density.under
    × (sheet_metadata book (codes "Sales") small_rows).memory_footprint
      ≤ 50
        * ((sheet_metadata book (codes "Sales") small_rows).rows
            * (sheet_metadata book (codes "Sales") small_rows).cols)
density_run = sheet_metadata-density book (codes "Sales") small_rows

-- The workbook with a formula in its first row and none in its last.
abbrev first_row_formula : Workbook
first_row_formula = record book {
  get_cell_formula = λ name col row. if row == 1 then some (codes "=B1") else none;
}

abbrev three_names : List Text
three_names = codes "A" ∷ codes "B" ∷ codes "C" ∷ []

page_run : page_of three_names (pos 1) (pos 5) ≡ some (codes "B" ∷ codes "C" ∷ [])
page_run = page_of-take three_names 1 5 (omega arith) (omega arith)

abbrev next_data : CursorData
next_data = cursor_data v1 (pos 1000) (codes "next_chunk") (pos 1) [] none

abbrev next_page : Pagination
next_page = record {
  current_cursor = codes "chunk_0_49";
  next_cursor =
      create_navigation_cursor (single next_data) v1 (pos 1000) (codes "next_chunk") (pos 1) [];
  previous_cursor =
      create_navigation_cursor (single next_data) v1 (pos 1001) (codes "prev_chunk") (pos 0) [];
  remaining_chunks = pos 2;
  estimated_time_remaining = pos 4;
}
