-- ===== src/Workbook.antt =====
-- `github.com/xuri/excelize/v2`, which reads the spreadsheets. The library is not part of the
-- repository: an open file is the answers that it gives.
use mcp_xlsm_server.Prelude.{ℕ, Option, List}
use mcp_xlsm_server.Models.{Text}

pub record Workbook : Type 0 where
  -- `GetSheetList`
  pub sheet_list : List Text
  -- `GetRows`, which fails for a sheet that it cannot read
  pub get_rows : Text → Option (List (List Text))
  -- `GetCellFormula`, at a column and a row counted from 1
  pub get_cell_formula : Text → ℕ → ℕ → Option Text
  -- `CoordinatesToCellName`, at a column and a row
  pub cell_name : ℕ → ℕ → Option Text
