-- ===== src/Server/Schema.antt =====
-- `listTools`: the tools with the parameters that they take. The descriptions are left out.
use mcp_xlsm_server.Prelude.{ℕ, Option, none, some, List, [], ◌∷◌, String}

pub record Field : Type 0 where
  pub name : String
  pub kind : String
  pub default_value : Option ℕ

pub record Property : Type 0 where
  pub name : String
  pub kind : String
  pub default_value : Option ℕ
  pub fields : List Field

pub record Tool : Type 0 where
  pub name : String
  pub properties : List Property
  pub required : List String

abbrev pub plain : String → String → Option ℕ → Property
plain name kind default_value = record {
  name = name;
  kind = kind;
  default_value = default_value;
  fields = [];
}

abbrev pub number_field : String → ℕ → Field
number_field name n = record { name = name; kind = "integer"; default_value = some n }

abbrev pub analyze_file_tool : Tool
analyze_file_tool = record {
  name = "analyze_file";
  properties =
      plain "filepath" "string" none
      ∷ plain "chunk_size" "integer" (some 50)
      ∷ plain "stream_mode" "boolean" none
      ∷ [];
  required = "filepath" ∷ [];
}

abbrev pub build_navigation_map_tool : Tool
build_navigation_map_tool = record {
  name = "build_navigation_map";
  properties =
      plain "filepath" "string" none
      ∷ plain "checksum" "string" none
      ∷ plain "chunk_cursor" "string" none
      ∷ plain "window_size" "integer" (some 1000)
      ∷ [];
  required = "filepath" ∷ "checksum" ∷ [];
}

abbrev pub query_data_tool : Tool
query_data_tool = record {
  name = "query_data";
  properties =
      plain "query" "string" none
      ∷ plain "navigation_index" "object" none
      ∷ record {
        name = "window_config";
        kind = "object";
        default_value = none;
        fields =
            number_field "max_rows_per_sheet" 1000
            ∷ number_field "max_sheets_per_call" 10
            ∷ number_field "max_results" 100
            ∷ [];
      }
      ∷ [];
  required = "query" ∷ "navigation_index" ∷ [];
}

abbrev pub list_tools : List Tool
list_tools = analyze_file_tool ∷ build_navigation_map_tool ∷ query_data_tool ∷ []
