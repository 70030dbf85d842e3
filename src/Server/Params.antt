-- ===== src/Server/Params.antt =====
-- What the three handlers of internal/server read of the parameters of a request, which are a decoded
-- JSON object.
use mcp_xlsm_server.Prelude.{Bool, Option, none, some, ℤ, String, Dict, lookup, string_eq}
use mcp_xlsm_server.Models.{Text}
use mcp_xlsm_server.Navigation.Handler.{NavigationParams}
use mcp_xlsm_server.Query.Handler.{QueryParams}
use mcp_xlsm_server.Query.Parse.{Options, Value}
use mcp_xlsm_server.Query.Parse
use mcp_xlsm_server.Tools.Handler.{AnalyzeParams}

pub data Param : Type 0 where
  text : Text → Param
  -- A `float64`, by what its conversion to `int` gives.
  number : ℤ → Param
  boolean : Bool → Param
  object : Options → Param
  -- An array or null.
  other : Param

abbrev pub Params : Type 0
Params = Dict String Param

-- `.(string)`, `int` of `.(float64)`, `.(bool)` and `.(map[string]interface{})`
abbrev pub as_text : Option Param → Option Text
as_text (some (text t)) = some t
as_text _ = none

abbrev pub as_int : Option Param → Option ℤ
as_int (some (number n)) = some n
as_int _ = none

abbrev pub as_bool : Option Param → Option Bool
as_bool (some (boolean b)) = some b
as_bool _ = none

abbrev pub as_object : Option Param → Option Options
as_object (some (object o)) = some o
as_object _ = none

abbrev pub text_value : Option Value → Option Text
text_value (some (Parse.text t)) = some t
text_value _ = none

-- The name of the model in the token configuration.
abbrev pub model_in : Option Options → Option Text
model_in none = none
model_in (some config) = text_value (lookup "model" config)

abbrev pub map_option : {A B : Type 0} → (A → B) → Option A → Option B
map_option f none = none
map_option f (some a) = some (f a)

unfoldable pub read_analyze_params : Params → AnalyzeParams
read_analyze_params p = record {
  filepath = as_text (lookup "filepath" p);
  chunk_size = as_int (lookup "chunk_size" p);
  stream_mode = as_bool (lookup "stream_mode" p);
}

-- `name_of` gives the name of a model as the table of its limits has it.
unfoldable pub read_navigation_params : (Text → String) → Params → NavigationParams
read_navigation_params name_of p = record {
  filepath = as_text (lookup "filepath" p);
  checksum = as_text (lookup "checksum" p);
  chunk_cursor = as_text (lookup "chunk_cursor" p);
  window_size = as_int (lookup "window_size" p);
  stream_results = as_bool (lookup "stream_results" p);
  model = map_option name_of (model_in (as_object (lookup "token_config" p)));
}

unfoldable pub read_query_params : Params → QueryParams Options
read_query_params p = record {
  query = as_text (lookup "query" p);
  navigation_index = as_object (lookup "navigation_index" p);
  continuation_cursor = as_text (lookup "continuation_cursor" p);
  window_config = as_object (lookup "window_config" p);
  token_aware = as_bool (lookup "token_aware" p);
  optimization_hints = as_object (lookup "optimization_hints" p);
}
