-- ===== src/Tests/ConfigRuns.antt =====
-- The configuration: runs with a decoder that knows the empty document, and the theorem at it.
use mcp_xlsm_server.Prelude.{
  ◌≡◌, refl, sym, ap, pos, Option, none, some, [], ◌∷◌, String, str_eq, if◌then◌else◌,
}
use mcp_xlsm_server.Config.{
  Yaml, FileRead, bytes, not_existing, loaded, load, load_from_path, start_background_services,
  ticks,
}
use mcp_xlsm_server.Config.Settings.{Duration, Config, seconds, default_config}
use mcp_xlsm_server.Config.Omitted.{BackgroundPanics, load_from_path-BackgroundPanics}
use mcp_xlsm_server.Models.{Text}
use mcp_xlsm_server.Query.Results.{none-ne-some}

abbrev only_empty : Text → Config → Option Config
only_empty [] c = some c
only_empty (b ∷ t) c = none

abbrev interval_in : Option Config → Duration
interval_in none = pos 0
interval_in (some c) = c.cache.cleanup_interval

pub only_empty_omitted :
    (t : Text) (c c' : Config)
    → Unit {0}
    → only_empty t c ≡ some c'
    → c'.cache.cleanup_interval ≡ c.cache.cleanup_interval
only_empty_omitted [] c c' u h = ap (λ o. interval_in o) (sym h)
only_empty_omitted (b ∷ t) c c' u h = absurd (none-ne-some h)

abbrev pub empty_yaml : Yaml
empty_yaml = record {
  unmarshal = only_empty;
  OmitsInterval = λ t. Unit;
  unmarshal_omitted = only_empty_omitted;
}

abbrev pub files : String → FileRead
files path = if str_eq path "empty.yaml" then bytes [] else not_existing

default_run : load empty_yaml files "" ≡ loaded default_config
unfolding load load_from_path
default_run = refl

ticker_run : start_background_services default_config ≡ ticks (seconds 60)
unfolding start_background_services
ticker_run = refl

load_from_path-BackgroundPanics_example :
    BackgroundPanics (load_from_path empty_yaml files "empty.yaml")
load_from_path-BackgroundPanics_example =
    load_from_path-BackgroundPanics empty_yaml files "empty.yaml" [] refl tt
