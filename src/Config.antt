-- ===== src/Config.antt =====
-- pkg/config/config.go: how the configuration is read from a file or taken by default, and the ticker of
-- `startBackgroundServices` in internal/server/server.go, which it drives. YAML is an interface.
pub mod Settings
pub mod Omitted
use mcp_xlsm_server.Prelude.{
  ℕ, ◌*◌, ◌^◌, ◌≡◌, Bool, true, false, Option, none, some, List, [], ◌∷◌, String, str_eq, ℤ, pos,
  negsuc, if◌then◌else◌, ltb_ℤ,
}
use mcp_xlsm_server.Models.{Text}
use mcp_xlsm_server.Config.Settings.{Duration, Config, default_config, zero_config}

-- What the system answers to the reading of a file.
pub data FileRead : Type 0 where
  bytes : Text → FileRead
  not_existing unreadable : FileRead

-- `yaml.v3`: a document decoded onto a configuration, whose values stay where the document gives
-- none.
pub record Yaml : Type 1 where
  pub unmarshal : Text → Config → Option Config
  -- The document has no value for the interval of the clean-up.
  pub OmitsInterval : Text → Type 0
  pub unmarshal_omitted :
      (t : Text) (c c' : Config)
      → OmitsInterval t
      → unmarshal t c ≡ some c'
      → c'.cache.cleanup_interval ≡ c.cache.cleanup_interval

pub data Loaded : Type 0 where
  loaded : Config → Loaded
  not_read not_parsed : Loaded

-- The configuration that was decoded, if it was.
abbrev pub parsed : Option Config → Loaded
parsed none = not_parsed
parsed (some c) = loaded c

module _ (yaml : Yaml) (read_file : String → FileRead) where
  abbrev pub load_bytes : FileRead → Loaded
  load_bytes (bytes t) = parsed (yaml.unmarshal t zero_config)
  load_bytes not_existing = loaded default_config
  load_bytes unreadable = not_read

  unfoldable pub load_from_path : String → Loaded
  load_from_path path = load_bytes (read_file path)

  -- `config_path` is the variable of the environment, empty where it is not set.
  unfoldable pub load : String → Loaded
  unfolding load_from_path
  load config_path =
      if str_eq config_path "" then load_from_path "config.yaml" else load_from_path config_path

  -- `main`: the path of the command line, if it has one.
  unfoldable pub load_for : String → String → Loaded
  unfolding load load_from_path
  load_for flag config_path = if str_eq flag "" then load config_path else load_from_path flag

-- `time.NewTicker` panics unless its interval is positive.
pub data Background : Type 0 where
  ticks : Duration → Background
  panics : Background

unfoldable pub start_background_services : Config → Background
start_background_services c =
    if ltb_ℤ (pos 0) c.cache.cleanup_interval then ticks c.cache.cleanup_interval else panics
