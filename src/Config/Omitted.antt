-- ===== src/Config/Omitted.antt =====
-- A configuration without the interval of the clean-up.
use mcp_xlsm_server.Prelude.{◌≡◌, refl, Option, none, some, String, pos}
use mcp_xlsm_server.Models.{Text}
use mcp_xlsm_server.Config.{
  Yaml, FileRead, bytes, Loaded, loaded, not_parsed, parsed, load_from_path,
  start_background_services, panics,
}
use mcp_xlsm_server.Config.Settings.{Config, zero_config}

-- The file was not parsed, or the ticker of its configuration panics.
abbrev pub BackgroundPanics : Loaded → Type 0
BackgroundPanics (loaded c) = start_background_services c ≡ panics
BackgroundPanics l = l ≡ not_parsed

parsed-BackgroundPanics :
    (yaml : Yaml) (t : Text) (decoded : Option Config)
    → yaml.OmitsInterval t
    → yaml.unmarshal t zero_config ≡ decoded
    → BackgroundPanics (parsed decoded)
unfolding start_background_services
parsed-BackgroundPanics yaml t none omitted h = refl
parsed-BackgroundPanics yaml t (some c) omitted h =
    let zero_interval : c.cache.cleanup_interval ≡ pos 0 =
      yaml.unmarshal_omitted t zero_config c omitted h in
    rw (start_background_services, zero_interval) refl

-- A configuration file that can be read and has no value for the interval of the clean-up is either
-- refused or makes the background services of the server panic.
pub load_from_path-BackgroundPanics :
    (yaml : Yaml) (read_file : String → FileRead) (path : String) (t : Text)
    → read_file path ≡ bytes t
    → yaml.OmitsInterval t
    → BackgroundPanics (load_from_path yaml read_file path)
unfolding load_from_path
load_from_path-BackgroundPanics yaml read_file path t h omitted =
    rw (load_from_path, h)
      (parsed-BackgroundPanics yaml t (yaml.unmarshal t zero_config) omitted refl)
