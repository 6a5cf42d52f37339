-- ===== src/Config/Load.antt =====
-- internal/config/config.go: reading the configuration. The process's environment and files, the
-- decoding of base64 and the decoding of YAML are parameters; bytes are a text.
pub mod Parsed
use ninjascale.Prelude.{Bool, not, Option, String, str_eq, if◌then◌else◌, trim_space}
use ninjascale.Prelude.Result.{Result, ok, err, or_err, within, ◌>>=◌, ◌>>◌}
use ninjascale.Metrics.{Float}
use ninjascale.Policy.Target.{ExprLang}
use ninjascale.Schedule.{TimeZones}
use ninjascale.Config.{Config, apply_defaults}
use ninjascale.Config.Validate.{ConfigError, validate}

-- `os.ReadFile`, `os.Getenv` (empty where there is no variable), `base64.StdEncoding.DecodeString`
-- and `yaml.Unmarshal`; none is an error.
pub record Host (V : Type 0) : Type 0 where
  pub read_file : String → Option String
  pub getenv : String → String
  pub decode_base64 : String → Option String
  pub unmarshal : String → Option (Config V)

pub data LoadError : Type 0 where
  not_read : LoadError
  not_decoded : LoadError
  not_yaml : LoadError
  not_valid : ConfigError → LoadError

abbrev pub env_config_yaml : String
env_config_yaml = "NINJASCALE_CONFIG"

abbrev pub env_config_yaml_base64 : String
env_config_yaml_base64 = "NINJASCALE_CONFIG_BASE64"

module _ {V : Type 0} (P : Type 0) ⦃float : Float V⦄ ⦃expr : ExprLang V P⦄ (zones : TimeZones)
    (host : Host V) where
  unfoldable pub parse : String → Result LoadError (Config V)
  parse contents = do
    raw ← or_err (host.unmarshal contents) not_yaml
    let cfg = apply_defaults raw
    within not_valid (validate P zones cfg)
    ok cfg

  unfoldable pub load_file : String → Result LoadError (Config V)
  load_file path = do contents ← or_err (host.read_file path) not_read; parse contents

  abbrev pub load_encoded : String → Result LoadError (Config V)
  load_encoded encoded = do
    contents ← or_err (host.decode_base64 encoded) not_decoded
    parse contents

  unfoldable pub load_from_env_or_file : String → Result LoadError (Config V)
  load_from_env_or_file path =
      let encoded = trim_space (host.getenv env_config_yaml_base64) in
      let raw = trim_space (host.getenv env_config_yaml) in
      if not (str_eq encoded "")
      then load_encoded encoded
      else if not (str_eq raw "")
      then parse raw
      else load_file path
