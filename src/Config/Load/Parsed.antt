-- ===== src/Config/Load/Parsed.antt =====
-- What a loaded configuration is (internal/config/config.go, `Parse` and `LoadFromEnvOrFile`).
use ninjascale.Prelude.{◌≡◌, not, inl, inr, String, str_eq, Bool-cases, All, trim_space}
use ninjascale.Prelude.Result.{ok, or_err, within, >>-ok, >>=-ok, within-ok}
use mathlib.Core.Path.{subst}
use ninjascale.Metrics.{Float}
use ninjascale.Policy.Target.{ExprLang}
use ninjascale.Schedule.{TimeZones}
use ninjascale.Config.{Config, apply_defaults}
use ninjascale.Config.Defaults.{IsFilled, apply_defaults-IsFilled}
use ninjascale.Config.Validate.{validate}
use ninjascale.Config.Validate.Fields.{IsConfig}
use ninjascale.Config.Validate.Accepted.{validate-IsConfig}
use ninjascale.Config.Load.{
  Host, env_config_yaml, env_config_yaml_base64, not_decoded, not_read, not_yaml, parse, load_file,
  load_encoded, load_from_env_or_file,
}

-- Accepted, and every pointer set that the program follows.
abbrev pub IsLoaded :
    {V : Type 0} (P : Type 0) ⦃float : Float V⦄ ⦃expr : ExprLang V P⦄
    → TimeZones
    → Config V
    → Type 0
IsLoaded P zones cfg = IsConfig P zones cfg × All IsFilled cfg.services

module _ {V : Type 0} (P : Type 0) ⦃float : Float V⦄ ⦃expr : ExprLang V P⦄ (zones : TimeZones)
    (host : Host V) where
  parse-IsLoaded :
      (contents : String) (cfg : Config V)
      → parse P zones host contents ≡ ok cfg
      → IsLoaded P zones cfg
  unfolding parse
  parse-IsLoaded contents cfg h =
      let (raw, a, h1) = >>=-ok (or_err (host.unmarshal contents) not_yaml) _ h in
      let (valid, same) = >>-ok (within _ (validate P zones (apply_defaults raw))) _ h1 in
      let e : apply_defaults raw ≡ cfg = cc in
      subst (IsLoaded P zones) e (
        validate-IsConfig P zones (apply_defaults raw) (within-ok _ _ valid),
        apply_defaults-IsFilled raw,
      )

  load_encoded-IsLoaded :
      (encoded : String) (cfg : Config V)
      → load_encoded P zones host encoded ≡ ok cfg
      → IsLoaded P zones cfg
  load_encoded-IsLoaded encoded cfg h =
      let (contents, a, b) = >>=-ok (or_err (host.decode_base64 encoded) not_decoded) _ h in
      parse-IsLoaded contents cfg b

  load_file-IsLoaded :
      (path : String) (cfg : Config V) → load_file P zones host path ≡ ok cfg → IsLoaded P zones cfg
  unfolding load_file
  load_file-IsLoaded path cfg h =
      let (contents, a, b) = >>=-ok (or_err (host.read_file path) not_read) _ h in
      parse-IsLoaded contents cfg b

  -- Whichever of the two variables or the file a configuration is loaded from, it is accepted and
  -- every pointer is set that the program follows.
  pub load_from_env_or_file-IsLoaded :
      (path : String) (cfg : Config V)
      → load_from_env_or_file P zones host path ≡ ok cfg
      → IsLoaded P zones cfg
  unfolding load_from_env_or_file
  load_from_env_or_file-IsLoaded path cfg h =
      let encoded : String = trim_space (host.getenv env_config_yaml_base64) in
      let raw : String = trim_space (host.getenv env_config_yaml) in
      elim (Bool-cases (not (str_eq encoded ""))) [
        | inl a ↦ load_encoded-IsLoaded encoded cfg (rw a at h)
        | inr a ↦ elim (Bool-cases (not (str_eq raw ""))) [
          | inl b ↦ parse-IsLoaded raw cfg (rw (a, b) at h)
          | inr b ↦ load_file-IsLoaded path cfg (rw (a, b) at h)
        ]
      ]
