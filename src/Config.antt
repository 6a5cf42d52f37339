-- ===== src/Config.antt =====
-- internal/config/config.go: the configuration as it is read, its defaults and the retention that it
-- asks of the store. Reading YAML is left to the library.
pub mod Retention
pub mod Defaults
pub mod Bindings
pub mod Calendar
pub mod Thresholds
pub mod Validate
pub mod Build
pub mod Described
pub mod Load
use ninjascale.Prelude.{
  ◌+◌, ◌*◌, Bool, true, false, ◌&&◌, Option, none, some, List, [], ◌∷◌, map, String, str_eq,
  if◌then◌else◌, ℕ, ℤ, pos, ◌+ℤ◌, ◌*ℤ◌, eqb_ℤ, ltb_ℤ, int64,
}
use ninjascale.Time.{Duration, seconds}
use ninjascale.Service.{CooldownConfig}

pub record DefaultsConfig : Type 0 where
  pub min_count : ℤ
  pub max_count : ℤ
  pub cooldown : CooldownConfig

pub record OtlpConfig : Type 0 where
  pub enabled : Bool
  pub grpc_port : ℤ
  pub http_port : ℤ

pub record PrometheusConfig : Type 0 where
  pub name : String
  pub address : String
  pub bearer_token_file : String

pub record MetricsConfig : Type 0 where
  pub otlp : OtlpConfig
  pub prometheus : List PrometheusConfig

pub record EcsConfig : Type 0 where
  pub region : String
  pub cluster : String

pub record AdapterConfig : Type 0 where
  pub kind : String
  pub ecs : EcsConfig

-- Texts of the clock are lists of bytes, as in Schedule.
pub record ScheduleEntryConfig : Type 0 where
  pub days : List String
  pub start : List ℕ
  pub end : List ℕ
  pub min_count : ℤ
  pub max_count : ℤ

pub record ScheduleConfig : Type 0 where
  pub timezone : String
  pub entries : List ScheduleEntryConfig

pub record MetricBindingConfig : Type 0 where
  pub name : String
  pub source : String
  pub query : String
  pub metric : String
  pub attributes : List (String × String)

pub record ThresholdConfig (V : Type 0) : Type 0 where
  pub threshold : V
  pub sustained_for : Duration
  pub step : ℤ

-- `type` in the file is `kind` here.
pub record PolicyConfig (V : Type 0) : Type 0 where
  pub kind : String
  pub metric : String
  pub expression : String
  pub bucket_duration : Option Duration
  pub upscale_when : Option (ThresholdConfig V)
  pub downscale_when : Option (ThresholdConfig V)

pub record ServiceConfig (V : Type 0) : Type 0 where
  pub name : String
  pub identifier : String
  pub min_count : Option ℤ
  pub max_count : Option ℤ
  pub cooldown : Option CooldownConfig
  pub schedule : Option ScheduleConfig
  pub metrics : List MetricBindingConfig
  pub policies : List (PolicyConfig V)

-- `Config`; the field `Server` has only an address.
pub record Config (V : Type 0) : Type 0 where
  pub reconcile_interval : Duration
  pub dry_run : Bool
  pub defaults : DefaultsConfig
  pub metrics : MetricsConfig
  pub adapter : AdapterConfig
  pub server_address : String
  pub services : List (ServiceConfig V)

-- `if x == 0 { x = d }`, and the same for a missing pointer.
abbrev pub or_default : ℤ → ℤ → ℤ
or_default x d = if eqb_ℤ x (pos 0) then d else x

abbrev pub or_else : {A : Type 0} → Option A → A → Option A
or_else none d = some d
or_else (some x) d = some x

abbrev pub default_bucket : {V : Type 0} → PolicyConfig V → PolicyConfig V
default_bucket p =
    if str_eq p.kind "window"
    then record p { bucket_duration = or_else p.bucket_duration (seconds 10) }
    else p

-- The body of the loop over the services.
unfoldable pub default_service : {V : Type 0} → DefaultsConfig → ServiceConfig V → ServiceConfig V
default_service defaults svc = record svc {
  min_count = or_else svc.min_count defaults.min_count;
  max_count = or_else svc.max_count defaults.max_count;
  cooldown = or_else svc.cooldown defaults.cooldown;
  policies = map default_bucket svc.policies;
}

abbrev default_defaults : DefaultsConfig → DefaultsConfig
default_defaults d = record {
  min_count = or_default d.min_count (pos 1);
  max_count = or_default d.max_count (pos 10);
  cooldown = record {
    upscale = or_default d.cooldown.upscale (seconds 60);
    downscale = or_default d.cooldown.downscale (seconds 600);
  };
}

abbrev default_otlp : OtlpConfig → OtlpConfig
default_otlp o = record o {
  grpc_port = or_default o.grpc_port (pos 4317);
  http_port = or_default o.http_port (pos 4318);
}

unfoldable pub apply_defaults : {V : Type 0} → Config V → Config V
apply_defaults cfg =
    let defaults = default_defaults cfg.defaults in
    record cfg {
      reconcile_interval = or_default cfg.reconcile_interval (seconds 10);
      defaults = defaults;
      server_address = if str_eq cfg.server_address "" then ":8080" else cfg.server_address;
      metrics = record cfg.metrics { otlp = default_otlp cfg.metrics.otlp };
      services = map (default_service defaults) cfg.services;
    }

-- `candidate`: the window and two buckets, in 64 bits.
abbrev pub candidate : Duration → Duration → Duration
candidate sustained_for width = int64 (sustained_for +ℤ int64 (pos 2 *ℤ width))

abbrev pub larger : Duration → Duration → Duration
larger retention c = if ltb_ℤ retention c then c else retention

module _ {V : Type 0} where
  -- One round of the loop over the two thresholds.
  abbrev pub retain_threshold : Duration → Option (ThresholdConfig V) → Duration → Duration
  retain_threshold width none retention = retention
  retain_threshold width (some t) retention = larger retention (candidate t.sustained_for width)

  abbrev pub retain_policy : PolicyConfig V → Option Duration → Duration → Duration
  retain_policy p none retention = retention
  retain_policy p (some width) retention =
      if str_eq p.kind "window"
      then retain_threshold width p.downscale_when (retain_threshold width p.upscale_when retention)
      else retention

  unfoldable pub retain_policies : List (PolicyConfig V) → Duration → Duration
  retain_policies [] retention = retention
  retain_policies (p ∷ ps) retention =
      retain_policies ps (retain_policy p p.bucket_duration retention)

  unfoldable pub retain_services : List (ServiceConfig V) → Duration → Duration
  retain_services [] retention = retention
  retain_services (svc ∷ svcs) retention =
      retain_services svcs (retain_policies svc.policies retention)

  unfoldable pub metric_retention : Config V → Duration
  metric_retention cfg = retain_services cfg.services (seconds 30)
