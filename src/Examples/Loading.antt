-- ===== src/Examples/Loading.antt =====
-- A configuration that is loaded (internal/config/config.go).
use ninjascale.Prelude.{
  ◌≡◌, ◌↔◌, refl, true, false, if◌then◌else◌, str_eq, none, some, List, [], ◌∷◌, All, String, arith,
  ℤ, pos, strip_prefix, is_blank, trim_space, trim_left, trim_right, lookup, rem,
}
use ninjascale.Prelude.Result.{ok}
use ninjascale.Time.{seconds}
use ninjascale.Config.{
  Config, ServiceConfig, PolicyConfig, MetricBindingConfig, ScheduleConfig, apply_defaults,
  default_service,
}
use ninjascale.Config.Bindings
use ninjascale.Config.Bindings.{validate_binding, validate_bindings}
use ninjascale.Config.Calendar.{validate_days, validate_entry, validate_entries, validate_calendar}
use ninjascale.Config.Thresholds.{validate_window, validate_target, validate_policy}
use ninjascale.Config.Validate.{
  validate_ecs, validate_adapter, validate_source, validate_sources, validate_fields,
  validate_policies, validate_service, validate_services, validate,
}
use ninjascale.Config.Validate.Fields.{IsConfig}
use ninjascale.Config.Validate.Complete.{validate_lem}
use ninjascale.Config.Load.{Host, parse, load_file, load_from_env_or_file}
use ninjascale.Config.Load.Parsed.{load_from_env_or_file-IsLoaded}
use ninjascale.Service.{Service}
use ninjascale.Config.Build.{build_services}
use ninjascale.Config.Build.Total.{ServiceFits, AreBuilt, build_services-IsRunnable}
use ninjascale.Examples.{whole_float, variables, no_zones}

abbrev sustained : PolicyConfig ℤ
sustained = record {
  kind = "window";
  metric = "cpu";
  expression = "";
  bucket_duration = none;
  upscale_when = some (record { threshold = pos 7; sustained_for = seconds 60; step = pos 1 });
  downscale_when = none;
}

abbrev wanted : PolicyConfig ℤ
wanted = record {
  kind = "target";
  metric = "";
  expression = "cpu";
  bucket_duration = none;
  upscale_when = none;
  downscale_when = none;
}

abbrev cpu_binding : MetricBindingConfig
cpu_binding = record {
  name = "cpu";
  source = "prometheus.main";
  query = "avg(cpu)";
  metric = "";
  attributes = [];
}

abbrev pub load_binding : MetricBindingConfig
load_binding = record {
  name = "load";
  source = "otlp";
  query = "";
  metric = "system.load";
  attributes = ("host", "a") ∷ [];
}

-- From 08:00 to 20:00 on Mondays.
abbrev mondays : ScheduleConfig
mondays = record {
  timezone = "";
  entries =
      record {
        days = "mon" ∷ [];
        start = 48 ∷ 56 ∷ 58 ∷ 48 ∷ 48 ∷ [];
        end = 50 ∷ 48 ∷ 58 ∷ 48 ∷ 48 ∷ [];
        min_count = pos 2;
        max_count = pos 9;
      }
      ∷ [];
}

abbrev pub web_service : ServiceConfig ℤ
web_service = record {
  name = "web";
  identifier = "web-svc";
  min_count = none;
  max_count = some (pos 5);
  cooldown = none;
  schedule = some mondays;
  metrics = cpu_binding ∷ load_binding ∷ [];
  policies = sustained ∷ wanted ∷ [];
}

abbrev file : Config ℤ
file = record {
  reconcile_interval = pos 0;
  dry_run = false;
  defaults = record {
    min_count = pos 0;
    max_count = pos 0;
    cooldown = record { upscale = pos 0; downscale = pos 0 };
  };
  metrics = record {
    otlp = record { enabled = true; grpc_port = pos 0; http_port = pos 0 };
    prometheus = record { name = "main"; address = "a"; bearer_token_file = "" } ∷ [];
  };
  adapter = record { kind = "ecs"; ecs = record { region = "r"; cluster = "c" } };
  server_address = "";
  services = web_service ∷ [];
}

abbrev pub host : Host ℤ
host = record {
  read_file = λ path. some "file";
  getenv = λ name. " ";
  decode_base64 = λ text. none;
  unmarshal = λ text. if str_eq text "file" then some file else none;
}

abbrev pub filled : Config ℤ
filled = apply_defaults file

pub file_accepted : validate String no_zones filled ≡ ok tt
unfolding validate validate_ecs validate_adapter validate_source validate_sources validate_fields
    validate_policies validate_service validate_services validate_days validate_entry
    validate_entries validate_calendar validate_binding validate_bindings Bindings.validate_source
    validate_window validate_target validate_policy strip_prefix is_blank lookup rem apply_defaults
    default_service
file_accepted = refl

validate_lem_example : (validate String no_zones filled ≡ ok tt) ↔ IsConfig String no_zones filled
validate_lem_example = validate_lem String no_zones filled

pub file_loaded : load_from_env_or_file String no_zones host "path" ≡ ok filled
unfolding load_from_env_or_file load_file parse trim_space trim_left trim_right is_blank
file_loaded = rw file_accepted refl

pub file_fits : All ServiceFits filled.services
unfolding apply_defaults default_service
file_fits = (((omega arith, tt), ((tt, tt), tt)), tt)

build_services-IsRunnable_example :
    (svcs : List (Service ℤ String)) × (build_services String filled.services ≡ ok svcs)
    × AreBuilt filled.services svcs
unfolding apply_defaults
build_services-IsRunnable_example =
    build_services-IsRunnable String no_zones ("main" ∷ []) filled.services
      ((validate_lem String no_zones filled).0 file_accepted).served
      (load_from_env_or_file-IsLoaded String no_zones host "path" filled file_loaded).1 file_fits
