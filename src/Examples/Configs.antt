-- ===== src/Examples/Configs.antt =====
-- Runs of internal/config/config.go.
use ninjascale.Prelude.{
  ◌≡◌, refl, [], ◌∷◌, none, some, false, All, arith, ℤ, pos, ◌≤ℤ◌, ◌+ℤ◌, ◌*ℤ◌, int64, emod, select,
}
use ninjascale.Time.{seconds}
use ninjascale.Metrics.Buckets.{oldest_start}
use ninjascale.Config.{
  Config, ServiceConfig, PolicyConfig, metric_retention, apply_defaults, default_service,
  retain_services, retain_policies,
}
use ninjascale.Metrics.Store.{samples_of, snapshot, not_before}
use ninjascale.Examples.{cpu, store}
use ninjascale.Examples.Stores.{store-IsWellFormed}
use ninjascale.Config.Retention.{CoversService, metric_retention_lem, snapshot-window}

-- A window of a minute, whose bucket width is left to the defaults.
abbrev busy : PolicyConfig ℤ
busy = record {
  kind = "window";
  metric = "cpu";
  expression = "";
  bucket_duration = none;
  upscale_when = some (record { threshold = pos 7; sustained_for = seconds 60; step = pos 1 });
  downscale_when = none;
}

abbrev web_config : ServiceConfig ℤ
web_config = record {
  name = "web";
  identifier = "web-svc";
  min_count = none;
  max_count = some (pos 5);
  cooldown = none;
  schedule = none;
  metrics = [];
  policies = busy ∷ [];
}

abbrev small : Config ℤ
small = record {
  reconcile_interval = pos 0;
  dry_run = false;
  defaults = record {
    min_count = pos 0;
    max_count = pos 0;
    cooldown = record { upscale = pos 0; downscale = pos 0 };
  };
  metrics = record {
    otlp = record { enabled = false; grpc_port = pos 0; http_port = pos 0 };
    prometheus = [];
  };
  adapter = record { kind = "memory"; ecs = record { region = ""; cluster = "" } };
  server_address = "";
  services = web_config ∷ [];
}

metric_retention_lem_example :
    (seconds 30 ≤ℤ metric_retention (apply_defaults small))
    × All (CoversService (metric_retention (apply_defaults small))) (apply_defaults small).services
metric_retention_lem_example = metric_retention_lem (apply_defaults small)

-- The window of a minute and two buckets of ten seconds.
small_retention : metric_retention (apply_defaults small) ≡ seconds 80
unfolding metric_retention apply_defaults default_service retain_services retain_policies int64 emod
    ◌+ℤ◌ ◌*ℤ◌
small_retention = refl

snapshot-window_example :
    select
      (not_before (oldest_start (pos 125) (pos 10) (pos 2)))
      (samples_of cpu (snapshot (pos 135) store).1)
    ≡ select (not_before (oldest_start (pos 125) (pos 10) (pos 2))) (samples_of cpu store.series)
unfolding int64 emod ◌+ℤ◌ ◌*ℤ◌
snapshot-window_example =
    snapshot-window store cpu (pos 125) (pos 135) 10 2 store-IsWellFormed (omega arith)
      (omega arith) (omega arith) (omega arith)
