-- ===== src/Examples.antt =====
-- A small installation that the tests and witnesses of the child modules run: values are whole
-- numbers, an expression is the name of a variable, and time counts single nanoseconds.
mod Stores
mod Policies
mod Passes
mod Services
mod Schedules
mod Targets
mod Ticks
mod Configs
mod Loading
mod Starting
mod Servers
mod Receivers
use ninjascale.Prelude.{
  ◌≡◌, refl, false, Option, none, some, List, [], ◌∷◌, String, ℤ, pos, ltb_ℤ, lookup, string_key,
}
use ninjascale.Time.{Time, zero_time}
use ninjascale.Metrics.{Float, MetricKey, Sample, metric_key}
use ninjascale.Metrics.Store.{MetricStore, Series}
use ninjascale.Policy.{Policy, window}
use ninjascale.Policy.Window.{WindowThreshold, WindowPolicy}
use ninjascale.Policy.Target.{ExprLang}
use ninjascale.Schedule.{TimeZones}
use ninjascale.Service.{Service}
use ninjascale.Adapter.Memory.{Counts}
use ninjascale.Reconciler.{Readings, World}

instance abbrev pub whole_float : Float ℤ
whole_float = record {
  lt = ltb_ℤ;
  is_nan = λ v. false;
  is_inf = λ v. false;
  zero_value = pos 0;
  of_int = λ n. n;
  ceil = λ v. v;
}

instance abbrev pub variables : ExprLang ℤ String
variables = record { compile = λ text env. some text; run = λ program env. lookup program env }

abbrev pub no_zones : TimeZones
no_zones = record { load_location = λ name. none }

abbrev pub cpu : MetricKey
cpu = record { service = "web"; name = "cpu" }

abbrev pub sample_of : ℤ → Time → Sample ℤ
sample_of value at = record { value = value; observed_at = at }

abbrev pub history : List (Sample ℤ)
history =
    sample_of (pos 5) (pos 95) ∷ sample_of (pos 9) (pos 105) ∷ sample_of (pos 8) (pos 115) ∷ []

abbrev pub recent : Series ℤ
recent = (cpu, history) ∷ []

abbrev pub store : MetricStore ℤ
store = record {
  series = recent;
  retention = pos 60;
  max_samples_per_series = 4;
  max_samples_total = 4;
}

-- Two slots of ten above 7 ask for one more, two slots below 3 for one less.
abbrev pub above : WindowThreshold ℤ
above = record { threshold = pos 7; sustained_for = pos 20; step = pos 1 }

abbrev pub below : WindowThreshold ℤ
below = record { threshold = pos 3; sustained_for = pos 20; step = pos 1 }

abbrev pub web_policy : WindowPolicy ℤ
web_policy = record {
  service = "web";
  metric = "cpu";
  bucket_duration = pos 10;
  upscale_when = some above;
  downscale_when = some below;
  reset_cutoff = zero_time;
}

abbrev pub web : Service ℤ String
web = record {
  name = "web";
  identifier = "web-svc";
  min_count = pos 1;
  max_count = pos 5;
  cooldown = record { upscale = pos 10; downscale = pos 20 };
  schedule = none;
  metrics = [];
  policies = window web_policy ∷ [];
}

abbrev pub readings : Readings
readings = record {
  at_start = pos 125;
  at_snapshot = pos 126;
  at_cooldown = pos 127;
  at_end = pos 128;
}

abbrev pub world : World ℤ Counts
world = record { store = store; state = []; platform = ("web-svc", pos 2) ∷ []; recorded = [] }
