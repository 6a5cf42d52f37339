-- ===== src/Command.antt =====
-- cmd/ninjascale/main.go: from a configuration to the running parts. What the process asks of its
-- surroundings is the parameter `Environment`; log lines are left out. The end of the process is in
-- Command/Exit.
pub mod Started
pub mod Kept
pub mod Registered
pub mod Routed
pub mod Only
pub mod Exit
pub mod Steps
pub mod Ended
use ninjascale.Prelude.{
  Bool, true, false, not, ◌&&◌, Option, none, some, List, [], ◌∷◌, String, str_eq, if◌then◌else◌, ℤ,
  insert, string_key,
}
use ninjascale.Prelude.Result.{Result, ok, err, reject_if, within, ◌>>=◌, ◌>>◌}
use ninjascale.Metrics.{Float}
use ninjascale.Metrics.Store.{MetricStore, new_metric_store, with_retention}
use ninjascale.Metrics.Prometheus.{
  PrometheusSource, PrometheusClients, SourceError, new_prometheus_source,
}
use ninjascale.Metrics.Otlp.{Bindings, register_binding}
use ninjascale.Policy.Target.{ExprLang}
use ninjascale.Service.{MetricBinding, Service}
use ninjascale.Adapter.{Adapter}
use ninjascale.Adapter.Memory.{Counts}
use ninjascale.Adapter.Selection.{AdapterError, AwsClients, new_adapter}
use ninjascale.Config.{PrometheusConfig, OtlpConfig, Config, metric_retention}
use ninjascale.Config.Thresholds.{BuildError}
use ninjascale.Config.Build.{build_services}
use ninjascale.Config.Load.{Host, LoadError, load_from_env_or_file}
use ninjascale.Schedule.{TimeZones}
use ninjascale.Reconciler.{World}
use ninjascale.Reconciler.Tick
use ninjascale.Reconciler.Tick.{Reconciler}

-- `listens` says whether the receiver can listen on its port for gRPC; the other port fails later,
-- and is only logged.
pub record Environment (V A : Type 0) : Type 0 where
  pub prometheus : PrometheusClients V
  pub aws : AwsClients A
  pub listens : (grpc_port : ℤ) → Bool

pub data StartError : Type 0 where
  source_failed : SourceError → StartError
  adapter_failed : AdapterError → StartError
  build_failed : BuildError → StartError
  receiver_failed : StartError

-- What ends `main`.
pub data MainError : Type 0 where
  not_loaded : LoadError → MainError
  not_started : StartError → MainError

-- What runs: the store, the receiver's bindings if there is a receiver, and the reconciler.
pub record Running (V P A : Type 0) : Type 0 where
  pub store : MetricStore V
  pub receiver : Option Bindings
  pub reconciler : Reconciler V P (A × Counts)
  pub address : String

-- The flag of `main`.
unfoldable pub with_dry_run : {V : Type 0} → Bool → Config V → Config V
with_dry_run dry_run cfg = if dry_run then record cfg { dry_run = true } else cfg

module _ {V : Type 0} where
  -- The loop over the sources.
  unfoldable pub open_sources :
      PrometheusClients V
      → List PrometheusConfig
      → List (String × PrometheusSource V)
      → Result SourceError (List (String × PrometheusSource V))
  open_sources clients [] sources = ok sources
  open_sources clients (p ∷ ps) sources = do
    source ← new_prometheus_source clients p.name p.address p.bearer_token_file
    open_sources clients ps (insert p.name source sources)

abbrev pub register_metric : String → MetricBinding → Bindings → Bindings
register_metric service b bindings =
    if str_eq b.source "otlp"
    then register_binding b.metric (record { service = service; name = b.name }) b.attributes
        bindings
    else bindings

unfoldable pub register_metrics : String → List MetricBinding → Bindings → Bindings
register_metrics service [] bindings = bindings
register_metrics service (b ∷ bs) bindings =
    register_metrics service bs (register_metric service b bindings)

unfoldable pub register_services : {V P : Type 0} → List (Service V P) → Bindings → Bindings
register_services [] bindings = bindings
register_services (svc ∷ svcs) bindings =
    register_services svcs (register_metrics svc.name svc.metrics bindings)

-- The receiver has every binding before it listens.
abbrev pub receiver_of : {V P : Type 0} → OtlpConfig → List (Service V P) → Option Bindings
receiver_of otlp svcs = if otlp.enabled then some (register_services svcs []) else none

-- What the reconciler's loop meets first: an empty cooldown state, and the platform as it is.
abbrev pub first_world : {V P A : Type 0} → Running V P A → A × Counts → World V (A × Counts)
first_world r platform = record { store = r.store; state = []; platform = platform; recorded = [] }

module _ {V A : Type 0} (P : Type 0) ⦃float : Float V⦄ ⦃expr : ExprLang V P⦄
    (env : Environment V A) where
  -- `run`, up to the reconciler's loop.
  unfoldable pub start_up : Config V → Result StartError (Running V P A)
  start_up cfg = do
    let otlp = cfg.metrics.otlp
    sources ← within source_failed (open_sources env.prometheus cfg.metrics.prometheus [])
    adapter ← within adapter_failed (new_adapter env.aws cfg.adapter)
    services ← within build_failed (build_services P cfg.services)
    reject_if (otlp.enabled && not (env.listens otlp.grpc_port)) receiver_failed
    ok (record {
      store = new_metric_store (with_retention (metric_retention cfg) ∷ []);
      receiver = receiver_of otlp services;
      reconciler = Tick.new adapter services sources cfg.reconcile_interval cfg.dry_run;
      address = cfg.server_address;
    })

  -- `main`: the flags are the path and `dry_run`.
  unfoldable pub main : TimeZones → Host V → String → Bool → Result MainError (Running V P A)
  main zones host path dry_run = do
    cfg ← within not_loaded (load_from_env_or_file P zones host path)
    within not_started (start_up (with_dry_run dry_run cfg))
