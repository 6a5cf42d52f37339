-- ===== src/Command/Started.antt =====
-- What `run` (cmd/ninjascale/main.go) starts from a configuration that was loaded.
use ninjascale.Prelude.{
  ◌≡◌, refl, inl, inr, true, some, List, [], ◌∷◌, String, eq_iff, pos, if◌then◌else◌, eqb_ℤ, ltb_ℤ,
  arith, All, lookup, insert, lookup-insert, string_key,
}
use ninjascale.Prelude.Result.{ok}
use ninjascale.Time.{seconds}
use ninjascale.Metrics.{Float}
use ninjascale.Metrics.Store.{new_metric_store, with_retention, total}
use ninjascale.Metrics.Store.Invariant.{IsWellFormed}
use ninjascale.Metrics.Buckets.Gaps.{is_some}
use ninjascale.Metrics.Prometheus.{PrometheusSource, PrometheusClients, new_prometheus_source}
use ninjascale.Policy.Target.{ExprLang}
use ninjascale.Schedule.{TimeZones}
use ninjascale.Adapter.{Adapter}
use ninjascale.Adapter.Ecs.{EcsClient, ecs_adapter}
use ninjascale.Adapter.Memory.{Counts}
use ninjascale.Adapter.Selection.{
  AwsClients, new_adapter, new_ecs_adapter, new_ecs_adapter_with_client, on_cloud, in_memory,
}
use ninjascale.Config.{PrometheusConfig, AdapterConfig, Config, metric_retention}
use ninjascale.Config.Retention.{metric_retention_lem}
use ninjascale.Config.Build.Total.{AreBuilt, ServiceFits, build_services-IsRunnable}
use ninjascale.Config.Validate.Fields.{IsAdapter, source_names}
use ninjascale.Config.Load.Parsed.{IsLoaded}
use ninjascale.Reconciler.Tick
use ninjascale.Command.{Environment, Running, open_sources, receiver_of, start_up}

-- A source can be created.
abbrev pub Opens : {V : Type 0} → PrometheusClients V → PrometheusConfig → Type 0
Opens {V} clients p =
    (source : PrometheusSource V) × (new_prometheus_source clients p.name p.address
        p.bearer_token_file
      ≡ ok source)

-- The AWS configuration of every region can be loaded.
abbrev pub HasAws : {A : Type 0} → AwsClients A → Type 0
HasAws {A} clients = (region : String) → (client : EcsClient A) × (clients region ≡ some client)

abbrev pub Has : {V : Type 0} → List (String × PrometheusSource V) → String → Type 0
Has sources name = is_some (lookup name sources) ≡ true

insert-Has :
    {V : Type 0} (sources : List (String × PrometheusSource V)) (name other : String)
    (s : PrometheusSource V)
    → Has sources other
    → Has (insert name s sources) other
insert-Has sources name other s h = rw (lookup-insert name other s sources) (ground arith)

insert-Has_self :
    {V : Type 0} (sources : List (String × PrometheusSource V)) (name : String)
    (s : PrometheusSource V)
    → Has (insert name s sources) name
insert-Has_self sources name s =
    rw (lookup-insert name name s sources) (ground (arith, eq_iff name name))

open_sources-Has :
    {V : Type 0} (clients : PrometheusClients V) (ps : List PrometheusConfig)
    (sources : List (String × PrometheusSource V))
    → All (Opens clients) ps
    → (m : List (String × PrometheusSource V)) × (open_sources clients ps sources ≡ ok m)
      × ((name : String) → Has sources name → Has m name)
      × All (Has m) (source_names ps)
unfolding open_sources
open_sources-Has clients [] sources h = (sources, refl, λ name k. k, tt)
open_sources-Has clients (p ∷ ps) sources h =
    let (source, e) = h.0 in
    let (m, es, keep, all_there) = open_sources-Has clients ps (insert p.name source sources) h.1 in
    (
      m,
      rw e es,
      λ name k. keep name (insert-Has sources p.name name source k),
      (keep p.name (insert-Has_self sources p.name source), all_there),
    )

new_adapter-ok :
    {A : Type 0} (clients : AwsClients A) (cfg : AdapterConfig)
    → HasAws clients
    → IsAdapter cfg
    → (a : Adapter (A × Counts)) × (new_adapter clients cfg ≡ ok a)
unfolding new_adapter new_ecs_adapter
new_adapter-ok clients cfg aws (inl memory) = (in_memory, rw memory refl)
new_adapter-ok clients cfg aws (inr (ecs, region, cluster)) =
    let (client, e) = aws cfg.ecs.region in
    (on_cloud (ecs_adapter (new_ecs_adapter_with_client client cfg.ecs.cluster)), rw (ecs, e) refl)

-- The store begins empty, with the retention of the configuration.
pub new_store :
    {V : Type 0} (cfg : Config V)
    → let store = new_metric_store {V = V} (with_retention (metric_retention cfg) ∷ []) in
      IsWellFormed store × (store.retention ≡ metric_retention cfg)
unfolding new_metric_store with_retention total
new_store cfg =
    let long = (metric_retention_lem cfg).0 in
    let e : ltb_ℤ (pos 0) (metric_retention cfg) ≡ true = ground arith in
    (
      rw (e, with_retention)
          (record {
            limit_pos = omega arith;
            ordered = tt;
            inhabited = tt;
            capped = tt;
            bounded = omega arith;
          }),
      rw (e, with_retention) refl,
    )

-- The running parts fit the configuration.
pub record IsStarted {V P A : Type 0} ⦃float : Float V⦄ ⦃expr : ExprLang V P⦄ (cfg : Config V)
    (r : Running V P A) : Type 0 where
  pub built : AreBuilt cfg.services r.reconciler.services
  pub sourced : All (Has r.reconciler.prom_sources) (source_names cfg.metrics.prometheus)
  pub dry : r.reconciler.dry_run ≡ cfg.dry_run
  pub paced :
      r.reconciler.interval
      ≡ (if eqb_ℤ cfg.reconcile_interval (pos 0) then seconds 10 else cfg.reconcile_interval)
  pub stored : IsWellFormed r.store
  pub retained : r.store.retention ≡ metric_retention cfg

module _ {V A : Type 0} (P : Type 0) ⦃float : Float V⦄ ⦃expr : ExprLang V P⦄
    (env : Environment V A) where
  pub start_up-IsStarted :
      (zones : TimeZones) (cfg : Config V)
      → IsLoaded P zones cfg
      → All ServiceFits cfg.services
      → All (Opens env.prometheus) cfg.metrics.prometheus
      → HasAws env.aws
      → env.listens cfg.metrics.otlp.grpc_port ≡ true
      → (r : Running V P A) × (start_up P env cfg ≡ ok r) × IsStarted cfg r
  unfolding start_up Tick.new
  start_up-IsStarted zones cfg (accepted, filled) fits opens aws listens =
      let (sources, a, keep, there) =
        open_sources-Has env.prometheus cfg.metrics.prometheus [] opens in
      let (adapter, b) = new_adapter-ok env.aws cfg.adapter aws accepted.adapted in
      let (svcs, c, built) =
        build_services-IsRunnable P zones (source_names cfg.metrics.prometheus) cfg.services
          accepted.served filled fits in
      let (stored, retained) = new_store cfg in
      (
        record {
          store = new_metric_store (with_retention (metric_retention cfg) ∷ []);
          receiver = receiver_of cfg.metrics.otlp svcs;
          reconciler = Tick.new adapter svcs sources cfg.reconcile_interval cfg.dry_run;
          address = cfg.server_address;
        },
        rw (a, b, c, listens) (ground arith),
        record {
          built = built;
          sourced = there;
          dry = refl;
          paced = refl;
          stored = stored;
          retained = retained;
        },
      )
