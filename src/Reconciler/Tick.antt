-- ===== src/Reconciler/Tick.antt =====
-- internal/reconciler/reconciler.go, `New`, `Tick` and `pollPrometheusMetrics`: one pass over all
-- services. (`Run` calls `Tick` at the start and at each tick of a timer until its context ends.)
use ninjascale.Prelude.{
  Bool, Option, none, some, List, [], ◌∷◌, map, String, if◌then◌else◌, ℤ, pos, eqb_ℤ, lookup,
  string_key, strip_prefix, is_empty,
}
use ninjascale.Time.{Time, Duration, seconds}
use ninjascale.Metrics.{Float, MetricKey}
use ninjascale.Metrics.Store
use ninjascale.Metrics.Store.{MetricStore}
use ninjascale.Metrics.Prometheus.{PrometheusSource, Queried, sample, absent, failed, query}
use ninjascale.Policy.Target.{ExprLang}
use ninjascale.Schedule.{TimeZones}
use ninjascale.Service.{MetricBinding, Service}
use ninjascale.Adapter.{Adapter}
use ninjascale.Reconciler.{Readings, World}
use ninjascale.Reconciler.Pass.{reconcile_service}

-- The fields that a reconciler keeps, beside what it changes.
pub record Reconciler (V P A : Type 0) : Type 0 where
  pub adapter : Adapter A
  pub services : List (Service V P)
  pub prom_sources : List (String × PrometheusSource V)
  pub interval : Duration
  pub dry_run : Bool

-- `New`: an interval of 0 becomes ten seconds. (A missing map of sources is an empty one.)
unfoldable pub new :
    {V P A : Type 0}
    → Adapter A
    → List (Service V P)
    → List (String × PrometheusSource V)
    → (interval : Duration) → (dry_run : Bool) → Reconciler V P A
new adapter services sources interval dry_run = record {
  adapter = adapter;
  services = services;
  prom_sources = sources;
  interval = if eqb_ℤ interval (pos 0) then seconds 10 else interval;
  dry_run = dry_run;
}

-- The clock's readings in one tick: the evaluation time of the queries, the store's reading at each
-- `Add`, and those of each service's pass.
pub record TickReadings : Type 0 where
  pub at_poll : Time
  pub at_add : MetricKey → Time
  pub of_service : String → Readings

module _ {V : Type 0} ⦃float : Float V⦄ where
  abbrev pub add_queried : TickReadings → MetricKey → Queried V → MetricStore V → MetricStore V
  add_queried at key (failed e) store = store
  add_queried at key absent store = store
  add_queried at key (sample s) store = (Store.add (at.at_add key) key s store).0

  -- The source of a binding: none for one that is not of Prometheus, or not known.
  abbrev pub source_of :
      List (String × PrometheusSource V) → Option String → Option (PrometheusSource V)
  source_of sources none = none
  source_of sources (some name) = lookup name sources

  abbrev pub poll_from :
      TickReadings
      → String
      → MetricBinding
      → Option (PrometheusSource V)
      → MetricStore V
      → MetricStore V
  poll_from at service mb none store = store
  poll_from at service mb (some source) store =
      add_queried at (record { service = service; name = mb.name })
        (query source mb.query at.at_poll) store

  unfoldable pub poll_bindings :
      TickReadings
      → List (String × PrometheusSource V)
      → String
      → List MetricBinding
      → MetricStore V
      → MetricStore V
  poll_bindings at sources service [] store = store
  poll_bindings at sources service (mb ∷ mbs) store =
      poll_bindings at sources service mbs
        (poll_from at service mb (source_of sources (strip_prefix "prometheus." mb.source)) store)

  unfoldable pub poll_services :
      {P : Type 0}
      → TickReadings
      → List (String × PrometheusSource V)
      → List (Service V P)
      → MetricStore V
      → MetricStore V
  poll_services at sources [] store = store
  poll_services at sources (svc ∷ svcs) store =
      poll_services at sources svcs (poll_bindings at sources svc.name svc.metrics store)

  -- `pollPrometheusMetrics`.
  unfoldable pub poll :
      {P : Type 0}
      → TickReadings
      → List (String × PrometheusSource V)
      → List (Service V P)
      → MetricStore V
      → MetricStore V
  poll at sources services store =
      if is_empty sources then store else poll_services at sources services store

-- `counts[svc.Identifier]`: 0 on a missing key.
abbrev pub count_or_zero : Option ℤ → ℤ
count_or_zero none = pos 0
count_or_zero (some n) = n

module _ {V P A : Type 0} ⦃float : Float V⦄ ⦃expr : ExprLang V P⦄ (zones : TimeZones) where
  -- The loop over the services. A pass that fails is logged, and the loop goes on.
  unfoldable pub reconcile_all :
      Adapter A
      → Bool
      → TickReadings
      → List (String × ℤ)
      → List (Service V P)
      → World V A
      → List (Service V P) × World V A
  reconcile_all adapter dry_run at counts [] w = ([], w)
  reconcile_all adapter dry_run at counts (svc ∷ svcs) w =
      let r =
        reconcile_service adapter dry_run zones (at.of_service svc.name) svc
          (count_or_zero (lookup svc.identifier counts)) w in
      let (svcs', w') = reconcile_all adapter dry_run at counts svcs r.world in
      (r.service ∷ svcs', w')

  -- A failed batch of counts ends the tick, after the poll.
  abbrev pub reconcile_counted :
      Reconciler V P A
      → TickReadings
      → Option (List (String × ℤ))
      → World V A
      → List (Service V P) × World V A
  reconcile_counted r at none w = (r.services, w)
  reconcile_counted r at (some counts) w = reconcile_all r.adapter r.dry_run at counts r.services w

  unfoldable pub tick : Reconciler V P A → TickReadings → World V A → Reconciler V P A × World V A
  tick r at w =
      let w' = record w { store = poll at r.prom_sources r.services w.store } in
      let (services, w'') =
        reconcile_counted r at
          (r.adapter.get_current_counts (map (λ svc. svc.identifier) r.services) w'.platform) w' in
      (record r { services = services }, w'')
