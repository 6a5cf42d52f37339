-- ===== src/Reconciler/Ticks.antt =====
-- What whole ticks keep (`Tick` of internal/reconciler/reconciler.go): the store's invariant, and in
-- a dry run the platform.
use ninjascale.Prelude.{
  Bool, true, false, inl, inr, ◌≡◌, refl, sym, ◌∙◌, List, [], ◌∷◌, ◌++◌, Option, none, some, String,
  ℤ, Bool-cases, string_key, strip_prefix, is_empty,
}
use mathlib.Core.Path.{subst}
use ninjascale.Metrics.{Float, MetricKey}
use ninjascale.Metrics.Store
use ninjascale.Metrics.Store.{MetricStore}
use ninjascale.Metrics.Store.Invariant.{IsWellFormed, add-IsWellFormed, snapshot-IsWellFormed}
use ninjascale.Metrics.Prometheus.{PrometheusSource, Queried, sample, absent, failed, query}
use ninjascale.Policy.Target.{ExprLang}
use ninjascale.Schedule.{TimeZones}
use ninjascale.Service.{MetricBinding, Service}
use ninjascale.Adapter.{Adapter}
use ninjascale.Reconciler.{
  ScaleDirection, Readings, World, can_scale, cooldown_active, service_bounds,
}
use ninjascale.Reconciler.Pass.{
  Plan, no_decision, hold, change, Reconciled, after_scale, succeed, execute, carry_out, plan_of,
  evaluate_all, reconcile_service,
}
use ninjascale.Reconciler.Carried.{Effect, idle, blocked, scaled, refused}
use ninjascale.Reconciler.Effects.{reconcile_service-Effect}
use ninjascale.Reconciler.Tick.{
  Reconciler, TickReadings, add_queried, source_of, poll_from, poll_bindings, poll_services, poll,
  reconcile_all, reconcile_counted, tick,
}

module _ {V P A : Type 0} (adapter : Adapter A) (dry_run : Bool) (at : Readings) (svc : Service V P)
    (current : ℤ) where
  after_scale-store :
      (direction : ScaleDirection) (w : World V A) (answer : A × Bool)
      → (after_scale adapter dry_run svc direction at.at_start w answer).world.store ≡ w.store
  unfolding succeed
  after_scale-store direction w (platform, true) = refl
  after_scale-store direction w (platform, false) = refl

  execute-store :
      (direction : ScaleDirection) (desired : ℤ) (w : World V A)
      → (execute adapter dry_run at svc current direction desired w).world.store ≡ w.store
  unfolding execute succeed
  execute-store direction desired w =
      elim (Bool-cases (can_scale w.state svc current direction at.at_cooldown)) [
        | inl can ↦ elim (Bool-cases dry_run) [
          | inl dry ↦ rw (can, dry) refl
          | inr wet ↦
              rw (can, wet)
                (after_scale-store direction
                  (record w {
                    recorded = w.recorded ++ (cooldown_active svc.name direction false ∷ []);
                  })
                  _)
        ]
        | inr stopped ↦ rw stopped refl
      ]

  -- What follows the snapshot leaves the store alone.
  carry_out-store :
      (plan : Plan) (w : World V A)
      → (carry_out adapter dry_run at svc current plan w).world.store ≡ w.store
  unfolding carry_out
  carry_out-store no_decision w = refl
  carry_out-store (hold desired) w = refl
  carry_out-store (change direction desired) w = execute-store direction desired _

module _ {V P A : Type 0} ⦃float : Float V⦄ ⦃expr : ExprLang V P⦄ (zones : TimeZones) where
  reconcile_service-store :
      (adapter : Adapter A) (dry_run : Bool) (at : Readings) (svc : Service V P) (current : ℤ)
      (w : World V A)
      → (reconcile_service adapter dry_run zones at svc current w).world.store
        ≡ (Store.snapshot at.at_snapshot w.store).0
  unfolding reconcile_service
  reconcile_service-store adapter dry_run at svc current w =
      carry_out-store adapter dry_run at svc current
        (plan_of
          (evaluate_all svc.policies current (Store.snapshot at.at_snapshot w.store).1
            at.at_start).decisions
          current (service_bounds zones svc at.at_start))
        _

  reconcile_all-IsWellFormed :
      (adapter : Adapter A) (dry_run : Bool) (at : TickReadings) (counts : List (String × ℤ))
      (svcs : List (Service V P)) (w : World V A)
      → IsWellFormed w.store
      → IsWellFormed (reconcile_all zones adapter dry_run at counts svcs w).1.store
  unfolding reconcile_all
  reconcile_all-IsWellFormed adapter dry_run at counts [] w h = h
  reconcile_all-IsWellFormed adapter dry_run at counts (svc ∷ svcs) w h =
      reconcile_all-IsWellFormed adapter dry_run at counts svcs _ (
        subst IsWellFormed
          (sym (reconcile_service-store adapter dry_run (at.of_service svc.name) svc _ w))
          (snapshot-IsWellFormed (at.of_service svc.name).at_snapshot w.store h))

  dry_pass :
      (adapter : Adapter A) (at : Readings) (current : ℤ) (plan : Plan) (svc : Service V P)
      (w : World V A) (r : Reconciled V P A)
      → Effect adapter true at current plan svc w r
      → r.world.platform ≡ w.platform
  dry_pass adapter at current plan svc w r (idle a b c same e) = same
  dry_pass adapter at current plan svc w r (blocked a b c d e f same h) = same
  dry_pass adapter at current plan svc w r (scaled a b c d (inl (dry, same)) f g h) = same
  dry_pass adapter at current plan svc w r (scaled a b c d (inr (wet, call)) f g h) = cc
  dry_pass adapter at current plan svc w r (refused a b c d wet f g h i) = cc

  reconcile_all-dry :
      (adapter : Adapter A) (at : TickReadings) (counts : List (String × ℤ))
      (svcs : List (Service V P)) (w : World V A)
      → (reconcile_all zones adapter true at counts svcs w).1.platform ≡ w.platform
  unfolding reconcile_all
  reconcile_all-dry adapter at counts [] w = refl
  reconcile_all-dry adapter at counts (svc ∷ svcs) w =
      reconcile_all-dry adapter at counts svcs _
      ∙ dry_pass adapter (at.of_service svc.name) _ _ svc w _
          (reconcile_service-Effect zones adapter true (at.of_service svc.name) svc _ w)

module _ {V : Type 0} ⦃float : Float V⦄ where
  add_queried-IsWellFormed :
      (at : TickReadings) (key : MetricKey) (q : Queried V) (store : MetricStore V)
      → IsWellFormed store
      → IsWellFormed (add_queried at key q store)
  add_queried-IsWellFormed at key (failed e) store h = h
  add_queried-IsWellFormed at key absent store h = h
  add_queried-IsWellFormed at key (sample s) store h =
      add-IsWellFormed (at.at_add key) key s store h

  poll_from-IsWellFormed :
      (at : TickReadings) (service : String) (mb : MetricBinding)
      (source : Option (PrometheusSource V)) (store : MetricStore V)
      → IsWellFormed store
      → IsWellFormed (poll_from at service mb source store)
  poll_from-IsWellFormed at service mb none store h = h
  poll_from-IsWellFormed at service mb (some source) store h =
      add_queried-IsWellFormed at _ (query source mb.query at.at_poll) store h

  poll_bindings-IsWellFormed :
      (at : TickReadings) (sources : List (String × PrometheusSource V)) (service : String)
      (mbs : List MetricBinding) (store : MetricStore V)
      → IsWellFormed store
      → IsWellFormed (poll_bindings at sources service mbs store)
  unfolding poll_bindings
  poll_bindings-IsWellFormed at sources service [] store h = h
  poll_bindings-IsWellFormed at sources service (mb ∷ mbs) store h =
      poll_bindings-IsWellFormed at sources service mbs _ (
        poll_from-IsWellFormed at service mb
          (source_of sources (strip_prefix "prometheus." mb.source)) store h)

  poll_services-IsWellFormed :
      {P : Type 0} (at : TickReadings) (sources : List (String × PrometheusSource V))
      (svcs : List (Service V P)) (store : MetricStore V)
      → IsWellFormed store
      → IsWellFormed (poll_services at sources svcs store)
  unfolding poll_services
  poll_services-IsWellFormed at sources [] store h = h
  poll_services-IsWellFormed at sources (svc ∷ svcs) store h =
      poll_services-IsWellFormed at sources svcs _
        (poll_bindings-IsWellFormed at sources svc.name svc.metrics store h)

  poll-IsWellFormed :
      {P : Type 0} (at : TickReadings) (sources : List (String × PrometheusSource V))
      (svcs : List (Service V P)) (store : MetricStore V)
      → IsWellFormed store
      → IsWellFormed (poll at sources svcs store)
  unfolding poll
  poll-IsWellFormed at sources svcs store h = elim (Bool-cases (is_empty sources)) [
    | inl e ↦ rw e h
    | inr e ↦ rw e (poll_services-IsWellFormed at sources svcs store h)
  ]

module _ {V P A : Type 0} ⦃float : Float V⦄ ⦃expr : ExprLang V P⦄ (zones : TimeZones) where
  reconcile_counted-IsWellFormed :
      (r : Reconciler V P A) (at : TickReadings) (counts : Option (List (String × ℤ)))
      (w : World V A)
      → IsWellFormed w.store
      → IsWellFormed (reconcile_counted zones r at counts w).1.store
  reconcile_counted-IsWellFormed r at none w h = h
  reconcile_counted-IsWellFormed r at (some counts) w h =
      reconcile_all-IsWellFormed zones r.adapter r.dry_run at counts r.services w h

  -- A tick leaves a well-formed store well-formed, whatever the sources answer, whether the counts
  -- are known or not, and whichever passes fail.
  pub tick-IsWellFormed :
      (r : Reconciler V P A) (at : TickReadings) (w : World V A)
      → IsWellFormed w.store
      → IsWellFormed (tick zones r at w).1.store
  unfolding tick
  tick-IsWellFormed r at w h =
      reconcile_counted-IsWellFormed r at _ _
        (poll-IsWellFormed at r.prom_sources r.services w.store h)

  reconcile_counted-dry :
      (r : Reconciler V P A) (at : TickReadings) (counts : Option (List (String × ℤ)))
      (w : World V A)
      → r.dry_run ≡ true
      → (reconcile_counted zones r at counts w).1.platform ≡ w.platform
  reconcile_counted-dry r at none w dry = refl
  reconcile_counted-dry r at (some counts) w dry =
      rw dry (reconcile_all-dry zones r.adapter at counts r.services w)

  -- In a dry run a tick leaves the platform as it was.
  pub tick-dry_run :
      (r : Reconciler V P A) (at : TickReadings) (w : World V A)
      → r.dry_run ≡ true
      → (tick zones r at w).1.platform ≡ w.platform
  unfolding tick
  tick-dry_run r at w dry = reconcile_counted-dry r at _ _ dry
