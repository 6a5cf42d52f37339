-- ===== src/Reconciler/Effects.antt =====
-- What one `reconcileService` (internal/reconciler/reconciler.go) does to the platform, the cooldown
-- state and the policies: the cases of the pass as a relation, and what follows from each.
use ninjascale.Prelude.{
  Bool, false, inl, inr, ◌⊎◌, ◌≡◌, sym, ap, List, [], ◌∷◌, ◌++◌, ℤ, ◌≤ℤ◌, ◌<ℤ◌,
}
use ninjascale.Time.{sub}
use ninjascale.Metrics.{Float}
use ninjascale.Metrics.Store
use ninjascale.Policy.Target.{ExprLang}
use ninjascale.Schedule.{TimeZones}
use ninjascale.Service.{Service}
use ninjascale.Adapter.{Adapter}
use ninjascale.Reconciler.{
  Recorded, current_scale, reconcile_latency, Readings, World, service_bounds,
}
use ninjascale.Reconciler.Pass.{
  Plan, Collected, Reconciled, plan_of, evaluate_all, carry_out, metric_ages, all_required,
  observed, reconcile_service,
}
use ninjascale.Reconciler.Carried.{
  Agrees-ne, plan_of_lem, Effect, idle, blocked, scaled, refused, Effect-world, Effect-recorded,
  carry_out-Effect,
}

module _ {V P A : Type 0} ⦃float : Float V⦄ ⦃expr : ExprLang V P⦄ (zones : TimeZones) where
  -- The plan of a pass: what the policies decide on the snapshot, within the active bounds.
  abbrev pub plan_for : Readings → Service V P → ℤ → World V A → Plan
  plan_for at svc current w =
      plan_of
        (evaluate_all svc.policies current (Store.snapshot at.at_snapshot w.store).1
          at.at_start).decisions
        current (service_bounds zones svc at.at_start)

  -- A pass is one of the four cases, by its plan: nothing changes when nothing is to do or the
  -- cooldown blocks; an allowed change calls the adapter once, or not at all in a dry run, records
  -- the event and resets the policies; a failed call changes neither the state nor the policies.
  pub reconcile_service-Effect :
      (adapter : Adapter A) (dry_run : Bool) (at : Readings) (svc : Service V P) (current : ℤ)
      (w : World V A)
      → Effect adapter dry_run at current
          (plan_for at svc current w)
          svc
          w
          (reconcile_service adapter dry_run zones at svc current w)
  unfolding reconcile_service
  reconcile_service-Effect adapter dry_run at svc current w =
      let snap : Store.MetricStore V × Store.Series V = Store.snapshot at.at_snapshot w.store in
      let collected : Collected V = evaluate_all svc.policies current snap.1 at.at_start in
      let events : List Recorded =
        w.recorded
        ++ (current_scale svc.name current
            ∷ (metric_ages svc.name (all_required svc.policies) [] snap.1 at.at_start
                ++ observed collected.windows)) in
      let todo : Plan = plan_for at svc current w in
      let w' : World V A = record w { store = snap.0; recorded = events } in
      let r : Reconciled V P A = carry_out adapter dry_run at svc current todo w' in
      Effect-recorded adapter dry_run at current todo svc w
        (r.world.recorded ++ (reconcile_latency r.service.name (sub at.at_end at.at_start) ∷ [])) r
        (Effect-world adapter dry_run at current todo svc w snap.0 events r
          (carry_out-Effect adapter at current dry_run svc todo w'))

  -- With bounds in order a pass leaves the platform alone, or asks it, outside a dry run, for one
  -- count of this service that is not the current one and lies within the active bounds.
  pub reconcile_service-platform :
      (adapter : Adapter A) (dry_run : Bool) (at : Readings) (svc : Service V P) (current : ℤ)
      (w : World V A)
      → (service_bounds zones svc at.at_start).min ≤ℤ (service_bounds zones svc at.at_start).max
      → let platform = (reconcile_service adapter dry_run zones at svc current w).world.platform in
        let bounds = service_bounds zones svc at.at_start in
        (platform ≡ w.platform)
        ⊎ ((desired : ℤ) × (dry_run ≡ false)
            × (platform ≡ (adapter.scale svc.identifier desired w.platform).0)
            × (bounds.min ≤ℤ desired)
            × (desired ≤ℤ bounds.max)
            × ((current <ℤ desired) ⊎ (desired <ℤ current)))
  reconcile_service-platform adapter dry_run at svc current w h =
      by_case (reconcile_service-Effect adapter dry_run at svc current w)
    where
      by_case :
          {r : Reconciled V P A}
          → Effect adapter dry_run at current (plan_for at svc current w) svc w r
          → (r.world.platform ≡ w.platform)
            ⊎ ((desired : ℤ) × (dry_run ≡ false)
                × (r.world.platform ≡ (adapter.scale svc.identifier desired w.platform).0)
                × ((service_bounds zones svc at.at_start).min ≤ℤ desired)
                × (desired ≤ℤ (service_bounds zones svc at.at_start).max)
                × ((current <ℤ desired) ⊎ (desired <ℤ current)))
      by_case (idle a b c same e) = inl same
      by_case (blocked a b c d e f same g) = inl same
      by_case (scaled direction desired planned can (inl dry) b c d) = inl dry.1
      by_case (scaled direction desired planned can (inr live) b c d) =
          let p =
            plan_of_lem _ current (service_bounds zones svc at.at_start) direction desired h
              planned in
          inr (
            desired,
            live.0,
            sym (ap (λ x. x.0) live.1),
            p.0,
            p.1,
            Agrees-ne direction current desired p.2,
          )
      by_case (refused direction desired planned can live answer b c d) =
          let p =
            plan_of_lem _ current (service_bounds zones svc at.at_start) direction desired h
              planned in
          inr (
            desired,
            live,
            sym (ap (λ x. x.0) answer),
            p.0,
            p.1,
            Agrees-ne direction current desired p.2,
          )
