-- ===== src/Examples/Passes.antt =====
-- Runs of `reconcileService` (internal/reconciler/reconciler.go) over the memory adapter.
use ninjascale.Prelude.{
  ◌≡◌, ◌≢◌, is_empty, refl, false, ◌⊎◌, inl, inr, ap, sym, ◌∙◌, String, [], ◌∷◌, ℤ, pos, arith,
  ◌≤ℤ◌, ◌-ℤ◌, ◌<ℤ◌, lookup, insert, quot, ◌+ℤ◌, ◌*ℤ◌, emod, int64, search_index, search_loop,
  search_slice,
}
use ninjascale.Time.{truncate, sub, saturate}
use ninjascale.Metrics.Store
use ninjascale.Metrics.Store.{
  samples_of, snapshot_samples, prune, prune_samples, enforce_sample_limits, cap_series, total,
  evict,
}
use ninjascale.Metrics.Buckets.{
  complete_buckets, starts_before, bucket_start, oldest_start, classify, bucket_at, collect,
}
use ninjascale.Policy
use ninjascale.Policy.Window
use ninjascale.Policy.Window.{judge, evaluate_direction, required_buckets}
use ninjascale.Adapter.Memory.{Counts, memory_adapter}
use ninjascale.Reconciler.{
  States, scale_up, World, clamp, max_desired, compute_desired, service_bounds, record_scale_event,
  can_scale,
}
use ninjascale.Reconciler.Pass.{
  change, plan_of, evaluate_all, reconcile_service, carry_out, execute, succeed,
}
use ninjascale.Reconciler.Effects.{plan_for, reconcile_service-platform}
use ninjascale.Reconciler.Cooldown.{last_event}
use ninjascale.Reconciler.Cause.{IsAnswered, decisions_of, HasCause, plan_for-HasCause}
use ninjascale.Reconciler.Outcome.{Outcome, reconcile_service-Outcome}
use ninjascale.Reconciler.Demand.{Meets, reconcile_service-Meets}
use ninjascale.Policy.{window}
use ninjascale.Policy.Decision.{ScaleDecision}
use ninjascale.Reconciler.Unordered.{the_view, kept_view, planned, plan_for-planned}
use ninjascale.Metrics.Store.Histories.{IsOver}
use ninjascale.Examples.Stores.{store-IsWellFormed}
use ninjascale.Reconciler.Progress.{HasScaled, reconcile_service-HasScaled}
use ninjascale.Reconciler.Spacing.{here, meanwhile, cooldown_spacing}
use ninjascale.Examples.{
  whole_float, variables, no_zones, recent, web_policy, web, readings, store, world,
}

reconcile_service-Outcome_example :
    Outcome memory_adapter false readings
      (pos 2)
      (plan_for no_zones readings web (pos 2) world)
      web
      world
      (reconcile_service memory_adapter false no_zones readings web (pos 2) world)
reconcile_service-Outcome_example =
    reconcile_service-Outcome no_zones memory_adapter false readings web (pos 2) world

abbrev platform_after : Counts
platform_after =
    (reconcile_service memory_adapter false no_zones readings web (pos 2) world).world.platform

reconcile_service-platform_example :
    (platform_after ≡ (("web-svc", pos 2) ∷ []))
    ⊎ ((desired : ℤ) × (false ≡ false)
        × (platform_after ≡ (memory_adapter.scale "web-svc" desired (("web-svc", pos 2) ∷ [])).0)
        × (pos 1 ≤ℤ desired)
        × (desired ≤ℤ pos 5)
        × ((pos 2 <ℤ desired) ⊎ (desired <ℤ pos 2)))
unfolding service_bounds
reconcile_service-platform_example =
    reconcile_service-platform no_zones memory_adapter false readings web (pos 2) world
      (omega arith)

-- An event at 100, and a pass at 125 that scales up again.
abbrev prior : States
prior = record_scale_event web scale_up (pos 100) []

abbrev earlier : World ℤ Counts
earlier = record world { state = prior; platform = [] }

abbrev later : World ℤ Counts
later = record world { state = prior }

later_plan : plan_for no_zones readings web (pos 2) later ≡ change scale_up (pos 3)
unfolding plan_of evaluate_all Policy.evaluate Window.evaluate evaluate_direction judge
    required_buckets Store.snapshot prune_samples enforce_sample_limits complete_buckets
    starts_before bucket_start oldest_start classify bucket_at collect service_bounds
    compute_desired max_desired clamp truncate samples_of snapshot_samples lookup quot ◌+ℤ◌ ◌-ℤ◌
    ◌*ℤ◌ emod int64 search_index search_loop search_slice prune cap_series total evict
later_plan = refl

later_event :
    last_event "web" scale_up
      (reconcile_service memory_adapter false no_zones readings web (pos 2) later).world.state
    ≡ pos 125
unfolding reconcile_service carry_out execute succeed can_scale record_scale_event sub saturate
    memory_adapter insert plan_of evaluate_all Policy.evaluate Window.evaluate evaluate_direction
    judge required_buckets Store.snapshot prune_samples enforce_sample_limits complete_buckets
    starts_before bucket_start oldest_start classify bucket_at collect service_bounds
    compute_desired max_desired clamp truncate samples_of snapshot_samples lookup quot ◌+ℤ◌ ◌-ℤ◌
    ◌*ℤ◌ emod int64 search_index search_loop search_slice prune cap_series total evict
later_event = refl

prior_event : last_event "web" scale_up prior ≡ pos 100
unfolding record_scale_event lookup insert
prior_event = refl

later_moves :
    (reconcile_service memory_adapter false no_zones readings web (pos 2) later).world.state ≢ prior
later_moves e =
    let same : pos 125 ≡ pos 100 =
      sym later_event ∙ (ap (last_event "web" scale_up) e ∙ prior_event) in
    absurd (ground arith)

cooldown_spacing_example : pos 10 ≤ℤ pos 127 -ℤ pos 100
cooldown_spacing_example =
    cooldown_spacing String no_zones memory_adapter false web web scale_up [] (pos 100) earlier
      later readings (pos 2) (pos 3) refl (meanwhile here store world.platform) refl later_plan
      later_moves (λ e. ground arith) refl (omega arith, omega arith) (λ e f. ground arith)

-- The event at 100 is more than the cooldown of 10 before the pass at 127.
reconcile_service-HasScaled_example :
    HasScaled memory_adapter readings web scale_up
      (pos 3)
      later
      (reconcile_service memory_adapter false no_zones readings web (pos 2) later)
unfolding memory_adapter ◌-ℤ◌ record_scale_event lookup insert
reconcile_service-HasScaled_example =
    reconcile_service-HasScaled no_zones memory_adapter readings web (pos 2) later scale_up (pos 3)
      later_plan (omega arith, omega arith) (inr (omega arith)) refl

plan_for-HasCause_example :
    let series = (Store.snapshot (pos 126) later.store).1 in
    (is_empty (decisions_of readings web (pos 2) series) ≡ false)
    × HasCause scale_up readings web (pos 2) (service_bounds no_zones web (pos 125)) series
plan_for-HasCause_example =
    plan_for-HasCause no_zones readings web (pos 2) later scale_up (pos 3) (omega arith) later_plan

room : ¬ IsOver world.store (prune (pos 66) world.store.series)
unfolding prune prune_samples cap_series total search_index search_loop search_slice quot
room over = omega (arith, over)

plan_for-planned_example :
    plan_for no_zones readings web (pos 2) world
    ≡ planned web.policies
        (pos 2)
        (pos 125)
        (service_bounds no_zones web (pos 125))
        (kept_view 4 (pos 66) (the_view recent))
unfolding ◌-ℤ◌
plan_for-planned_example =
    plan_for-planned no_zones readings web (pos 2) world store-IsWellFormed room

later_answered :
    (d : ScaleDecision ℤ) × (d.desired_count ≡ pos 3)
    × IsAnswered (pos 2) (Store.snapshot (pos 126) later.store).1 (pos 125) d web.policies
unfolding Policy.evaluate Window.evaluate evaluate_direction judge required_buckets Store.snapshot
    prune_samples enforce_sample_limits complete_buckets starts_before bucket_start oldest_start
    classify bucket_at collect truncate samples_of snapshot_samples lookup quot ◌+ℤ◌ ◌-ℤ◌ ◌*ℤ◌ emod
    int64 search_index search_loop search_slice prune cap_series total evict
later_answered = (_, refl, (window web_policy, _, inl refl, refl, refl))

reconcile_service-Meets_example :
    (n : ℤ) × Meets (service_bounds no_zones web (pos 125)) later_answered.0.desired_count n
    × HasScaled memory_adapter readings web scale_up n later
        (reconcile_service memory_adapter false no_zones readings web (pos 2) later)
unfolding memory_adapter ◌-ℤ◌ record_scale_event lookup insert service_bounds
reconcile_service-Meets_example =
    reconcile_service-Meets no_zones memory_adapter readings web (pos 2) later later_answered.0
      later_answered.2 (rw later_answered.1 (omega arith)) (omega arith) (omega arith)
      (omega arith, omega arith) (inr (omega arith)) (λ n. refl)
