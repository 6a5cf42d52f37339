-- ===== src/Reconciler/Unordered.antt =====
-- That a pass (internal/reconciler/reconciler.go) does not depend on the order of the store's map:
-- a policy sees the histories, and a snapshot up to its order is enough to plan.
use mathlib.Core.Quot
use mathlib.Core.Quot.{Quot, Quot-set}
use ninjascale.Prelude.{
  ℕ, lookup, ◌-ℤ◌, ◌≡◌, refl, sym, ap, ◌∙◌, inl, inr, Option, none, some, List, [], ◌∷◌, String, ℤ,
  Bool-cases, Option-cases,
}
use ninjascale.Time.{Time, Duration}
use ninjascale.Metrics.{Float, MetricKey, key_beq, metric_key}
use ninjascale.Metrics.Store.{
  MetricStore, Series, samples_of, prune, snapshot, snapshot_samples, latest,
}
use ninjascale.Metrics.Store.Invariant.{IsWellFormed}
use ninjascale.Metrics.Store.Histories.{newest, newest_nil, recent, IsOver, snapshot-Holds}
use ninjascale.Metrics.Buckets.{complete_buckets}
use ninjascale.Policy.{Policy, window, target, evaluate}
use ninjascale.Policy.Window
use ninjascale.Policy.Window.{
  WindowPolicy, WindowThreshold, judge, evaluate_direction, evaluate_down, evaluate_up,
}
use ninjascale.Policy.Decision.{Direction, upscale, downscale, WindowEvaluation, ok}
use ninjascale.Policy.Target
use ninjascale.Policy.Target.{ExprLang, Env, bind_metrics, run_bound}
use ninjascale.Schedule.{TimeZones, Bounds}
use ninjascale.Service.{Service}
use ninjascale.Reconciler.{Readings, World, service_bounds}
use ninjascale.Reconciler.Effects.{plan_for}
use ninjascale.Reconciler.Pass.{Plan, Collected, plan_of, evaluate_all}

-- The same history at every key, whatever the order of the entries.
abbrev pub SameHistories : {V : Type 0} → Series V → Series V → Type 0
SameHistories m n = (k : MetricKey) → samples_of k m ≡ samples_of k n

module _ {V : Type 0} (m n : Series V) (same : SameHistories m n) where
  snapshot_samples-same : (k : MetricKey) → snapshot_samples m k ≡ snapshot_samples n k
  unfolding snapshot_samples
  snapshot_samples-same k = rw (same k, same (record { service = ""; name = k.name })) refl

  latest-same : (k : MetricKey) → latest m k ≡ latest n k
  unfolding latest
  latest-same k = rw (snapshot_samples-same k) refl

  complete_buckets-same :
      (k : MetricKey) (now : Time) (width : Duration) (count : ℤ) (cutoff : Time)
      → complete_buckets m k now width count cutoff ≡ complete_buckets n k now width count cutoff
  unfolding complete_buckets
  complete_buckets-same k now width count cutoff = rw (snapshot_samples-same k) refl

  bind_metrics-same :
      (service : String) (names : List String) (env : Env V)
      → bind_metrics service names m env ≡ bind_metrics service names n env
  unfolding bind_metrics
  bind_metrics-same service [] env = refl
  bind_metrics-same service (name ∷ names) env =
      let key : MetricKey = record { service = service; name = name } in
      elim (Option-cases (latest n key)) [
        | inl e ↦ rw (bind_metrics, latest-same key, e) refl
        | inr (s, e) ↦ rw (bind_metrics, latest-same key, e) (bind_metrics-same service names _)
      ]

  module _ ⦃float : Float V⦄ where
    evaluate_direction-same :
        (w : WindowPolicy V) (t : WindowThreshold V) (d : Direction) (current : ℤ) (now : Time)
        → evaluate_direction w t d current m now ≡ evaluate_direction w t d current n now
    unfolding evaluate_direction
    evaluate_direction-same w t d current now =
        ap (judge w t d current) (complete_buckets-same _ now w.bucket_duration _ w.reset_cutoff)

    evaluate_down-same :
        (w : WindowPolicy V) (o : Option (WindowThreshold V)) (seen : List WindowEvaluation)
        (current : ℤ) (now : Time)
        → evaluate_down w o seen current m now ≡ evaluate_down w o seen current n now
    evaluate_down-same w none seen current now = refl
    evaluate_down-same w (some t) seen current now =
        rw (evaluate_direction-same w t downscale current now) refl

    evaluate_up-same :
        (w : WindowPolicy V) (o : Option (WindowThreshold V)) (current : ℤ) (now : Time)
        → evaluate_up w o current m now ≡ evaluate_up w o current n now
    evaluate_up-same w none current now = evaluate_down-same w w.downscale_when [] current now
    evaluate_up-same w (some t) current now =
        let v = evaluate_direction w t upscale current n now in
        rw
          (
            evaluate_direction-same w t upscale current now,
            evaluate_down-same w w.downscale_when (v.observation ∷ []) current now,
          )
          refl

    module _ {P : Type 0} ⦃expr : ExprLang V P⦄ where
      evaluate-same :
          (p : Policy V P) (current : ℤ) (now : Time)
          → evaluate p current m now ≡ evaluate p current n now
      unfolding evaluate Window.evaluate Target.evaluate
      evaluate-same (window w) current now = ap ok (evaluate_up-same w w.upscale_when current now)
      evaluate-same (target t) current now =
          ap (run_bound t) (bind_metrics-same t.service t.metric_names _)

      evaluate_all-same :
          (ps : List (Policy V P)) (current : ℤ) (now : Time)
          → evaluate_all ps current m now ≡ evaluate_all ps current n now
      unfolding evaluate_all
      evaluate_all-same [] current now = refl
      evaluate_all-same (p ∷ ps) current now =
          rw (evaluate-same p current now, evaluate_all-same ps current now) refl

Plan-IsSet : IsSet Plan
Plan-IsSet = hlevel

-- A store's map up to the order of its entries.
abbrev pub View : Type 0 → Type 0
View V = Quot (λ (m n : Series V). SameHistories m n)

abbrev pub the_view : {V : Type 0} → Series V → View V
the_view m = Quot.mk m

module _ {V : Type 0} where
  -- Every history, from the cutoff on and within the limit of a series.
  abbrev keep_all : ℕ → Time → Series V → Series V
  keep_all limit cutoff [] = []
  keep_all limit cutoff ((k, vs) ∷ m) =
      (k, newest limit (recent cutoff vs)) ∷ keep_all limit cutoff m

  samples_of-keep_all :
      (limit : ℕ) (cutoff : Time) (m : Series V) (k : MetricKey)
      → samples_of k (keep_all limit cutoff m) ≡ newest limit (recent cutoff (samples_of k m))
  unfolding samples_of lookup
  samples_of-keep_all limit cutoff [] k = sym (newest_nil limit)
  samples_of-keep_all limit cutoff ((j, vs) ∷ m) k = elim (Bool-cases (key_beq j k)) [
    | inl e ↦ rw e refl
    | inr e ↦ rw e (samples_of-keep_all limit cutoff m k)
  ]

  keep_all-same :
      (limit : ℕ) (cutoff : Time) (m n : Series V)
      → SameHistories m n
      → SameHistories (keep_all limit cutoff m) (keep_all limit cutoff n)
  keep_all-same limit cutoff m n same k =
      samples_of-keep_all limit cutoff m k
      ∙ ap (λ vs. newest limit (recent cutoff vs)) (same k)
      ∙ sym (samples_of-keep_all limit cutoff n k)

  -- What a snapshot is of a map without an order.
  pub kept_view : ℕ → Time → View V → View V
  kept_view limit cutoff =
      Quot.lift Quot-set (λ m. Quot.mk (keep_all limit cutoff m))
        (λ m n same. Quot.sound (keep_all-same limit cutoff m n same))

  snapshot-kept_view :
      (now : Time) (s : MetricStore V)
      → IsWellFormed s
      → ¬ IsOver s (prune (now -ℤ s.retention) s.series)
      → (the_view (snapshot now s).1)
        ≡ kept_view s.max_samples_per_series (now -ℤ s.retention) (the_view s.series)
  unfolding kept_view
  snapshot-kept_view now s w room = Quot.sound (λ k. elim (snapshot-Holds now s k w) [
    | inl e ↦ e ∙ sym (samples_of-keep_all _ _ s.series k)
    | inr (suffix, over) ↦ absurd (room over)
  ])

module _ {V P : Type 0} ⦃float : Float V⦄ ⦃expr : ExprLang V P⦄ where
  -- The plan over a map without an order.
  pub planned : List (Policy V P) → ℤ → Time → Bounds → View V → Plan
  planned ps current now bounds =
      Quot.lift Plan-IsSet (λ m. plan_of (evaluate_all ps current m now).decisions current bounds)
        (λ m n same.
          ap (λ (c : Collected V). plan_of c.decisions current bounds)
            (evaluate_all-same m n same ps current now))

  -- A pass plans on the histories alone: unless the limit of the whole store is exceeded, the plan
  -- is that over the store's map without its order, of which every history is kept from the
  -- retention on and within the limit of a series.
  pub plan_for-planned :
      {A : Type 0} (zones : TimeZones) (at : Readings) (svc : Service V P) (current : ℤ)
      (w : World V A)
      → IsWellFormed w.store
      → ¬ IsOver w.store (prune (at.at_snapshot -ℤ w.store.retention) w.store.series)
      → plan_for zones at svc current w
        ≡ planned svc.policies current at.at_start (service_bounds zones svc at.at_start) (
            kept_view w.store.max_samples_per_series
              (at.at_snapshot -ℤ w.store.retention)
              (the_view w.store.series))
  unfolding planned
  plan_for-planned zones at svc current w well room =
      ap (planned svc.policies current at.at_start (service_bounds zones svc at.at_start))
        (snapshot-kept_view at.at_snapshot w.store well room)
