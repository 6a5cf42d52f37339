-- ===== src/Reconciler/Pass.antt =====
-- internal/reconciler/reconciler.go, `reconcileService`: first what the policies decide, then what
-- the reconciler does about it.
use ninjascale.Prelude.{
  ◌≡◌, Bool, true, false, not, Option, none, some, List, [], ◌∷◌, ◌++◌, map, String, str_eq,
  if◌then◌else◌, ℤ, ltb_ℤ, eqb_ℤ, is_empty, any,
}
use ninjascale.Time.{Time, sub}
use ninjascale.Metrics.{Float, Sample}
use ninjascale.Metrics.Store
use ninjascale.Metrics.Store.{Series, latest}
use ninjascale.Policy.{Policy, required_metrics, evaluate}
use ninjascale.Policy.Decision.{ScaleDecision, WindowEvaluation, Evaluated, ok, err}
use ninjascale.Policy.Target.{ExprLang}
use ninjascale.Schedule.{TimeZones, Bounds}
use ninjascale.Service.{Service}
use ninjascale.Adapter.{Adapter}
use ninjascale.Reconciler.{
  ScaleDirection, scale_up, scale_down, Recorded, current_scale, metric_age, window_evaluation,
  desired_scale, cooldown_active, scale_event, reconcile_latency, Readings, World, clamp,
  compute_desired, service_bounds, can_scale, record_scale_event, reset_policies,
}

-- What the loop over the policies collects.
pub record Collected (V : Type 0) : Type 0 where
  pub decisions : List (ScaleDecision V)
  pub windows : List WindowEvaluation

-- What the pass comes to before cooldowns: no decision, no change, or a change.
pub data Plan : Type 0 where
  no_decision : Plan
  hold : (desired : ℤ) → Plan
  change : ScaleDirection → (desired : ℤ) → Plan

pub change-eq : {a b : ScaleDirection} {m n : ℤ} → change a m ≡ change b n → (a ≡ b) × (m ≡ n)
change-eq e = (cc, cc)

-- A pass leaves the service, whose policies may be reset, the world, and whether it failed.
pub record Reconciled (V P A : Type 0) : Type 0 where
  pub service : Service V P
  pub world : World V A
  pub failed : Bool

module _ {V : Type 0} where
  abbrev add_decision : Option (ScaleDecision V) → List (ScaleDecision V) → List (ScaleDecision V)
  add_decision none ds = ds
  add_decision (some d) ds = d ∷ ds

  -- A policy that fails is logged and passed over.
  abbrev pub add_evaluated : Evaluated V → Collected V → Collected V
  add_evaluated (err e) c = c
  add_evaluated (ok e) c = record {
    decisions = add_decision e.decision c.decisions;
    windows = e.windows ++ c.windows;
  }

  -- Steps 3 to 6, over the decisions.
  unfoldable pub plan_of : List (ScaleDecision V) → ℤ → Bounds → Plan
  plan_of decisions current bounds =
      let desired = clamp (compute_desired current decisions) bounds.min bounds.max in
      if is_empty decisions
      then no_decision
      else if eqb_ℤ desired current
      then hold desired
      else change (if ltb_ℤ desired current then scale_down else scale_up) desired

  -- The metric ages: each name once, in the order of the policies, if it has a sample.
  abbrev age_of : String → String → Time → Option (Sample V) → List Recorded
  age_of service name now none = []
  age_of service name now (some s) = metric_age service name (sub now s.observed_at) ∷ []

  unfoldable pub metric_ages : String → List String → List String → Series V → Time → List Recorded
  metric_ages service [] seen series now = []
  metric_ages service (name ∷ names) seen series now =
      let rest = metric_ages service names (name ∷ seen) series now in
      let rest_seen = metric_ages service names seen series now in
      if any (str_eq name) seen
      then rest_seen
      else age_of service name now (latest series (record { service = service; name = name }))
        ++ rest

  abbrev record_all : {A : Type 0} → List Recorded → World V A → World V A
  record_all events w = record w { recorded = w.recorded ++ events }

abbrev pub observed : List WindowEvaluation → List Recorded
observed = map (λ e. window_evaluation e.service e.direction e.result)

module _ {V P : Type 0} where
  unfoldable pub all_required : List (Policy V P) → List String
  all_required [] = []
  all_required (p ∷ ps) = required_metrics p ++ all_required ps

  module _ ⦃float : Float V⦄ ⦃expr : ExprLang V P⦄ where
    -- Step 2: every policy sees the same count, snapshot and instant.
    unfoldable pub evaluate_all : List (Policy V P) → ℤ → Series V → Time → Collected V
    evaluate_all [] current series now = record { decisions = []; windows = [] }
    evaluate_all (p ∷ ps) current series now =
        add_evaluated (evaluate p current series now) (evaluate_all ps current series now)

  module _ {A : Type 0} (adapter : Adapter A) (dry_run : Bool) where
    -- Step 9.
    unfoldable pub succeed : Service V P → ScaleDirection → Time → World V A → Reconciled V P A
    succeed svc direction now w = record {
      service = reset_policies svc now;
      world = record w {
        state = record_scale_event svc direction now w.state;
        recorded = w.recorded ++ (scale_event svc.name direction ∷ []);
      };
      failed = false;
    }

    -- `r.adapter.Scale`, whose error ends the pass.
    abbrev pub after_scale :
        Service V P → ScaleDirection → Time → World V A → A × Bool → Reconciled V P A
    after_scale svc direction now w (platform, scaled) =
        let w' = record w { platform = platform } in
        if scaled
        then succeed svc direction now w'
        else record { service = svc; world = w'; failed = true }

    -- Steps 7 and 8.
    unfoldable pub execute :
        Readings → Service V P → ℤ → ScaleDirection → ℤ → World V A → Reconciled V P A
    execute at svc current direction desired w =
        let allowed = can_scale w.state svc current direction at.at_cooldown in
        let w' = record_all (cooldown_active svc.name direction (not allowed) ∷ []) w in
        if not allowed
        then record { service = svc; world = w'; failed = false }
        else if dry_run
        then succeed svc direction at.at_start w'
        else after_scale svc direction at.at_start w'
            (adapter.scale svc.identifier desired w'.platform)

    unfoldable pub carry_out : Readings → Service V P → ℤ → Plan → World V A → Reconciled V P A
    carry_out at svc current no_decision w = record { service = svc; world = w; failed = false }
    carry_out at svc current (hold desired) w = record {
      service = svc;
      world = record_all (desired_scale svc.name desired ∷ []) w;
      failed = false;
    }
    carry_out at svc current (change direction desired) w =
        execute at svc current direction desired
          (record_all (desired_scale svc.name desired ∷ []) w)

    -- The deferred `RecordReconcileLatency`.
    abbrev pub finish : Readings → Reconciled V P A → Reconciled V P A
    finish at r = record r {
      world =
          record_all (reconcile_latency r.service.name (sub at.at_end at.at_start) ∷ []) r.world;
    }

    module _ ⦃float : Float V⦄ ⦃expr : ExprLang V P⦄ (zones : TimeZones) where
      unfoldable pub reconcile_service : Readings → Service V P → ℤ → World V A → Reconciled V P A
      reconcile_service at svc current w =
          let now = at.at_start in
          let (store, series) = Store.snapshot at.at_snapshot w.store in
          let collected = evaluate_all svc.policies current series now in
          let w' = record w {
            store = store;
            recorded =
                w.recorded
                ++ (current_scale svc.name current
                    ∷ (metric_ages svc.name (all_required svc.policies) [] series now
                        ++ observed collected.windows));
          } in
          finish at (
            carry_out at svc current
              (plan_of collected.decisions current (service_bounds zones svc now)) w')
