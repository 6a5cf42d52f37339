-- ===== src/Reconciler.antt =====
-- internal/reconciler/reconciler.go: one pass over the services. The clock's readings are
-- arguments; what goes to the metrics of internal/server is the list `recorded`; log lines are left
-- out. The lock makes each access to the cooldown state one step.
pub mod Pass
pub mod Tick
pub mod Desired
pub mod Cooldown
pub mod Spacing
pub mod Carried
pub mod Effects
pub mod Ticks
pub mod Run
pub mod Progress
pub mod Outcome
pub mod Conditions
pub mod Called
pub mod Cause
pub mod Demand
pub mod Unordered
use ninjascale.Prelude.{
  ℕ, Bool, true, false, not, ◌&&◌, Option, none, some, List, [], ◌∷◌, ◌++◌, map, String, str_eq,
  if◌then◌else◌, ℤ, pos, ltb_ℤ, leb_ℤ, eqb_ℤ, lookup, insert, string_key, is_empty,
}
use ninjascale.Time.{Time, Duration, zero_time, is_zero, sub}
use ninjascale.Metrics.{Float, MetricKey, Sample}
use ninjascale.Metrics.Store
use ninjascale.Metrics.Store.{MetricStore, Series, latest}
use ninjascale.Policy.{Policy, required_metrics, reset, evaluate}
use ninjascale.Policy.Decision.{
  Direction, ScaleDecision, WindowResult, WindowEvaluation, Evaluation, Evaluated, ok, err,
}
use ninjascale.Policy.Target.{ExprLang}
use ninjascale.Schedule.{TimeZones, Schedule, Bounds, get_active_bounds}
use ninjascale.Service.{Service}
use ninjascale.Adapter.{Adapter}

pub data ScaleDirection : Type 0 where
  scale_none scale_up scale_down : ScaleDirection

pub record ServiceState : Type 0 where
  pub last_upscale_time : Time
  pub last_downscale_time : Time

abbrev pub States : Type 0
States = List (String × ServiceState)

-- The calls of the `Record…` functions of internal/server.
pub data Recorded : Type 0 where
  current_scale : String → ℤ → Recorded
  metric_age : String → String → Duration → Recorded
  window_evaluation : String → Direction → WindowResult → Recorded
  desired_scale : String → ℤ → Recorded
  cooldown_active : String → ScaleDirection → Bool → Recorded
  scale_event : String → ScaleDirection → Recorded
  reconcile_latency : String → Duration → Recorded

-- The clock's readings in one `reconcileService`, in their order.
pub record Readings : Type 0 where
  pub at_start : Time
  pub at_snapshot : Time
  pub at_cooldown : Time
  pub at_end : Time

-- What a pass reads and changes, beside the services' own policies.
pub record World (V A : Type 0) : Type 0 where
  pub store : MetricStore V
  pub state : States
  pub platform : A
  pub recorded : List Recorded

-- `clamp`.
unfoldable pub clamp : ℤ → ℤ → ℤ → ℤ
clamp val min max = if ltb_ℤ val min then min else if ltb_ℤ max val then max else val

module _ {V : Type 0} where
  -- The first loop of `computeDesired`.
  unfoldable pub max_desired : ℤ → List (ScaleDecision V) → ℤ
  max_desired best [] = best
  max_desired best (d ∷ ds) =
      max_desired (if ltb_ℤ best d.desired_count then d.desired_count else best) ds

  -- The second loop: `downscaleTarget` is `target`, and an early return gives the current count.
  unfoldable pub downscale_target : ℤ → ℤ → List (ScaleDecision V) → ℤ
  downscale_target current target [] = target
  downscale_target current target (d ∷ ds) =
      let rest =
        downscale_target current (if ltb_ℤ target d.desired_count then d.desired_count else target)
          ds in
      if leb_ℤ current d.desired_count then current else rest

  unfoldable pub compute_desired : ℤ → List (ScaleDecision V) → ℤ
  compute_desired current decisions =
      let best = max_desired current decisions in
      if ltb_ℤ current best then best else downscale_target current (pos 0) decisions

abbrev pub active_bounds : Option Bounds → ℤ → ℤ → Bounds
active_bounds none min max = record { min = min; max = max }
active_bounds (some bounds) min max = bounds

-- The test of one direction's cooldown.
abbrev pub cooled_down : Time → Time → Duration → Bool
cooled_down now last cooldown = if is_zero last then true else leb_ℤ cooldown (sub now last)

abbrev pub fresh_state : ServiceState
fresh_state = record { last_upscale_time = zero_time; last_downscale_time = zero_time }

abbrev pub state_or_fresh : Option ServiceState → ServiceState
state_or_fresh none = fresh_state
state_or_fresh (some s) = s

abbrev pub mark : ScaleDirection → Time → ServiceState → ServiceState
mark scale_up now s = record s { last_upscale_time = now }
mark scale_down now s = record s { last_downscale_time = now }
mark scale_none now s = s

module _ {V P : Type 0} where
  unfoldable pub service_bounds : TimeZones → Service V P → Time → Bounds
  service_bounds zones svc now = elim svc.schedule [
    | none ↦ record { min = svc.min_count; max = svc.max_count }
    | some s ↦ active_bounds (get_active_bounds zones s now) svc.min_count svc.max_count
  ]

  -- `canScale`.
  abbrev pub may_scale : Option ServiceState → Service V P → ℤ → ScaleDirection → Time → Bool
  may_scale none svc current direction now = true
  may_scale (some s) svc current scale_up now =
      if eqb_ℤ current (pos 0)
      then true
      else cooled_down now s.last_upscale_time svc.cooldown.upscale
  may_scale (some s) svc current scale_down now =
      cooled_down now s.last_downscale_time svc.cooldown.downscale
  may_scale (some s) svc current scale_none now = true

  unfoldable pub can_scale : States → Service V P → ℤ → ScaleDirection → Time → Bool
  can_scale state svc current direction now =
      may_scale (lookup svc.name state) svc current direction now

  -- `recordScaleEvent`: the cooldown state, and the services' policies by their resets.
  unfoldable pub record_scale_event : Service V P → ScaleDirection → Time → States → States
  record_scale_event svc direction now state =
      insert svc.name (mark direction now (state_or_fresh (lookup svc.name state))) state

  unfoldable pub reset_policies : Service V P → Time → Service V P
  reset_policies svc now = record svc { policies = map (reset now) svc.policies }
