-- ===== src/Reconciler/Outcome.antt =====
-- The branches of `reconcileService` (internal/reconciler/reconciler.go) by what they leave: the
-- cooldown, the recorded event and the reset said of the times and the policies themselves.
use ninjascale.Prelude.{Bool, true, false, ◌⊎◌, ◌≡◌, ◌≢◌, sym, List, arith, ℤ, string_key}
use mathlib.Core.Path.{subst}
use ninjascale.Metrics.{Float}
use ninjascale.Policy.Decision.{ScaleDecision}
use ninjascale.Policy.Target.{ExprLang}
use ninjascale.Schedule.{TimeZones, Bounds}
use ninjascale.Service.{Service}
use ninjascale.Adapter.{Adapter}
use ninjascale.Reconciler.{ScaleDirection, scale_none, Readings, World}
use ninjascale.Reconciler.Pass.{
  Plan, no_decision, hold, change, Reconciled, plan_of, reconcile_service,
}
use ninjascale.Reconciler.Carried.{Effect, idle, blocked, scaled, refused}
use ninjascale.Reconciler.Effects.{plan_for, reconcile_service-Effect}
use ninjascale.Reconciler.Conditions.{
  IsReset, HasEvent, MayScale, reset_policies-IsReset, record_scale_event-HasEvent,
  can_scale-MayScale,
}

-- A planned change has a direction, that of the count.
plan_of-way :
    {V : Type 0} (decisions : List (ScaleDecision V)) (current : ℤ) (bounds : Bounds)
    (direction : ScaleDirection) (desired : ℤ)
    → plan_of decisions current bounds ≡ change direction desired
    → direction ≢ scale_none
unfolding plan_of
plan_of-way decisions current bounds direction desired e q = ground arith

module _ {V P A : Type 0} (adapter : Adapter A) (dry_run : Bool) (at : Readings) (current : ℤ) where
  -- What a pass that plans `plan` for the service leaves in `r` of the world `w`.
  pub data Outcome (plan : Plan) (svc : Service V P) (w : World V A) (r : Reconciled V P A)
      : Type 0 where
    nothing_to_do :
        (plan ≡ no_decision) ⊎ ((desired : ℤ) × (plan ≡ hold desired))
        → r.service ≡ svc
        → r.world.state ≡ w.state
        → r.world.platform ≡ w.platform
        → r.failed ≡ false
        → Outcome plan svc w r
    in_cooldown :
        (direction : ScaleDirection) (desired : ℤ)
        → plan ≡ change direction desired
        → ¬ MayScale w.state svc current direction at.at_cooldown
        → r.service ≡ svc
        → r.world.state ≡ w.state
        → r.world.platform ≡ w.platform
        → r.failed ≡ false
        → Outcome plan svc w r
    carried_out :
        (direction : ScaleDirection) (desired : ℤ)
        → plan ≡ change direction desired
        → MayScale w.state svc current direction at.at_cooldown
        → ((dry_run ≡ true) × (r.world.platform ≡ w.platform))
          ⊎ ((dry_run ≡ false)
              × (adapter.scale svc.identifier desired w.platform ≡ (r.world.platform, true)))
        → IsReset at.at_start svc r.service
        → HasEvent svc direction at.at_start w.state r.world.state
        → r.failed ≡ false
        → Outcome plan svc w r
    not_accepted :
        (direction : ScaleDirection) (desired : ℤ)
        → plan ≡ change direction desired
        → MayScale w.state svc current direction at.at_cooldown
        → dry_run ≡ false
        → adapter.scale svc.identifier desired w.platform ≡ (r.world.platform, false)
        → r.service ≡ svc
        → r.world.state ≡ w.state
        → r.failed ≡ true
        → Outcome plan svc w r

  Effect-Outcome :
      (plan : Plan) (svc : Service V P) (w : World V A) (r : Reconciled V P A)
      → ((direction : ScaleDirection) (desired : ℤ)
          → plan ≡ change direction desired
          → direction ≢ scale_none)
      → Effect adapter dry_run at current plan svc w r
      → Outcome plan svc w r
  Effect-Outcome plan svc w r way (idle a b c d e) = nothing_to_do a b c d e
  Effect-Outcome plan svc w r way (blocked direction n e can b c d f) =
      in_cooldown direction n e
        (λ may. cc (can, (can_scale-MayScale w.state svc current direction at.at_cooldown).1 may)) b
        c d f
  Effect-Outcome plan svc w r way (scaled direction n e can p b c f) =
      carried_out direction n e
        ((can_scale-MayScale w.state svc current direction at.at_cooldown).0 can) p
        (subst (IsReset at.at_start svc) (sym b) (reset_policies-IsReset at.at_start svc))
        (subst (HasEvent svc direction at.at_start w.state) (sym c)
          (record_scale_event-HasEvent svc direction at.at_start w.state (way direction n e)))
        f
  Effect-Outcome plan svc w r way (refused direction n e can wet answer b c f) =
      not_accepted direction n e
        ((can_scale-MayScale w.state svc current direction at.at_cooldown).0 can) wet answer b c f

module _ {V P A : Type 0} ⦃float : Float V⦄ ⦃expr : ExprLang V P⦄ (zones : TimeZones) where
  -- A pass is one of four cases, by its plan. Nothing changes when nothing is to do, or when the
  -- cooldown of the change has not passed. A change that may be made calls the adapter once, or not
  -- at all in a dry run; after it, the start of the pass is the service's last event in that
  -- direction and no other last event has changed, and the service is as it was but for its window
  -- policies, which count from the start of the pass on. A call that fails changes neither the
  -- events nor the service.
  pub reconcile_service-Outcome :
      (adapter : Adapter A) (dry_run : Bool) (at : Readings) (svc : Service V P) (current : ℤ)
      (w : World V A)
      → Outcome adapter dry_run at current
          (plan_for zones at svc current w)
          svc
          w
          (reconcile_service adapter dry_run zones at svc current w)
  reconcile_service-Outcome adapter dry_run at svc current w =
      Effect-Outcome adapter dry_run at current (plan_for zones at svc current w) svc w _
        (plan_of-way _ current _) (reconcile_service-Effect zones adapter dry_run at svc current w)
