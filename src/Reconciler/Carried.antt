-- ===== src/Reconciler/Carried.antt =====
-- What a plan comes to when it is carried out (internal/reconciler/reconciler.go, `reconcileService`
-- after the decision): the branches on the plan, the cooldown, the dry run and the adapter's answer.
use ninjascale.Prelude.{
  Bool, true, false, inl, inr, ◌⊎◌, ◌≡◌, refl, List, [], ◌∷◌, ◌++◌, arith, ℤ, ◌≤ℤ◌, ◌<ℤ◌,
  Bool-cases,
}
use ninjascale.Metrics.Store
use ninjascale.Policy.Decision.{ScaleDecision}
use ninjascale.Schedule.{Bounds}
use ninjascale.Service.{Service}
use ninjascale.Adapter.{Adapter}
use ninjascale.Reconciler.{
  ScaleDirection, scale_up, scale_down, Recorded, cooldown_active, desired_scale, Readings, World,
  compute_desired, can_scale, record_scale_event, reset_policies,
}
use ninjascale.Reconciler.Pass.{
  Plan, no_decision, hold, change, Reconciled, plan_of, succeed, after_scale, execute, carry_out,
}
use ninjascale.Reconciler.Desired.{clamp_lem}

-- The direction of a change is that of the count.
abbrev pub Agrees : ScaleDirection → ℤ → ℤ → Type 0
Agrees direction current desired =
    ((direction ≡ scale_up) × (current <ℤ desired))
    ⊎ ((direction ≡ scale_down) × (desired <ℤ current))

pub Agrees-ne :
    (direction : ScaleDirection) (current n : ℤ)
    → Agrees direction current n
    → (current <ℤ n) ⊎ (n <ℤ current)
Agrees-ne direction current n (inl a) = inl a.1
Agrees-ne direction current n (inr a) = inr a.1

-- With bounds in order a planned change is to a count within the bounds, it is not the current
-- count, and its direction is up for a larger and down for a smaller count.
pub plan_of_lem :
    {V : Type 0} (decisions : List (ScaleDecision V)) (current : ℤ) (bounds : Bounds)
    (direction : ScaleDirection) (desired : ℤ)
    → bounds.min ≤ℤ bounds.max
    → plan_of decisions current bounds ≡ change direction desired
    → (bounds.min ≤ℤ desired) × (desired ≤ℤ bounds.max) × Agrees direction current desired
unfolding plan_of
plan_of_lem decisions current bounds direction desired h e =
    ground (arith, clamp_lem (compute_desired current decisions) bounds.min bounds.max h)

module _ {V P A : Type 0} (adapter : Adapter A) (dry_run : Bool) (at : Readings) (current : ℤ) where
  -- How a pass that plans `plan` for the service takes `w` to `r`. A failed call of the adapter
  -- leaves the cooldown state and the policies as they were.
  pub data Effect (plan : Plan) (svc : Service V P) (w : World V A) (r : Reconciled V P A)
      : Type 0 where
    idle :
        (plan ≡ no_decision) ⊎ ((desired : ℤ) × (plan ≡ hold desired))
        → r.service ≡ svc
        → r.world.state ≡ w.state
        → r.world.platform ≡ w.platform
        → r.failed ≡ false
        → Effect plan svc w r
    blocked :
        (direction : ScaleDirection) (desired : ℤ)
        → plan ≡ change direction desired
        → can_scale w.state svc current direction at.at_cooldown ≡ false
        → r.service ≡ svc
        → r.world.state ≡ w.state
        → r.world.platform ≡ w.platform
        → r.failed ≡ false
        → Effect plan svc w r
    scaled :
        (direction : ScaleDirection) (desired : ℤ)
        → plan ≡ change direction desired
        → can_scale w.state svc current direction at.at_cooldown ≡ true
        → ((dry_run ≡ true) × (r.world.platform ≡ w.platform))
          ⊎ ((dry_run ≡ false)
              × (adapter.scale svc.identifier desired w.platform ≡ (r.world.platform, true)))
        → r.service ≡ reset_policies svc at.at_start
        → r.world.state ≡ record_scale_event svc direction at.at_start w.state
        → r.failed ≡ false
        → Effect plan svc w r
    refused :
        (direction : ScaleDirection) (desired : ℤ)
        → plan ≡ change direction desired
        → can_scale w.state svc current direction at.at_cooldown ≡ true
        → dry_run ≡ false
        → adapter.scale svc.identifier desired w.platform ≡ (r.world.platform, false)
        → r.service ≡ svc
        → r.world.state ≡ w.state
        → r.failed ≡ true
        → Effect plan svc w r

  module _ (plan : Plan) (svc : Service V P) (w : World V A) where
    -- What only the store and the recorded metrics differ in has the same effects.
    pub Effect-world :
        (store : Store.MetricStore V) (events : List Recorded) (r : Reconciled V P A)
        → Effect plan svc (record w { store = store; recorded = events }) r
        → Effect plan svc w r
    Effect-world store events r (idle a b c d e) = idle a b c d e
    Effect-world store events r (blocked a b c d e f g h) = blocked a b c d e f g h
    Effect-world store events r (scaled a b c d e f g h) = scaled a b c d e f g h
    Effect-world store events r (refused a b c d e f g h i) = refused a b c d e f g h i

    pub Effect-recorded :
        (events : List Recorded) (r : Reconciled V P A)
        → Effect plan svc w r
        → Effect plan svc w (record r { world = record r.world { recorded = events } })
    Effect-recorded events r (idle a b c d e) = idle a b c d e
    Effect-recorded events r (blocked a b c d e f g h) = blocked a b c d e f g h
    Effect-recorded events r (scaled a b c d e f g h) = scaled a b c d e f g h
    Effect-recorded events r (refused a b c d e f g h i) = refused a b c d e f g h i

module _ {V P A : Type 0} (adapter : Adapter A) (at : Readings) (current : ℤ) where
  -- The answer of the adapter, by its second part.
  after_scale-Effect :
      (svc : Service V P) (direction : ScaleDirection) (desired : ℤ) (w : World V A)
      (answer : A × Bool)
      → can_scale w.state svc current direction at.at_cooldown ≡ true
      → adapter.scale svc.identifier desired w.platform ≡ answer
      → Effect adapter false at current
          (change direction desired)
          svc
          w
          (after_scale adapter false svc direction at.at_start w answer)
  unfolding succeed
  after_scale-Effect svc direction desired w (platform, true) can e =
      scaled direction desired refl can (inr (refl, e)) refl refl refl
  after_scale-Effect svc direction desired w (platform, false) can e =
      refused direction desired refl can refl e refl refl refl

  execute-Effect :
      (dry_run : Bool) (svc : Service V P) (direction : ScaleDirection) (desired : ℤ)
      (w : World V A)
      → Effect adapter dry_run at current
          (change direction desired)
          svc
          w
          (execute adapter dry_run at svc current direction desired w)
  unfolding execute succeed
  execute-Effect true svc direction desired w =
      elim (Bool-cases (can_scale w.state svc current direction at.at_cooldown)) [
        | inr no_scale ↦ rw no_scale (blocked direction desired refl no_scale refl refl refl refl)
        | inl can ↦ rw can (scaled direction desired refl can (inl (refl, refl)) refl refl refl)
      ]
  execute-Effect false svc direction desired w =
      elim (Bool-cases (can_scale w.state svc current direction at.at_cooldown)) [
        | inr no_scale ↦ rw no_scale (blocked direction desired refl no_scale refl refl refl refl)
        | inl can ↦
            let w' : World V A = record w {
              recorded = w.recorded ++ (cooldown_active svc.name direction false ∷ []);
            } in
            rw can (
              Effect-world adapter false at current (change direction desired) svc w w.store
                w'.recorded _ (after_scale-Effect svc direction desired w' _ can refl))
      ]

  pub carry_out-Effect :
      (dry_run : Bool) (svc : Service V P) (plan : Plan) (w : World V A)
      → Effect adapter dry_run at current plan svc w
          (carry_out adapter dry_run at svc current plan w)
  unfolding carry_out
  carry_out-Effect dry_run svc no_decision w = idle (inl refl) refl refl refl refl
  carry_out-Effect dry_run svc (hold desired) w = idle (inr (desired, refl)) refl refl refl refl
  carry_out-Effect dry_run svc (change direction desired) w =
      Effect-world adapter dry_run at current (change direction desired) svc w w.store
        (w.recorded ++ (desired_scale svc.name desired ∷ [])) _
        (execute-Effect dry_run svc direction desired
          (record w { recorded = w.recorded ++ (desired_scale svc.name desired ∷ []) }))
