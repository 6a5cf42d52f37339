-- ===== src/Reconciler/Spacing.antt =====
-- Cooldowns over a sequence of passes (internal/reconciler/reconciler.go): between two passes that
-- record an event of one service in one direction lies a cooldown, whatever passes of any service
-- stand between them, and whatever the metric sources and the platform do in the meantime.
use ninjascale.Prelude.{
  Bool, false, inl, inr, ◌⊎◌, ◌≡◌, ◌≢◌, refl, sym, ap, ◌∙◌, String, ℤ, pos, ◌≤ℤ◌, ◌-ℤ◌,
}
use ninjascale.Time.{Time, is_zero, IsDuration}
use ninjascale.Metrics.{Float}
use ninjascale.Metrics.Store.{MetricStore}
use ninjascale.Policy.Target.{ExprLang}
use ninjascale.Schedule.{TimeZones}
use ninjascale.Service.{Service}
use ninjascale.Adapter.{Adapter}
use ninjascale.Reconciler.{
  ScaleDirection, scale_none, scale_up, States, Readings, World, can_scale, record_scale_event,
}
use ninjascale.Reconciler.Pass.{change, change-eq, Reconciled, reconcile_service}
use ninjascale.Reconciler.Carried.{Effect, idle, blocked, scaled, refused}
use ninjascale.Reconciler.Effects.{plan_for, reconcile_service-Effect}
use ninjascale.Reconciler.Cooldown.{
  cooldown_of, last_event, last_event-record_scale_event, last_event-record_self, can_scale-cooled,
}

module _ {V A : Type 0} (P : Type 0) ⦃float : Float V⦄ ⦃expr : ExprLang V P⦄ (zones : TimeZones)
    (adapter : Adapter A) (dry_run : Bool) where
  -- Passes that record no event of the service `name` in `direction`: those of other services,
  -- those that plan no change in that direction, and those that leave the state as it was.
  pub data Quiet (name : String) (direction : ScaleDirection) (w : World V A)
      : World V A → Type 0 where
    here : Quiet name direction w w
    pass :
        {v : World V A}
        → Quiet name direction w v
        → (at : Readings) (svc : Service V P) (current : ℤ)
        → (svc.name ≢ name)
          ⊎ (((n : ℤ) → plan_for zones at svc current v ≢ change direction n)
              ⊎ ((reconcile_service adapter dry_run zones at svc current v).world.state ≡ v.state))
        → Quiet name direction w (reconcile_service adapter dry_run zones at svc current v).world
    -- Samples arrive, and the platform changes on its own.
    meanwhile :
        {v : World V A}
        → Quiet name direction w v
        → (store : MetricStore V) (platform : A)
        → Quiet name direction w (record v { store = store; platform = platform })

  quiet_pass :
      (name : String) (direction : ScaleDirection) (at : Readings) (svc : Service V P) (current : ℤ)
      (v : World V A) (r : Reconciled V P A)
      → Effect adapter dry_run at current (plan_for zones at svc current v) svc v r
      → (svc.name ≢ name)
        ⊎ (((n : ℤ) → plan_for zones at svc current v ≢ change direction n)
            ⊎ (r.world.state ≡ v.state))
      → last_event name direction r.world.state ≡ last_event name direction v.state
  quiet_pass name direction at svc current v r (idle a b same d e) quiet =
      ap (last_event name direction) same
  quiet_pass name direction at svc current v r (blocked a b c d e same g h) quiet =
      ap (last_event name direction) same
  quiet_pass name direction at svc current v r (refused a b c d e f g same i) quiet =
      ap (last_event name direction) same
  quiet_pass name direction at svc current v r (scaled other n planned d e f event h) (inl apart) =
      ap (last_event name direction) event
      ∙ last_event-record_scale_event svc other direction at.at_start v.state name (inl apart)
  quiet_pass name direction at svc current v r (scaled other n planned d e f event h)
        (inr (inl never)) =
      ap (last_event name direction) event
      ∙ last_event-record_scale_event svc other direction at.at_start v.state name
          (inr (λ same. never n (planned ∙ ap (λ o. change o n) same)))
  quiet_pass name direction at svc current v r (scaled other n planned d e f event h)
        (inr (inr same)) =
      ap (last_event name direction) same

  Quiet-last_event :
      (name : String) (direction : ScaleDirection) {w v : World V A}
      → Quiet name direction w v
      → last_event name direction v.state ≡ last_event name direction w.state
  Quiet-last_event name direction here = refl
  Quiet-last_event name direction (pass {v = v} q at svc current quiet) =
      quiet_pass name direction at svc current v
        (reconcile_service adapter dry_run zones at svc current v)
        (reconcile_service-Effect zones adapter dry_run at svc current v) quiet
      ∙ Quiet-last_event name direction q
  Quiet-last_event name direction (meanwhile q store platform) = Quiet-last_event name direction q

  recorded_cooled :
      (at : Readings) (svc : Service V P) (current n : ℤ) (w : World V A)
      (direction : ScaleDirection) (r : Reconciled V P A) (last : Time)
      → Effect adapter dry_run at current (plan_for zones at svc current w) svc w r
      → plan_for zones at svc current w ≡ change direction n
      → r.world.state ≢ w.state
      → direction ≢ scale_none
      → last_event svc.name direction w.state ≡ last
      → is_zero last ≡ false
      → IsDuration (cooldown_of direction svc.cooldown)
      → ((direction ≡ scale_up) → current ≢ pos 0)
      → cooldown_of direction svc.cooldown ≤ℤ at.at_cooldown -ℤ last
  recorded_cooled at svc current n w direction r last (idle a b same d e) p moved way q nz fits
        nonzero =
      absurd (moved same)
  recorded_cooled at svc current n w direction r last (blocked a b c d e same g h) p moved way q nz
        fits nonzero =
      absurd (moved same)
  recorded_cooled at svc current n w direction r last (refused a b c d e f g same i) p moved way q
        nz fits nonzero =
      absurd (moved same)
  recorded_cooled at svc current n w direction r last (scaled other m planned can e f event h) p
        moved way q nz fits nonzero =
      let same : other ≡ direction = (change-eq (sym planned ∙ p)).0 in
      can_scale-cooled w.state svc current direction at.at_cooldown last way q nz fits nonzero
        (sym (ap (λ o. can_scale w.state svc current o at.at_cooldown) same) ∙ can)

  -- A pass records an event of `svc`, up or down, at an instant that is not the zero time; quiet
  -- passes follow; then a pass of a service of the same name plans a change in that direction and
  -- changes the cooldown state. Between the instant of the first and the cooldown reading of the
  -- last lies the cooldown of that direction, if it is a duration above the least, and unless the
  -- last one scales up from 0.
  pub cooldown_spacing :
      (svc svc' : Service V P) (direction : ScaleDirection) (start : States) (first : Time)
      (v w : World V A) (at : Readings) (current n : ℤ)
      → v.state ≡ record_scale_event svc direction first start
      → Quiet svc.name direction v w
      → svc'.name ≡ svc.name
      → plan_for zones at svc' current w ≡ change direction n
      → (reconcile_service adapter dry_run zones at svc' current w).world.state ≢ w.state
      → direction ≢ scale_none
      → is_zero first ≡ false
      → IsDuration (cooldown_of direction svc'.cooldown)
      → ((direction ≡ scale_up) → current ≢ pos 0)
      → cooldown_of direction svc'.cooldown ≤ℤ at.at_cooldown -ℤ first
  cooldown_spacing svc svc' direction start first v w at current n event quiet named planned moved
        way nz fits nonzero =
      recorded_cooled at svc' current n w direction
        (reconcile_service adapter dry_run zones at svc' current w) first
        (reconcile_service-Effect zones adapter dry_run at svc' current w) planned moved way
        (ap (λ name. last_event name direction w.state) named
          ∙ (Quiet-last_event svc.name direction quiet
              ∙ (ap (last_event svc.name direction) event
                  ∙ last_event-record_self svc direction first start way)))
        nz fits nonzero
