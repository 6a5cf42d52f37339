-- ===== src/Reconciler/Progress.antt =====
-- When `reconcileService` of internal/reconciler/reconciler.go does scale: nothing but the cooldown,
-- a dry run and the adapter's refusal stands between a planned change and the platform.
use ninjascale.Prelude.{
  true, false, inl, inr, ◌⊎◌, ◌≡◌, refl, sym, ap, ◌∙◌, some, ℤ, pos, ◌≤ℤ◌, ◌-ℤ◌, leb_ℤ, le→leb_ℤ,
  eqb_ℤ, lookup, string_key, Bool-cases, Option-cases,
}
use ninjascale.Time.{Time, Duration, is_zero, sub, sub-ge, IsDuration}
use ninjascale.Metrics.{Float}
use ninjascale.Policy.Target.{ExprLang}
use ninjascale.Schedule.{TimeZones}
use ninjascale.Service.{Service}
use ninjascale.Adapter.{Adapter}
use ninjascale.Reconciler.{
  ScaleDirection, scale_none, scale_up, scale_down, ServiceState, States, Readings, World,
  cooled_down, may_scale, can_scale, record_scale_event, reset_policies,
}
use ninjascale.Reconciler.Pass.{Plan, change, change-eq, Reconciled, reconcile_service}
use ninjascale.Reconciler.Carried.{Effect, idle, blocked, scaled, refused}
use ninjascale.Reconciler.Effects.{plan_for, reconcile_service-Effect}
use ninjascale.Reconciler.Cooldown.{cooldown_of, last_of, last_event}

-- The service has no event in the direction yet, or its cooldown has passed since the last one.
abbrev pub HasCooled : Time → Time → Duration → Type 0
HasCooled now last cooldown = (is_zero last ≡ true) ⊎ (cooldown ≤ℤ now -ℤ last)

cooled_down-HasCooled :
    (now last : Time) (cooldown : Duration)
    → IsDuration cooldown
    → HasCooled now last cooldown
    → cooled_down now last cooldown ≡ true
cooled_down-HasCooled now last cooldown fits (inl z) = rw z refl
cooled_down-HasCooled now last cooldown fits (inr h) =
    let waited : leb_ℤ cooldown (sub now last) ≡ true =
      sub-ge now last cooldown fits ∙ le→leb_ℤ cooldown (now -ℤ last) h in
    elim (Bool-cases (is_zero last)) [ inl z ↦ rw z refl | inr z ↦ rw z waited ]

module _ {V P : Type 0} where
  may_scale-HasCooled :
      (s : ServiceState) (svc : Service V P) (current : ℤ) (direction : ScaleDirection) (now : Time)
      → IsDuration (cooldown_of direction svc.cooldown)
      → HasCooled now (last_of direction s) (cooldown_of direction svc.cooldown)
      → may_scale (some s) svc current direction now ≡ true
  may_scale-HasCooled s svc current scale_none now fits h = refl
  may_scale-HasCooled s svc current scale_down now fits h =
      cooled_down-HasCooled now s.last_downscale_time svc.cooldown.downscale fits h
  may_scale-HasCooled s svc current scale_up now fits h =
      elim (Bool-cases (eqb_ℤ current (pos 0))) [
        | inl z ↦ rw z refl
        | inr z ↦ rw z (cooled_down-HasCooled now s.last_upscale_time svc.cooldown.upscale fits h)
      ]

  can_scale-HasCooled :
      (state : States) (svc : Service V P) (current : ℤ) (direction : ScaleDirection) (now : Time)
      → IsDuration (cooldown_of direction svc.cooldown)
      → HasCooled now (last_event svc.name direction state) (cooldown_of direction svc.cooldown)
      → can_scale state svc current direction now ≡ true
  unfolding can_scale
  can_scale-HasCooled state svc current direction now fits h =
      elim (Option-cases (lookup svc.name state)) [
        | inl absent ↦ rw absent refl
        | inr (s, found) ↦
            rw found (may_scale-HasCooled s svc current direction now fits (rw found at h))
      ]

-- What a pass that scaled leaves: the platform's answer, the event, and policies that are reset.
pub record HasScaled {V P A : Type 0} (adapter : Adapter A) (at : Readings) (svc : Service V P)
    (direction : ScaleDirection) (desired : ℤ) (w : World V A) (r : Reconciled V P A) : Type 0 where
  pub platform : r.world.platform ≡ (adapter.scale svc.identifier desired w.platform).0
  pub event : r.world.state ≡ record_scale_event svc direction at.at_start w.state
  pub policies : r.service ≡ reset_policies svc at.at_start
  pub succeeds : r.failed ≡ false

module _ {V P A : Type 0} (adapter : Adapter A) (at : Readings) (current : ℤ) where
  Effect-HasScaled :
      (plan : Plan) (svc : Service V P) (w : World V A) (r : Reconciled V P A)
      (direction : ScaleDirection) (desired : ℤ)
      → plan ≡ change direction desired
      → can_scale w.state svc current direction at.at_cooldown ≡ true
      → (adapter.scale svc.identifier desired w.platform).1 ≡ true
      → Effect adapter false at current plan svc w r
      → HasScaled adapter at svc direction desired w r
  Effect-HasScaled plan svc w r direction desired e can accepted (idle (inl a) b c d f) = absurd cc
  Effect-HasScaled plan svc w r direction desired e can accepted (idle (inr (n, a)) b c d f) =
      absurd cc
  Effect-HasScaled plan svc w r direction desired e can accepted (blocked o n a stop c d f g) =
      let same : o ≡ direction = (change-eq (sym a ∙ e)).0 in
      let allowed : can_scale w.state svc current o at.at_cooldown ≡ true =
        ap (λ x. can_scale w.state svc current x at.at_cooldown) same ∙ can in
      absurd cc
  Effect-HasScaled plan svc w r direction desired e can accepted
        (scaled o n a b (inl (dry, p)) c d f) =
      absurd cc
  Effect-HasScaled plan svc w r direction desired e can accepted
        (scaled o n a b (inr (wet, p)) c d f) =
      let same = change-eq (sym a ∙ e) in
      record {
        platform =
            sym (ap (λ x. x.0) p) ∙ ap (λ x. (adapter.scale svc.identifier x w.platform).0) same.1;
        event = d ∙ ap (λ x. record_scale_event svc x at.at_start w.state) same.0;
        policies = c;
        succeeds = f;
      }
  Effect-HasScaled plan svc w r direction desired e can accepted (refused o n a b wet p c d f) =
      let answer : (adapter.scale svc.identifier desired w.platform).1 ≡ false =
        ap (λ x. (adapter.scale svc.identifier x w.platform).1) (sym (change-eq (sym a ∙ e)).1)
        ∙ ap (λ x. x.1) p in
      absurd cc

module _ {V P A : Type 0} ⦃float : Float V⦄ ⦃expr : ExprLang V P⦄ (zones : TimeZones) where
  -- A pass outside a dry run that plans a change carries it out, once the service has no event in
  -- that direction or the cooldown, a duration above the least, has passed since the last one, and
  -- the adapter accepts: the platform is what the adapter leaves for the planned count, the event
  -- is recorded, and every policy is reset.
  pub reconcile_service-HasScaled :
      (adapter : Adapter A) (at : Readings) (svc : Service V P) (current : ℤ) (w : World V A)
      (direction : ScaleDirection) (desired : ℤ)
      → plan_for zones at svc current w ≡ change direction desired
      → IsDuration (cooldown_of direction svc.cooldown)
      → HasCooled at.at_cooldown
          (last_event svc.name direction w.state)
          (cooldown_of direction svc.cooldown)
      → (adapter.scale svc.identifier desired w.platform).1 ≡ true
      → HasScaled adapter at svc direction desired w
          (reconcile_service adapter false zones at svc current w)
  reconcile_service-HasScaled adapter at svc current w direction desired e fits cooled accepted =
      Effect-HasScaled adapter at current (plan_for zones at svc current w) svc w _ direction
        desired e (can_scale-HasCooled w.state svc current direction at.at_cooldown fits cooled)
        accepted (reconcile_service-Effect zones adapter false at svc current w)
