-- ===== src/Reconciler/Cooldown.antt =====
-- Cooldowns (internal/reconciler/reconciler.go, `canScale` and `recordScaleEvent`): two scale events
-- of one service in one direction are a cooldown apart, whatever passes stand between them.
use ninjascale.Prelude.{
  true, false, inl, inr, ◌⊎◌, ◌≡◌, ◌≢◌, refl, sym, ap, ◌∙◌, some, String, arith, ℤ, pos, ◌≤ℤ◌, ◌-ℤ◌,
  leb_ℤ→le, eqb_ℤ, eqb_ℤ→eq, lookup, lookup-insert, beq_refl, string_key, eq_iff, str_eq,
  Bool-cases, Option-cases,
}
use ninjascale.Time.{Time, Duration, zero_time, is_zero, sub-ge, IsDuration}
use ninjascale.Service.{CooldownConfig, Service}
use ninjascale.Reconciler.{
  ScaleDirection, scale_none, scale_up, scale_down, ServiceState, States, fresh_state,
  state_or_fresh, mark, cooled_down, may_scale, can_scale, record_scale_event,
}

abbrev pub last_of : ScaleDirection → ServiceState → Time
last_of scale_up s = s.last_upscale_time
last_of scale_down s = s.last_downscale_time
last_of scale_none s = zero_time

abbrev pub cooldown_of : ScaleDirection → CooldownConfig → Duration
cooldown_of scale_up c = c.upscale
cooldown_of scale_down c = c.downscale
cooldown_of scale_none c = pos 0

-- The last recorded event of a service in a direction.
abbrev pub last_event : String → ScaleDirection → States → Time
last_event name direction state = last_of direction (state_or_fresh (lookup name state))

mark_self :
    (direction : ScaleDirection) (now : Time) (s : ServiceState)
    → direction ≢ scale_none
    → last_of direction (mark direction now s) ≡ now
mark_self scale_up now s h = refl
mark_self scale_down now s h = refl
mark_self scale_none now s h = absurd (h refl)

mark-other :
    (direction other : ScaleDirection) (now : Time) (s : ServiceState)
    → direction ≢ other
    → last_of other (mark direction now s) ≡ last_of other s
mark-other direction other now s h = ground arith

not_left {ℓ κ} : {A : Type ℓ} {B : Type κ} → (¬ A) ⊎ B → A → B
not_left (inl n) a = absurd (n a)
not_left (inr b) a = b

fresh-zero : (direction : ScaleDirection) → last_of direction fresh_state ≡ zero_time
fresh-zero scale_up = refl
fresh-zero scale_down = refl
fresh-zero scale_none = refl

cooled_down-le :
    (now last : Time) (cooldown : Duration)
    → IsDuration cooldown
    → is_zero last ≡ false
    → cooled_down now last cooldown ≡ true
    → cooldown ≤ℤ now -ℤ last
cooled_down-le now last cooldown fits nz h =
    leb_ℤ→le cooldown (now -ℤ last) (sym (sub-ge now last cooldown fits) ∙ (rw nz at h))

module _ {V P : Type 0} where
  may_scale-cooled :
      (s : ServiceState) (svc : Service V P) (current : ℤ) (direction : ScaleDirection)
      (now last : Time)
      → direction ≢ scale_none
      → last_of direction s ≡ last
      → is_zero last ≡ false
      → IsDuration (cooldown_of direction svc.cooldown)
      → ((direction ≡ scale_up) → current ≢ pos 0)
      → may_scale (some s) svc current direction now ≡ true
      → cooldown_of direction svc.cooldown ≤ℤ now -ℤ last
  may_scale-cooled s svc current scale_none now last way e nz fits nonzero can = absurd (way refl)
  may_scale-cooled s svc current scale_down now last way e nz fits nonzero can =
      cooled_down-le now last svc.cooldown.downscale fits nz
        (ap (λ l. cooled_down now l svc.cooldown.downscale) (sym e) ∙ can)
  may_scale-cooled s svc current scale_up now last way e nz fits nonzero can =
      elim (Bool-cases (eqb_ℤ current (pos 0))) [
        | inl q ↦ absurd (nonzero refl (eqb_ℤ→eq current (pos 0) q))
        | inr q ↦
            cooled_down-le now last svc.cooldown.upscale fits nz
              (ap (λ l. cooled_down now l svc.cooldown.upscale) (sym e) ∙ (rw q at can))
      ]

  -- An event changes what is recorded of its own service and direction only.
  pub last_event-record_scale_event :
      (svc : Service V P) (direction other : ScaleDirection) (now : Time) (state : States)
      (name : String)
      → (svc.name ≢ name) ⊎ (direction ≢ other)
      → last_event name other (record_scale_event svc direction now state)
        ≡ last_event name other state
  unfolding record_scale_event
  last_event-record_scale_event svc direction other now state name apart =
      rw
        (lookup-insert svc.name name (mark direction now (state_or_fresh (lookup svc.name state)))
          state)
        (elim (Bool-cases (str_eq svc.name name)) [
          | inr q ↦ rw q refl
          | inl q ↦
              let same : svc.name ≡ name = (eq_iff svc.name name).0 q in
              rw q (
                mark-other direction other now (state_or_fresh (lookup svc.name state))
                  (not_left apart same)
                ∙ ap (λ n. last_event n other state) same)
        ])

  pub last_event-record_self :
      (svc : Service V P) (direction : ScaleDirection) (now : Time) (state : States)
      → direction ≢ scale_none
      → last_event svc.name direction (record_scale_event svc direction now state) ≡ now
  unfolding record_scale_event
  last_event-record_self svc direction now state h =
      rw
        (
          lookup-insert svc.name svc.name
              (mark direction now (state_or_fresh (lookup svc.name state))) state,
          beq_refl svc.name,
        )
        (mark_self direction now (state_or_fresh (lookup svc.name state)) h)

  -- A direction that may scale has cooled down since its last event, but for scaling up from zero.
  pub can_scale-cooled :
      (state : States) (svc : Service V P) (current : ℤ) (direction : ScaleDirection)
      (now last : Time)
      → direction ≢ scale_none
      → last_event svc.name direction state ≡ last
      → is_zero last ≡ false
      → IsDuration (cooldown_of direction svc.cooldown)
      → ((direction ≡ scale_up) → current ≢ pos 0)
      → can_scale state svc current direction now ≡ true
      → cooldown_of direction svc.cooldown ≤ℤ now -ℤ last
  unfolding can_scale
  can_scale-cooled state svc current direction now last some_way e nz fits nonzero can =
      elim (Option-cases (lookup svc.name state)) [
        | inl absent ↦ absurd (
            cc (
              sym nz
              ∙ ap is_zero (
                  sym e
                  ∙ ap (λ o. last_of direction (state_or_fresh o)) absent
                  ∙ fresh-zero direction)))
        | inr (s, found) ↦
            may_scale-cooled s svc current direction now last some_way
              (sym (ap (λ o. last_of direction (state_or_fresh o)) found) ∙ e) nz fits nonzero
              (sym (ap (λ o. may_scale o svc current direction now) found) ∙ can)
      ]
