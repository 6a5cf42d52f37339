-- ===== src/Reconciler/Conditions.antt =====
-- The cooldown, the recorded event and the reset of internal/reconciler/reconciler.go, said of the
-- times and the policies themselves.
use ninjascale.Prelude.{
  true, inl, inr, ◌⊎◌, ◌≡◌, ◌≢◌, ◌↔◌, refl, List, [], ◌∷◌, map, Option, none, some, String, arith,
  ℤ, pos, ◌≤ℤ◌, lookup, string_key, str_eq, eq_iff, Bool-cases,
}
use ninjascale.Time.{Time, Duration, zero_time, sub}
use ninjascale.Policy
use ninjascale.Policy.{Policy, window, target}
use ninjascale.Policy.Window
use ninjascale.Service.{Service}
use ninjascale.Reconciler.{
  ScaleDirection, scale_none, scale_up, scale_down, ServiceState, States, cooled_down,
  state_or_fresh, may_scale, can_scale, record_scale_event, reset_policies,
}
use ninjascale.Reconciler.Cooldown.{
  last_of, last_event, last_event-record_scale_event, last_event-record_self,
}

same_way : (d e : ScaleDirection) → (d ≡ e) ⊎ (d ≢ e)
same_way scale_none scale_none = inl refl
same_way scale_none scale_up = inr (λ h. cc)
same_way scale_none scale_down = inr (λ h. cc)
same_way scale_up scale_none = inr (λ h. cc)
same_way scale_up scale_up = inl refl
same_way scale_up scale_down = inr (λ h. cc)
same_way scale_down scale_none = inr (λ h. cc)
same_way scale_down scale_up = inr (λ h. cc)
same_way scale_down scale_down = inl refl

-- There is no event yet, or the cooldown has passed since the last one, by `time.Sub`.
abbrev pub IsCooled : Time → Time → Duration → Type 0
IsCooled now last cooldown = (last ≡ zero_time) ⊎ (cooldown ≤ℤ sub now last)

cooled_down-IsCooled :
    (now last : Time) (cooldown : Duration)
    → (cooled_down now last cooldown ≡ true) ↔ IsCooled now last cooldown
cooled_down-IsCooled now last cooldown = ground arith

module _ {V P : Type 0} where
  -- A reset window counts from `at` on, and is otherwise as it was; a target policy stays.
  abbrev pub IsResetPolicy : Time → Policy V P → Policy V P → Type 0
  IsResetPolicy at (window w) (window w') = w' ≡ record w { reset_cutoff = at }
  IsResetPolicy at (window w) (target t') = ⊥
  IsResetPolicy at (target t) (window w') = ⊥
  IsResetPolicy at (target t) (target t') = t' ≡ t

  abbrev pub AreReset : Time → List (Policy V P) → List (Policy V P) → Type 0
  AreReset at [] [] = Unit
  AreReset at [] (q ∷ qs) = ⊥
  AreReset at (p ∷ ps) [] = ⊥
  AreReset at (p ∷ ps) (q ∷ qs) = IsResetPolicy at p q × AreReset at ps qs

  -- The same service, with every policy reset.
  abbrev pub IsReset : Time → Service V P → Service V P → Type 0
  IsReset at svc svc' =
      (svc' ≡ record svc { policies = svc'.policies }) × AreReset at svc.policies svc'.policies

  reset-IsResetPolicy : (at : Time) (p : Policy V P) → IsResetPolicy at p (Policy.reset at p)
  unfolding Policy.reset Window.reset
  reset-IsResetPolicy at (window w) = refl
  reset-IsResetPolicy at (target t) = refl

  map-AreReset : (at : Time) (ps : List (Policy V P)) → AreReset at ps (map (Policy.reset at) ps)
  map-AreReset at [] = tt
  map-AreReset at (p ∷ ps) = (reset-IsResetPolicy at p, map-AreReset at ps)

  pub reset_policies-IsReset :
      (at : Time) (svc : Service V P) → IsReset at svc (reset_policies svc at)
  unfolding reset_policies
  reset_policies-IsReset at svc = (refl, map-AreReset at svc.policies)

  -- The event is the last one of the service in its direction, and no other last event changed.
  pub record HasEvent (svc : Service V P) (direction : ScaleDirection) (at : Time) (s s' : States)
      : Type 0 where
    pub own : last_event svc.name direction s' ≡ at
    pub others :
        (name : String) (other : ScaleDirection)
        → ((svc.name ≡ name) × (direction ≡ other))
          ⊎ (last_event name other s' ≡ last_event name other s)

  pub record_scale_event-HasEvent :
      (svc : Service V P) (direction : ScaleDirection) (at : Time) (s : States)
      → direction ≢ scale_none
      → HasEvent svc direction at s (record_scale_event svc direction at s)
  record_scale_event-HasEvent svc direction at s way = record {
    own = last_event-record_self svc direction at s way;
    others = λ name other. elim (same_way direction other) [
      | inr n ↦ inr (last_event-record_scale_event svc direction other at s name (inr n))
      | inl d ↦ elim (Bool-cases (str_eq svc.name name)) [
        | inl e ↦ inl ((eq_iff svc.name name).0 e, d)
        | inr e ↦ inr (
            last_event-record_scale_event svc direction other at s name
              (inl (λ q. cc (e, (eq_iff svc.name name).1 q))))
      ]
    ];
  }

  -- What a change waits for: its direction's cooldown, but for scaling up from zero.
  abbrev pub MayScale : States → Service V P → ℤ → ScaleDirection → Time → Type 0
  MayScale s svc current scale_up now =
      (current ≡ pos 0) ⊎ IsCooled now (last_event svc.name scale_up s) svc.cooldown.upscale
  MayScale s svc current scale_down now =
      IsCooled now (last_event svc.name scale_down s) svc.cooldown.downscale
  MayScale s svc current scale_none now = Unit

  may_scale_up :
      (o : Option ServiceState) (svc : Service V P) (current : ℤ) (now : Time)
      → (may_scale o svc current scale_up now ≡ true) ↔ (
          (current ≡ pos 0)
          ⊎ IsCooled now (last_of scale_up (state_or_fresh o)) svc.cooldown.upscale)
  may_scale_up none svc current now = (λ h. inr (inl refl), λ h. refl)
  may_scale_up (some x) svc current now =
      ground (arith, cooled_down-IsCooled now x.last_upscale_time svc.cooldown.upscale)

  may_scale_down :
      (o : Option ServiceState) (svc : Service V P) (current : ℤ) (now : Time)
      → (may_scale o svc current scale_down now ≡ true)
        ↔ IsCooled now (last_of scale_down (state_or_fresh o)) svc.cooldown.downscale
  may_scale_down none svc current now = (λ h. inl refl, λ h. refl)
  may_scale_down (some x) svc current now =
      cooled_down-IsCooled now x.last_downscale_time svc.cooldown.downscale

  may_scale_none :
      (o : Option ServiceState) (svc : Service V P) (current : ℤ) (now : Time)
      → may_scale o svc current scale_none now ≡ true
  may_scale_none none svc current now = refl
  may_scale_none (some x) svc current now = refl

  pub can_scale-MayScale :
      (s : States) (svc : Service V P) (current : ℤ) (direction : ScaleDirection) (now : Time)
      → (can_scale s svc current direction now ≡ true) ↔ MayScale s svc current direction now
  unfolding can_scale
  can_scale-MayScale s svc current scale_none now =
      (λ h. tt, λ h. may_scale_none (lookup svc.name s) svc current now)
  can_scale-MayScale s svc current scale_up now = may_scale_up (lookup svc.name s) svc current now
  can_scale-MayScale s svc current scale_down now =
      may_scale_down (lookup svc.name s) svc current now
