-- ===== src/Reconciler/Called.antt =====
-- What the decisions and the bounds have to be for a change to be planned
-- (internal/reconciler/reconciler.go, `computeDesired` and the clamp after it).
use ninjascale.Prelude.{
  Among, All, any, ◌≡◌, ◌⊎◌, inl, inr, refl, true, false, List, [], ◌∷◌, arith, ℤ, pos, ◌≤ℤ◌, ◌<ℤ◌,
  ltb_ℤ, leb_ℤ, eqb_ℤ, Bool-cases, is_empty,
}
use mathlib.Core.Path.{subst}
use ninjascale.Policy.Decision.{ScaleDecision}
use ninjascale.Schedule.{Bounds}
use ninjascale.Reconciler.{ScaleDirection, scale_none, scale_up, scale_down, clamp, compute_desired}
use ninjascale.Reconciler.Pass.{change, change-eq, plan_of}
use ninjascale.Reconciler.Desired.{
  AskedFor, compute_desired-up, compute_desired-hold, compute_desired-down,
}

module _ {V : Type 0} (current : ℤ) where
  any_above-Among :
      (ds : List (ScaleDecision V))
      → any (λ d. ltb_ℤ current d.desired_count) ds ≡ true
      → (d : ScaleDecision V) × Among d ds × (current <ℤ d.desired_count)
  any_above-Among [] h = cc
  any_above-Among (d ∷ ds) h = elim (Bool-cases (ltb_ℤ current d.desired_count)) [
    | inl e ↦ (d, inl refl, ground arith)
    | inr e ↦ let (d', i, k) = any_above-Among ds (rw e at h) in (d', inr i, k)
  ]

  not_any-All :
      (ds : List (ScaleDecision V))
      → any (λ d. leb_ℤ current d.desired_count) ds ≡ false
      → All (λ d. d.desired_count <ℤ current) ds
  not_any-All [] h = tt
  not_any-All (d ∷ ds) h = (ground arith, not_any-All ds (ground arith))

  AskedFor-below :
      (r : ℤ) (ds : List (ScaleDecision V))
      → AskedFor r ds
      → All (λ d. d.desired_count <ℤ current) ds
      → r <ℤ current
  AskedFor-below r [] a h = absurd a
  AskedFor-below r (d ∷ ds) (inl e) h = ground (arith, h.0)
  AskedFor-below r (d ∷ ds) (inr a) h = AskedFor-below r ds a h.1

  -- Where no decision is above the current count, the combination is not.
  compute_desired-le :
      (ds : List (ScaleDecision V))
      → pos 0 ≤ℤ current
      → any (λ d. ltb_ℤ current d.desired_count) ds ≡ false
      → compute_desired current ds ≤ℤ current
  compute_desired-le ds low none_up =
      elim (Bool-cases (any (λ d. leb_ℤ current d.desired_count) ds)) [
        | inl e ↦ ground (arith, compute_desired-hold current ds none_up e)
        | inr e ↦ elim (compute_desired-down current ds e).2 [
          | inl z ↦ ground (arith, z)
          | inr a ↦
              ground (arith, AskedFor-below (compute_desired current ds) ds a (not_any-All ds e))
        ]
      ]

  -- Where a decision is not below the current count, the combination is not.
  compute_desired-ge :
      (ds : List (ScaleDecision V))
      → any (λ d. leb_ℤ current d.desired_count) ds ≡ true
      → current ≤ℤ compute_desired current ds
  compute_desired-ge ds e = elim (Bool-cases (any (λ d. ltb_ℤ current d.desired_count) ds)) [
    | inl u ↦ ground (arith, compute_desired-up current ds u)
    | inr u ↦ ground (arith, compute_desired-hold current ds u e)
  ]

-- What calls for a change in a direction: the bounds, or the policies' decisions.
abbrev pub IsCalledFor :
    {V : Type 0} → ScaleDirection → ℤ → Bounds → List (ScaleDecision V) → Type 0
IsCalledFor scale_up current bounds ds =
    (current <ℤ bounds.min) ⊎ ((d : _) × Among d ds × (current <ℤ d.desired_count))
IsCalledFor scale_down current bounds ds =
    (bounds.max <ℤ current) ⊎ All (λ d. d.desired_count <ℤ current) ds
IsCalledFor scale_none current bounds ds = ⊥

module _ {V : Type 0} (ds : List (ScaleDecision V)) (current : ℤ) (bounds : Bounds) where
  clamp-up :
      pos 0 ≤ℤ current
      → current <ℤ clamp (compute_desired current ds) bounds.min bounds.max
      → IsCalledFor scale_up current bounds ds
  unfolding clamp
  clamp-up low up = elim (Bool-cases (any (λ d. ltb_ℤ current d.desired_count) ds)) [
    | inl e ↦ inr (any_above-Among current ds e)
    | inr e ↦ inl (ground (arith, compute_desired-le current ds low e))
  ]

  clamp-down :
      clamp (compute_desired current ds) bounds.min bounds.max <ℤ current
      → IsCalledFor scale_down current bounds ds
  unfolding clamp
  clamp-down down = elim (Bool-cases (any (λ d. leb_ℤ current d.desired_count) ds)) [
    | inl e ↦ inl (ground (arith, compute_desired-ge current ds e))
    | inr e ↦ inr (not_any-All current ds e)
  ]

  pub plan_of-IsCalledFor :
      (direction : ScaleDirection) (n : ℤ)
      → pos 0 ≤ℤ current
      → plan_of ds current bounds ≡ change direction n
      → (is_empty ds ≡ false) × IsCalledFor direction current bounds ds
  unfolding plan_of
  plan_of-IsCalledFor direction n low e =
      let c : ℤ = clamp (compute_desired current ds) bounds.min bounds.max in
      let called : ScaleDirection → Type 0 = λ x. IsCalledFor x current bounds ds in
      elim (Bool-cases (is_empty ds)) [
        | inl a ↦ absurd (cc (rw a at e))
        | inr a ↦ elim (Bool-cases (eqb_ℤ c current)) [
          | inl b ↦ absurd (cc (rw (a, b) at e))
          | inr b ↦ elim (Bool-cases (ltb_ℤ c current)) [
            | inl l ↦
                (a, subst called (change-eq (rw (a, b, l) at e)).0 (clamp-down (ground arith)))
            | inr l ↦
                (a, subst called (change-eq (rw (a, b, l) at e)).0 (clamp-up low (ground arith)))
          ]
        ]
      ]
