-- ===== src/Reconciler/Demand.antt =====
-- That a policy which asks for more gets it (internal/reconciler/reconciler.go, `reconcileService`):
-- the way from one policy's answer over the combination and the bounds to the adapter.
use ninjascale.Prelude.{
  Among, any, ◌≡◌, ◌⊎◌, inl, inr, refl, sym, true, false, some, List, [], ◌∷◌, arith, ℤ, ◌≤ℤ◌, ◌<ℤ◌,
  ltb_ℤ, eqb_ℤ, Option-cases, is_empty,
}
use mathlib.Core.Path.{subst}
use ninjascale.Time.{Time, IsDuration}
use ninjascale.Metrics.{Float}
use ninjascale.Metrics.Store
use ninjascale.Metrics.Store.{Series}
use ninjascale.Policy.{Policy, evaluate}
use ninjascale.Policy.Decision.{ScaleDecision, Evaluation, Evaluated, ok, err}
use ninjascale.Policy.Target.{ExprLang}
use ninjascale.Schedule.{TimeZones, Bounds}
use ninjascale.Service.{Service}
use ninjascale.Adapter.{Adapter}
use ninjascale.Reconciler.{scale_up, Readings, World, clamp, compute_desired, service_bounds}
use ninjascale.Reconciler.Pass.{
  change, Collected, plan_of, add_evaluated, evaluate_all, reconcile_service,
}
use ninjascale.Reconciler.Desired.{AtMost, compute_desired-up}
use ninjascale.Reconciler.Cause.{IsAnswered, decisions_of}
use ninjascale.Reconciler.Cooldown.{last_event}
use ninjascale.Reconciler.Progress.{HasCooled, HasScaled, reconcile_service-HasScaled}

-- A count that meets what is asked for, as far as the bounds allow.
abbrev pub Meets : Bounds → ℤ → ℤ → Type 0
Meets bounds asked n = (asked ≤ℤ n) ⊎ (n ≡ bounds.max)

module _ {V : Type 0} (current : ℤ) (d : ScaleDecision V) where
  Among-any :
      (ds : List (ScaleDecision V))
      → Among d ds
      → current <ℤ d.desired_count
      → any (λ x. ltb_ℤ current x.desired_count) ds ≡ true
  Among-any [] i more = absurd i
  Among-any (x ∷ ds) (inl e) more =
      let up : current <ℤ x.desired_count = subst (λ y. current <ℤ y.desired_count) (sym e) more in
      ground arith
  Among-any (x ∷ ds) (inr i) more = ground (arith, Among-any ds i more)

  Among-is_empty : (ds : List (ScaleDecision V)) → Among d ds → is_empty ds ≡ false
  Among-is_empty [] i = absurd i
  Among-is_empty (x ∷ ds) i = refl

  Among-AtMost :
      (r : ℤ) (ds : List (ScaleDecision V)) → Among d ds → AtMost r ds → d.desired_count ≤ℤ r
  Among-AtMost r [] i h = absurd i
  Among-AtMost r (x ∷ ds) (inl e) h = subst (λ y. y.desired_count ≤ℤ r) e h.0
  Among-AtMost r (x ∷ ds) (inr i) h = Among-AtMost r ds i h.1

  plan_of-Meets :
      (ds : List (ScaleDecision V)) (bounds : Bounds)
      → Among d ds
      → current <ℤ d.desired_count
      → current <ℤ bounds.max
      → bounds.min ≤ℤ bounds.max
      → (n : ℤ) × Meets bounds d.desired_count n × (plan_of ds current bounds ≡ change scale_up n)
  unfolding plan_of clamp
  plan_of-Meets ds bounds i more below h =
      let c : ℤ = compute_desired current ds in
      let n : ℤ = clamp c bounds.min bounds.max in
      let up = compute_desired-up current ds (Among-any ds i more) in
      let met : d.desired_count ≤ℤ c = Among-AtMost c ds i up.1 in
      let larger : current <ℤ n = ground (arith, up.0) in
      let same : eqb_ℤ n current ≡ false = ground (arith, larger) in
      let down : ltb_ℤ n current ≡ false = ground (arith, larger) in
      (n, ground (arith, met), rw (Among-is_empty ds i, same, down) refl)

-- A decision that was collected stays, and that of a policy is.
add_evaluated-Among :
    {V : Type 0} (d : ScaleDecision V) (answer : Evaluated V) (rest : Collected V)
    → Among d rest.decisions
    → Among d (add_evaluated answer rest).decisions
add_evaluated-Among d (err x) rest i = i
add_evaluated-Among d (ok e) rest i = elim (Option-cases e.decision) [
  | inl n ↦ rw n i
  | inr (d', n) ↦ rw n (inr i)
]

add_evaluated-own :
    {V : Type 0} (d : ScaleDecision V) (e : Evaluation V) (rest : Collected V)
    → e.decision ≡ some d
    → Among d (add_evaluated (ok e) rest).decisions
add_evaluated-own d e rest n = rw n (inl refl)

module _ {V P : Type 0} ⦃float : Float V⦄ ⦃expr : ExprLang V P⦄ where
  module _ (current : ℤ) (series : Series V) (now : Time) (d : ScaleDecision V) where
    evaluate_all-Among :
        (ps : List (Policy V P))
        → IsAnswered current series now d ps
        → Among d (evaluate_all ps current series now).decisions
    unfolding evaluate_all
    evaluate_all-Among [] (q, e, i, a, b) = absurd i
    evaluate_all-Among (p ∷ ps) (q, e, inl i, a, b) =
        rw (i, a) (add_evaluated-own d e (evaluate_all ps current series now) b)
    evaluate_all-Among (p ∷ ps) (q, e, inr i, a, b) =
        add_evaluated-Among d (evaluate p current series now) (evaluate_all ps current series now)
          (evaluate_all-Among ps (q, e, i, a, b))

module _ {V P A : Type 0} ⦃float : Float V⦄ ⦃expr : ExprLang V P⦄ (zones : TimeZones) where
  -- A policy that asks for more than the current count gets it in the same pass, also where other
  -- policies fail or ask for less: outside a dry run, with the count below the active bound and the
  -- bounds in order, the upscale cooldown passed and an adapter that accepts every count, the pass
  -- scales up to a count that is at least what the policy asks for, or is the upper bound.
  pub reconcile_service-Meets :
      (adapter : Adapter A) (at : Readings) (svc : Service V P) (current : ℤ) (w : World V A)
      (d : ScaleDecision V)
      → IsAnswered current (Store.snapshot at.at_snapshot w.store).1 at.at_start d svc.policies
      → current <ℤ d.desired_count
      → current <ℤ (service_bounds zones svc at.at_start).max
      → (service_bounds zones svc at.at_start).min ≤ℤ (service_bounds zones svc at.at_start).max
      → IsDuration svc.cooldown.upscale
      → HasCooled at.at_cooldown (last_event svc.name scale_up w.state) svc.cooldown.upscale
      → ((n : ℤ) → (adapter.scale svc.identifier n w.platform).1 ≡ true)
      → (n : ℤ) × Meets (service_bounds zones svc at.at_start) d.desired_count n
        × HasScaled adapter at svc scale_up n w
            (reconcile_service adapter false zones at svc current w)
  reconcile_service-Meets adapter at svc current w d answered more below h fits cooled accepts =
      let series : Series V = (Store.snapshot at.at_snapshot w.store).1 in
      let (n, meets, e) =
        plan_of-Meets current d (decisions_of at svc current series)
          (service_bounds zones svc at.at_start)
          (evaluate_all-Among current series at.at_start d svc.policies answered) more below h in
      (
        n,
        meets,
        reconcile_service-HasScaled zones adapter at svc current w scale_up n e fits cooled
            (accepts n),
      )
