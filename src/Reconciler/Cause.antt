-- ===== src/Reconciler/Cause.antt =====
-- Why a pass (internal/reconciler/reconciler.go) plans a change: a policy asks for it, or the current
-- count lies outside of the active bounds.
use ninjascale.Prelude.{
  Among, All, ◌≡◌, ◌⊎◌, inl, inr, refl, ap, ◌∙◌, false, some, List, [], ◌∷◌, ℤ, pos, ◌≤ℤ◌, ◌<ℤ◌,
  Option-cases, is_empty,
}
use ninjascale.Time.{Time}
use ninjascale.Metrics.{Float}
use ninjascale.Metrics.Store
use ninjascale.Metrics.Store.{Series}
use ninjascale.Policy.{Policy, evaluate}
use ninjascale.Policy.Decision.{ScaleDecision, Evaluation, Evaluated, ok, err}
use ninjascale.Policy.Target.{ExprLang}
use ninjascale.Schedule.{TimeZones, Bounds}
use ninjascale.Service.{Service}
use ninjascale.Reconciler.{
  ScaleDirection, scale_none, scale_up, scale_down, Readings, World, service_bounds,
}
use ninjascale.Reconciler.Pass.{change, Collected, add_evaluated, evaluate_all}
use ninjascale.Reconciler.Effects.{plan_for}
use ninjascale.Reconciler.Called.{IsCalledFor, plan_of-IsCalledFor}

-- Every decision that is collected is what a policy answers.
module _ {V P : Type 0} ⦃float : Float V⦄ ⦃expr : ExprLang V P⦄ where
  module _ (current : ℤ) (series : Series V) (now : Time) (d : ScaleDecision V) where
    -- A policy of the list whose answer is the decision.
    abbrev pub IsAnswered : List (Policy V P) → Type 0
    IsAnswered ps =
        (p : Policy V P) × (e : Evaluation V) × Among p ps
        × (evaluate p current series now ≡ ok e)
        × (e.decision ≡ some d)

    IsAnswered-cons :
        (p : Policy V P) (ps : List (Policy V P)) → IsAnswered ps → IsAnswered (p ∷ ps)
    IsAnswered-cons p ps (q, e, i, a, b) = (q, e, inr i, a, b)

    add_evaluated-IsAnswered :
        (p : Policy V P) (ps : List (Policy V P)) (rest : Collected V) (answer : Evaluated V)
        → evaluate p current series now ≡ answer
        → (Among d rest.decisions → IsAnswered ps)
        → Among d (add_evaluated answer rest).decisions
        → IsAnswered (p ∷ ps)
    add_evaluated-IsAnswered p ps rest (err x) same more i = IsAnswered-cons p ps (more i)
    add_evaluated-IsAnswered p ps rest (ok e) same more i = elim (Option-cases e.decision) [
      | inl n ↦ IsAnswered-cons p ps (more (rw n at i))
      | inr (d', n) ↦ elim (the_first d' (rw n at i)) [
        | inl q ↦ (p, e, inl refl, same, n ∙ ap some q)
        | inr j ↦ IsAnswered-cons p ps (more j)
      ]
    ]
      where
        the_first :
            (d' : ScaleDecision V)
            → Among d (d' ∷ rest.decisions)
            → (d' ≡ d) ⊎ Among d rest.decisions
        the_first d' j = j

    evaluate_all-IsAnswered :
        (ps : List (Policy V P))
        → Among d (evaluate_all ps current series now).decisions
        → IsAnswered ps
    unfolding evaluate_all
    evaluate_all-IsAnswered [] i = absurd i
    evaluate_all-IsAnswered (p ∷ ps) i =
        add_evaluated-IsAnswered p ps (evaluate_all ps current series now)
          (evaluate p current series now) refl (evaluate_all-IsAnswered ps) i

  -- What a pass decides on: the decisions of the policies on the snapshot.
  abbrev pub decisions_of : Readings → Service V P → ℤ → Series V → List (ScaleDecision V)
  decisions_of at svc current series =
      (evaluate_all svc.policies current series at.at_start).decisions

  -- The cause of a change in a direction. A policy asks for more than the current count, or every
  -- policy with an opinion for less; or the current count is below or above the active bounds.
  abbrev pub HasCause : ScaleDirection → Readings → Service V P → ℤ → Bounds → Series V → Type 0
  HasCause scale_up at svc current bounds series =
      (current <ℤ bounds.min)
      ⊎ ((d : ScaleDecision V) × (current <ℤ d.desired_count)
          × IsAnswered current series at.at_start d svc.policies)
  HasCause scale_down at svc current bounds series =
      (bounds.max <ℤ current)
      ⊎ All (λ d. d.desired_count <ℤ current) (decisions_of at svc current series)
  HasCause scale_none at svc current bounds series = ⊥

  IsCalledFor-HasCause :
      (direction : ScaleDirection) (at : Readings) (svc : Service V P) (current : ℤ)
      (bounds : Bounds) (series : Series V)
      → IsCalledFor direction current bounds (decisions_of at svc current series)
      → HasCause direction at svc current bounds series
  IsCalledFor-HasCause scale_up at svc current bounds series (inl low) = inl low
  IsCalledFor-HasCause scale_up at svc current bounds series (inr (d, i, more)) =
      inr (d, more, evaluate_all-IsAnswered current series at.at_start d svc.policies i)
  IsCalledFor-HasCause scale_down at svc current bounds series called = called
  IsCalledFor-HasCause scale_none at svc current bounds series called = called

  -- Nothing is scaled without a cause: with a current count that is not negative, a change up is
  -- planned only below the active bounds or when a policy asks for more than the current count, and
  -- a change down only above the bounds or when every decision is for fewer; and there is a decision.
  pub plan_for-HasCause :
      {A : Type 0} (zones : TimeZones) (at : Readings) (svc : Service V P) (current : ℤ)
      (w : World V A) (direction : ScaleDirection) (n : ℤ)
      → pos 0 ≤ℤ current
      → plan_for zones at svc current w ≡ change direction n
      → let series = (Store.snapshot at.at_snapshot w.store).1 in
        (is_empty (decisions_of at svc current series) ≡ false)
        × HasCause direction at svc current (service_bounds zones svc at.at_start) series
  plan_for-HasCause zones at svc current w direction n low e =
      let bounds : Bounds = service_bounds zones svc at.at_start in
      let series : Series V = (Store.snapshot at.at_snapshot w.store).1 in
      let called =
        plan_of-IsCalledFor (decisions_of at svc current series) current bounds direction n low e in
      (called.0, IsCalledFor-HasCause direction at svc current bounds series called.1)
