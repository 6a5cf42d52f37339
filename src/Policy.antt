-- ===== src/Policy.antt =====
-- internal/policy: the decisions that policies give, and the interface that the reconciler calls
-- (policy.go), over the two kinds of policy of the children Window and Target.
pub mod Decision
pub mod Window
pub mod Target
use ninjascale.Prelude.{List, [], ◌∷◌, ℤ, String}
use ninjascale.Time.{Time}
use ninjascale.Metrics.{Float}
use ninjascale.Metrics.Store.{Series}
use ninjascale.Policy.Decision.{Evaluation, Evaluated, ok}
use ninjascale.Policy.Window
use ninjascale.Policy.Window.{WindowPolicy}
use ninjascale.Policy.Target
use ninjascale.Policy.Target.{TargetPolicy, ExprLang}

-- The implementations of the interface `Policy`. `P` is the type of compiled expressions.
pub data Policy (V P : Type 0) : Type 0 where
  window : WindowPolicy V → Policy V P
  target : TargetPolicy P → Policy V P

module _ {V P : Type 0} where
  unfoldable pub required_metrics : Policy V P → List String
  required_metrics (window w) = w.metric ∷ []
  required_metrics (target t) = t.metric_names

  unfoldable pub reset : Time → Policy V P → Policy V P
  unfolding Window.reset
  reset at (window w) = window (Window.reset at w)
  reset at (target t) = target t

  module _ ⦃float : Float V⦄ ⦃expr : ExprLang V P⦄ where
    unfoldable pub evaluate : Policy V P → ℤ → Series V → Time → Evaluated V
    evaluate (window w) current series now = ok (Window.evaluate w current series now)
    evaluate (target t) current series now = Target.evaluate t current series
