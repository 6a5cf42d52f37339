-- ===== src/Policy/Target.antt =====
-- internal/policy/target.go: an expression over the latest metric values. The expression language
-- (github.com/expr-lang/expr) is a parameter.
pub mod Outcome
use mathlib.Core.Option
use ninjascale.Prelude.{
  List, [], ◌∷◌, Option, none, some, String, if◌then◌else◌, ℤ, pos, ltb_ℤ, insert, string_key,
}
use ninjascale.Metrics.{Float}
use ninjascale.Metrics.Store.{Series, latest}
use ninjascale.Policy.Decision.{expression, metric_missing, expression_failed, Evaluated, ok, err}

-- The environment of an expression: its variables' values.
abbrev pub Env : Type 0 → Type 0
Env V = List (String × V)

-- `expr.Compile` under an environment that names the variables, and `expr.Run`; none is an error.
pub record ExprLang (V P : Type 0) : Type 0 where
  pub compile : String → Env V → Option P
  pub run : P → Env V → Option V

pub record TargetPolicy (P : Type 0) : Type 0 where
  pub service : String
  pub expression_text : String
  pub metric_names : List String
  pub program : P

-- The environment, or the name of a metric that has no sample.
pub data Bound (V : Type 0) : Type 0 where
  bound : Env V → Bound V
  unbound : String → Bound V

-- `env[name] = 0.0` for each name, then `env["current"] = 0.0`.
unfoldable pub compile_env : {V : Type 0} ⦃float : Float V⦄ → List String → Env V → Env V
compile_env ⦃float⦄ [] env = insert "current" float.zero_value env
compile_env ⦃float⦄ (name ∷ names) env = compile_env names (insert name float.zero_value env)

-- The loop of `Evaluate` over the metric names.
unfoldable pub bind_metrics : {V : Type 0} → String → List String → Series V → Env V → Bound V
bind_metrics service [] series env = bound env
bind_metrics service (name ∷ names) series env =
    elim (latest series (record { service = service; name = name })) [
      | none ↦ unbound name
      | some sample ↦ bind_metrics service names series (insert name sample.value env)
    ]

-- `desired < 0` becomes 0.
abbrev pub at_least_zero : ℤ → ℤ
at_least_zero desired = if ltb_ℤ desired (pos 0) then pos 0 else desired

-- `NewTargetPolicy`, with `CompileExpression`; the service is set afterwards.
unfoldable pub new_target_policy :
    {P : Type 0} (V : Type 0) ⦃float : Float V⦄ ⦃expr : ExprLang V P⦄
    → String
    → List String
    → Option (TargetPolicy P)
new_target_policy V ⦃float⦄ ⦃expr⦄ text names =
    Option.map
      (λ program. record {
        service = "";
        expression_text = text;
        metric_names = names;
        program = program;
      })
      (expr.compile text (compile_env names []))

-- What `Evaluate` makes of the expression's value.
abbrev pub decide : {V : Type 0} ⦃float : Float V⦄ → String → Option V → Evaluated V
decide text none = err expression_failed
decide ⦃float⦄ text (some v) =
    let desired = at_least_zero (float.ceil v) in
    ok (record {
      decision = some (record { desired_count = desired; reason = expression text desired });
      windows = [];
    })

module _ {V P : Type 0} ⦃float : Float V⦄ ⦃expr : ExprLang V P⦄ where
  abbrev pub run_bound : TargetPolicy P → Bound V → Evaluated V
  run_bound t (unbound name) = err (metric_missing name)
  run_bound t (bound env) = decide t.expression_text (expr.run t.program env)

  unfoldable pub evaluate : TargetPolicy P → ℤ → Series V → Evaluated V
  unfolding bind_metrics
  evaluate t current series =
      run_bound t
        (bind_metrics t.service t.metric_names series (insert "current" (float.of_int current) []))
