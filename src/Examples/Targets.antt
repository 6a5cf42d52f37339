-- ===== src/Examples/Targets.antt =====
-- Runs of internal/policy/target.go.
use ninjascale.Prelude.{◌≡◌, refl, List, [], ◌∷◌, String, ℤ, pos, insert, lookup, string_key}
use ninjascale.Metrics.Store.{latest, snapshot_samples}
use ninjascale.Policy.Decision.{err, metric_missing}
use ninjascale.Policy.Target.{Env, TargetPolicy, decide, evaluate}
use ninjascale.Policy.Target.Outcome.{reading, evaluate-missing, evaluate-present}
use ninjascale.Examples.{whole_float, variables, recent}

-- The expression is the variable `cpu`.
abbrev target_of : List String → TargetPolicy String
target_of names = record {
  service = "web";
  expression_text = "cpu";
  metric_names = names;
  program = "cpu";
}

evaluate-missing_example :
    evaluate (target_of ("cpu" ∷ "queue" ∷ [])) (pos 2) recent ≡ err (metric_missing "queue")
unfolding latest snapshot_samples lookup
evaluate-missing_example =
    evaluate-missing (target_of ("cpu" ∷ "queue" ∷ [])) (pos 2) recent "queue" refl

evaluate-present_example :
    (env : Env ℤ) × ((x : String)
      → lookup x env ≡ reading "web" ("cpu" ∷ []) recent (insert "current" (pos 2) []) x)
    × (evaluate (target_of ("cpu" ∷ [])) (pos 2) recent ≡ decide "cpu" (variables.run "cpu" env))
unfolding latest snapshot_samples lookup
evaluate-present_example = evaluate-present (target_of ("cpu" ∷ [])) (pos 2) recent refl
