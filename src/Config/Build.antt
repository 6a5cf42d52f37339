-- ===== src/Config/Build.antt =====
-- internal/config/config.go, `BuildServices`: the runtime services of a configuration. (Its other two
-- arguments are not used.)
pub mod Total
use ninjascale.Prelude.{Option, none, some, List, [], ◌∷◌, map, String}
use ninjascale.Prelude.Result.{Result, ok, err, or_err, ◌>>=◌}
use mathlib.Core.Option
use ninjascale.Metrics.{Float}
use ninjascale.Policy.{Policy}
use ninjascale.Policy.Target.{ExprLang}
use ninjascale.Service.{MetricBinding, Service}
use ninjascale.Config.{MetricBindingConfig, PolicyConfig, ServiceConfig, Config}
use ninjascale.Config.Calendar.{build_schedule}
use ninjascale.Config.Thresholds.{BuildError, nil_pointer, build_policy}

-- `MetricBinding(mc)`.
abbrev pub build_binding : MetricBindingConfig → MetricBinding
build_binding m = record {
  name = m.name;
  source = m.source;
  query = m.query;
  metric = m.metric;
  attributes = m.attributes;
}

module _ {V : Type 0} (P : Type 0) ⦃float : Float V⦄ ⦃expr : ExprLang V P⦄ where
  -- The loop over the policies.
  unfoldable pub build_policies :
      String → List String → List (PolicyConfig V) → Result BuildError (List (Policy V P))
  build_policies service names [] = ok []
  build_policies service names (p ∷ ps) = do
    q ← build_policy P service names p
    qs ← build_policies service names ps
    ok (q ∷ qs)

  -- One round of the loop over the services.
  unfoldable pub build_service : ServiceConfig V → Result BuildError (Service V P)
  build_service sc = do
    min ← or_err sc.min_count nil_pointer
    max ← or_err sc.max_count nil_pointer
    cooldown ← or_err sc.cooldown nil_pointer
    policies ← build_policies sc.name (map (λ m. m.name) sc.metrics) sc.policies
    ok (record {
      name = sc.name;
      identifier = sc.identifier;
      min_count = min;
      max_count = max;
      cooldown = cooldown;
      schedule = Option.map build_schedule sc.schedule;
      metrics = map build_binding sc.metrics;
      policies = policies;
    })

  unfoldable pub build_services : List (ServiceConfig V) → Result BuildError (List (Service V P))
  build_services [] = ok []
  build_services (sc ∷ scs) = do svc ← build_service sc; svcs ← build_services scs; ok (svc ∷ svcs)
