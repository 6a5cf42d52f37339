-- ===== src/Config/Thresholds.antt =====
-- internal/config/config.go: the policies of a service, as `validate` checks them and `BuildServices`
-- converts them.
pub mod Accepted
pub mod Complete
pub mod Built
use ninjascale.Prelude.{
  Bool, true, false, not, ◌&&◌, Option, none, some, List, [], ◌∷◌, String, str_eq, if◌then◌else◌, ℤ,
  pos, leb_ℤ, eqb_ℤ, rem, is_in,
}
use ninjascale.Prelude.Result.{Result, ok, err, reject_if, or_err, within, ◌>>=◌, ◌>>◌}
use ninjascale.Time.{Duration, zero_time}
use ninjascale.Metrics.{Float}
use ninjascale.Policy.{Policy, window, target}
use ninjascale.Policy.Decision.{Direction, upscale, downscale}
use ninjascale.Policy.Window.{WindowThreshold, WindowPolicy}
use ninjascale.Policy.Target.{ExprLang, TargetPolicy, compile_env, new_target_policy}
use ninjascale.Config.{ThresholdConfig, PolicyConfig}
use ninjascale.Config.Calendar.{is_missing}

pub data ThresholdError : Type 0 where
  sustained_not_positive : ThresholdError
  not_a_multiple : ThresholdError
  step_not_positive : ThresholdError

pub data PolicyError : Type 0 where
  metric_required : PolicyError
  unknown_metric : String → PolicyError
  bad_bucket : PolicyError
  no_threshold : PolicyError
  in_threshold : Direction → ThresholdError → PolicyError
  expression_required : PolicyError
  invalid_expression : PolicyError
  unknown_type : String → PolicyError

-- What ends `BuildServices`: a nil pointer that is followed, or an expression that does not compile.
-- A policy of another type would stay a nil interface, at which the first pass panics; `nil_policy`
-- stands for that.
pub data BuildError : Type 0 where
  nil_pointer : BuildError
  nil_policy : BuildError
  not_compiled : (service : String) → BuildError

module _ {V : Type 0} where
  -- The body of the loop over the two thresholds.
  abbrev pub validate_threshold :
      Duration → Option (ThresholdConfig V) → Result ThresholdError (Unit {0})
  validate_threshold width none = ok tt
  validate_threshold width (some t) = do
    reject_if (leb_ℤ t.sustained_for (pos 0)) sustained_not_positive
    reject_if (not (eqb_ℤ (rem t.sustained_for width) (pos 0))) not_a_multiple
    reject_if (leb_ℤ t.step (pos 0)) step_not_positive

  -- A window policy; `metrics` is `metricSet`. (The loop visits the two directions in either order.)
  unfoldable pub validate_window : List String → PolicyConfig V → Result PolicyError (Unit {0})
  validate_window metrics p = do
    reject_if (str_eq p.metric "") metric_required
    reject_if (not (is_in p.metric metrics)) (unknown_metric p.metric)
    width ← or_err p.bucket_duration bad_bucket
    reject_if (leb_ℤ width (pos 0)) bad_bucket
    reject_if (is_missing p.upscale_when && is_missing p.downscale_when) no_threshold
    within (in_threshold upscale) (validate_threshold width p.upscale_when)
    within (in_threshold downscale) (validate_threshold width p.downscale_when)

  abbrev pub build_threshold : Option (ThresholdConfig V) → Option (WindowThreshold V)
  build_threshold none = none
  build_threshold (some t) =
      some (record { threshold = t.threshold; sustained_for = t.sustained_for; step = t.step })

  unfoldable pub build_window : String → PolicyConfig V → Result BuildError (WindowPolicy V)
  build_window service p = do
    width ← or_err p.bucket_duration nil_pointer
    ok (record {
      service = service;
      metric = p.metric;
      bucket_duration = width;
      upscale_when = build_threshold p.upscale_when;
      downscale_when = build_threshold p.downscale_when;
      reset_cutoff = zero_time;
    })

module _ {V : Type 0} (P : Type 0) ⦃float : Float V⦄ ⦃expr : ExprLang V P⦄ where
  -- A target policy: `CompileExpression` over the names of the bindings.
  unfoldable pub validate_target : List String → PolicyConfig V → Result PolicyError (Unit {0})
  validate_target names p = do
    reject_if (str_eq p.expression "") expression_required
    reject_if (is_missing (expr.compile p.expression (compile_env names []))) invalid_expression

  -- The switch on the type.
  unfoldable pub validate_policy :
      List String → List String → PolicyConfig V → Result PolicyError (Unit {0})
  validate_policy metrics names p =
      if str_eq p.kind "window"
      then validate_window metrics p
      else if str_eq p.kind "target"
      then validate_target names p
      else err (unknown_type p.kind)

  unfoldable pub build_target :
      String → List String → PolicyConfig V → Result BuildError (TargetPolicy P)
  build_target service names p = do
    t ← or_err (new_target_policy V p.expression names) (not_compiled service)
    ok (record t { service = service })

  unfoldable pub build_policy :
      String → List String → PolicyConfig V → Result BuildError (Policy V P)
  build_policy service names p =
      if str_eq p.kind "window"
      then (build_window service p >>= λ w. ok (window w))
      else if str_eq p.kind "target"
      then (build_target service names p >>= λ t. ok (target t))
      else err nil_policy
