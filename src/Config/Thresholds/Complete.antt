-- ===== src/Config/Thresholds/Complete.antt =====
-- `validate` (internal/config/config.go) lets every policy through that is one.
use ninjascale.Prelude.{
  ◌≡◌, refl, false, Option, none, some, List, String, eq_iff, arith, pos, leb_ℤ, is_in, In-is_in,
  ne_str,
}
use ninjascale.Prelude.Result.{ok}
use ninjascale.Time.{Duration}
use ninjascale.Metrics.{Float}
use ninjascale.Policy.Target.{ExprLang}
use ninjascale.Config.{ThresholdConfig, PolicyConfig}
use ninjascale.Config.Thresholds.{
  validate_threshold, validate_window, validate_target, validate_policy,
}
use ninjascale.Config.Thresholds.Accepted.{IsThreshold, IsPolicy, is_window, is_target}

IsThreshold-validate_threshold :
    {V : Type 0} (width : Duration) (o : Option (ThresholdConfig V))
    → IsThreshold width o
    → validate_threshold width o ≡ ok tt
IsThreshold-validate_threshold width none h = refl
IsThreshold-validate_threshold width (some t) h =
    let long : leb_ℤ t.sustained_for (pos 0) ≡ false = ground (arith, h.long) in
    let steps : leb_ℤ t.step (pos 0) ≡ false = ground (arith, h.steps) in
    rw (long, h.whole, steps) refl

module _ {V : Type 0} (P : Type 0) ⦃float : Float V⦄ ⦃expr : ExprLang V P⦄ where
  pub IsPolicy-validate_policy :
      (metrics names : List String) (p : PolicyConfig V)
      → ((x : String) → is_in x metrics ≡ is_in x names)
      → IsPolicy P names p
      → validate_policy P metrics names p ≡ ok tt
  unfolding validate_policy validate_window validate_target
  IsPolicy-validate_policy metrics names p same
        (is_window kind named known width e wide up down some_one) =
      let narrow : leb_ℤ width (pos 0) ≡ false = ground arith in
      rw
        (
          (eq_iff p.kind "window").1 kind,
          ne_str p.metric "" named,
          same p.metric,
          In-is_in p.metric names known,
          e,
          narrow,
          some_one,
          IsThreshold-validate_threshold width p.upscale_when up,
        )
        (rw (IsThreshold-validate_threshold width p.downscale_when down) refl)
  IsPolicy-validate_policy metrics names p same (is_target kind written program e) =
      rw (kind, ne_str p.expression "" written, e) refl
