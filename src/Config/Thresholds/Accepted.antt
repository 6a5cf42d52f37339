-- ===== src/Config/Thresholds/Accepted.antt =====
-- What an accepted policy is (internal/config/config.go, `validate`), and what `BuildServices` makes
-- of it.
use ninjascale.Prelude.{
  ◌≡◌, inl, inr, ◌∙◌, sym, true, false, not, ◌&&◌, Option, none, some, List, [], String, str_eq,
  eq_iff, arith, Bool-cases, pos, ◌<ℤ◌, leb_ℤ, eqb_ℤ, eqb_ℤ→eq, rem, is_in, In, is_in-In, ◌≢◌,
  str_ne,
}
use ninjascale.Prelude.Result.{
  ok, reject_if, or_err, within, >>-ok, >>=-ok, reject_if-ok, within-ok, or_err-ok,
}
use ninjascale.Time.{Duration}
use ninjascale.Metrics.{Float}
use ninjascale.Policy.Target.{ExprLang, compile_env}
use ninjascale.Config.{ThresholdConfig, PolicyConfig}
use ninjascale.Config.Calendar.{is_missing}
use ninjascale.Config.Calendar.Accepted.{is_missing-some, not-false}
use ninjascale.Config.Thresholds.{
  validate_threshold, validate_window, validate_target, validate_policy,
}

-- A positive number of buckets, and a positive step.
pub record IsSustained {V : Type 0} (width : Duration) (t : ThresholdConfig V) : Type 0 where
  pub long : pos 0 <ℤ t.sustained_for
  pub whole : rem t.sustained_for width ≡ pos 0
  pub steps : pos 0 <ℤ t.step

module _ {V : Type 0} where
  abbrev pub IsThreshold : Duration → Option (ThresholdConfig V) → Type 0
  IsThreshold width none = Unit
  IsThreshold width (some t) = IsSustained width t

  validate_threshold_lem :
      (width : Duration) (o : Option (ThresholdConfig V))
      → validate_threshold width o ≡ ok tt
      → IsThreshold width o
  validate_threshold_lem width none h = tt
  validate_threshold_lem width (some t) h =
      let (long, h') = >>-ok (reject_if (leb_ℤ t.sustained_for (pos 0)) _) _ h in
      let (whole, steps) =
        >>-ok (reject_if (not (eqb_ℤ (rem t.sustained_for width) (pos 0))) _) _ h' in
      let e = reject_if-ok _ _ long in
      let r = not-false _ (reject_if-ok _ _ whole) in
      let f = reject_if-ok _ _ steps in
      record {
        long = ground arith;
        whole = eqb_ℤ→eq (rem t.sustained_for width) (pos 0) r;
        steps = ground arith;
      }

-- A policy that configuration accepts, over the names of the service's bindings.
pub data IsPolicy {V : Type 0} (P : Type 0) ⦃float : Float V⦄ ⦃expr : ExprLang V P⦄
    (names : List String) (p : PolicyConfig V) : Type 0 where
  is_window :
      p.kind ≡ "window"
      → p.metric ≢ ""
      → In p.metric names
      → (width : Duration) → p.bucket_duration ≡ some width
      → pos 0 <ℤ width
      → IsThreshold width p.upscale_when
      → IsThreshold width p.downscale_when
      → (is_missing p.upscale_when && is_missing p.downscale_when) ≡ false
      → IsPolicy P names p
  is_target :
      p.kind ≡ "target"
      → p.expression ≢ ""
      → (program : P) → expr.compile p.expression (compile_env names []) ≡ some program
      → IsPolicy P names p

module _ {V : Type 0} (P : Type 0) ⦃float : Float V⦄ ⦃expr : ExprLang V P⦄ where
  validate_window_lem :
      (metrics names : List String) (p : PolicyConfig V)
      → ((x : String) → is_in x metrics ≡ is_in x names)
      → p.kind ≡ "window"
      → validate_window metrics p ≡ ok tt
      → IsPolicy P names p
  unfolding validate_window
  validate_window_lem metrics names p same kind h =
      let (a, h1) = >>-ok (reject_if (str_eq p.metric "") _) _ h in
      let (b, h2) = >>-ok (reject_if (not (is_in p.metric metrics)) _) _ h1 in
      let (width, c, h3) = >>=-ok (or_err p.bucket_duration _) _ h2 in
      let (d, h4) = >>-ok (reject_if (leb_ℤ width (pos 0)) _) _ h3 in
      let (e, h5) =
        >>-ok (reject_if (is_missing p.upscale_when && is_missing p.downscale_when) _) _ h4 in
      let (f, g) = >>-ok (within _ (validate_threshold width p.upscale_when)) _ h5 in
      let known : is_in p.metric metrics ≡ true = not-false _ (reject_if-ok _ _ b) in
      let wide = reject_if-ok _ _ d in
      is_window kind (str_ne p.metric "" (reject_if-ok _ _ a))
        (is_in-In p.metric names (sym (same p.metric) ∙ known)) width
        (or_err-ok p.bucket_duration _ c) (ground arith)
        (validate_threshold_lem width p.upscale_when (within-ok _ _ f))
        (validate_threshold_lem width p.downscale_when (within-ok _ _ g)) (reject_if-ok _ _ e)

  validate_target_lem :
      (names : List String) (p : PolicyConfig V)
      → p.kind ≡ "target"
      → validate_target P names p ≡ ok tt
      → IsPolicy P names p
  unfolding validate_target
  validate_target_lem names p kind h =
      let (a, b) = >>-ok (reject_if (str_eq p.expression "") _) _ h in
      let (program, c) =
        is_missing-some (expr.compile p.expression (compile_env names [])) (reject_if-ok _ _ b) in
      is_target kind (str_ne p.expression "" (reject_if-ok _ _ a)) program c

  pub validate_policy_lem :
      (metrics names : List String) (p : PolicyConfig V)
      → ((x : String) → is_in x metrics ≡ is_in x names)
      → validate_policy P metrics names p ≡ ok tt
      → IsPolicy P names p
  unfolding validate_policy
  validate_policy_lem metrics names p same h = elim (Bool-cases (str_eq p.kind "window")) [
    | inl w ↦ validate_window_lem metrics names p same ((eq_iff p.kind "window").0 w) (rw w at h)
    | inr nw ↦ elim (Bool-cases (str_eq p.kind "target")) [
      | inl t ↦ validate_target_lem names p ((eq_iff p.kind "target").0 t) (rw (nw, t) at h)
      | inr nt ↦ absurd (cc (rw (nw, nt) at h))
    ]
  ]
