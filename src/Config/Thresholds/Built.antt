-- ===== src/Config/Thresholds/Built.antt =====
-- What `BuildServices` (internal/config/config.go) makes of an accepted policy: never a panic or an
-- error, and a policy whose windows are whole numbers of buckets.
use native.Mathlib.Nat.{div-add-mod}
use ninjascale.Prelude.{
  ℕ, zero, suc, ◌*◌, ◌+◌, ◌/◌, ◌%◌, ◌^◌, ◌<◌, ◌≡◌, ◌⊎◌, inl, inr, refl, ap, Option, none, some,
  List, String, arith, pos, negsuc, pos_part, ◌<ℤ◌, rem, eq_iff,
}
use ninjascale.Prelude.Result.{ok}
use ninjascale.Time.{Duration, zero_time}
use ninjascale.Metrics.{Float}
use ninjascale.Policy.{Policy, window, target}
use ninjascale.Policy.Window.{WindowPolicy}
use ninjascale.Policy.Window.Wanted.{AreAligned}
use ninjascale.Policy.Target.{ExprLang, new_target_policy}
use ninjascale.Config.{ThresholdConfig, PolicyConfig}
use ninjascale.Config.Thresholds.{build_threshold, build_window, build_target, build_policy}
use ninjascale.Config.Described.{IsPolicyOf, build_threshold-IsThresholdOf}
use ninjascale.Config.Thresholds.Accepted.{IsThreshold, IsPolicy, is_window, is_target}

-- The window is a duration of 64 bits, as every duration that is read.
abbrev pub Fits : {V : Type 0} → Option (ThresholdConfig V) → Type 0
Fits none = Unit
Fits (some t) = pos_part t.sustained_for < 2 ^ 63

abbrev pub PolicyFits : {V : Type 0} → PolicyConfig V → Type 0
PolicyFits p = Fits p.upscale_when × Fits p.downscale_when

-- The policy is of the service, and its windows are whole numbers of buckets.
abbrev pub IsReady : {V P : Type 0} → String → Policy V P → Type 0
IsReady service (window w) =
    (w.service ≡ service) × AreAligned w w.upscale_when × AreAligned w w.downscale_when
IsReady service (target t) = t.service ≡ service

positive_or_zero : (n : ℕ) → (n ≡ 0) ⊎ ((c : ℕ) × (n ≡ suc c))
positive_or_zero zero = inl refl
positive_or_zero (suc n) = inr (n, refl)

whole_count :
    (m w : ℕ) → 0 < m → rem (pos m) (pos (suc w)) ≡ pos 0 → (count : ℕ) × (m ≡ suc count * suc w)
unfolding rem
whole_count m w h e =
    let r : m % suc w ≡ 0 = cc in
    let q : suc w * (m / suc w) + m % suc w ≡ m = div-add-mod m (suc w) in
    elim (positive_or_zero (m / suc w)) [
      | inl z ↦ absurd (omega (arith, ap (λ (t : ℕ). suc w * t) z))
      | inr (c, e) ↦ (c, omega (arith, ap (λ (t : ℕ). suc w * t) e))
    ]

aligned_parts :
    (d s : Duration)
    → pos 0 <ℤ d
    → pos 0 <ℤ s
    → rem s d ≡ pos 0
    → pos_part s < 2 ^ 63
    → (width : ℕ) × (count : ℕ) × (d ≡ pos (suc width))
      × (s ≡ pos (suc count * suc width))
      × (suc count * suc width < 2 ^ 63)
aligned_parts (pos zero) s hd hs e fits = absurd (omega arith)
aligned_parts (negsuc d) s hd hs e fits = absurd (omega arith)
aligned_parts (pos (suc d)) (negsuc s) hd hs e fits = absurd (omega arith)
aligned_parts (pos (suc d)) (pos s) hd hs e fits =
    let (count, q) = whole_count s d (omega arith) e in (d, count, refl, ap pos q, omega (arith, q))

module _ {V : Type 0} where
  build_threshold-AreAligned :
      (w : WindowPolicy V) (o : Option (ThresholdConfig V))
      → pos 0 <ℤ w.bucket_duration
      → IsThreshold w.bucket_duration o
      → Fits o
      → AreAligned w (build_threshold o)
  build_threshold-AreAligned w none wide s fits = tt
  build_threshold-AreAligned w (some t) wide s fits =
      aligned_parts w.bucket_duration t.sustained_for wide s.long s.whole fits

module _ {V : Type 0} (P : Type 0) ⦃float : Float V⦄ ⦃expr : ExprLang V P⦄ where
  -- An accepted policy is built, for the service, with whole windows, as it is configured.
  pub build_policy-IsReady :
      (service : String) (names : List String) (p : PolicyConfig V)
      → IsPolicy P names p
      → PolicyFits p
      → (q : Policy V P) × (build_policy P service names p ≡ ok q)
        × IsReady service q
        × IsPolicyOf service names p q
  unfolding build_policy build_window build_target new_target_policy
  build_policy-IsReady service names p
        (is_window kind named known width bucket wide up down some_one) fits =
      let w : WindowPolicy V = record {
        service = service;
        metric = p.metric;
        bucket_duration = width;
        upscale_when = build_threshold p.upscale_when;
        downscale_when = build_threshold p.downscale_when;
        reset_cutoff = zero_time;
      } in
      (
        window w,
        rw ((eq_iff p.kind "window").1 kind, bucket) refl,
        (
          refl,
          build_threshold-AreAligned w p.upscale_when wide up fits.0,
          build_threshold-AreAligned w p.downscale_when wide down fits.1,
        ),
        (
          kind,
          refl,
          refl,
          bucket,
          build_threshold-IsThresholdOf p.upscale_when,
          build_threshold-IsThresholdOf p.downscale_when,
          refl,
        ),
      )
  build_policy-IsReady service names p (is_target kind written program compiled) fits = (
    target (record {
      service = service;
      expression_text = p.expression;
      metric_names = names;
      program = program;
    }),
    rw (kind, compiled) refl,
    refl,
    (kind, refl, refl, refl, compiled),
  )
