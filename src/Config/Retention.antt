-- ===== src/Config/Retention.antt =====
-- `MetricRetention` (internal/config/config.go) and the windows that a configuration asks for, in the
-- store that has this retention.
use ninjascale.Prelude.{
  zero, suc, ◌+◌, ◌*◌, ◌^◌, ◌<◌, ◌≡◌, inl, inr, Option, none, some, List, [], ◌∷◌, str_eq, arith,
  if◌then◌else◌, ℕ, pos, ◌+ℤ◌, ◌-ℤ◌, ◌≤ℤ◌, All, All-map, Bool-cases, int64-eq, int64-*, pos-+ℤ-pos,
  int_laws, select,
}
use mathlib.Core.Path.{subst}
use ninjascale.Time.{Time, Duration, seconds, truncate_bounds}
use ninjascale.Metrics.{MetricKey}
use ninjascale.Metrics.Store.{MetricStore, not_before, samples_of, snapshot}
use ninjascale.Metrics.Store.Invariant.{IsWellFormed}
use ninjascale.Metrics.Store.Retained.{select-snapshot}
use ninjascale.Metrics.Buckets.{oldest_start}
use ninjascale.Metrics.Buckets.Gaps.{oldest_start-eq}
use ninjascale.Config.{
  ThresholdConfig, PolicyConfig, ServiceConfig, Config, candidate, retain_threshold, retain_policy,
  retain_policies, retain_services, metric_retention,
}

module _ {V : Type 0} where
  -- The retention is at least what a threshold needs over buckets of one width.
  abbrev pub CoversThreshold : Duration → Duration → Option (ThresholdConfig V) → Type 0
  CoversThreshold retention width none = Unit
  CoversThreshold retention width (some t) = candidate t.sustained_for width ≤ℤ retention

  abbrev pub CoversWidth : Duration → PolicyConfig V → Option Duration → Type 0
  CoversWidth retention p none = Unit
  CoversWidth retention p (some width) =
      if str_eq p.kind "window"
      then CoversThreshold retention width p.upscale_when
        × CoversThreshold retention width p.downscale_when
      else Unit

  -- It is at least what every threshold of a window policy needs.
  abbrev pub CoversPolicy : Duration → PolicyConfig V → Type 0
  CoversPolicy retention p = CoversWidth retention p p.bucket_duration

  abbrev pub CoversService : Duration → ServiceConfig V → Type 0
  CoversService retention svc = All (CoversPolicy retention) svc.policies

  CoversThreshold-le :
      (r r' width : Duration) (t : Option (ThresholdConfig V))
      → r ≤ℤ r'
      → CoversThreshold r width t
      → CoversThreshold r' width t
  CoversThreshold-le r r' width none h c = tt
  CoversThreshold-le r r' width (some t) h c = omega arith

  CoversWidth-le :
      (r r' : Duration) (p : PolicyConfig V) (width : Option Duration)
      → r ≤ℤ r'
      → CoversWidth r p width
      → CoversWidth r' p width
  CoversWidth-le r r' p none h = λ c. tt
  CoversWidth-le r r' p (some width) h = elim (Bool-cases (str_eq p.kind "window")) [
    | inl e ↦ rw e (λ c. (
      CoversThreshold-le r r' width p.upscale_when h c.0,
      CoversThreshold-le r r' width p.downscale_when h c.1,
    ))
    | inr e ↦ rw e (λ c. c)
  ]

  -- A step of the loop: the retention grows, and covers what the step looked at.
  retain_threshold-ge :
      (width : Duration) (t : Option (ThresholdConfig V)) (r : Duration)
      → (r ≤ℤ retain_threshold width t r) × CoversThreshold (retain_threshold width t r) width t
  retain_threshold-ge width none r = (omega arith, tt)
  retain_threshold-ge width (some t) r = ground arith

  retain_policy-ge :
      (p : PolicyConfig V) (width : Option Duration) (r : Duration)
      → (r ≤ℤ retain_policy p width r) × CoversWidth (retain_policy p width r) p width
  retain_policy-ge p none r = (omega arith, tt)
  retain_policy-ge p (some width) r = elim (Bool-cases (str_eq p.kind "window")) [
    | inl e ↦
        let up = retain_threshold-ge width p.upscale_when r in
        let r' : Duration = retain_threshold width p.upscale_when r in
        let down = retain_threshold-ge width p.downscale_when r' in
        rw e (
          omega (arith, up.0, down.0),
          (CoversThreshold-le r' _ width p.upscale_when down.0 up.1, down.1),
        )
    | inr e ↦ rw e (omega arith, tt)
  ]

  retain_policies-ge :
      (ps : List (PolicyConfig V)) (r : Duration)
      → (r ≤ℤ retain_policies ps r) × All (CoversPolicy (retain_policies ps r)) ps
  unfolding retain_policies
  retain_policies-ge [] r = (omega arith, tt)
  retain_policies-ge (p ∷ ps) r =
      let one = retain_policy-ge p p.bucket_duration r in
      let more = retain_policies-ge ps (retain_policy p p.bucket_duration r) in
      (
        omega (arith, one.0, more.0),
        (
          CoversWidth-le (retain_policy p p.bucket_duration r) _ p p.bucket_duration more.0 one.1,
          more.1,
        ),
      )

  retain_services-ge :
      (svcs : List (ServiceConfig V)) (r : Duration)
      → (r ≤ℤ retain_services svcs r) × All (CoversService (retain_services svcs r)) svcs
  unfolding retain_services
  retain_services-ge [] r = (omega arith, tt)
  retain_services-ge (svc ∷ svcs) r =
      let r' : Duration = retain_policies svc.policies r in
      let one = retain_policies-ge svc.policies r in
      let more = retain_services-ge svcs r' in
      (
        omega (arith, one.0, more.0),
        (
          All-map (CoversPolicy r') (CoversPolicy (retain_services svcs r')) svc.policies
              (λ p c. CoversWidth-le r' _ p p.bucket_duration more.0 c) one.1,
          more.1,
        ),
      )

  -- The retention is at least thirty seconds, and at least the window and two buckets, added in 64
  -- bits, of every threshold of every window policy that has a bucket width.
  pub metric_retention_lem :
      (cfg : Config V)
      → (seconds 30 ≤ℤ metric_retention cfg)
        × All (CoversService (metric_retention cfg)) cfg.services
  unfolding metric_retention
  metric_retention_lem cfg = retain_services-ge cfg.services (seconds 30)

candidate-eq : (a w : ℕ) → a + 2 * w < 2 ^ 63 → candidate (pos a) (pos w) ≡ pos (a + 2 * w)
candidate-eq a w h =
    rw (int64-* 2 w (omega arith), pos-+ℤ-pos a (2 * w))
      (int64-eq (pos (a + 2 * w)) (omega arith, omega arith))

-- If the retention covers a window, its cutoff is not after the start of the window, up to one bucket
-- after `now`.
oldest_start-retained :
    (retention : Duration) (now at : Time) (w count : ℕ)
    → 0 < w
    → count * w + 2 * w < 2 ^ 63
    → candidate (pos (count * w)) (pos w) ≤ℤ retention
    → at ≤ℤ now +ℤ pos w
    → at -ℤ retention ≤ℤ oldest_start now (pos w) (pos count)
oldest_start-retained retention now at zero count hw fits covers soon = elim hw [ ]
oldest_start-retained retention now at (suc v) count hw fits covers soon =
    let w : ℕ = suc v in
    let n : ℕ = count * w in
    let wide : pos (n + 2 * w) ≤ℤ retention =
      subst (λ c. c ≤ℤ retention) (candidate-eq n w fits) covers in
    rw (oldest_start-eq now w count (omega arith) (omega arith))
      (omega (arith, truncate_bounds now w hw, wide, soon, int_laws))

-- Take a store in order and within its limits, whose retention covers a window of `count` buckets of
-- a positive width, where the window with two buckets is a duration. In a snapshot at most one bucket
-- after `now`, every history has exactly the samples of the store from the start on of the window
-- that `CompleteBuckets` looks at.
pub snapshot-window :
    {V : Type 0} (s : MetricStore V) (k : MetricKey) (now at : Time) (w count : ℕ)
    → IsWellFormed s
    → 0 < w
    → count * w + 2 * w < 2 ^ 63
    → candidate (pos (count * w)) (pos w) ≤ℤ s.retention
    → at ≤ℤ now +ℤ pos w
    → select (not_before (oldest_start now (pos w) (pos count))) (samples_of k (snapshot at s).1)
      ≡ select (not_before (oldest_start now (pos w) (pos count))) (samples_of k s.series)
snapshot-window s k now at w count well hw fits covers soon =
    select-snapshot at (oldest_start now (pos w) (pos count)) s k well
      (oldest_start-retained s.retention now at w count hw fits covers soon)
