-- ===== src/Policy/Window/Breach.antt =====
-- When a window policy decides (internal/policy/window.go): the outcome of `Evaluate` in terms of
-- the slots of the window, with the strict comparison in every slot.
use native.Mathlib.Nat.{mul-div_left}
use mathlib.Core.Option
use mathlib.Core.Bool.{false≢true}
use ninjascale.Prelude.{
  ℕ, suc, ◌*◌, ◌^◌, ◌<◌, ◌≡◌, refl, ap, Bool, true, false, not, ◌&&◌, inl, inr, List, [], ◌∷◌,
  Option, none, some, arith, if◌then◌else◌, ℤ, pos, pos_part, quot, all, Bool-cases,
}
use ninjascale.Time.{Time, is_zero, before}
use ninjascale.Metrics.{Float, MetricKey, Sample, Bucket, BucketStatus}
use ninjascale.Metrics.Store.{Series, snapshot_samples}
use ninjascale.Metrics.Store.Sorted.{IsSorted}
use ninjascale.Metrics.Buckets.{complete_buckets}
use ninjascale.Metrics.Buckets.Gaps.{is_some, present, window_start, status_of}
use ninjascale.Metrics.Buckets.Status.{slots, window_slots, window_of, complete_buckets_lem}
use ninjascale.Policy.Decision.{Direction, upscale, downscale, ScaleDecision}
use ninjascale.Policy.Window.{
  WindowThreshold, WindowPolicy, is_complete, stepped, required_buckets, every_breaches, judge,
  evaluate_direction,
}

-- A window that configuration accepts: a positive width, and a positive multiple of it that is a
-- duration.
abbrev pub IsAligned : {V : Type 0} → WindowPolicy V → WindowThreshold V → Type 0
IsAligned w t =
    (width : ℕ) × (count : ℕ) × (w.bucket_duration ≡ pos (suc width))
    × (t.sustained_for ≡ pos (suc count * suc width))
    × (suc count * suc width < 2 ^ 63)

sustained-eq {ℓ} :
    {A : Type ℓ} (p : A → Bool) (xs ys : A) (c f a : Bool)
    → c ≡ (f && a)
    → (c ≡ true → xs ≡ ys)
    → (c && p xs) ≡ (f && a && p ys)
sustained-eq p xs ys true f a e h = ground (arith, h refl)
sustained-eq p xs ys false f a e h = ground arith

-- The count that a direction asks for when it does not breach.
abbrev pub held : Direction → ℤ → Option ℤ
held upscale current = none
held downscale current = some current

module _ {V : Type 0} where
  abbrev pub key_of : WindowPolicy V → MetricKey
  key_of w = record { service = w.service; name = w.metric }

  -- The window's slots, and whether it begins at or after the last reset.
  abbrev pub slots_of :
      WindowPolicy V → WindowThreshold V → Series V → Time → List (Option (Bucket V))
  slots_of w t series now =
      window_slots (snapshot_samples series (key_of w)) now (pos_part w.bucket_duration)
        (pos_part (required_buckets t w))

  abbrev pub is_fresh : WindowPolicy V → WindowThreshold V → Time → Bool
  is_fresh w t now = not (
      not (is_zero w.reset_cutoff)
      && before (window_start now (pos_part w.bucket_duration) (pos_part (required_buckets t w)))
          w.reset_cutoff)

  pub required_buckets-eq :
      (w : WindowPolicy V) (t : WindowThreshold V) (width count : ℕ)
      → w.bucket_duration ≡ pos (suc width)
      → t.sustained_for ≡ pos (suc count * suc width)
      → required_buckets t w ≡ pos (suc count)
  unfolding required_buckets quot
  required_buckets-eq w t width count ew et =
      rw (ew, et) (ap pos (mul-div_left (suc count) (omega arith)))

  is_complete-status_of :
      (x : Option (Bucket V)) (xs : List (Option (Bucket V)))
      → is_complete (status_of (x ∷ xs)) ≡ (is_some x && all is_some xs)
  is_complete-status_of x xs = ground arith

  -- Only a fresh window whose slots are all filled is complete.
  complete-window_of :
      (values : List (Sample V)) (now : Time) (w n : ℕ) (cutoff : Time)
      → is_complete (window_of values now w (suc n) cutoff).1 ≡ (
          not (not (is_zero cutoff) && before (window_start now w (suc n)) cutoff)
          && all is_some (window_slots values now w (suc n)))
  complete-window_of [] now w n cutoff =
      elim (Bool-cases (not (is_zero cutoff) && before (window_start now w (suc n)) cutoff)) [
        | inl e ↦ rw e refl
        | inr e ↦ rw e refl
      ]
  complete-window_of (v ∷ vs) now w n cutoff =
      elim (Bool-cases (not (is_zero cutoff) && before (window_start now w (suc n)) cutoff)) [
        | inl e ↦ rw e refl
        | inr e ↦ rw e (is_complete-status_of _ (slots (v ∷ vs) (window_start now w (suc n)) w 1 n))
      ]

  -- A complete window lists its slots.
  buckets-window_of :
      (values : List (Sample V)) (now : Time) (w n : ℕ) (cutoff : Time)
      → is_complete (window_of values now w (suc n) cutoff).1 ≡ true
      → (window_of values now w (suc n) cutoff).0 ≡ present (window_slots values now w (suc n))
  buckets-window_of [] now w n cutoff h =
      elim (Bool-cases (not (is_zero cutoff) && before (window_start now w (suc n)) cutoff)) [
        | inl e ↦ absurd (false≢true (rw e at h))
        | inr e ↦ absurd (false≢true (rw e at h))
      ]
  buckets-window_of (v ∷ vs) now w n cutoff h =
      elim (Bool-cases (not (is_zero cutoff) && before (window_start now w (suc n)) cutoff)) [
        | inl e ↦ absurd (false≢true (rw e at h))
        | inr e ↦ rw e refl
      ]

  -- The snapshot's answer, at a width and a count that are given by equations.
  answer-eq :
      (series : Series V) (key : MetricKey) (now : Time) (d c : ℤ) (width n : ℕ) (cutoff : Time)
      → d ≡ pos (suc width)
      → c ≡ pos (suc n)
      → suc n * suc width < 2 ^ 63
      → IsSorted (snapshot_samples series key)
      → let values = snapshot_samples series key in
        let answer = complete_buckets series key now d c cutoff in
        let fresh =
          not
            (not (is_zero cutoff) && before (window_start now (pos_part d) (pos_part c)) cutoff) in
        let filled = window_slots values now (pos_part d) (pos_part c) in
        (is_complete answer.1 ≡ (fresh && all is_some filled))
        × (is_complete answer.1 ≡ true → answer.0 ≡ present filled)
  answer-eq series key now d c width n cutoff ed ec fits sorted =
      rw
        (
          ed,
          ec,
          complete_buckets_lem series key now (suc width) (suc n) cutoff (omega arith) (omega arith)
              fits sorted,
        )
        (
          complete-window_of (snapshot_samples series key) now (suc width) n cutoff,
          buckets-window_of (snapshot_samples series key) now (suc width) n cutoff,
        )

  module _ ⦃float : Float V⦄ where
    -- Every slot of a fresh window holds a sample, and every one of them is beyond the threshold.
    abbrev pub is_sustained :
        WindowPolicy V → WindowThreshold V → Direction → Series V → Time → Bool
    is_sustained w t direction series now =
        is_fresh w t now
        && all is_some (slots_of w t series now)
        && every_breaches direction t (present (slots_of w t series now))

    abbrev pub count_of : Option (ScaleDecision V) → Option ℤ
    count_of = Option.map (λ d. d.desired_count)

    -- `evaluateDirection` after the snapshot has answered with a window.
    judge-eq :
        (w : WindowPolicy V) (t : WindowThreshold V) (direction : Direction) (current : ℤ)
        (buckets : List (Bucket V)) (answer : BucketStatus)
        → let v = judge w t direction current (buckets, answer) in
          let yes_all = is_complete answer && every_breaches direction t buckets in
          (v.breached ≡ yes_all)
          × (count_of v.decision ≡ (
              if yes_all then some (stepped direction current t.step) else held direction current))
    unfolding judge
    judge-eq w t upscale current buckets answer = ground arith
    judge-eq w t downscale current buckets answer = ground arith

    -- For an aligned threshold and a series in order, a direction breaches exactly when it is
    -- sustained; it then asks for one step, and otherwise upscale asks for nothing and downscale
    -- for the current count.
    pub evaluate_direction_lem :
        (w : WindowPolicy V) (t : WindowThreshold V) (direction : Direction) (current : ℤ)
        (series : Series V) (now : Time)
        → IsAligned w t
        → IsSorted (snapshot_samples series (key_of w))
        → let v = evaluate_direction w t direction current series now in
          let yes_all = is_sustained w t direction series now in
          (v.breached ≡ yes_all)
          × (count_of v.decision ≡ (
              if yes_all then some (stepped direction current t.step) else held direction current))
    unfolding evaluate_direction
    evaluate_direction_lem w t direction current series now (width, count, ew, et, fits) sorted =
        let answer : List (Bucket V) × BucketStatus =
          complete_buckets series (key_of w) now w.bucket_duration (required_buckets t w)
            w.reset_cutoff in
        let facts : (is_complete answer.1
              ≡ (is_fresh w t now && all is_some (slots_of w t series now)))
            × (is_complete answer.1 ≡ true → answer.0 ≡ present (slots_of w t series now)) =
          answer-eq series (key_of w) now w.bucket_duration (required_buckets t w) width count
            w.reset_cutoff ew (required_buckets-eq w t width count ew et) fits sorted in
        let same : (is_complete answer.1 && every_breaches direction t answer.0)
            ≡ is_sustained w t direction series now =
          sustained-eq (every_breaches direction t) answer.0 (present (slots_of w t series now))
            (is_complete answer.1) (is_fresh w t now) (all is_some (slots_of w t series now))
            facts.0 facts.1 in
        rw (← same) (judge-eq w t direction current answer.0 answer.1)
