-- ===== src/Policy/Window/Wanted.antt =====
-- What `Evaluate` of a window policy asks for, and what `Reset` does to it
-- (internal/policy/window.go).
use ninjascale.Prelude.{
  ◌≡◌, refl, sym, ◌∙◌, Bool, true, false, not, ◌&&◌, inl, inr, List, [], ◌∷◌, Option, none, some,
  arith, if◌then◌else◌, ℤ, pos_part, ◌≤ℤ◌, all, Bool-cases,
}
use ninjascale.Time.{Time, is_zero, before}
use ninjascale.Metrics.{Float}
use ninjascale.Metrics.Store.{Series, snapshot_samples}
use ninjascale.Metrics.Store.Sorted.{IsSorted}
use ninjascale.Metrics.Buckets.Gaps.{is_some, present, window_start}
use ninjascale.Policy.Decision.{Direction, upscale, downscale, WindowEvaluation}
use ninjascale.Policy.Window.{
  WindowThreshold, WindowPolicy, Verdict, stepped, required_buckets, reset, every_breaches,
  evaluate_direction, evaluate_down, evaluate_up, evaluate,
}
use ninjascale.Policy.Window.Breach.{
  IsAligned, key_of, slots_of, is_fresh, is_sustained, count_of, evaluate_direction_lem,
}

fresh_start :
    (f a b : Bool) (cutoff start : Time)
    → f ≡ not (not (is_zero cutoff) && before start cutoff)
    → is_zero cutoff ≡ false
    → (f && a && b) ≡ true
    → cutoff ≤ℤ start
fresh_start f a b cutoff start e nz h = ground arith

abbrev pub AreAligned : {V : Type 0} → WindowPolicy V → Option (WindowThreshold V) → Type 0
AreAligned w none = Unit
AreAligned w (some t) = IsAligned w t

module _ {V : Type 0} ⦃float : Float V⦄ where
  -- The count that a window policy asks for, in terms of sustained directions.
  abbrev pub wanted_down :
      WindowPolicy V → Option (WindowThreshold V) → ℤ → Series V → Time → Option ℤ
  wanted_down w none current series now = none
  wanted_down w (some t) current series now =
      if is_sustained w t downscale series now
      then some (stepped downscale current t.step)
      else some current

  abbrev pub wanted_up :
      WindowPolicy V → Option (WindowThreshold V) → ℤ → Series V → Time → Option ℤ
  wanted_up w none current series now = wanted_down w w.downscale_when current series now
  wanted_up w (some t) current series now =
      if is_sustained w t upscale series now
      then some (stepped upscale current t.step)
      else wanted_down w w.downscale_when current series now

  evaluate_down-eq :
      (w : WindowPolicy V) (o : Option (WindowThreshold V)) (seen : List WindowEvaluation)
      (current : ℤ) (series : Series V) (now : Time)
      → AreAligned w o
      → IsSorted (snapshot_samples series (key_of w))
      → count_of (evaluate_down w o seen current series now).decision
        ≡ wanted_down w o current series now
  evaluate_down-eq w none seen current series now aligned sorted = refl
  evaluate_down-eq w (some t) seen current series now aligned sorted =
      (evaluate_direction_lem w t downscale current series now aligned sorted).1

  evaluate_up-eq :
      (w : WindowPolicy V) (o : Option (WindowThreshold V)) (current : ℤ) (series : Series V)
      (now : Time)
      → AreAligned w o
      → AreAligned w w.downscale_when
      → IsSorted (snapshot_samples series (key_of w))
      → count_of (evaluate_up w o current series now).decision ≡ wanted_up w o current series now
  evaluate_up-eq w none current series now up down sorted =
      evaluate_down-eq w w.downscale_when [] current series now down sorted
  evaluate_up-eq w (some t) current series now up down sorted =
      let v : Verdict V = evaluate_direction w t upscale current series now in
      let facts = evaluate_direction_lem w t upscale current series now up sorted in
      elim (Bool-cases (is_sustained w t upscale series now)) [
        | inl e ↦ rw (facts.0, e) (facts.1 ∙ (rw e))
        | inr e ↦
            rw (facts.0, e)
              (evaluate_down-eq w w.downscale_when (v.observation ∷ []) current series now down
                sorted)
      ]

  -- For aligned thresholds and a series in order, a window policy asks for one step up if every
  -- slot of the upscale window is filled and above the threshold; otherwise, if it has a
  -- downscale threshold, for one step down if every slot of that window is filled and below its
  -- threshold, and for the current count if not; otherwise for nothing.
  pub evaluate_lem :
      (w : WindowPolicy V) (current : ℤ) (series : Series V) (now : Time)
      → AreAligned w w.upscale_when
      → AreAligned w w.downscale_when
      → IsSorted (snapshot_samples series (key_of w))
      → count_of (evaluate w current series now).decision
        ≡ wanted_up w w.upscale_when current series now
  unfolding evaluate
  evaluate_lem w current series now up down sorted =
      evaluate_up-eq w w.upscale_when current series now up down sorted

  -- After a reset at an instant that is not the zero time, for an aligned threshold and a series
  -- in order, a direction breaches only in a window that begins at or after the reset.
  pub reset-evaluate_direction :
      (w : WindowPolicy V) (t : WindowThreshold V) (direction : Direction) (current : ℤ)
      (series : Series V) (now at : Time)
      → IsAligned w t
      → IsSorted (snapshot_samples series (key_of w))
      → is_zero at ≡ false
      → (evaluate_direction (reset at w) t direction current series now).breached ≡ true
      → at ≤ℤ window_start now (pos_part w.bucket_duration) (pos_part (required_buckets t w))
  unfolding reset required_buckets
  reset-evaluate_direction w t direction current series now at aligned sorted nz h =
      let w' : WindowPolicy V = reset at w in
      fresh_start (is_fresh w' t now) (all is_some (slots_of w' t series now))
        (every_breaches direction t (present (slots_of w' t series now))) at
        (window_start now (pos_part w.bucket_duration) (pos_part (required_buckets t w))) refl nz
        (sym (evaluate_direction_lem w' t direction current series now aligned sorted).0 ∙ h)
