-- ===== src/Policy/Window/Sustained.antt =====
-- What a window policy asks for (internal/policy/window.go), said of the samples in the slots of its
-- windows: no loop, comparison or count of the code stands in these descriptions.
use native.Mathlib.Nat.{mul-div_left}
use Prim.Native.Nat.{◌/◌}
use ninjascale.Prelude.{
  ℕ, suc, ◌≡◌, refl, sym, ◌∙◌, Bool, true, false, not, ◌&&◌, ◌↔◌, ◌⊎◌, inl, inr, List, [], ◌∷◌,
  Option, none, some, arith, ℤ, pos_part, ◌≤ℤ◌, ◌+ℤ◌, ◌-ℤ◌, int64, all, All,
}
use mathlib.Core.Path.{subst}
use ninjascale.Time.{Time, zero_time, is_zero, before}
use ninjascale.Metrics.{Float, Bucket}
use ninjascale.Metrics.Store.{Series, snapshot_samples}
use ninjascale.Metrics.Store.Sorted.{IsSorted}
use ninjascale.Metrics.Buckets.Gaps.{is_some, present, window_start}
use ninjascale.Metrics.Buckets.Status.{window_slots}
use ninjascale.Policy.Decision.{Direction, upscale, downscale}
use ninjascale.Policy.Window.{
  WindowThreshold, WindowPolicy, required_buckets, every_breaches, evaluate_direction, evaluate,
}
use ninjascale.Policy.Window.Breach.{
  IsAligned, key_of, slots_of, is_fresh, is_sustained, required_buckets-eq, count_of,
  evaluate_direction_lem,
}
use ninjascale.Policy.Window.Wanted.{AreAligned, wanted_down, wanted_up, evaluate_lem}

-- The window begins at or after the last reset, if there was one.
abbrev pub IsAfter : Time → Time → Type 0
IsAfter cutoff start = (cutoff ≡ zero_time) ⊎ (cutoff ≤ℤ start)

reset_cutoff-IsAfter :
    (cutoff start : Time)
    → (not (not (is_zero cutoff) && before start cutoff) ≡ true) ↔ IsAfter cutoff start
reset_cutoff-IsAfter cutoff start = ground arith

and_iff :
    (f a b : Bool) {X Y : Type 0}
    → (f ≡ true) ↔ X
    → ((a && b) ≡ true) ↔ Y
    → ((f && a && b) ≡ true) ↔ (X × Y)
and_iff true a b x y = (λ h. (x.0 refl, y.0 h), λ h. y.1 h.1)
and_iff false a b x y = (λ h. absurd (cc h), λ h. x.1 h.0)

-- Either the window is sustained or it is not, with what is the case then.
abbrev pub ByWindow : Type 0 → Type 0 → Type 0 → Type 0
ByWindow sustained then_so else_so = (sustained × then_so) ⊎ ((¬ sustained) × else_so)

by_window :
    (b : Bool) {S X Y : Type 0} → (b ≡ true) ↔ S → (b ≡ true → X) → (b ≡ false → Y) → ByWindow S X Y
by_window true iff x y = inl (iff.0 refl, x refl)
by_window false iff x y = inr ((λ h. absurd (cc (iff.1 h))), y refl)

-- One step in the direction, added or subtracted in 64 bits.
abbrev pub moved : Direction → ℤ → ℤ → ℤ
moved upscale current step = int64 (current +ℤ step)
moved downscale current step = int64 (current -ℤ step)

-- What a direction asks for without a breach: nothing for upscale, the current count for
-- downscale.
abbrev pub unmoved : Direction → ℤ → Option ℤ
unmoved upscale current = none
unmoved downscale current = some current

module _ {V : Type 0} where
  -- The number of buckets of a threshold.
  abbrev pub count_in : WindowPolicy V → WindowThreshold V → ℕ
  count_in w t = pos_part t.sustained_for / pos_part w.bucket_duration

  module _ ⦃float : Float V⦄ where
    -- The slot has a sample, strictly above the threshold for upscale and strictly below it for
    -- downscale.
    abbrev pub IsBeyond : Direction → V → Option (Bucket V) → Type 0
    IsBeyond direction threshold none = ⊥
    IsBeyond upscale threshold (some b) = float.lt threshold b.sample.value ≡ true
    IsBeyond downscale threshold (some b) = float.lt b.sample.value threshold ≡ true

    -- The window does not reach back before the last reset, and every slot of it is beyond the
    -- threshold.
    abbrev pub IsSustained :
        WindowPolicy V → WindowThreshold V → Direction → Series V → Time → Type 0
    IsSustained w t direction series now =
        IsAfter w.reset_cutoff (window_start now (pos_part w.bucket_duration) (count_in w t))
        × All (IsBeyond direction t.threshold) (
            window_slots (snapshot_samples series (key_of w)) now (pos_part w.bucket_duration)
              (count_in w t))

    slots-IsBeyond :
        (t : WindowThreshold V) (direction : Direction) (xs : List (Option (Bucket V)))
        → ((all is_some xs && every_breaches direction t (present xs)) ≡ true)
          ↔ All (IsBeyond direction t.threshold) xs
    slots-IsBeyond t upscale [] = ground arith
    slots-IsBeyond t downscale [] = ground arith
    slots-IsBeyond t upscale (none ∷ xs) = ground arith
    slots-IsBeyond t downscale (none ∷ xs) = ground arith
    slots-IsBeyond t upscale (some b ∷ xs) = ground (arith, slots-IsBeyond t upscale xs)
    slots-IsBeyond t downscale (some b ∷ xs) = ground (arith, slots-IsBeyond t downscale xs)

    count_in-eq :
        (w : WindowPolicy V) (t : WindowThreshold V)
        → IsAligned w t
        → pos_part (required_buckets t w) ≡ count_in w t
    count_in-eq w t (width, count, ew, et, fits) =
        rw (required_buckets-eq w t width count ew et, ew, et)
          (sym (mul-div_left (suc count) (omega arith)))

    is_sustained-IsSustained :
        (w : WindowPolicy V) (t : WindowThreshold V) (direction : Direction) (series : Series V)
        (now : Time)
        → IsAligned w t
        → (is_sustained w t direction series now ≡ true) ↔ IsSustained w t direction series now
    is_sustained-IsSustained w t direction series now aligned =
        let width : ℕ = pos_part w.bucket_duration in
        let values = snapshot_samples series (key_of w) in
        subst
          (λ n. (is_sustained w t direction series now ≡ true) ↔ (
            IsAfter w.reset_cutoff (window_start now width n)
            × All (IsBeyond direction t.threshold) (window_slots values now width n)))
          (count_in-eq w t aligned)
          (and_iff (is_fresh w t now) (all is_some (slots_of w t series now))
            (every_breaches direction t (present (slots_of w t series now)))
            (reset_cutoff-IsAfter w.reset_cutoff
              (window_start now width (pos_part (required_buckets t w))))
            (slots-IsBeyond t direction (slots_of w t series now)))

    -- For an aligned threshold and a series in order, a direction breaches exactly if the window
    -- begins at or after the last reset and every slot has a sample, strictly above the threshold
    -- for upscale and strictly below it for downscale. It then asks for one step in the direction,
    -- and otherwise upscale asks for nothing and downscale for the current count.
    pub evaluate_direction-ByWindow :
        (w : WindowPolicy V) (t : WindowThreshold V) (direction : Direction) (current : ℤ)
        (series : Series V) (now : Time)
        → IsAligned w t
        → IsSorted (snapshot_samples series (key_of w))
        → let v = evaluate_direction w t direction current series now in
          ByWindow
            (IsSustained w t direction series now)
            ((v.breached ≡ true) × (count_of v.decision ≡ some (moved direction current t.step)))
            ((v.breached ≡ false) × (count_of v.decision ≡ unmoved direction current))
    evaluate_direction-ByWindow w t upscale current series now aligned sorted =
        let facts = evaluate_direction_lem w t upscale current series now aligned sorted in
        by_window (is_sustained w t upscale series now)
          (is_sustained-IsSustained w t upscale series now aligned)
          (λ e. (facts.0 ∙ e, facts.1 ∙ (rw e refl))) (λ e. (facts.0 ∙ e, facts.1 ∙ (rw e refl)))
    evaluate_direction-ByWindow w t downscale current series now aligned sorted =
        let facts = evaluate_direction_lem w t downscale current series now aligned sorted in
        by_window (is_sustained w t downscale series now)
          (is_sustained-IsSustained w t downscale series now aligned)
          (λ e. (facts.0 ∙ e, facts.1 ∙ (rw e refl))) (λ e. (facts.0 ∙ e, facts.1 ∙ (rw e refl)))

    -- What the downscale threshold asks for.
    abbrev pub WantsDown :
        WindowPolicy V → Option (WindowThreshold V) → ℤ → Series V → Time → Option ℤ → Type 0
    WantsDown w none current series now count = count ≡ none
    WantsDown w (some t) current series now count =
        ByWindow (IsSustained w t downscale series now) (count ≡ some (int64 (current -ℤ t.step)))
          (count ≡ some current)

    -- What the upscale threshold asks for, and where it asks for nothing, the downscale threshold.
    abbrev pub WantsUp :
        WindowPolicy V → Option (WindowThreshold V) → ℤ → Series V → Time → Option ℤ → Type 0
    WantsUp w none current series now count = WantsDown w w.downscale_when current series now count
    WantsUp w (some t) current series now count =
        ByWindow (IsSustained w t upscale series now) (count ≡ some (int64 (current +ℤ t.step)))
          (WantsDown w w.downscale_when current series now count)

    down-WantsDown :
        (w : WindowPolicy V) (o : Option (WindowThreshold V)) (current : ℤ) (series : Series V)
        (now : Time)
        → AreAligned w o
        → WantsDown w o current series now (wanted_down w o current series now)
    down-WantsDown w none current series now aligned = refl
    down-WantsDown w (some t) current series now aligned =
        by_window (is_sustained w t downscale series now)
          (is_sustained-IsSustained w t downscale series now aligned) (λ e. rw e refl)
          (λ e. rw e refl)

    up-WantsUp :
        (w : WindowPolicy V) (o : Option (WindowThreshold V)) (current : ℤ) (series : Series V)
        (now : Time)
        → AreAligned w o
        → AreAligned w w.downscale_when
        → WantsUp w o current series now (wanted_up w o current series now)
    up-WantsUp w none current series now aligned down =
        down-WantsDown w w.downscale_when current series now down
    up-WantsUp w (some t) current series now aligned down =
        by_window (is_sustained w t upscale series now)
          (is_sustained-IsSustained w t upscale series now aligned) (λ e. rw e refl)
          (λ e. rw e (down-WantsDown w w.downscale_when current series now down))

    pub evaluate-WantsUp :
        (w : WindowPolicy V) (current : ℤ) (series : Series V) (now : Time)
        → AreAligned w w.upscale_when
        → AreAligned w w.downscale_when
        → IsSorted (snapshot_samples series (key_of w))
        → WantsUp w w.upscale_when current series now
            (count_of (evaluate w current series now).decision)
    evaluate-WantsUp w current series now up down sorted =
        subst (WantsUp w w.upscale_when current series now)
          (sym (evaluate_lem w current series now up down sorted))
          (up-WantsUp w w.upscale_when current series now up down)
