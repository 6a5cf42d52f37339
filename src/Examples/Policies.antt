-- ===== src/Examples/Policies.antt =====
-- Runs of internal/policy.
use ninjascale.Prelude.{
  ◌≡◌, refl, true, false, some, pos, arith, lookup, quot, ◌+ℤ◌, ◌-ℤ◌, ◌*ℤ◌, emod, int64,
  search_index, search_loop, search_slice, ◌≤ℤ◌,
}
use ninjascale.Metrics.Store.{snapshot_samples, samples_of}
use ninjascale.Metrics.Buckets.{
  complete_buckets, starts_before, bucket_start, oldest_start, classify, bucket_at, collect,
}
use ninjascale.Time.{truncate}
use ninjascale.Metrics.Store.Sorted.{IsSorted}
use ninjascale.Policy.Decision.{upscale}
use ninjascale.Policy.Window.{reset, required_buckets, evaluate_direction, evaluate, judge}
use ninjascale.Policy.Window.Breach.{IsAligned, key_of, count_of}
use ninjascale.Policy.Window.Sustained.{
  ByWindow, IsSustained, WantsUp, moved, unmoved, evaluate_direction-ByWindow, evaluate-WantsUp,
}
use ninjascale.Policy.Window.Wanted.{reset-evaluate_direction}
use ninjascale.Metrics.Buckets.Gaps.{window_start}
use ninjascale.Examples.{whole_float, recent, above, below, web_policy}

above-IsAligned : IsAligned web_policy above
above-IsAligned = (9, 1, refl, refl, omega arith)

below-IsAligned : IsAligned web_policy below
below-IsAligned = (9, 1, refl, refl, omega arith)

recent-IsSorted : IsSorted (snapshot_samples recent (key_of web_policy))
unfolding snapshot_samples lookup
recent-IsSorted = (((omega arith, (omega arith, tt)), ((omega arith, tt), (tt, tt))))

evaluate-WantsUp_example :
    WantsUp web_policy
      (some above)
      (pos 2)
      recent
      (pos 125)
      (count_of (evaluate web_policy (pos 2) recent (pos 125)).decision)
evaluate-WantsUp_example =
    evaluate-WantsUp web_policy (pos 2) recent (pos 125) above-IsAligned below-IsAligned
      recent-IsSorted

evaluate_direction-ByWindow_example :
    let v = evaluate_direction web_policy above upscale (pos 2) recent (pos 125) in
    ByWindow
      (IsSustained web_policy above upscale recent (pos 125))
      ((v.breached ≡ true) × (count_of v.decision ≡ some (moved upscale (pos 2) (pos 1))))
      ((v.breached ≡ false) × (count_of v.decision ≡ unmoved upscale (pos 2)))
evaluate_direction-ByWindow_example =
    evaluate_direction-ByWindow web_policy above upscale (pos 2) recent (pos 125) above-IsAligned
      recent-IsSorted

-- The window of the evaluation at 125 begins at 100.
breached_after_reset :
    (evaluate_direction (reset (pos 99) web_policy) above upscale (pos 2) recent (pos 125)).breached
    ≡ true
unfolding evaluate_direction judge complete_buckets reset required_buckets quot starts_before
    bucket_start ◌+ℤ◌ oldest_start truncate ◌-ℤ◌ emod int64 ◌*ℤ◌ snapshot_samples lookup classify
    bucket_at collect samples_of search_index search_loop search_slice
breached_after_reset = refl

reset-evaluate_direction_example : pos 99 ≤ℤ window_start (pos 125) 10 2
unfolding required_buckets quot
reset-evaluate_direction_example =
    reset-evaluate_direction web_policy above upscale (pos 2) recent (pos 125) (pos 99)
      above-IsAligned recent-IsSorted refl breached_after_reset
