-- ===== src/Examples/Stores.antt =====
-- Runs of internal/metrics/store.go.
use ninjascale.Metrics.{MetricKey, Sample, metric_key}
use ninjascale.Prelude.{
  refl, ℤ, true, false, ◌||◌, ◌⊎◌, ◌≡◌, insert, search_slice, search_index, search_loop, quot, some,
  pos, arith, lookup, last?, select, ◌-ℤ◌,
}
use ninjascale.Time.{zero_time}
use ninjascale.Metrics.Store.{
  prune, put_sample, prune_samples, enforce_sample_limits, cap_series, evict, add, samples_of,
  is_invalid, is_out_of_retention, total, snapshot_samples,
}
use ninjascale.Metrics.Store.Sorted.{IsSorted}
use ninjascale.Metrics.Store.Unscoped.{get, set, get-set}
use ninjascale.Metrics.Store.Histories.{Holds, kept, with_sample, put_and_pruned, add-Holds}
use ninjascale.Metrics.Store.Invariant.{IsWellFormed, add-IsWellFormed}
use ninjascale.Metrics.Buckets.{bucket_at, bucket_of, complete_buckets}
use ninjascale.Metrics.Buckets.Window.{in_bucket, bucket_at_lem}
use ninjascale.Metrics.Buckets.Status.{window_of, complete_buckets_lem}
use ninjascale.Examples.{whole_float, cpu, sample_of, history, recent, store}

history-IsSorted : IsSorted history
history-IsSorted = ground arith

recent-IsSorted : IsSorted (snapshot_samples recent cpu)
unfolding snapshot_samples lookup
recent-IsSorted = history-IsSorted

pub store-IsWellFormed : IsWellFormed store
unfolding total
store-IsWellFormed = record {
  limit_pos = omega arith;
  ordered = (history-IsSorted, tt);
  inhabited = (omega arith, tt);
  capped = (omega arith, tt);
  bounded = omega arith;
}

add-Holds_example :
    let one : Sample ℤ = sample_of (pos 6) (pos 120) in
    (((is_invalid cpu one || is_out_of_retention (pos 125) store one) ≡ true)
      × (add (pos 125) cpu one store ≡ (store, false)))
    ⊎ (((is_invalid cpu one || is_out_of_retention (pos 125) store one) ≡ false)
        × ((add (pos 125) cpu one store).1 ≡ true)
        × ((k : MetricKey)
            → Holds store
                (put_and_pruned (pos 125) cpu one store)
                (kept store (pos 125) (with_sample cpu one store.series k))
                (samples_of k (add (pos 125) cpu one store).0.series)))
add-Holds_example = add-Holds (pos 125) cpu (sample_of (pos 6) (pos 120)) store store-IsWellFormed

add-IsWellFormed_example : IsWellFormed (add (pos 125) cpu (sample_of (pos 6) (pos 120)) store).0
add-IsWellFormed_example =
    add-IsWellFormed (pos 125) cpu (sample_of (pos 6) (pos 120)) store store-IsWellFormed

bucket_at_lem_example :
    bucket_at history (pos 100) (pos 110)
    ≡ bucket_of (pos 100) (pos 110) (last? (select (in_bucket (pos 100) (pos 110)) history))
bucket_at_lem_example = bucket_at_lem history (pos 100) (pos 110) (omega arith) history-IsSorted

complete_buckets_lem_example :
    complete_buckets recent cpu (pos 125) (pos 10) (pos 2) zero_time
    ≡ window_of (snapshot_samples recent cpu) (pos 125) 10 2 zero_time
complete_buckets_lem_example =
    complete_buckets_lem recent cpu (pos 125) 10 2 zero_time (omega arith) (omega arith)
      (omega arith) recent-IsSorted

-- A value set at 130 with the sample itself stamped just before, and read long after.
get-set_example :
    (get (pos 900) "load" (set (pos 129) (pos 130) "load" (pos 7) store)).1 ≡ some (pos 7)
unfolding add put_sample samples_of prune prune_samples enforce_sample_limits cap_series total evict
    lookup insert is_out_of_retention set search_slice search_index search_loop quot ◌-ℤ◌
get-set_example =
    get-set (pos 129) (pos 130) (pos 900) "load" (pos 7) store store-IsWellFormed refl tt
      (λ over. omega (arith, over)) (λ over. omega (arith, over))
