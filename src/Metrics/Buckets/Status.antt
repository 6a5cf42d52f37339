-- ===== src/Metrics/Buckets/Status.antt =====
-- What `CompleteBuckets` (internal/metrics/store.go) promises: the window is the `count` intervals
-- of one width that end at the last multiple of the width, each shows its latest sample, and the
-- status says which of them are empty.
use ninjascale.Prelude.{
  ℕ, zero, suc, ◌+◌, ◌*◌, ◌^◌, ◌<◌, ◌≡◌, refl, ap, false, not, ◌&&◌, List, [], ◌∷◌, Option, none,
  some, arith, if◌then◌else◌, pos, ◌+ℤ◌, leb_ℤ, length, last?, select, is_empty, +ℤ_parts,
}
use ninjascale.Time.{Time, is_zero, before}
use ninjascale.Metrics.{MetricKey, Sample, Bucket, BucketStatus, missing, pre_reset}
use ninjascale.Metrics.Store.{Series, snapshot_samples}
use ninjascale.Metrics.Store.Sorted.{IsSorted}
use ninjascale.Metrics.Buckets.{Found, bucket_of, add_found, collect, classify, complete_buckets}
use ninjascale.Metrics.Buckets.Window.{in_bucket, bucket_at_lem}
use ninjascale.Metrics.Buckets.Gaps.{
  present, holes, status_of, holes-all, holes-newest, holes-gap, any-none, window_start,
  oldest_start-eq, length-is_empty, bucket_start-eq, starts_before-eq,
}

module _ {V : Type 0} where
  abbrev found_of : ℕ → List (Option (Bucket V)) → Found V
  found_of i xs = record { buckets = present xs; missing_at = holes i xs }

  -- The tests behind the loop read the status off the empty slots. The branch for a window with no
  -- bucket at all is never the one taken: such a window is stale.
  classify-eq :
      (x : Option (Bucket V)) (xs : List (Option (Bucket V))) (count : ℕ)
      → suc (length xs) ≡ count
      → classify count (found_of 0 (x ∷ xs)) ≡ (present (x ∷ xs), status_of (x ∷ xs))
  unfolding classify
  classify-eq none [] count e = ground arith
  classify-eq none (none ∷ ys) count e =
      ground (arith, holes-newest 0 count (none ∷ none ∷ ys), holes-gap 0 (none ∷ ys))
  classify-eq none (some b ∷ ys) count e =
      ground (arith, holes-newest 0 count (none ∷ some b ∷ ys), holes-gap 0 (some b ∷ ys))
  classify-eq (some b) xs count e =
      ground
        (arith, holes-newest 0 count (some b ∷ xs), holes-gap 0 xs, holes-all 1 xs, any-none xs)

  -- The slots of a window: interval `i` and the ones after it, `n` in all.
  abbrev pub slots : List (Sample V) → Time → ℕ → ℕ → ℕ → List (Option (Bucket V))
  slots values oldest w i zero = []
  slots values oldest w i (suc n) =
      let start = oldest +ℤ pos (i * w) in
      bucket_of start (start +ℤ pos w) (last? (select (in_bucket start (start +ℤ pos w)) values))
      ∷ slots values oldest w (suc i) n

  length-slots :
      (values : List (Sample V)) (oldest : Time) (w i n : ℕ)
      → length (slots values oldest w i n) ≡ n
  length-slots values oldest w i zero = refl
  length-slots values oldest w i (suc n) = ap suc (length-slots values oldest w (suc i) n)

  add_found-eq :
      (i : ℕ) (o : Option (Bucket V)) (xs : List (Option (Bucket V)))
      → add_found i o (found_of (suc i) xs) ≡ found_of i (o ∷ xs)
  add_found-eq i none xs = refl
  add_found-eq i (some b) xs = refl

  -- The loop collects the slots of its rounds.
  collect-eq :
      (values : List (Sample V)) (oldest : Time) (w i n : ℕ)
      → IsSorted values
      → (i + n) * w < 2 ^ 63
      → collect values oldest (pos w) i n ≡ found_of i (slots values oldest w i n)
  unfolding collect
  collect-eq values oldest w i zero s fits = refl
  collect-eq values oldest w i (suc n) s fits =
      let start : Time = oldest +ℤ pos (i * w) in
      rw
        (
          bucket_start-eq oldest w i (grind arith),
          bucket_at_lem values start (start +ℤ pos w) (omega (arith, +ℤ_parts start (pos w))) s,
          collect-eq values oldest w (suc i) n s (grind arith),
        )
        (add_found-eq i _ (slots values oldest w (suc i) n))

  abbrev pub window_slots : List (Sample V) → Time → ℕ → ℕ → List (Option (Bucket V))
  window_slots values now w count = slots values (window_start now w count) w 0 count

  -- What `CompleteBuckets` promises, with no loop and no search in it.
  abbrev pub window_of : List (Sample V) → Time → ℕ → ℕ → Time → List (Bucket V) × BucketStatus
  window_of values now w count cutoff =
      if not (is_zero cutoff) && before (window_start now w count) cutoff
      then ([], pre_reset)
      else if is_empty values
      then ([], missing)
      else (present (window_slots values now w count), status_of (window_slots values now w count))

  classify-slots :
      (values : List (Sample V)) (oldest : Time) (w n : ℕ)
      → classify (suc n) (found_of 0 (slots values oldest w 0 (suc n)))
        ≡ (present (slots values oldest w 0 (suc n)), status_of (slots values oldest w 0 (suc n)))
  classify-slots values oldest w n =
      classify-eq _ (slots values oldest w 1 n) (suc n) (ap suc (length-slots values oldest w 1 n))

  -- For a positive width and count whose product is a duration, and a series in order,
  -- `CompleteBuckets` gives the slots of the window that ends at the last multiple of the width:
  -- the latest sample of each slot that has one, and the status that the empty slots mean. A window
  -- that begins before a cutoff is refused, and so is a series with no sample.
  pub complete_buckets_lem :
      (series : Series V) (key : MetricKey) (now : Time) (w count : ℕ) (cutoff : Time)
      → 0 < w
      → 0 < count
      → count * w < 2 ^ 63
      → IsSorted (snapshot_samples series key)
      → complete_buckets series key now (pos w) (pos count) cutoff
        ≡ window_of (snapshot_samples series key) now w count cutoff
  unfolding complete_buckets
  complete_buckets_lem series key now w zero cutoff hw hc fits s = elim hc [ ]
  complete_buckets_lem series key now zero (suc n) cutoff hw hc fits s = elim hw [ ]
  complete_buckets_lem series key now (suc w') (suc n) cutoff hw hc fits s =
      let w : ℕ = suc w' in
      let values : List (Sample V) = snapshot_samples series key in
      let oldest : Time = window_start now w (suc n) in
      let wide : leb_ℤ (pos w) (pos 0) ≡ false = ground arith in
      let some_rounds : leb_ℤ (pos (suc n)) (pos 0) ≡ false = ground arith in
      rw (
        wide,
        some_rounds,
        oldest_start-eq now w (suc n) (grind arith) fits,
        starts_before-eq oldest cutoff w n fits,
        collect-eq values oldest w 0 (suc n) s (omega arith),
        classify-slots values oldest w n,
        length-is_empty values,
      )
