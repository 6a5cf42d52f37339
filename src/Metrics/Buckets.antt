-- ===== src/Metrics/Buckets.antt =====
-- internal/metrics/store.go, `CompleteBuckets` and `StatusReason`: the completed windows that the
-- window policies ask a snapshot for.
pub mod Window
pub mod Gaps
pub mod Status
use ninjascale.Prelude.{
  ℕ, zero, suc, ◌+◌, ◌-◌, Bool, true, false, not, ◌&&◌, ◌||◌, Option, none, some, List, [], ◌∷◌,
  String, if◌then◌else◌, ltb, ◌==◌, ℤ, pos, pos_part, ◌+ℤ◌, ◌-ℤ◌, ◌*ℤ◌, leb_ℤ, int64, length,
  get_elem?, last?, any, search_slice,
}
use ninjascale.Time.{Time, Duration, is_zero, before, truncate}
use ninjascale.Metrics.{
  MetricKey, Sample, Bucket, BucketStatus, complete, missing, stale, gap, incomplete, pre_reset,
}
use ninjascale.Metrics.Store.{Series, not_before, snapshot_samples}

-- The window: `newestEnd`, `oldestStart` and the start of bucket `i`. Products of durations are
-- products of 64 bits.
unfoldable pub oldest_start : Time → Duration → ℤ → Time
oldest_start now width count = truncate now width +ℤ int64 (int64 (pos 0 -ℤ count) *ℤ width)

unfoldable pub bucket_start : Time → Duration → ℕ → Time
bucket_start oldest width i = oldest +ℤ int64 (pos i *ℤ width)

-- The loop over `i` that compares each start with the cutoff.
unfoldable pub starts_before : Time → Duration → Time → ℕ → ℕ → Bool
starts_before oldest width cutoff i zero = false
starts_before oldest width cutoff i (suc rounds) =
    let rest = starts_before oldest width cutoff (suc i) rounds in
    if before (bucket_start oldest width i) cutoff then true else rest

abbrev pub is_last : ℕ → Option ℕ → Bool
is_last count none = false
is_last count (some i) = suc i == count

-- What the loop over the buckets collects.
pub record Found (V : Type 0) : Type 0 where
  pub buckets : List (Bucket V)
  pub missing_at : List ℕ

module _ {V : Type 0} where
  -- `values[last-1]`, where `last` is above `first`.
  abbrev pub bucket_of : Time → Time → Option (Sample V) → Option (Bucket V)
  bucket_of start end none = none
  bucket_of start end (some v) = some (record { start = start; end = end; sample = v })

  abbrev pub sample_at : List (Sample V) → ℕ → ℕ → Option (Sample V)
  sample_at values first last = if first == last then none else get_elem? values (last - 1)

  -- The latest sample of `[start, end)`, if there is one: the body of the loop.
  unfoldable pub bucket_at : List (Sample V) → Time → Time → Option (Bucket V)
  bucket_at values start end =
      let first = search_slice (not_before start) values in
      let last = search_slice (not_before end) values in
      bucket_of start end (sample_at values first last)

  abbrev pub add_found : ℕ → Option (Bucket V) → Found V → Found V
  add_found i none found = record found { missing_at = i ∷ found.missing_at }
  add_found i (some b) found = record found { buckets = b ∷ found.buckets }

  -- `for i := 0; i < count; i++`: the buckets and the missing indices, both in order of `i`.
  unfoldable pub collect : List (Sample V) → Time → Duration → ℕ → ℕ → Found V
  collect values oldest width i zero = record { buckets = []; missing_at = [] }
  collect values oldest width i (suc rounds) =
      let start = bucket_start oldest width i in
      add_found i (bucket_at values start (start +ℤ width))
        (collect values oldest width (suc i) rounds)

  -- What follows the loop.
  unfoldable pub classify : ℕ → Found V → List (Bucket V) × BucketStatus
  classify count found =
      if length found.missing_at == 0
      then (found.buckets, complete)
      else if is_last count (last? found.missing_at)
      then (found.buckets, stale)
      else if any (λ index. ltb 0 index) found.missing_at
      then (found.buckets, gap)
      else if length found.buckets == 0
      then ([], missing)
      else (found.buckets, incomplete)

  unfoldable pub complete_buckets :
      Series V → MetricKey → Time → Duration → ℤ → Time → List (Bucket V) × BucketStatus
  complete_buckets series key now width count cutoff =
      let rounds = pos_part count in
      let oldest = oldest_start now width count in
      let values = snapshot_samples series key in
      if leb_ℤ width (pos 0) || leb_ℤ count (pos 0)
      then ([], incomplete)
      else if not (is_zero cutoff) && starts_before oldest width cutoff 0 rounds
      then ([], pre_reset)
      else if length values == 0
      then ([], missing)
      else classify rounds (collect values oldest width 0 rounds)

-- The text of `StatusReason`; the one with a format keeps the format's two numbers.
pub data StatusText : Type 0 where
  text : String → StatusText
  window_incomplete : (expected : ℤ) (found : ℕ) → StatusText

unfoldable pub status_reason : BucketStatus → ℤ → ℕ → StatusText
status_reason missing expected found = text "window missing: no metric samples"
status_reason stale expected found = text "window stale: newest completed bucket is missing"
status_reason gap expected found = text "window gap: completed buckets are not contiguous"
status_reason pre_reset expected found =
    text "window reset: available buckets predate the last scale event"
status_reason incomplete expected found = window_incomplete expected found
status_reason complete expected found = text "complete"
