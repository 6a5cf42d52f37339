-- ===== src/Metrics/Store.antt =====
-- internal/metrics/store.go: the timestamped history of every series. The clock's reading is the
-- argument `now`; the lock makes each method one step. A series that is not in the map and an empty
-- one are the same to the program, as `s.series[key]` is nil for both.
pub mod Sorted
pub mod Limits
pub mod Invariant
pub mod Eviction
pub mod Suffix
pub mod Histories
pub mod Retained
pub mod Unscoped
use mathlib.Core.List.{foldl}
use ninjascale.Prelude.{
  ℕ, zero, suc, ◌+◌, ◌-◌, Bool, true, false, not, ◌||◌, ◌&&◌, Option, none, some, List, [], ◌∷◌,
  ◌++◌, String, str_eq, if◌then◌else◌, ltb, leb, ◌==◌, ℤ, pos, pos_part, ◌-ℤ◌, ltb_ℤ, eqb_ℤ, length,
  drop, take, last?, get_elem?, lookup, insert, delete, search_slice,
}
use ninjascale.Time.{Time, Duration, seconds, is_zero, before, after}
use ninjascale.Metrics.{Float, MetricKey, Sample, metric_key}

abbrev pub default_retention : Duration
default_retention = seconds 30

abbrev pub default_max_samples_per_series : ℕ
default_max_samples_per_series = 10000

abbrev pub default_max_samples_total : ℕ
default_max_samples_total = 100000

abbrev pub Series : Type 0 → Type 0
Series V = List (MetricKey × List (Sample V))

-- The two limits are set to positive values only, so they are numbers.
pub record MetricStore (V : Type 0) : Type 0 where
  pub series : Series V
  pub retention : Duration
  pub max_samples_per_series : ℕ
  pub max_samples_total : ℕ

-- The options of the constructor.
unfoldable pub with_retention : {V : Type 0} → Duration → MetricStore V → MetricStore V
with_retention retention s =
    if ltb_ℤ (pos 0) retention then record s { retention = retention } else s

unfoldable pub with_sample_limits : {V : Type 0} → ℤ → ℤ → MetricStore V → MetricStore V
with_sample_limits per_series total s =
    let t =
      if ltb_ℤ (pos 0) per_series
      then record s { max_samples_per_series = pos_part per_series }
      else s in
    if ltb_ℤ (pos 0) total then record t { max_samples_total = pos_part total } else t

unfoldable pub new_metric_store :
    {V : Type 0} → List (MetricStore V → MetricStore V) → MetricStore V
new_metric_store opts =
    foldl (λ s opt. opt s)
      (record {
        series = [];
        retention = default_retention;
        max_samples_per_series = default_max_samples_per_series;
        max_samples_total = default_max_samples_total;
      })
      opts

-- The variables `oldestKey`, `oldest` and `found` of the second loop.
abbrev pub Oldest : Type 0
Oldest = Option (MetricKey × Time)

abbrev is_older : Time → Oldest → Bool
is_older t none = true
is_older t (some (key, oldest)) = before t oldest

abbrev pub older : MetricKey × Time → Oldest → Oldest
older (key, t) best = if is_older t best then some (key, t) else best

module _ {V : Type 0} where
  -- `s.series[key]`: nil on a missing key.
  abbrev pub or_nil : Option (List (Sample V)) → List (Sample V)
  or_nil none = []
  or_nil (some values) = values

  unfoldable pub samples_of : MetricKey → Series V → List (Sample V)
  samples_of key series = or_nil (lookup key series)

  -- The test of the binary searches: `!values[i].ObservedAt.Before(t)`.
  abbrev pub not_before : Time → Sample V → Bool
  not_before t v = not (before v.observed_at t)

  -- `values[index] = sample` on the slice.
  abbrev pub replace_at : ℕ → Sample V → List (Sample V) → List (Sample V)
  replace_at index sample [] = []
  replace_at zero sample (v ∷ vs) = sample ∷ vs
  replace_at (suc index) sample (v ∷ vs) = v ∷ replace_at index sample vs

  abbrev same_instant : Sample V → Option (Sample V) → Bool
  same_instant sample none = false
  same_instant sample (some v) = eqb_ℤ v.observed_at sample.observed_at

  -- The slice once the search has found the index: a sample of the same instant is replaced.
  abbrev put_at : Sample V → List (Sample V) → ℕ → List (Sample V)
  put_at sample values index =
      if same_instant sample (get_elem? values index)
      then replace_at index sample values
      else take index values ++ (sample ∷ drop index values)

  -- The place of a sample in its series (the middle of `Add`).
  unfoldable pub put_sample : Sample V → List (Sample V) → List (Sample V)
  put_sample sample values =
      put_at sample values (search_slice (not_before sample.observed_at) values)

  abbrev last_only : List (Sample V) → Option (Sample V) → List (Sample V)
  last_only values none = values
  last_only values (some v) = v ∷ []

  abbrev pub prune_at : List (Sample V) → ℕ → List (Sample V)
  prune_at values first =
      if first == 0
      then values
      else if first == length values
      then last_only values (last? values)
      else drop first values

  unfoldable pub prune_samples : List (Sample V) → Time → List (Sample V)
  prune_samples values cutoff =
      if leb (length values) 1
      then values
      else prune_at values (search_slice (not_before cutoff) values)

  -- `pruneLocked`.
  unfoldable pub prune : Time → Series V → Series V
  unfolding prune_samples
  prune cutoff [] = []
  prune cutoff ((key, values) ∷ rest) = (key, prune_samples values cutoff) ∷ prune cutoff rest

  -- The first loop of `enforceSampleLimitsLocked`.
  unfoldable pub cap_series : ℕ → Series V → Series V
  cap_series limit [] = []
  cap_series limit ((key, values) ∷ rest) =
      (key, if ltb limit (length values) then drop (length values - limit) values else values)
      ∷ cap_series limit rest

  unfoldable pub total : Series V → ℕ
  total [] = 0
  total ((key, values) ∷ rest) = length values + total rest

  unfoldable pub find_oldest : Series V → Oldest → Oldest
  find_oldest [] best = best
  find_oldest ((key, []) ∷ rest) best = find_oldest rest best
  find_oldest ((key, v ∷ vs) ∷ rest) best = find_oldest rest (older (key, v.observed_at) best)

  -- `values := s.series[oldestKey]`, without its first sample; the last one takes the key with it.
  abbrev without_first : MetricKey → List (Sample V) → Series V → Series V
  without_first key [] series = series
  without_first key (v ∷ []) series = delete key series
  without_first key (v ∷ w ∷ vs) series = insert key (w ∷ vs) series

  unfoldable pub drop_oldest : MetricKey → Series V → Series V
  unfolding samples_of
  drop_oldest key series = without_first key (samples_of key series) series

  -- The loop `for total > s.maxSamplesTotal`: each round but an early return takes one off `total`,
  -- so the excess counts the rounds.
  unfoldable pub evict : ℕ → Series V → Series V
  unfolding find_oldest drop_oldest
  evict zero series = series
  evict (suc excess) series = elim (find_oldest series none) [
    | none ↦ series
    | some (key, oldest) ↦ evict excess (drop_oldest key series)
  ]

  unfoldable pub enforce_sample_limits : MetricStore V → MetricStore V
  unfolding cap_series total evict
  enforce_sample_limits s =
      let capped = cap_series s.max_samples_per_series s.series in
      record s { series = evict (total capped - s.max_samples_total) capped }

  module _ ⦃float : Float V⦄ where
    -- The two guards of `Add`.
    unfoldable pub is_invalid : MetricKey → Sample V → Bool
    is_invalid key sample =
        str_eq key.name ""
        || is_zero sample.observed_at
        || float.is_nan sample.value
        || float.is_inf sample.value

    unfoldable pub is_out_of_retention : Time → MetricStore V → Sample V → Bool
    is_out_of_retention now s sample =
        after sample.observed_at now || before sample.observed_at (now -ℤ s.retention)

    unfoldable pub add : Time → MetricKey → Sample V → MetricStore V → MetricStore V × Bool
    unfolding is_invalid is_out_of_retention put_sample samples_of prune enforce_sample_limits
        insert
    add now key sample s =
        if is_invalid key sample
        then (s, false)
        else if is_out_of_retention now s sample
        then (s, false)
        else let values = put_sample sample (samples_of key s.series) in
          let pruned = prune (now -ℤ s.retention) (insert key values s.series) in
          (enforce_sample_limits (record s { series = pruned }), true)

  -- `Snapshot` prunes the store and hands out a copy of its map.
  unfoldable pub snapshot : Time → MetricStore V → MetricStore V × Series V
  unfolding prune enforce_sample_limits
  snapshot now s =
      let t = enforce_sample_limits (record s { series = prune (now -ℤ s.retention) s.series }) in
      (t, t.series)

  -- `metricSnapshot.samples`: a scoped key without samples falls back to the unscoped name.
  unfoldable pub snapshot_samples : Series V → MetricKey → List (Sample V)
  unfolding samples_of
  snapshot_samples series key =
      let values = samples_of key series in
      if (length values == 0) && not (str_eq key.service "")
      then samples_of (record { service = ""; name = key.name }) series
      else values

  unfoldable pub latest : Series V → MetricKey → Option (Sample V)
  unfolding snapshot_samples
  latest series key = last? (snapshot_samples series key)
