-- ===== src/Metrics/Store/Invariant.antt =====
-- The invariant of the metric store (internal/metrics/store.go) and that `Add`, `Set` and
-- `Snapshot` keep it.
use ninjascale.Prelude.{
  ℕ, zero, suc, ◌-◌, ◌≤◌, ◌<◌, inl, inr, List, [], ◌∷◌, arith, if◌then◌else◌, ltb, length, drop,
  last?, length-drop, All-map, last?-some, AllValues, AllValues-insert, AllValues-lookup,
  Bool-cases, Option-cases, lookup, insert, select, ◌-ℤ◌,
}
use ninjascale.Time.{Time}
use ninjascale.Metrics.{Float, Sample, MetricKey, metric_key}
use ninjascale.Metrics.Store.{
  MetricStore, Series, not_before, samples_of, put_sample, last_only, prune, prune_samples,
  cap_series, total, evict, enforce_sample_limits, is_invalid, is_out_of_retention, add, snapshot,
}
use ninjascale.Metrics.Store.Sorted.{
  Later, IsSorted, insert_sorted, or_last, put_sample-IsSorted, put_sample-eq, prune_samples_lem,
}
use ninjascale.Metrics.Store.Limits.{evict_lem}

pub record IsWellFormed {V : Type 0} (s : MetricStore V) : Type 0 where
  pub limit_pos : 0 < s.max_samples_per_series
  pub ordered : AllValues IsSorted s.series
  pub inhabited : AllValues (λ vs. 0 < length vs) s.series
  pub capped : AllValues (λ vs. length vs ≤ s.max_samples_per_series) s.series
  pub bounded : total s.series ≤ s.max_samples_total

module _ {V : Type 0} where
  -- In order and not empty.
  abbrev IsHistory : List (Sample V) → Type 0
  IsHistory vs = IsSorted vs × (0 < length vs)

  abbrev IsSeries : ℕ → List (Sample V) → Type 0
  IsSeries limit vs = IsSorted vs × (0 < length vs) × (length vs ≤ limit)

  Later-select :
      (t c : Time) (vs : List (Sample V)) → Later t vs → Later t (select (not_before c) vs)
  Later-select t c [] h = tt
  Later-select t c (v ∷ vs) h = ground (arith, Later-select t c vs h.1)

  IsSorted-select :
      (c : Time) (vs : List (Sample V)) → IsSorted vs → IsSorted (select (not_before c) vs)
  IsSorted-select c [] h = tt
  IsSorted-select c (v ∷ vs) h = elim (Bool-cases (not_before c v)) [
    | inl e ↦ rw e (Later-select v.observed_at c vs h.0, IsSorted-select c vs h.1)
    | inr e ↦ rw e (IsSorted-select c vs h.1)
  ]

  IsHistory-last : (vs : List (Sample V)) → 0 < length vs → IsHistory (last_only vs (last? vs))
  IsHistory-last vs h = let (x, e) = last?-some vs h in rw e ((tt, tt), omega arith)

  IsHistory-or_last :
      (vs ws : List (Sample V)) → 0 < length vs → IsSorted ws → IsHistory (or_last vs ws)
  IsHistory-or_last vs [] h s = IsHistory-last vs h
  IsHistory-or_last vs (w ∷ ws) h s = (s, omega arith)

  prune_samples-IsHistory :
      (c : Time) (vs : List (Sample V)) → IsHistory vs → IsHistory (prune_samples vs c)
  prune_samples-IsHistory c vs h =
      rw (prune_samples_lem vs c h.0)
        (IsHistory-or_last vs (select (not_before c) vs) h.1 (IsSorted-select c vs h.0))

  prune-IsHistory :
      (c : Time) (m : Series V) → AllValues IsHistory m → AllValues IsHistory (prune c m)
  unfolding prune
  prune-IsHistory c [] h = tt
  prune-IsHistory c ((k, vs) ∷ m) h = (prune_samples-IsHistory c vs h.0, prune-IsHistory c m h.1)

  IsSorted-drop : (n : ℕ) (vs : List (Sample V)) → IsSorted vs → IsSorted (drop n vs)
  IsSorted-drop zero vs h = h
  IsSorted-drop (suc n) [] h = tt
  IsSorted-drop (suc n) (v ∷ vs) h = IsSorted-drop n vs h.1

  cap_one-IsSeries :
      (limit : ℕ) (vs : List (Sample V))
      → 0 < limit
      → IsHistory vs
      → IsSeries limit (if ltb limit (length vs) then drop (length vs - limit) vs else vs)
  cap_one-IsSeries limit vs pos h = elim (Bool-cases (ltb limit (length vs))) [
    | inl e ↦ rw e (
      IsSorted-drop (length vs - limit) vs h.0,
      ground (arith, length-drop (length vs - limit) vs),
      ground (arith, length-drop (length vs - limit) vs),
    )
    | inr e ↦ rw e (h.0, h.1, ground arith)
  ]

  cap_series-IsSeries :
      (limit : ℕ) (m : Series V)
      → 0 < limit
      → AllValues IsHistory m
      → AllValues (IsSeries limit) (cap_series limit m)
  unfolding cap_series
  cap_series-IsSeries limit [] pos h = tt
  cap_series-IsSeries limit ((k, vs) ∷ m) pos h =
      (cap_one-IsSeries limit vs pos h.0, cap_series-IsSeries limit m pos h.1)

  -- Enforcing the limits establishes the invariant.
  enforce_sample_limits-IsWellFormed :
      (s : MetricStore V)
      → 0 < s.max_samples_per_series
      → AllValues IsHistory s.series
      → IsWellFormed (enforce_sample_limits s)
  unfolding enforce_sample_limits
  enforce_sample_limits-IsWellFormed s pos h =
      let limit : ℕ = s.max_samples_per_series in
      let capped : Series V = cap_series limit s.series in
      let n : ℕ = total capped - s.max_samples_total in
      let r : AllValues (IsSeries limit) (evict n capped)
          × (total (evict n capped) ≤ total capped - n) =
        evict_lem (IsSeries limit) n capped (λ v w us p. (p.0.1, omega arith, omega arith))
          (λ vs p. p.1) (cap_series-IsSeries limit s.series pos h) in
      record {
        limit_pos = pos;
        ordered =
            All-map (λ e. IsSeries limit e.1) (λ e. IsSorted e.1) (evict n capped) (λ e p. p.0) r.0;
        inhabited =
            All-map (λ e. IsSeries limit e.1) (λ e. 0 < length e.1) (evict n capped) (λ e p. p.1)
              r.0;
        capped =
            All-map (λ e. IsSeries limit e.1) (λ e. length e.1 ≤ limit) (evict n capped)
              (λ e p. p.2) r.0;
        bounded = omega (arith, r.1);
      }

  IsWellFormed-IsHistory : {s : MetricStore V} → IsWellFormed s → AllValues IsHistory s.series
  IsWellFormed-IsHistory {s} w = both s.series w.ordered w.inhabited
    where
      both :
          (m : Series V)
          → AllValues IsSorted m
          → AllValues (λ vs. 0 < length vs) m
          → AllValues IsHistory m
      both [] h i = tt
      both (e ∷ m) h i = ((h.0, i.0), both m h.1 i.1)

  pub IsSorted-samples_of :
      (k : MetricKey) (m : Series V) → AllValues IsSorted m → IsSorted (samples_of k m)
  unfolding samples_of
  IsSorted-samples_of k m h = elim (Option-cases (lookup k m)) [
    | inl e ↦ rw e tt
    | inr (vs, e) ↦ rw e (AllValues-lookup IsSorted k m vs h e)
  ]

  insert_sorted-pos : (s : Sample V) (vs : List (Sample V)) → 0 < length (insert_sorted s vs)
  insert_sorted-pos s [] = omega arith
  insert_sorted-pos s (v ∷ vs) = ground arith

  put_sample-IsHistory :
      (s : Sample V) (vs : List (Sample V)) → IsSorted vs → IsHistory (put_sample s vs)
  put_sample-IsHistory s vs h =
      (put_sample-IsSorted s vs h, rw (put_sample-eq s vs h) (insert_sorted-pos s vs))

  -- A snapshot leaves the store well-formed.
  pub snapshot-IsWellFormed :
      (now : Time) (s : MetricStore V) → IsWellFormed s → IsWellFormed (snapshot now s).0
  unfolding snapshot
  snapshot-IsWellFormed now s w =
      enforce_sample_limits-IsWellFormed (record s { series = prune (now -ℤ s.retention) s.series })
        w.limit_pos (prune-IsHistory (now -ℤ s.retention) s.series (IsWellFormed-IsHistory w))

  module _ ⦃float : Float V⦄ where
    -- A well-formed store stays so under `Add`, accepted or refused: every series strictly in
    -- order of event time, not empty and within the limit of a series, and the total within the
    -- limit of the store.
    pub add-IsWellFormed :
        (now : Time) (key : MetricKey) (sample : Sample V) (s : MetricStore V)
        → IsWellFormed s
        → IsWellFormed (add now key sample s).0
    unfolding add
    add-IsWellFormed now key sample s w = elim (Bool-cases (is_invalid key sample)) [
      | inl e ↦ rw e w
      | inr e ↦ elim (Bool-cases (is_out_of_retention now s sample)) [
        | inl o ↦ rw (e, o) w
        | inr o ↦
            let values : List (Sample V) = put_sample sample (samples_of key s.series) in
            let cutoff : Time = now -ℤ s.retention in
            let m : Series V = insert key values s.series in
            rw (e, o)
              (enforce_sample_limits-IsWellFormed (record s { series = prune cutoff m }) w.limit_pos
                (prune-IsHistory cutoff m (
                  AllValues-insert IsHistory key values s.series
                    (put_sample-IsHistory sample (samples_of key s.series)
                      (IsSorted-samples_of key s.series w.ordered))
                    (IsWellFormed-IsHistory w))))
      ]
    ]
