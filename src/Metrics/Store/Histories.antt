-- ===== src/Metrics/Store/Histories.antt =====
-- The store (internal/metrics/store.go) as the function that it implements: from every key to its
-- history. What `Add` and `Snapshot` do to it, and what the limit of the whole store takes away.
use ninjascale.Prelude.{
  ℕ, zero, suc, ◌-◌, ◌<◌, ◌≡◌, refl, sym, ap, ◌∙◌, inl, inr, ◌⊎◌, true, false, ◌||◌, List, [], ◌∷◌,
  arith, if◌then◌else◌, ltb, length, drop, select, AllValues, AllValues-insert, Bool-cases, lookup,
  insert, ◌-ℤ◌,
}
use mathlib.Core.Path.{subst}
use ninjascale.Time.{Time}
use ninjascale.Metrics.{Float, Sample, MetricKey, key_beq, key_beq_iff, metric_key}
use ninjascale.Metrics.Store.{
  MetricStore, Series, not_before, samples_of, put_sample, prune, prune_samples, cap_series, total,
  evict, enforce_sample_limits, is_invalid, is_out_of_retention, add, snapshot,
}
use ninjascale.Metrics.Store.Suffix.{IsSuffix, samples_of-insert, samples_of-evict}
use ninjascale.Metrics.Store.Sorted.{
  IsSorted, insert_sorted, or_last, put_sample-IsSorted, put_sample-eq, prune_samples_lem,
}
use ninjascale.Metrics.Store.Invariant.{IsWellFormed, IsSorted-samples_of}

module _ {V : Type 0} where
  -- The newest samples of a history, at most `limit`.
  abbrev pub newest : ℕ → List (Sample V) → List (Sample V)
  newest limit vs = drop (length vs - limit) vs

  -- A history from the cutoff on, or its last sample where nothing is that new.
  abbrev pub recent : Time → List (Sample V) → List (Sample V)
  recent cutoff vs = or_last vs (select (not_before cutoff) vs)

  -- What is left of the histories at an instant.
  abbrev pub kept : MetricStore V → Time → List (Sample V) → List (Sample V)
  kept s now vs = newest s.max_samples_per_series (recent (now -ℤ s.retention) vs)

  -- The histories with one sample more.
  abbrev pub with_sample : MetricKey → Sample V → Series V → MetricKey → List (Sample V)
  with_sample key sample m k =
      if key_beq key k then insert_sorted sample (samples_of k m) else samples_of k m

  pub newest_nil : (limit : ℕ) → newest limit [] ≡ []
  newest_nil limit = drop_nil (0 - limit)
    where
      drop_nil : (n : ℕ) → drop {A = Sample V} n [] ≡ []
      drop_nil zero = refl
      drop_nil (suc n) = refl

  samples_of-prune :
      (k : MetricKey) (c : Time) (m : Series V)
      → samples_of k (prune c m) ≡ prune_samples (samples_of k m) c
  unfolding samples_of prune lookup prune_samples
  samples_of-prune k c [] = refl
  samples_of-prune k c ((j, vs) ∷ m) = elim (Bool-cases (key_beq j k)) [
    | inl e ↦ rw e refl
    | inr e ↦ rw e (samples_of-prune k c m)
  ]

  newest-eq :
      (limit : ℕ) (vs : List (Sample V))
      → (if ltb limit (length vs) then drop (length vs - limit) vs else vs) ≡ newest limit vs
  newest-eq limit vs = elim (Bool-cases (ltb limit (length vs))) [
    | inl e ↦ rw e refl
    | inr e ↦ let z : length vs - limit ≡ 0 = ground arith in rw (e, z) refl
  ]

  samples_of-cap_series :
      (k : MetricKey) (limit : ℕ) (m : Series V)
      → samples_of k (cap_series limit m) ≡ newest limit (samples_of k m)
  unfolding samples_of cap_series lookup
  samples_of-cap_series k limit [] = sym (newest_nil limit)
  samples_of-cap_series k limit ((j, vs) ∷ m) = elim (Bool-cases (key_beq j k)) [
    | inl e ↦ rw e (newest-eq limit vs)
    | inr e ↦ rw e (samples_of-cap_series k limit m)
  ]

  -- The limit of the whole store is exceeded, though every series is within its own.
  abbrev pub IsOver : MetricStore V → Series V → Type 0
  IsOver s m = s.max_samples_total < total (cap_series s.max_samples_per_series m)

  -- The history as it is meant, or what the limit of the store leaves of it.
  abbrev pub Holds : MetricStore V → Series V → List (Sample V) → List (Sample V) → Type 0
  Holds s m meant held = (held ≡ meant) ⊎ (IsSuffix held meant × IsOver s m)

  -- What the steps make of the histories, with the limits enforced last.
  abbrev limited : MetricStore V → Series V → Series V
  limited s m = (enforce_sample_limits (record s { series = m })).series

  enforce_sample_limits-Holds :
      (s : MetricStore V) (m : Series V) (k : MetricKey)
      → Holds s m (newest s.max_samples_per_series (samples_of k m)) (samples_of k (limited s m))
  unfolding enforce_sample_limits
  enforce_sample_limits-Holds s m k =
      let capped : Series V = cap_series s.max_samples_per_series m in
      let excess : ℕ = total capped - s.max_samples_total in
      let e = samples_of-cap_series k s.max_samples_per_series m in
      elim (Bool-cases (ltb s.max_samples_total (total capped))) [
        | inl over ↦ inr (subst (IsSuffix _) e (samples_of-evict k excess capped), ground arith)
        | inr room ↦ let none_over : excess ≡ 0 = ground arith in inl (rw (none_over, evict) e)
      ]

  prune-recent :
      (s : MetricStore V) (c : Time) (k : MetricKey) (m : Series V)
      → AllValues IsSorted m
      → samples_of k (prune c m) ≡ recent c (samples_of k m)
  prune-recent s c k m h =
      samples_of-prune k c m ∙ prune_samples_lem (samples_of k m) c (IsSorted-samples_of k m h)

  -- A snapshot holds, of every history, the samples within the retention, or the last one where
  -- there are none, and of these the newest up to the limit of a series. Only if the limit of the
  -- whole store is exceeded are there fewer, and then the oldest are missing.
  pub snapshot-Holds :
      (now : Time) (s : MetricStore V) (k : MetricKey)
      → IsWellFormed s
      → Holds s
          (prune (now -ℤ s.retention) s.series)
          (kept s now (samples_of k s.series))
          (samples_of k (snapshot now s).1)
  unfolding snapshot
  snapshot-Holds now s k w =
      let c : Time = now -ℤ s.retention in
      subst
        (λ h.
          Holds s (prune c s.series) (newest s.max_samples_per_series h)
            (samples_of k (limited s (prune c s.series))))
        (prune-recent s c k s.series w.ordered) (enforce_sample_limits-Holds s (prune c s.series) k)

  samples_of-put :
      (k key : MetricKey) (sample : Sample V) (m : Series V)
      → AllValues IsSorted m
      → samples_of k (insert key (put_sample sample (samples_of key m)) m)
        ≡ with_sample key sample m k
  samples_of-put k key sample m h = elim (Bool-cases (key_beq key k)) [
    | inl e ↦
        samples_of-insert k key _ m
        ∙ (rw e (
            put_sample-eq sample (samples_of key m) (IsSorted-samples_of key m h)
            ∙ ap (λ j. insert_sorted sample (samples_of j m)) ((key_beq_iff key k).0 e)))
    | inr e ↦ samples_of-insert k key _ m ∙ (rw e refl)
  ]

  module _ ⦃float : Float V⦄ where
    -- The histories before an accepted sample is put in its place and pruned.
    abbrev pub put_and_pruned : Time → MetricKey → Sample V → MetricStore V → Series V
    put_and_pruned now key sample s =
        prune (now -ℤ s.retention)
          (insert key (put_sample sample (samples_of key s.series)) s.series)

    -- `Add` refuses a sample without a name, a time or a number, or outside of the retention, and
    -- changes nothing. Every other sample it takes into the history of its key, in order of event
    -- time and in place of one of the same instant; it leaves every other history; and of each it
    -- holds what a snapshot holds.
    pub add-Holds :
        (now : Time) (key : MetricKey) (sample : Sample V) (s : MetricStore V)
        → IsWellFormed s
        → (((is_invalid key sample || is_out_of_retention now s sample) ≡ true)
            × (add now key sample s ≡ (s, false)))
          ⊎ (((is_invalid key sample || is_out_of_retention now s sample) ≡ false)
              × ((add now key sample s).1 ≡ true)
              × ((k : MetricKey)
                  → Holds s
                      (put_and_pruned now key sample s)
                      (kept s now (with_sample key sample s.series k))
                      (samples_of k (add now key sample s).0.series)))
    unfolding add
    add-Holds now key sample s w = elim (Bool-cases (is_invalid key sample)) [
      | inl e ↦ inl (ground arith, rw e refl)
      | inr e ↦ elim (Bool-cases (is_out_of_retention now s sample)) [
        | inl o ↦ inl (ground arith, rw (e, o) refl)
        | inr o ↦ inr (ground arith, rw (e, o) refl, λ k. rw (e, o) (held k))
      ]
    ]
      where
        held :
            (k : MetricKey)
            → Holds s
                (put_and_pruned now key sample s)
                (kept s now (with_sample key sample s.series k))
                (samples_of k (limited s (put_and_pruned now key sample s)))
        held k =
            let put : List (Sample V) = put_sample sample (samples_of key s.series) in
            let m : Series V = insert key put s.series in
            let c : Time = now -ℤ s.retention in
            let sorted : AllValues IsSorted m =
              AllValues-insert IsSorted key put s.series
                (put_sample-IsSorted sample (samples_of key s.series)
                  (IsSorted-samples_of key s.series w.ordered))
                w.ordered in
            subst
              (λ h.
                Holds s (prune c m) (newest s.max_samples_per_series h)
                  (samples_of k (limited s (prune c m))))
              (prune-recent s c k m sorted
                ∙ ap (recent c) (samples_of-put k key sample s.series w.ordered))
              (enforce_sample_limits-Holds s (prune c m) k)
