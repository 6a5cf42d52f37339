-- ===== src/Metrics/Store/Unscoped.antt =====
-- The methods of the store (internal/metrics/store.go) for callers without a service: `Set` and
-- `Get` under a plain name, and `AsMap`. Each reading of the clock is an argument.
use mathlib.Core.Option
use Prim.Native.String.{◌++◌}
use ninjascale.Prelude.{
  ℕ, zero, suc, ◌-◌, ◌<◌, ◌≡◌, refl, ap, ◌∙◌, inl, inr, true, false, ◌||◌, List, [], ◌∷◌, Option,
  none, some, String, str_eq, arith, if◌then◌else◌, ◌==◌, length, drop, last?, last?-some, select,
  All, Bool-cases, insert, string_key, ◌≤ℤ◌, ◌-ℤ◌,
}
use ninjascale.Time.{Time, before}
use ninjascale.Metrics.{Float, Sample, MetricKey, key_beq_iff, metric_key}
use ninjascale.Metrics.Store.{
  MetricStore, Series, not_before, samples_of, prune, snapshot_samples, latest, is_invalid,
  is_out_of_retention, add, snapshot,
}
use ninjascale.Metrics.Store.Sorted.{IsSorted, insert_sorted, insert_sorted-IsSorted, or_last}
use ninjascale.Metrics.Store.Invariant.{IsWellFormed, IsSorted-samples_of, add-IsWellFormed}
use ninjascale.Metrics.Store.Histories.{
  newest, kept, with_sample, IsOver, snapshot-Holds, put_and_pruned, add-Holds,
}

-- `MetricKey{Name: name}`.
abbrev pub unscoped : String → MetricKey
unscoped name = record { service = ""; name = name }

-- `MetricKey.String`.
unfoldable pub key_string : MetricKey → String
key_string k = if str_eq k.service "" then k.name else k.service ++ "/" ++ k.name

module _ {V : Type 0} where
  -- `Sample{Value: value, ObservedAt: at}`.
  abbrev pub sample_at : V → Time → Sample V
  sample_at value at = record { value = value; observed_at = at }

  -- `Set` reads the clock for the sample, and `Add` reads it again.
  unfoldable pub set : ⦃float : Float V⦄ → Time → Time → String → V → MetricStore V → MetricStore V
  set at now name value s = (add now (unscoped name) (sample_at value at) s).0

  unfoldable pub get : Time → String → MetricStore V → MetricStore V × Option V
  get now name s =
      let (t, series) = snapshot now s in
      (t, Option.map (λ sample. sample.value) (latest series (unscoped name)))

  abbrev put_latest : MetricKey → Option (Sample V) → List (String × V) → List (String × V)
  put_latest key none result = result
  put_latest key (some sample) result = insert (key_string key) sample.value result

  -- The loop of `AsMap`, in the order of the list.
  unfoldable pub latest_values : Series V → List (String × V) → List (String × V)
  latest_values [] result = result
  latest_values ((key, values) ∷ rest) result =
      latest_values rest (put_latest key (last? values) result)

  unfoldable pub as_map : Time → MetricStore V → MetricStore V × List (String × V)
  as_map now s = let (t, series) = snapshot now s in (t, latest_values series [])

  last-drop : (n : ℕ) (xs : List (Sample V)) → n < length xs → last? (drop n xs) ≡ last? xs
  last-drop zero xs h = refl
  last-drop (suc n) [] h = refl
  last-drop (suc n) (x ∷ []) h = absurd (omega arith)
  last-drop (suc n) (x ∷ y ∷ xs) h = last-drop n (y ∷ xs) (omega arith)

  last-newest : (limit : ℕ) (xs : List (Sample V)) → 0 < limit → last? (newest limit xs) ≡ last? xs
  last-newest limit [] h = last_of_nil (0 - limit)
    where
      last_of_nil : (n : ℕ) → last? (drop {A = Sample V} n []) ≡ none
      last_of_nil zero = refl
      last_of_nil (suc n) = refl
  last-newest limit (x ∷ xs) h = last-drop (length (x ∷ xs) - limit) (x ∷ xs) (omega arith)

  last-select :
      (c : Time) (vs : List (Sample V))
      → IsSorted vs
      → 0 < length (select (not_before c) vs)
      → last? (select (not_before c) vs) ≡ last? vs
  last-select c [] s h = refl
  last-select c (v ∷ []) s h = ground (arith)
  last-select c (v ∷ w ∷ vs) s h = elim (Bool-cases (not_before c v)) [
    | inl e ↦
        let q : not_before c w ≡ true = ground (arith, s.0.0) in
        rw (e, q) (rw q at (last-select c (w ∷ vs) s.1 (rw q (omega arith))))
    | inr e ↦ rw e (last-select c (w ∷ vs) s.1 (rw e at h))
  ]

  last-or_last :
      (vs ws : List (Sample V))
      → (0 < length ws → last? ws ≡ last? vs)
      → last? (or_last vs ws) ≡ last? vs
  last-or_last [] [] same = refl
  last-or_last (v ∷ vs) [] same = let (x, e) = last?-some (v ∷ vs) (omega arith) in rw e refl
  last-or_last vs (w ∷ ws) same = same (omega arith)

  -- Whatever the limit of a series and the retention take, the latest sample stays.
  last-kept :
      (s : MetricStore V) (now : Time) (vs : List (Sample V))
      → 0 < s.max_samples_per_series
      → IsSorted vs
      → last? (kept s now vs) ≡ last? vs
  last-kept s now vs h sorted =
      last-newest s.max_samples_per_series _ h
      ∙ last-or_last vs _ (last-select (now -ℤ s.retention) vs sorted)

  last-insert_sorted :
      (x : Sample V) (vs : List (Sample V))
      → IsSorted vs
      → All (λ v. v.observed_at ≤ℤ x.observed_at) vs
      → last? (insert_sorted x vs) ≡ some x
  last-insert_sorted x [] s h = refl
  last-insert_sorted x (v ∷ []) s h = ground arith
  last-insert_sorted x (v ∷ w ∷ vs) s h =
      let q : before v.observed_at x.observed_at ≡ true = ground (arith, s.0.0, h.1.0) in
      rw q (last_cons v (insert_sorted x (w ∷ vs)) (last-insert_sorted x (w ∷ vs) s.1 h.1))
    where
      last_cons :
          (v : Sample V) (ys : List (Sample V)) → last? ys ≡ some x → last? (v ∷ ys) ≡ some x
      last_cons v [] e = cc
      last_cons v (y ∷ ys) e = e

  -- The limit of the whole store is not exceeded.
  abbrev pub HasRoom : MetricStore V → Series V → Type 0
  HasRoom s m = ¬ IsOver s m

  -- The latest sample of a snapshot is that of the store.
  last-snapshot :
      (now : Time) (s : MetricStore V) (k : MetricKey)
      → IsWellFormed s
      → HasRoom s (prune (now -ℤ s.retention) s.series)
      → last? (samples_of k (snapshot now s).1) ≡ last? (samples_of k s.series)
  last-snapshot now s k w room = elim (snapshot-Holds now s k w) [
    | inl e ↦
        ap last? e
        ∙ last-kept s now (samples_of k s.series) w.limit_pos
            (IsSorted-samples_of k s.series w.ordered)
    | inr (suffix, over) ↦ absurd (room over)
  ]

  module _ ⦃float : Float V⦄ where
    add-last :
        (now : Time) (k : MetricKey) (x : Sample V) (s : MetricStore V)
        → IsWellFormed s
        → (is_invalid k x || is_out_of_retention now s x) ≡ false
        → All (λ v. v.observed_at ≤ℤ x.observed_at) (samples_of k s.series)
        → HasRoom s (put_and_pruned now k x s)
        → last? (samples_of k (add now k x s).0.series) ≡ some x
    add-last now k x s w accepted newer room =
        let sorted : IsSorted (samples_of k s.series) = IsSorted-samples_of k s.series w.ordered in
        let meant : with_sample k x s.series k ≡ insert_sorted x (samples_of k s.series) =
          rw ((key_beq_iff k k).1 refl) refl in
        elim (add-Holds now k x s w) [
          | inl (refused, same) ↦ absurd (cc (refused, accepted))
          | inr (taken, done, held) ↦ elim (held k) [
            | inl e ↦
                ap last? (e ∙ ap (kept s now) meant)
                ∙ (last-kept s now (insert_sorted x (samples_of k s.series)) w.limit_pos
                      (insert_sorted-IsSorted x (samples_of k s.series) sorted)
                    ∙ last-insert_sorted x (samples_of k s.series) sorted newer)
            | inr (suffix, over) ↦ absurd (room over)
          ]
        ]

    latest-unscoped :
        (series : Series V) (name : String)
        → latest series (unscoped name) ≡ last? (samples_of (unscoped name) series)
    unfolding latest snapshot_samples
    latest-unscoped series name =
        elim (Bool-cases (length (samples_of (unscoped name) series) == 0)) [
          | inl e ↦ rw e refl
          | inr e ↦ rw e refl
        ]

    -- What is set under a name is what `Get` shows for it at any later time, also past the
    -- retention, where `Add` takes the sample, the name has none that is newer, and the limit of the
    -- whole store is not exceeded.
    pub get-set :
        (at now later : Time) (name : String) (value : V) (s : MetricStore V)
        → IsWellFormed s
        → (is_invalid (unscoped name) (sample_at value at)
            || is_out_of_retention now s (sample_at value at))
          ≡ false
        → All (λ v. v.observed_at ≤ℤ at) (samples_of (unscoped name) s.series)
        → HasRoom s (put_and_pruned now (unscoped name) (sample_at value at) s)
        → HasRoom
            (set at now name value s)
            (prune (later -ℤ (set at now name value s).retention) (set at now name value s).series)
        → (get later name (set at now name value s)).1 ≡ some value
    unfolding get set
    get-set at now later name value s w accepted newer room still =
        let k : MetricKey = unscoped name in
        let x : Sample V = sample_at value at in
        let t : MetricStore V = (add now k x s).0 in
        ap (Option.map (λ sample. sample.value)) (
          latest-unscoped (snapshot later t).1 name
          ∙ last-snapshot later t k (add-IsWellFormed now k x s w) still
          ∙ add-last now k x s w accepted newer room)
