-- ===== src/Metrics/Store/Retained.antt =====
-- `Snapshot` (internal/metrics/store.go) on a store within its limits, from an instant on.
use ninjascale.Prelude.{
  ℕ, Bool, ◌-◌, ◌≤◌, ◌≡◌, refl, sym, ap, ◌∙◌, inl, inr, false, List, [], ◌∷◌, some, arith, leb,
  ◌==◌, length, last?, length-drop, select, AllValues-lookup, Bool-cases, Option-cases, lookup,
  search_slice, ◌-ℤ◌, ◌≤ℤ◌,
}
use mathlib.Core.Path.{subst}
use mathlib.Core.Option.{some-injective}
use ninjascale.Time.{Time}
use ninjascale.Metrics.{Sample, MetricKey, metric_key}
use ninjascale.Metrics.Store.{
  MetricStore, Series, not_before, samples_of, prune, prune_at, prune_samples, cap_series, total,
  snapshot,
}
use ninjascale.Metrics.Store.Sorted.{or_last, prune_samples_lem}
use ninjascale.Metrics.Store.Invariant.{IsWellFormed, IsSorted-samples_of}
use ninjascale.Metrics.Store.Histories.{newest, recent, IsOver, snapshot-Holds}

module _ {V : Type 0} where
  prune_samples-length : (vs : List (Sample V)) (c : Time) → length (prune_samples vs c) ≤ length vs
  unfolding prune_samples
  prune_samples-length vs c = elim (Bool-cases (leb (length vs) 1)) [
    | inl short ↦ rw short (omega arith)
    | inr long ↦ rw long (at_index (search_slice (not_before c) vs) (ground arith))
  ]
    where
      at_index : (n : ℕ) → 2 ≤ length vs → length (prune_at vs n) ≤ length vs
      at_index n h = elim (Bool-cases (n == 0)) [
        | inl z ↦ rw z (omega arith)
        | inr z ↦ elim (Bool-cases (n == length vs)) [
          | inl q ↦
              rw (z, q)
                (elim (Option-cases (last? vs)) [
                  | inl e ↦ rw e (omega arith)
                  | inr (x, e) ↦ rw e (omega (arith, h))
                ])
          | inr q ↦ rw (z, q) (omega (arith, length-drop n vs))
        ]
      ]

  total-prune : (c : Time) (m : Series V) → total (prune c m) ≤ total m
  unfolding total prune
  total-prune c [] = omega arith
  total-prune c ((k, vs) ∷ m) = omega (arith, prune_samples-length vs c, total-prune c m)

  total-cap_series : (limit : ℕ) (m : Series V) → total (cap_series limit m) ≤ total m
  unfolding total cap_series
  total-cap_series limit [] = omega arith
  total-cap_series limit ((k, vs) ∷ m) =
      ground (arith, length-drop (length vs - limit) vs, total-cap_series limit m)

  -- A store within its limits has room for what pruning leaves of it.
  not_IsOver : (s : MetricStore V) (c : Time) → IsWellFormed s → ¬ IsOver s (prune c s.series)
  not_IsOver s c w over = omega (
    arith,
    over,
    w.bounded,
    total-cap_series s.max_samples_per_series (prune c s.series),
    total-prune c s.series,
  )

  samples_of-capped :
      (k : MetricKey) (s : MetricStore V)
      → IsWellFormed s
      → length (samples_of k s.series) ≤ s.max_samples_per_series
  unfolding samples_of
  samples_of-capped k s w = elim (Option-cases (lookup k s.series)) [
    | inl e ↦ rw e (omega arith)
    | inr (vs, e) ↦
        rw e
          (AllValues-lookup (λ xs. length xs ≤ s.max_samples_per_series) k s.series vs w.capped e)
  ]

  newest-all : (limit : ℕ) (xs : List (Sample V)) → length xs ≤ limit → newest limit xs ≡ xs
  newest-all limit xs h = let z : length xs - limit ≡ 0 = omega (arith, h) in rw z refl

  select-select :
      (c start : Time) (vs : List (Sample V))
      → c ≤ℤ start
      → select (not_before start) (select (not_before c) vs) ≡ select (not_before start) vs
  select-select c start [] h = refl
  select-select c start (v ∷ vs) h = elim (Bool-cases (not_before c v)) [
    | inl e ↦ elim (Bool-cases (not_before start v)) [
      | inl q ↦ rw (e, q) (ap (λ xs. v ∷ xs) (select-select c start vs h))
      | inr q ↦ rw (e, q) (select-select c start vs h)
    ]
    | inr e ↦
        let q : not_before start v ≡ false = ground (arith, h) in
        rw (e, q) (select-select c start vs h)
  ]

  select-none :
      (p : Sample V → Bool) (v : Sample V) (vs : List (Sample V))
      → select p (v ∷ vs) ≡ []
      → (p v ≡ false) × (select p vs ≡ [])
  select-none p v vs e = elim (Bool-cases (p v)) [
    | inl t ↦ absurd (cc (rw t at e))
    | inr t ↦ (t, rw t at e)
  ]

  select-last :
      (c start : Time) (vs : List (Sample V)) (x : Sample V)
      → c ≤ℤ start
      → select (not_before c) vs ≡ []
      → last? vs ≡ some x
      → not_before start x ≡ false
  select-last c start [] x h none_left e = cc
  select-last c start (v ∷ []) x h none_left e =
      let early : not_before c v ≡ false = (select-none (not_before c) v [] none_left).0 in
      let same : v ≡ x = some-injective v x e in
      subst (λ y. not_before start y ≡ false) same (ground (arith, h, early))
  select-last c start (v ∷ u ∷ vs) x h none_left e =
      select-last c start (u ∷ vs) x h (select-none (not_before c) v (u ∷ vs) none_left).1 e

  select-recent :
      (c start : Time) (vs : List (Sample V))
      → c ≤ℤ start
      → select (not_before start) (recent c vs) ≡ select (not_before start) vs
  select-recent c start vs h = go (select (not_before c) vs) refl
    where
      go :
          (xs : List (Sample V))
          → select (not_before c) vs ≡ xs
          → select (not_before start) (or_last vs xs) ≡ select (not_before start) vs
      go (x ∷ xs) e = ap (select (not_before start)) (sym e) ∙ select-select c start vs h
      go [] e =
          let none_from : select (not_before start) vs ≡ [] =
            sym (select-select c start vs h) ∙ ap (select (not_before start)) e in
          elim (Option-cases (last? vs)) [
            | inl q ↦ rw q refl
            | inr (x, q) ↦ rw (q, none_from, select-last c start vs x h e q) refl
          ]

  -- In a store within its limits, a snapshot has every sample from any instant on that is not before
  -- the cutoff of the retention: the limits take nothing away.
  pub select-snapshot :
      (at start : Time) (s : MetricStore V) (k : MetricKey)
      → IsWellFormed s
      → at -ℤ s.retention ≤ℤ start
      → select (not_before start) (samples_of k (snapshot at s).1)
        ≡ select (not_before start) (samples_of k s.series)
  select-snapshot at start s k w h = elim (snapshot-Holds at s k w) [
    | inr (suffix, over) ↦ absurd (not_IsOver s (at -ℤ s.retention) w over)
    | inl e ↦
        let vs : List (Sample V) = samples_of k s.series in
        let c : Time = at -ℤ s.retention in
        let short : length (recent c vs) ≤ s.max_samples_per_series =
          subst (λ (xs : List (Sample V)). length xs ≤ s.max_samples_per_series)
            (prune_samples_lem vs c (IsSorted-samples_of k s.series w.ordered))
            (omega (arith, prune_samples-length vs c, samples_of-capped k s w)) in
        ap (select (not_before start)) (e ∙ newest-all s.max_samples_per_series (recent c vs) short)
        ∙ select-recent c start vs h
  ]
