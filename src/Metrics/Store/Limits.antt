-- ===== src/Metrics/Store/Limits.antt =====
-- The sample limits (internal/metrics/store.go, `enforceSampleLimitsLocked`): what capping each
-- series and evicting the oldest samples come to.
use ninjascale.Prelude.{
  ℕ, zero, suc, ◌+◌, ◌-◌, ◌≤◌, ◌<◌, ◌≡◌, refl, inl, inr, List, [], ◌∷◌, ◌⊎◌, Option, none, some,
  arith, length, length-drop, AllValues, AllValues-insert, AllValues-delete, AllValues-lookup,
  Bool-cases, Option-cases, lookup, insert, delete, lookup-cons_some, lookup-cons_same, ◌≢◌, ap,
}
use mathlib.Core.Option.{some-injective}
use ninjascale.Time.{Time}
use ninjascale.Metrics.{Sample, MetricKey, metric_key}
use ninjascale.Metrics.Store.{
  Series, Oldest, is_older, older, samples_of, cap_series, total, find_oldest, without_first,
  drop_oldest, evict,
}

none-ne-some {ℓ} : {A : Type ℓ} {a : A} → ◌≡◌ {A = Option A} none (some a) → ⊥
none-ne-some e = cc

older-cases :
    (j k : MetricKey) (u t : Time) (best : Oldest)
    → older (j, u) best ≡ some (k, t)
    → (best ≡ some (k, t)) ⊎ (j ≡ k)
older-cases j k u t best e = elim (Bool-cases (is_older u best)) [
  | inl o ↦ inr (ap (λ p. p.0) (some-injective (j, u) (k, t) (rw o at e)))
  | inr o ↦ inl (rw o at e)
]

module _ {V : Type 0} where
  pub cap_series-le :
      (limit : ℕ) (m : Series V) → AllValues (λ vs. length vs ≤ limit) (cap_series limit m)
  unfolding cap_series
  cap_series-le limit [] = tt
  cap_series-le limit ((k, vs) ∷ m) =
      (ground (arith, length-drop (length vs - limit) vs), cap_series-le limit m)

  total-insert :
      (k : MetricKey) (vs ws : List (Sample V)) (m : Series V)
      → lookup k m ≡ some vs
      → total (insert k ws m) + length vs ≡ total m + length ws
  unfolding total insert lookup
  total-insert k vs ws [] e = cc
  total-insert k vs ws ((j, us) ∷ m) e = ground (arith, total-insert k vs ws m)

  total-delete-le : (k : MetricKey) (m : Series V) → total (delete k m) ≤ total m
  unfolding total delete
  total-delete-le k [] = omega arith
  total-delete-le k ((j, us) ∷ m) = ground (arith, total-delete-le k m)

  total-delete :
      (k : MetricKey) (vs : List (Sample V)) (m : Series V)
      → lookup k m ≡ some vs
      → total (delete k m) + length vs ≤ total m
  unfolding total delete lookup
  total-delete k vs [] e = cc
  total-delete k vs ((j, us) ∷ m) e = ground (arith, total-delete k vs m, total-delete-le k m)

  total-without_first :
      (k : MetricKey) (vs : List (Sample V)) (m : Series V)
      → lookup k m ≡ some vs
      → 0 < length vs
      → total (without_first k vs m) + 1 ≤ total m
  total-without_first k [] m e h = elim h [ ]
  total-without_first k (v ∷ []) m e h = omega (arith, total-delete k (v ∷ []) m e)
  total-without_first k (v ∷ w ∷ vs) m e h = omega (arith, total-insert k (v ∷ w ∷ vs) (w ∷ vs) m e)

  -- The key that the scan finds is one that it started from or a key of the map.
  find_oldest-key :
      (m : Series V) (best : Oldest) (k : MetricKey) (t : Time)
      → find_oldest m best ≡ some (k, t)
      → (best ≡ some (k, t)) ⊎ ((vs : List (Sample V)) × (lookup k m ≡ some vs))
  unfolding find_oldest
  find_oldest-key [] best k t e = inl e
  find_oldest-key ((j, []) ∷ m) best k t e = elim (find_oldest-key m best k t e) [
    | inl q ↦ inl q
    | inr (vs, q) ↦ inr (lookup-cons_some k j vs [] m q)
  ]
  find_oldest-key ((j, v ∷ us) ∷ m) best k t e =
      elim (find_oldest-key m (older (j, v.observed_at) best) k t e) [
        | inl q ↦ elim (older-cases j k v.observed_at t best q) [
          | inl same ↦ inl same
          | inr found ↦ inr (v ∷ us, lookup-cons_same k j (v ∷ us) m found)
        ]
        | inr (vs, q) ↦ inr (lookup-cons_some k j vs (v ∷ us) m q)
      ]

  find_oldest-ne-none : (m : Series V) (best : Oldest) → best ≢ none → find_oldest m best ≢ none
  unfolding find_oldest
  find_oldest-ne-none [] best h e = h e
  find_oldest-ne-none ((j, []) ∷ m) best h e = find_oldest-ne-none m best h e
  find_oldest-ne-none ((j, v ∷ vs) ∷ m) best h e =
      find_oldest-ne-none m (older (j, v.observed_at) best) (λ q. ground arith) e

  -- The scan finds nothing only if there is no sample.
  total-find_oldest : (m : Series V) → find_oldest m none ≡ none → total m ≡ 0
  unfolding find_oldest total
  total-find_oldest [] e = refl
  total-find_oldest ((j, []) ∷ m) e = omega (arith, total-find_oldest m e)
  total-find_oldest ((j, v ∷ vs) ∷ m) e =
      absurd (find_oldest-ne-none m (some (j, v.observed_at)) (λ q. cc) e)

  AllValues-without_first {μ} :
      (P : List (Sample V) → Type μ) (k : MetricKey) (vs : List (Sample V)) (m : Series V)
      → ((v w : Sample V) (us : List (Sample V)) → P (v ∷ w ∷ us) → P (w ∷ us))
      → P vs
      → AllValues P m
      → AllValues P (without_first k vs m)
  AllValues-without_first P k [] m tail p h = h
  AllValues-without_first P k (v ∷ []) m tail p h = AllValues-delete P k m h
  AllValues-without_first P k (v ∷ w ∷ vs) m tail p h =
      AllValues-insert P k (w ∷ vs) m (tail v w vs p) h

  -- What holds of every series and of the rest of one behind its first sample stays true of every
  -- series, and each round takes a sample off the total while there is one.
  pub evict_lem {μ} :
      (P : List (Sample V) → Type μ) (n : ℕ) (m : Series V)
      → ((v w : Sample V) (us : List (Sample V)) → P (v ∷ w ∷ us) → P (w ∷ us))
      → ((vs : List (Sample V)) → P vs → 0 < length vs)
      → AllValues P m
      → AllValues P (evict n m) × (total (evict n m) ≤ total m - n)
  unfolding evict
  evict_lem P zero m tail some_sample h = (h, omega arith)
  evict_lem P (suc n) m tail some_sample h = elim (Option-cases (find_oldest m none)) [
    | inl e ↦ rw (e, evict) (h, omega (arith, total-find_oldest m e))
    | inr ((k, t), e) ↦ elim (find_oldest-key m none k t e) [
      | inl q ↦ absurd (none-ne-some q)
      | inr (vs, q) ↦
          let p : P vs = AllValues-lookup P k m vs h q in
          let h' : AllValues P (without_first k vs m) = AllValues-without_first P k vs m tail p h in
          let less : total (without_first k vs m) + 1 ≤ total m =
            total-without_first k vs m q (some_sample vs p) in
          let rest : AllValues P (evict n (without_first k vs m))
              × (total (evict n (without_first k vs m)) ≤ total (without_first k vs m) - n) =
            evict_lem P n (without_first k vs m) tail some_sample h' in
          rw (e, evict, q, drop_oldest, samples_of) (rest.0, omega (arith, rest.1))
    ]
  ]
