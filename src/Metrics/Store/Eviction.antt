-- ===== src/Metrics/Store/Eviction.antt =====
-- Which sample `enforceSampleLimitsLocked` (internal/metrics/store.go) discards.
use ninjascale.Prelude.{
  ◌≡◌, inl, inr, none, some, List, [], ◌∷◌, arith, ◌≤ℤ◌, ◌<ℤ◌, All, All-map, AllValues, Bool-cases,
}
use ninjascale.Time.{Time, before}
use ninjascale.Metrics.{MetricKey, Sample, metric_key}
use ninjascale.Metrics.Store.{Series, Oldest, older, find_oldest}
use ninjascale.Metrics.Store.Sorted.{IsSorted}

module _ {V : Type 0} where
  -- No sample of the series is before `t`.
  abbrev pub NoneBefore : Time → List (Sample V) → Type 0
  NoneBefore t = All (λ v. t ≤ℤ v.observed_at)

-- The best candidate is not before `t`.
abbrev pub NotBefore : Time → Oldest → Type 0
NotBefore t none = Unit
NotBefore t (some (key, oldest)) = t ≤ℤ oldest

older-NotBefore :
    (t at : Time) (key : MetricKey) (best : Oldest)
    → NotBefore t (older (key, at) best)
    → NotBefore t best × (t ≤ℤ at)
older-NotBefore t at key none = λ h. (tt, h)
older-NotBefore t at key (some (k, oldest)) = elim (Bool-cases (before at oldest)) [
  | inl e ↦ rw e (λ h. ground arith)
  | inr e ↦ rw e (λ h. ground arith)
]

chosen-NotBefore :
    (t : Time) (key : MetricKey) (best : Oldest) → best ≡ some (key, t) → NotBefore t best
chosen-NotBefore t key none e = cc
chosen-NotBefore t key (some (k, oldest)) e = let q : oldest ≡ t = cc in rw q (omega arith)

module _ {V : Type 0} where
  find_oldest-least :
      (m : Series V) (best : Oldest) (key : MetricKey) (t : Time)
      → AllValues IsSorted m
      → find_oldest m best ≡ some (key, t)
      → NotBefore t best × AllValues (NoneBefore t) m
  unfolding find_oldest
  find_oldest-least [] best key t s e = (chosen-NotBefore t key best e, tt)
  find_oldest-least ((k, []) ∷ m) best key t s e =
      let (b, rest) = find_oldest-least m best key t s.1 e in (b, (tt, rest))
  find_oldest-least ((k, v ∷ vs) ∷ m) best key t s e =
      let (b, rest) = find_oldest-least m (older (k, v.observed_at) best) key t s.1 e in
      let (c, first) = older-NotBefore t v.observed_at k best b in
      (
        c,
        (
          (
            first,
            All-map (λ w. v.observed_at <ℤ w.observed_at) (λ w. t ≤ℤ w.observed_at) vs
                (λ w later. omega arith) s.0.0,
          ),
          rest,
        ),
      )

  -- With every series in order, no sample of the store is before the instant of the sample that is
  -- chosen to be discarded.
  pub find_oldest_lem :
      (m : Series V) (key : MetricKey) (t : Time)
      → AllValues IsSorted m
      → find_oldest m none ≡ some (key, t)
      → AllValues (NoneBefore t) m
  find_oldest_lem m key t s e = (find_oldest-least m none key t s e).1
