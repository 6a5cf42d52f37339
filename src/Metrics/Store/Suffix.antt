-- ===== src/Metrics/Store/Suffix.antt =====
-- What eviction (internal/metrics/store.go, `enforceSampleLimits`) takes from a history: samples at
-- its old end.
use ninjascale.Prelude.{
  ℕ, zero, suc, ◌≡◌, refl, sym, ap, ◌∙◌, inl, inr, true, false, List, [], ◌∷◌, none, if◌then◌else◌,
  drop, Bool-cases, Option-cases, insert, delete, lookup-insert, lookup-delete,
}
use mathlib.Core.Path.{subst}
use ninjascale.Metrics.{Sample, MetricKey, key_beq, key_beq_iff, metric_key}
use ninjascale.Metrics.Store.{Series, samples_of, find_oldest, without_first, drop_oldest, evict}

module _ {V : Type 0} where
  -- A history without some of its oldest samples.
  pub data IsSuffix (ys : List (Sample V)) : List (Sample V) → Type 0 where
    whole : IsSuffix ys ys
    behind : {x : Sample V} {xs : List (Sample V)} → IsSuffix ys xs → IsSuffix ys (x ∷ xs)

  IsSuffix-trans : {zs ys xs : List (Sample V)} → IsSuffix zs ys → IsSuffix ys xs → IsSuffix zs xs
  IsSuffix-trans h whole = h
  IsSuffix-trans h (behind q) = behind (IsSuffix-trans h q)

  IsSuffix-drop : (n : ℕ) (xs : List (Sample V)) → IsSuffix (drop n xs) xs
  IsSuffix-drop zero xs = whole
  IsSuffix-drop (suc n) [] = whole
  IsSuffix-drop (suc n) (x ∷ xs) = behind (IsSuffix-drop n xs)

  pub samples_of-insert :
      (k j : MetricKey) (vs : List (Sample V)) (m : Series V)
      → samples_of k (insert j vs m) ≡ (if key_beq j k then vs else samples_of k m)
  unfolding samples_of
  samples_of-insert k j vs m = elim (Bool-cases (key_beq j k)) [
    | inl e ↦ rw (lookup-insert j k vs m, e) refl
    | inr e ↦ rw (lookup-insert j k vs m, e) refl
  ]

  samples_of-delete :
      (k j : MetricKey) (m : Series V)
      → samples_of k (delete j m) ≡ (if key_beq j k then [] else samples_of k m)
  unfolding samples_of
  samples_of-delete k j m = elim (Bool-cases (key_beq j k)) [
    | inl e ↦ rw (lookup-delete j k m, e) refl
    | inr e ↦ rw (lookup-delete j k m, e) refl
  ]

  samples_of-without_first :
      (k j : MetricKey) (vs : List (Sample V)) (m : Series V)
      → samples_of j m ≡ vs
      → IsSuffix (samples_of k (without_first j vs m)) (samples_of k m)
  samples_of-without_first k j [] m e = whole
  samples_of-without_first k j (v ∷ vs) m e = elim (Bool-cases (key_beq j k)) [
    | inl q ↦
        let same : samples_of k m ≡ v ∷ vs =
          ap (λ x. samples_of x m) (sym ((key_beq_iff j k).0 q)) ∙ e in
        subst (IsSuffix _) (sym same)
          (subst (λ x. IsSuffix x (v ∷ vs)) (sym (without_first_own v vs q)) (behind whole))
    | inr q ↦ subst (λ x. IsSuffix x (samples_of k m)) (sym (without_first_other v vs q)) whole
  ]
    where
      without_first_own :
          (v : Sample V) (vs : List (Sample V))
          → key_beq j k ≡ true
          → samples_of k (without_first j (v ∷ vs) m) ≡ vs
      without_first_own v [] q = samples_of-delete k j m ∙ (rw q refl)
      without_first_own v (w ∷ vs) q = samples_of-insert k j (w ∷ vs) m ∙ (rw q refl)

      without_first_other :
          (v : Sample V) (vs : List (Sample V))
          → key_beq j k ≡ false
          → samples_of k (without_first j (v ∷ vs) m) ≡ samples_of k m
      without_first_other v [] q = samples_of-delete k j m ∙ (rw q refl)
      without_first_other v (w ∷ vs) q = samples_of-insert k j (w ∷ vs) m ∙ (rw q refl)

  -- Eviction takes samples away at the old end only.
  pub samples_of-evict :
      (k : MetricKey) (n : ℕ) (m : Series V) → IsSuffix (samples_of k (evict n m)) (samples_of k m)
  unfolding evict drop_oldest
  samples_of-evict k zero m = whole
  samples_of-evict k (suc n) m = elim (Option-cases (find_oldest m none)) [
    | inl e ↦ rw (e, evict) whole
    | inr ((j, t), e) ↦
        rw (e, evict)
          (IsSuffix-trans (samples_of-evict k n (drop_oldest j m))
            (samples_of-without_first k j (samples_of j m) m refl))
  ]
