-- ===== src/Metrics/Otlp/Delivered.antt =====
-- What a request of the receiver (internal/metrics/otlp.go) has to bring to the store, said of its
-- points, values, times and attributes as relations.
use mathlib.Core.List.{flat_map}
use ninjascale.Prelude.{
  ℕ, ◌^◌, ◌≤◌, ◌≡◌, ◌⊎◌, refl, sym, inl, inr, Option, none, some, List, [], ◌∷◌, ◌++◌, All, lookup,
  string_key, Bool-cases,
}
use mathlib.Core.Path.{subst}
use ninjascale.Time.{Time}
use ninjascale.Metrics.{Float, MetricKey, Sample}
use ninjascale.Metrics.Otlp.{
  Formats, Number, as_double, as_int, no_number, DataPoint, MetricData, gauge, sum, other_data,
  Metric, Binding, Bindings, Received, or_no_bindings, matches_attributes, points_of, extract_value,
  observed_at, process_request,
}
use ninjascale.Metrics.Otlp.Routed.{
  keys_for, sample_at, sample_of_point, keyed, of_metric, deliveries, add_all,
  process_request-add_all,
}
use ninjascale.Metrics.Otlp.Matched.{
  IsInstant, observed_at-IsInstant, observed_at-none, Carries, matches_attributes-Carries,
}

-- What the items of a list bring, one after the other.
abbrev pub Concat : {A B : Type 0} → (A → List B → Type 0) → List A → List B → Type 0
Concat R [] bs = bs ≡ []
Concat {B = B} R (a ∷ as') bs =
    (cs : List B) × (ds : List B) × R a cs × Concat R as' ds × (bs ≡ cs ++ ds)

Concat-flat_map :
    {A B : Type 0} (R : A → List B → Type 0) (f : A → List B)
    → ((a : A) → R a (f a))
    → (xs : List A) → Concat R xs (flat_map f xs)
unfolding flat_map
Concat-flat_map R f step [] = refl
Concat-flat_map R f step (x ∷ xs) = (f x, flat_map f xs, step x, Concat-flat_map R f step xs, refl)

module _ {V : Type 0} ⦃float : Float V⦄ (f : Formats V) where
  -- The number of a point, as a float64.
  abbrev pub IsValue : Number V → V → Type 0
  IsValue (as_double v) x = x ≡ v
  IsValue (as_int n) x = x ≡ float.of_int n
  IsValue no_number x = ⊥

  -- A sample of a point that has the attributes of a binding is for the binding's key; the bindings
  -- follow each other.
  abbrev pub IsRouted : DataPoint V → Sample V → List Binding → List (MetricKey × Sample V) → Type 0
  IsRouted p s = Concat (λ b ds.
      (All (Carries f p.attributes) b.attributes × (ds ≡ (b.key, s) ∷ []))
      ⊎ ((¬ All (Carries f p.attributes) b.attributes) × (ds ≡ [])))

  -- A point without a number, or at 2^63 nanoseconds or later, brings nothing.
  abbrev pub IsPointOf : Time → List Binding → DataPoint V → List (MetricKey × Sample V) → Type 0
  IsPointOf received bs p ds =
      ((s : Sample V) × IsValue p.value s.value
        × IsInstant received p.time_unix_nano s.observed_at
        × IsRouted p s bs ds)
      ⊎ (((p.value ≡ no_number) ⊎ (2 ^ 63 ≤ p.time_unix_nano)) × (ds ≡ []))

  -- The points of gauges and of sums, for the bindings of the metric's name.
  abbrev pub IsContentsOf :
      Time → List Binding → MetricData V → List (MetricKey × Sample V) → Type 0
  IsContentsOf received bs (gauge ps) ds = Concat (IsPointOf received bs) ps ds
  IsContentsOf received bs (sum ps) ds = Concat (IsPointOf received bs) ps ds
  IsContentsOf received bs other_data ds = ds ≡ []

  abbrev pub IsMetricOf : Bindings → Time → Metric V → List (MetricKey × Sample V) → Type 0
  IsMetricOf bindings received m =
      IsContentsOf received (or_no_bindings (lookup m.name bindings)) m.contents

  -- The metrics of all scopes of all resources, in order.
  abbrev pub IsRequestOf :
      Bindings → Time → List (List (List (Metric V))) → List (MetricKey × Sample V) → Type 0
  IsRequestOf bindings received = Concat (Concat (Concat (IsMetricOf bindings received)))

  keyed-IsRouted :
      (p : DataPoint V) (s : Sample V) (bs : List Binding)
      → IsRouted p s bs (keyed f (some s) (keys_for f p bs))
  keyed-IsRouted p s [] = refl
  keyed-IsRouted p s (b ∷ bs) =
      let reads = matches_attributes-Carries f p.attributes b.attributes in
      elim (Bool-cases (matches_attributes f p.attributes b.attributes)) [
        | inl e ↦ rw e (
          (b.key, s) ∷ [],
          keyed f (some s) (keys_for f p bs),
          inl (reads.0 e, refl),
          keyed-IsRouted p s bs,
          refl,
        )
        | inr e ↦ rw e (
          [],
          keyed f (some s) (keys_for f p bs),
          inr ((λ h. absurd (cc (e, reads.1 h))), refl),
          keyed-IsRouted p s bs,
          refl,
        )
      ]

  timed-IsPointOf :
      (received : Time) (bs : List Binding) (p : DataPoint V) (v : V) (at : Option Time)
      → IsValue p.value v
      → observed_at received p.time_unix_nano ≡ at
      → IsPointOf received bs p (keyed f (sample_at f (some v) at) (keys_for f p bs))
  timed-IsPointOf received bs p v none is e =
      inr (inr (observed_at-none received p.time_unix_nano e), refl)
  timed-IsPointOf received bs p v (some t) is e =
      let s : Sample V = record { value = v; observed_at = t } in
      inl (s, is, observed_at-IsInstant received p.time_unix_nano t e, keyed-IsRouted p s bs)

  value-IsPointOf :
      (received : Time) (bs : List Binding) (p : DataPoint V) (n : Number V)
      → p.value ≡ n
      → IsPointOf received bs p (
          keyed f
            (sample_at f (extract_value n) (observed_at received p.time_unix_nano))
            (keys_for f p bs))
  value-IsPointOf received bs p (as_double v) e =
      timed-IsPointOf received bs p v (observed_at received p.time_unix_nano)
        (subst (λ n. IsValue n v) (sym e) refl) refl
  value-IsPointOf received bs p (as_int i) e =
      timed-IsPointOf received bs p (float.of_int i) (observed_at received p.time_unix_nano)
        (subst (λ n. IsValue n (float.of_int i)) (sym e) refl) refl
  value-IsPointOf received bs p no_number e = inr (inl e, refl)

  point-IsPointOf :
      (received : Time) (bs : List Binding) (p : DataPoint V)
      → IsPointOf received bs p (keyed f (sample_of_point f received p) (keys_for f p bs))
  point-IsPointOf received bs p = value-IsPointOf received bs p p.value refl

  contents-IsContentsOf :
      (received : Time) (bs : List Binding) (contents : MetricData V)
      → IsContentsOf received bs contents (
          flat_map
            (λ p. keyed f (sample_of_point f received p) (keys_for f p bs))
            (points_of contents))
  unfolding flat_map
  contents-IsContentsOf received bs (gauge ps) =
      Concat-flat_map (IsPointOf received bs) _ (point-IsPointOf received bs) ps
  contents-IsContentsOf received bs (sum ps) =
      Concat-flat_map (IsPointOf received bs) _ (point-IsPointOf received bs) ps
  contents-IsContentsOf received bs other_data = refl

  metric-IsMetricOf :
      (bindings : Bindings) (received : Time) (m : Metric V)
      → IsMetricOf bindings received m (of_metric f bindings received m)
  metric-IsMetricOf bindings received m =
      contents-IsContentsOf received (or_no_bindings (lookup m.name bindings)) m.contents

  module _ (clocks : ℕ → Time) where
    pub process_request-IsRequestOf :
        (bindings : Bindings) (received : Time) (resources : List (List (List (Metric V))))
        (r : Received V)
        → (ds : List (MetricKey × Sample V)) × IsRequestOf bindings received resources ds
          × (process_request f clocks bindings received resources r ≡ add_all f clocks ds r)
    process_request-IsRequestOf bindings received resources r =
        let metrics =
          Concat-flat_map (IsMetricOf bindings received) (of_metric f bindings received)
            (metric-IsMetricOf bindings received) in
        let scopes = Concat-flat_map _ _ metrics in
        (
          deliveries f bindings received resources,
          Concat-flat_map _ _ scopes resources,
          process_request-add_all f clocks bindings received resources r,
        )
