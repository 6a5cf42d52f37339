-- ===== src/Metrics/Otlp/Routed.antt =====
-- What a request of the receiver (internal/metrics/otlp.go) brings to the store: a flat list of
-- samples with their keys, each taken over by one `Add`.
use mathlib.Core.List.{flat_map}
use ninjascale.Prelude.{
  ℕ, ◌≡◌, refl, sym, ap, ◌∙◌, inl, inr, Option, none, some, List, [], ◌∷◌, ◌++◌, if◌then◌else◌,
  is_empty, lookup, string_key, Bool-cases, Option-cases,
}
use ninjascale.Time.{Time}
use ninjascale.Metrics.{Float, MetricKey, Sample}
use ninjascale.Metrics.Otlp.{
  Formats, DataPoint, Metric, Binding, Bindings, Received, or_no_bindings, matches_attributes,
  points_of, extract_value, observed_at, add_received, route_point, process_value, process_points,
  process_metric, process_metrics, process_scopes, process_request,
}

module _ {V : Type 0} ⦃float : Float V⦄ (f : Formats V) where
  -- The keys that a point is for: those of the bindings whose attributes it has.
  abbrev pub keys_for : DataPoint V → List Binding → List MetricKey
  keys_for p [] = []
  keys_for p (b ∷ bs) =
      if matches_attributes f p.attributes b.attributes
      then b.key ∷ keys_for p bs
      else keys_for p bs

  -- The sample of a point: none without a number, or at a time that is passed over.
  abbrev pub sample_at : Option V → Option Time → Option (Sample V)
  sample_at none at = none
  sample_at (some v) none = none
  sample_at (some v) (some at) = some (record { value = v; observed_at = at })

  abbrev pub sample_of_point : Time → DataPoint V → Option (Sample V)
  sample_of_point received p =
      sample_at (extract_value p.value) (observed_at received p.time_unix_nano)

  abbrev pub keyed : Option (Sample V) → List MetricKey → List (MetricKey × Sample V)
  keyed none keys = []
  keyed (some s) [] = []
  keyed (some s) (k ∷ keys) = (k, s) ∷ keyed (some s) keys

  abbrev pub of_metric : Bindings → Time → Metric V → List (MetricKey × Sample V)
  of_metric bindings received m =
      flat_map
        (λ p.
          keyed (sample_of_point received p) (keys_for p (or_no_bindings (lookup m.name bindings))))
        (points_of m.contents)

  -- The deliveries of a request, in the order of its points and, for a point, of the bindings.
  abbrev pub deliveries :
      Bindings → Time → List (List (List (Metric V))) → List (MetricKey × Sample V)
  deliveries bindings received = flat_map (flat_map (flat_map (of_metric bindings received)))

  module _ (clocks : ℕ → Time) where
    -- One `Add` for each, each with its own reading of the clock.
    abbrev pub add_all : List (MetricKey × Sample V) → Received V → Received V
    add_all [] r = r
    add_all ((key, s) ∷ ds) r = add_all ds (add_received f clocks key s r)

    add_all-append :
        (ds es : List (MetricKey × Sample V)) (r : Received V)
        → add_all (ds ++ es) r ≡ add_all es (add_all ds r)
    add_all-append [] es r = refl
    add_all-append ((key, s) ∷ ds) es r = add_all-append ds es (add_received f clocks key s r)

    route_point-add_all :
        (p : DataPoint V) (s : Sample V) (bs : List Binding) (r : Received V)
        → route_point f clocks p s bs r ≡ add_all (keyed (some s) (keys_for p bs)) r
    unfolding route_point
    route_point-add_all p s [] r = refl
    route_point-add_all p s (b ∷ bs) r =
        elim (Bool-cases (matches_attributes f p.attributes b.attributes)) [
          | inl e ↦ rw e (route_point-add_all p s bs (add_received f clocks b.key s r))
          | inr e ↦ rw e (route_point-add_all p s bs r)
        ]

    process_value-add_all :
        (p : DataPoint V) (v : Option V) (at : Option Time) (bs : List Binding) (r : Received V)
        → process_value f clocks p v at bs r ≡ add_all (keyed (sample_at v at) (keys_for p bs)) r
    process_value-add_all p none at bs r = refl
    process_value-add_all p (some v) none bs r = refl
    process_value-add_all p (some v) (some at) bs r =
        route_point-add_all p (record { value = v; observed_at = at }) bs r

    -- A round that adds what its item delivers, before the other rounds.
    round-add_all :
        {A : Type 0} (d : A → List (MetricKey × Sample V)) (a : A) (as' : List A)
        (r r' : Received V)
        → r' ≡ add_all (d a) r
        → add_all (flat_map d as') r' ≡ add_all (flat_map d (a ∷ as')) r
    unfolding flat_map
    round-add_all d a as' r r' e =
        ap (add_all (flat_map d as')) e ∙ sym (add_all-append (d a) (flat_map d as') r)

    process_points-add_all :
        (received : Time) (bs : List Binding) (ps : List (DataPoint V)) (r : Received V)
        → process_points f clocks received bs ps r
          ≡ add_all (flat_map (λ p. keyed (sample_of_point received p) (keys_for p bs)) ps) r
    unfolding process_points flat_map
    process_points-add_all received bs [] r = refl
    process_points-add_all received bs (p ∷ ps) r =
        process_points-add_all received bs ps _
        ∙ round-add_all (λ p. keyed (sample_of_point received p) (keys_for p bs)) p ps r _
            (process_value-add_all p (extract_value p.value) (observed_at received p.time_unix_nano)
              bs r)

    no_keys :
        (received : Time) (ps : List (DataPoint V))
        → flat_map (λ p. keyed (sample_of_point received p) (keys_for p [])) ps ≡ []
    unfolding flat_map
    no_keys received [] = refl
    no_keys received (p ∷ ps) = elim (Option-cases (sample_of_point received p)) [
      | inl e ↦ rw e (no_keys received ps)
      | inr (s, e) ↦ rw e (no_keys received ps)
    ]

    process_metric-add_all :
        (bindings : Bindings) (received : Time) (m : Metric V) (r : Received V)
        → process_metric f clocks bindings received m r ≡ add_all (of_metric bindings received m) r
    unfolding process_metric
    process_metric-add_all bindings received m r =
        known-add_all (or_no_bindings (lookup m.name bindings))
      where
        known-add_all :
            (known : List Binding)
            → (if is_empty known
                then r
                else process_points f clocks received known (points_of m.contents) r)
              ≡ add_all
                  (flat_map
                    (λ p. keyed (sample_of_point received p) (keys_for p known))
                    (points_of m.contents))
                  r
        known-add_all [] = rw (no_keys received (points_of m.contents)) refl
        known-add_all (b ∷ bs) = process_points-add_all received (b ∷ bs) (points_of m.contents) r

    process_metrics-add_all :
        (bindings : Bindings) (received : Time) (ms : List (Metric V)) (r : Received V)
        → process_metrics f clocks bindings received ms r
          ≡ add_all (flat_map (of_metric bindings received) ms) r
    unfolding process_metrics flat_map
    process_metrics-add_all bindings received [] r = refl
    process_metrics-add_all bindings received (m ∷ ms) r =
        process_metrics-add_all bindings received ms _
        ∙ round-add_all (of_metric bindings received) m ms r _
            (process_metric-add_all bindings received m r)

    process_scopes-add_all :
        (bindings : Bindings) (received : Time) (scopes : List (List (Metric V))) (r : Received V)
        → process_scopes f clocks bindings received scopes r
          ≡ add_all (flat_map (flat_map (of_metric bindings received)) scopes) r
    unfolding process_scopes flat_map
    process_scopes-add_all bindings received [] r = refl
    process_scopes-add_all bindings received (ms ∷ scopes) r =
        process_scopes-add_all bindings received scopes _
        ∙ round-add_all (flat_map (of_metric bindings received)) ms scopes r _
            (process_metrics-add_all bindings received ms r)

    -- A request brings the store exactly its deliveries, each by one `Add` in their order: for each
    -- gauge or sum of a registered name and each of its points with a number and a time below 2^63
    -- nanoseconds, a sample for the key of every binding whose attributes the point has, at the
    -- point's time, or at the receipt for the time 0.
    pub process_request-add_all :
        (bindings : Bindings) (received : Time) (resources : List (List (List (Metric V))))
        (r : Received V)
        → process_request f clocks bindings received resources r
          ≡ add_all (deliveries bindings received resources) r
    unfolding process_request flat_map
    process_request-add_all bindings received [] r = refl
    process_request-add_all bindings received (scopes ∷ resources) r =
        process_request-add_all bindings received resources _
        ∙ round-add_all (flat_map (flat_map (of_metric bindings received))) scopes resources r _
            (process_scopes-add_all bindings received scopes r)
