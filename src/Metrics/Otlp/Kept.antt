-- ===== src/Metrics/Otlp/Kept.antt =====
-- What a request of the OTLP receiver (internal/metrics/otlp.go) leaves of the store's invariant.
use ninjascale.Prelude.{
  ℕ, Bool, true, false, Option, none, some, List, [], ◌∷◌, if◌then◌else◌, is_empty, lookup,
  string_key,
}
use ninjascale.Time.{Time}
use ninjascale.Metrics.{Float, Sample}
use ninjascale.Metrics.Store.Invariant.{IsWellFormed, add-IsWellFormed}
use ninjascale.Metrics.Otlp.{
  Formats, DataPoint, Metric, Binding, Bindings, Received, or_no_bindings, matches_attributes,
  extract_value, observed_at, add_received, route_point, process_value, process_points,
  process_metric, process_metrics, process_scopes, process_request,
}

either-IsWellFormed :
    {V : Type 0} (b : Bool) (r r' : Received V)
    → IsWellFormed r.store
    → IsWellFormed r'.store
    → IsWellFormed (if b then r else r').store
either-IsWellFormed true r r' h h' = h
either-IsWellFormed false r r' h h' = h'

module _ {V : Type 0} ⦃float : Float V⦄ (f : Formats V) (clocks : ℕ → Time) where
  route_point-IsWellFormed :
      (p : DataPoint V) (s : Sample V) (bs : List Binding) (r : Received V)
      → IsWellFormed r.store
      → IsWellFormed (route_point f clocks p s bs r).store
  unfolding route_point
  route_point-IsWellFormed p s [] r h = h
  route_point-IsWellFormed p s (b ∷ bs) r h = route_point-IsWellFormed p s bs _ (
      either-IsWellFormed (matches_attributes f p.attributes b.attributes)
        (add_received f clocks b.key s r) r (add-IsWellFormed (clocks r.adds) b.key s r.store h) h)

  process_value-IsWellFormed :
      (p : DataPoint V) (v : Option V) (at : Option Time) (bs : List Binding) (r : Received V)
      → IsWellFormed r.store
      → IsWellFormed (process_value f clocks p v at bs r).store
  process_value-IsWellFormed p none at bs r h = h
  process_value-IsWellFormed p (some v) none bs r h = h
  process_value-IsWellFormed p (some v) (some at) bs r h = route_point-IsWellFormed p _ bs r h

  process_points-IsWellFormed :
      (received : Time) (bs : List Binding) (ps : List (DataPoint V)) (r : Received V)
      → IsWellFormed r.store
      → IsWellFormed (process_points f clocks received bs ps r).store
  unfolding process_points
  process_points-IsWellFormed received bs [] r h = h
  process_points-IsWellFormed received bs (p ∷ ps) r h =
      process_points-IsWellFormed received bs ps _ (
        process_value-IsWellFormed p (extract_value p.value) (observed_at received p.time_unix_nano)
          bs r h)

  process_metrics-IsWellFormed :
      (bindings : Bindings) (received : Time) (ms : List (Metric V)) (r : Received V)
      → IsWellFormed r.store
      → IsWellFormed (process_metrics f clocks bindings received ms r).store
  unfolding process_metrics process_metric
  process_metrics-IsWellFormed bindings received [] r h = h
  process_metrics-IsWellFormed bindings received (m ∷ ms) r h =
      process_metrics-IsWellFormed bindings received ms _ (
        either-IsWellFormed (is_empty (or_no_bindings (lookup m.name bindings))) r _ h
          (process_points-IsWellFormed received _ _ r h))

  process_scopes-IsWellFormed :
      (bindings : Bindings) (received : Time) (scopes : List (List (Metric V))) (r : Received V)
      → IsWellFormed r.store
      → IsWellFormed (process_scopes f clocks bindings received scopes r).store
  unfolding process_scopes
  process_scopes-IsWellFormed bindings received [] r h = h
  process_scopes-IsWellFormed bindings received (ms ∷ scopes) r h =
      process_scopes-IsWellFormed bindings received scopes _
        (process_metrics-IsWellFormed bindings received ms r h)

  -- A well-formed store stays so under a request, whatever the request holds and whatever the clock
  -- reads at each call of `Add`.
  pub process_request-IsWellFormed :
      (bindings : Bindings) (received : Time) (resources : List (List (List (Metric V))))
      (r : Received V)
      → IsWellFormed r.store
      → IsWellFormed (process_request f clocks bindings received resources r).store
  unfolding process_request
  process_request-IsWellFormed bindings received [] r h = h
  process_request-IsWellFormed bindings received (scopes ∷ resources) r h =
      process_request-IsWellFormed bindings received resources _
        (process_scopes-IsWellFormed bindings received scopes r h)
