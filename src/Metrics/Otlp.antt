-- ===== src/Metrics/Otlp.antt =====
-- internal/metrics/otlp.go: how a request's data points reach the store. The transport is in
-- Otlp/Endpoint, the servers are in Otlp/Lifecycle.
-- A map of bindings is an association list, and the clock's readings at the calls of `Add` are the
-- sequence `clocks`.
pub mod Kept
pub mod Endpoint
pub mod Lifecycle
pub mod Routed
pub mod Delivered
pub mod Matched
use ninjascale.Prelude.{
  ℕ, zero, suc, ◌+◌, ◌*◌, ◌^◌, Bool, true, false, not, ◌&&◌, ◌||◌, Option, none, some, List, [],
  ◌∷◌, ◌++◌, String, str_eq, if◌then◌else◌, ltb, leb, ◌==◌, ℤ, pos, length, is_empty, all, any,
  lookup, insert, string_key,
}
use ninjascale.Time.{Time}
use ninjascale.Metrics.{Float, MetricKey, Sample, key_beq}
use ninjascale.Metrics.Store
use ninjascale.Metrics.Store.{MetricStore}

-- `strconv.FormatInt` and `strconv.FormatFloat` for attribute values.
pub record Formats (V : Type 0) : Type 0 where
  pub format_int : ℤ → String
  pub format_float : V → String

-- The messages of the protocol, as far as they are read.
pub data AnyValue (V : Type 0) : Type 0 where
  string_value : String → AnyValue V
  int_value : ℤ → AnyValue V
  bool_value : Bool → AnyValue V
  double_value : V → AnyValue V
  other_value : AnyValue V

pub data Number (V : Type 0) : Type 0 where
  as_double : V → Number V
  as_int : ℤ → Number V
  no_number : Number V

pub record DataPoint (V : Type 0) : Type 0 where
  pub attributes : List (String × AnyValue V)
  pub time_unix_nano : ℕ
  pub value : Number V

pub data MetricData (V : Type 0) : Type 0 where
  gauge : List (DataPoint V) → MetricData V
  sum : List (DataPoint V) → MetricData V
  other_data : MetricData V

pub record Metric (V : Type 0) : Type 0 where
  pub name : String
  pub contents : MetricData V

-- `otlpBinding`.
pub record Binding : Type 0 where
  pub key : MetricKey
  pub attributes : List (String × String)

abbrev pub Bindings : Type 0
Bindings = List (String × List Binding)

abbrev pub or_no_bindings : Option (List Binding) → List Binding
or_no_bindings none = []
or_no_bindings (some bs) = bs

abbrev pub has_entry : Option String → String → Bool
has_entry none want = false
has_entry (some v) want = str_eq v want

-- `maps.Equal`.
abbrev pub maps_equal : List (String × String) → List (String × String) → Bool
maps_equal a b = (length a == length b) && all (λ e. has_entry (lookup e.0 b) e.1) a

abbrev pub is_registered : MetricKey → List (String × String) → List Binding → Bool
is_registered key attributes =
    any (λ existing. key_beq existing.key key && maps_equal existing.attributes attributes)

unfoldable pub register_binding : String → MetricKey → List (String × String) → Bindings → Bindings
register_binding raw_name key attributes bindings =
    let known = or_no_bindings (lookup raw_name bindings) in
    if str_eq raw_name "" || str_eq key.name ""
    then bindings
    else if is_registered key attributes known
    then bindings
    else insert raw_name (known ++ (record { key = key; attributes = attributes } ∷ [])) bindings

-- 1970 in nanoseconds since the zero time.
abbrev pub unix_epoch : ℕ
unix_epoch = 62135596800 * 1000000000

-- `observedAt`; none for a time that is passed over.
abbrev pub observed_at : Time → ℕ → Option Time
observed_at received nanos =
    if nanos == 0
    then some received
    else if leb (2 ^ 63) nanos
    then none
    else some (pos (unix_epoch + nanos))

module _ {V : Type 0} where
  abbrev pub attribute_string : Formats V → AnyValue V → Option String
  attribute_string f (string_value s) = some s
  attribute_string f (int_value n) = some (f.format_int n)
  attribute_string f (bool_value true) = some "true"
  attribute_string f (bool_value false) = some "false"
  attribute_string f (double_value v) = some (f.format_float v)
  attribute_string f other_value = none

  -- The inner loop: the first attribute of the key decides.
  abbrev pub has_attribute : Formats V → String → String → List (String × AnyValue V) → Bool
  has_attribute f key want [] = false
  has_attribute f key want ((k, v) ∷ attributes) =
      let rest = has_attribute f key want attributes in
      if str_eq k key then has_entry (attribute_string f v) want else rest

  unfoldable pub matches_attributes :
      Formats V → List (String × AnyValue V) → List (String × String) → Bool
  matches_attributes f attributes = all (λ e. has_attribute f e.0 e.1 attributes)

  abbrev pub points_of : MetricData V → List (DataPoint V)
  points_of (gauge points) = points
  points_of (sum points) = points
  points_of other_data = []

-- The store, and how many calls of `Add` have read the clock.
pub record Received (V : Type 0) : Type 0 where
  pub store : MetricStore V
  pub adds : ℕ

module _ {V : Type 0} ⦃float : Float V⦄ where
  abbrev pub extract_value : Number V → Option V
  extract_value (as_double v) = some v
  extract_value (as_int n) = some (float.of_int n)
  extract_value no_number = none

  module _ (f : Formats V) (clocks : ℕ → Time) where
    -- `o.store.Add`.
    abbrev pub add_received : MetricKey → Sample V → Received V → Received V
    add_received key s r = record {
      store = (Store.add (clocks r.adds) key s r.store).0;
      adds = suc r.adds;
    }

    -- The loop over the bindings.
    unfoldable pub route_point : DataPoint V → Sample V → List Binding → Received V → Received V
    route_point point s [] r = r
    route_point point s (b ∷ bs) r =
        route_point point s bs
          (if matches_attributes f point.attributes b.attributes then add_received b.key s r else r)

    -- One round of the loop over the points.
    abbrev pub process_value :
        DataPoint V → Option V → Option Time → List Binding → Received V → Received V
    process_value point none at bindings r = r
    process_value point (some v) none bindings r = r
    process_value point (some v) (some at) bindings r =
        route_point point (record { value = v; observed_at = at }) bindings r

    unfoldable pub process_points :
        Time → List Binding → List (DataPoint V) → Received V → Received V
    process_points received bindings [] r = r
    process_points received bindings (p ∷ ps) r =
        process_points received bindings ps (
          process_value p (extract_value p.value) (observed_at received p.time_unix_nano) bindings
            r)

    -- `processMetric`.
    unfoldable pub process_metric : Bindings → Time → Metric V → Received V → Received V
    process_metric bindings received m r =
        let known = or_no_bindings (lookup m.name bindings) in
        if is_empty known then r else process_points received known (points_of m.contents) r

    -- `processRequest`: the metrics of all scopes of all resources, in order.
    unfoldable pub process_metrics : Bindings → Time → List (Metric V) → Received V → Received V
    process_metrics bindings received [] r = r
    process_metrics bindings received (m ∷ ms) r =
        process_metrics bindings received ms (process_metric bindings received m r)

    unfoldable pub process_scopes :
        Bindings → Time → List (List (Metric V)) → Received V → Received V
    process_scopes bindings received [] r = r
    process_scopes bindings received (ms ∷ scopes) r =
        process_scopes bindings received scopes (process_metrics bindings received ms r)

    unfoldable pub process_request :
        Bindings → Time → List (List (List (Metric V))) → Received V → Received V
    process_request bindings received [] r = r
    process_request bindings received (scopes ∷ resources) r =
        process_request bindings received resources (process_scopes bindings received scopes r)
