-- ===== src/Config/Bindings.antt =====
-- internal/config/config.go, `validate`: the metric bindings of a service.
pub mod Accepted
pub mod Complete
use ninjascale.Prelude.{
  ℕ, zero, suc, Bool, true, false, not, ◌||◌, Option, none, some, List, [], ◌∷◌, String, str_eq,
  any, is_empty, if◌then◌else◌, is_in, strip_prefix, is_blank,
}
use ninjascale.Prelude.Result.{Result, ok, err, reject_if, within, ◌>>=◌, ◌>>◌}
use ninjascale.Config.{MetricBindingConfig}

pub data BindingError : Type 0 where
  name_required : BindingError
  duplicate_name : String → BindingError
  metric_required : BindingError
  empty_attribute : BindingError
  unknown_source : String → BindingError
  query_required : BindingError
  attributes_unsupported : BindingError

-- The case of an OTLP source.
abbrev pub validate_otlp : MetricBindingConfig → Result BindingError (Unit {0})
validate_otlp m = do
  reject_if (str_eq m.metric "") metric_required
  reject_if (any (λ a. str_eq a.0 "") m.attributes) empty_attribute

-- The other cases, by what follows the prefix.
abbrev pub validate_prometheus :
    List String → MetricBindingConfig → Option String → Result BindingError (Unit {0})
validate_prometheus sources m none = err (unknown_source m.source)
validate_prometheus sources m (some name) = do
  reject_if (str_eq name "" || not (is_in name sources)) (unknown_source m.source)
  reject_if (is_blank m.query) query_required
  reject_if (not (is_empty m.attributes)) attributes_unsupported

unfoldable pub validate_source : List String → MetricBindingConfig → Result BindingError (Unit {0})
validate_source sources m =
    if str_eq m.source "otlp"
    then validate_otlp m
    else validate_prometheus sources m (strip_prefix "prometheus." m.source)

-- One round of the loop; `seen` is `metricSet`.
unfoldable pub validate_binding :
    List String → List String → MetricBindingConfig → Result BindingError (Unit {0})
validate_binding sources seen m = do
  reject_if (str_eq m.name "") name_required
  reject_if (is_in m.name seen) (duplicate_name m.name)
  validate_source sources m

-- The error has the binding's index. The result is `metricSet` after the loop.
unfoldable pub validate_bindings :
    List String
    → List String
    → ℕ
    → List MetricBindingConfig
    → Result (ℕ × BindingError) (List String)
validate_bindings sources seen j [] = ok seen
validate_bindings sources seen j (m ∷ ms) = do
  within (λ e. (j, e)) (validate_binding sources seen m)
  validate_bindings sources (m.name ∷ seen) (suc j) ms
