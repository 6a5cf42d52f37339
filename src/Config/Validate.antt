-- ===== src/Config/Validate.antt =====
-- internal/config/config.go, `validate`: the whole configuration, over the checks of bindings,
-- schedules and policies. A pointer that is nil where the code follows it is the error `nil_pointer`.
pub mod Fields
pub mod Accepted
pub mod Complete
use ninjascale.Prelude.{
  ℕ, zero, suc, Bool, true, false, not, Option, none, some, List, [], ◌∷◌, map, String, str_eq,
  if◌then◌else◌, ℤ, pos, ltb_ℤ, is_empty, is_in,
}
use ninjascale.Prelude.Result.{Result, ok, err, reject_if, or_err, within, ◌>>=◌, ◌>>◌}
use ninjascale.Metrics.{Float}
use ninjascale.Policy.Target.{ExprLang}
use ninjascale.Schedule.{TimeZones}
use ninjascale.Config.{PrometheusConfig, AdapterConfig, PolicyConfig, ServiceConfig, Config}
use ninjascale.Config.Bindings.{BindingError, validate_bindings}
use ninjascale.Config.Calendar.{CalendarError, validate_calendar}
use ninjascale.Config.Thresholds.{PolicyError, validate_policy}

pub data ServiceError : Type 0 where
  name_required : ServiceError
  duplicate_name : String → ServiceError
  identifier_required : ServiceError
  policies_required : ServiceError
  nil_pointer : ServiceError
  negative_min : ServiceError
  min_above_max : (min max : ℤ) → ServiceError
  in_binding : ℕ × BindingError → ServiceError
  in_schedule : CalendarError → ServiceError
  in_policy : (index : ℕ) → PolicyError → ServiceError

pub data SourceError : Type 0 where
  source_name_required : SourceError
  address_required : SourceError
  duplicate_source : String → SourceError

pub data ConfigError : Type 0 where
  adapter_required : ConfigError
  unknown_adapter : String → ConfigError
  region_required : ConfigError
  cluster_required : ConfigError
  services_required : ConfigError
  in_source : (index : ℕ) → SourceError → ConfigError
  in_service : (index : ℕ) → ServiceError → ConfigError

unfoldable pub validate_ecs : AdapterConfig → Result ConfigError (Unit {0})
validate_ecs a = do
  reject_if (str_eq a.ecs.region "") region_required
  reject_if (str_eq a.ecs.cluster "") cluster_required

unfoldable pub validate_adapter : AdapterConfig → Result ConfigError (Unit {0})
validate_adapter a = do
  reject_if (str_eq a.kind "") adapter_required
  reject_if (not (is_in a.kind ("ecs" ∷ "memory" ∷ []))) (unknown_adapter a.kind)
  if str_eq a.kind "ecs" then validate_ecs a else ok tt

unfoldable pub validate_source : List String → PrometheusConfig → Result SourceError (Unit {0})
validate_source seen p = do
  reject_if (str_eq p.name "") source_name_required
  reject_if (str_eq p.address "") address_required
  reject_if (is_in p.name seen) (duplicate_source p.name)

-- The first loop; `seen` is `promSources`.
unfoldable pub validate_sources :
    List String → ℕ → List PrometheusConfig → Result ConfigError (List String)
validate_sources seen i [] = ok seen
validate_sources seen i (p ∷ ps) = do
  within (in_source i) (validate_source seen p)
  validate_sources (p.name ∷ seen) (suc i) ps

-- The checks of a service's own fields; `seen` is `serviceNames`.
unfoldable pub validate_fields :
    {V : Type 0} → List String → ServiceConfig V → Result ServiceError (Unit {0})
validate_fields seen svc = do
  reject_if (str_eq svc.name "") name_required
  reject_if (is_in svc.name seen) (duplicate_name svc.name)
  reject_if (str_eq svc.identifier "") identifier_required
  reject_if (is_empty svc.policies) policies_required
  min ← or_err svc.min_count nil_pointer
  reject_if (ltb_ℤ min (pos 0)) negative_min
  max ← or_err svc.max_count nil_pointer
  reject_if (ltb_ℤ max min) (min_above_max min max)

module _ {V : Type 0} (P : Type 0) ⦃float : Float V⦄ ⦃expr : ExprLang V P⦄ where
  -- The loop over the policies.
  unfoldable pub validate_policies :
      List String → List String → ℕ → List (PolicyConfig V) → Result ServiceError (Unit {0})
  validate_policies metrics names j [] = ok tt
  validate_policies metrics names j (p ∷ ps) = do
    within (in_policy j) (validate_policy P metrics names p)
    validate_policies metrics names (suc j) ps

  module _ (zones : TimeZones) (sources : List String) where
    -- One round of the loop over the services.
    unfoldable pub validate_service : List String → ServiceConfig V → Result ServiceError (Unit {0})
    validate_service seen svc = do
      validate_fields seen svc
      metrics ← within in_binding (validate_bindings sources [] 0 svc.metrics)
      within in_schedule (validate_calendar zones svc.schedule)
      validate_policies metrics (map (λ m. m.name) svc.metrics) 0 svc.policies

    unfoldable pub validate_services :
        List String → ℕ → List (ServiceConfig V) → Result ConfigError (Unit {0})
    validate_services seen i [] = ok tt
    validate_services seen i (svc ∷ svcs) = do
      within (in_service i) (validate_service seen svc)
      validate_services (svc.name ∷ seen) (suc i) svcs

  unfoldable pub validate : TimeZones → Config V → Result ConfigError (Unit {0})
  validate zones cfg = do
    validate_adapter cfg.adapter
    reject_if (is_empty cfg.services) services_required
    sources ← validate_sources [] 0 cfg.metrics.prometheus
    validate_services zones sources [] 0 cfg.services
