-- ===== src/Config/Validate/Accepted.antt =====
-- What an accepted configuration is (internal/config/config.go, `validate`).
use ninjascale.Prelude.{
  ℕ, suc, ◌≡◌, false, List, [], ◌∷◌, String, arith, is_empty, is_in, Distinct, IsFresh,
  Distinct-cons, All, All-map,
}
use ninjascale.Prelude.Result.{ok, reject_if, within, >>-ok, >>=-ok, reject_if-ok, within-ok}
use ninjascale.Metrics.{Float}
use ninjascale.Policy.Target.{ExprLang}
use ninjascale.Schedule.{TimeZones}
use ninjascale.Config.{PolicyConfig, ServiceConfig, Config}
use ninjascale.Config.Bindings.{validate_bindings}
use ninjascale.Config.Bindings.Accepted.{names_of, validate_bindings_lem}
use ninjascale.Config.Calendar.{validate_calendar}
use ninjascale.Config.Calendar.Accepted.{validate_calendar_lem}
use ninjascale.Config.Thresholds.{validate_policy}
use ninjascale.Config.Thresholds.Accepted.{IsPolicy, validate_policy_lem}
use ninjascale.Config.Validate.{
  validate_adapter, validate_sources, validate_policies, validate_fields, validate_service,
  validate_services, validate,
}
use ninjascale.Config.Validate.Fields.{
  source_names, service_names, IsService, IsConfig, not_empty, validate_adapter_lem,
  validate_sources_lem, validate_fields_lem, IsBinding-known,
}

module _ {V : Type 0} (P : Type 0) ⦃float : Float V⦄ ⦃expr : ExprLang V P⦄ where
  validate_policies_lem :
      (metrics names : List String) (j : ℕ) (ps : List (PolicyConfig V))
      → ((x : String) → is_in x metrics ≡ is_in x names)
      → validate_policies P metrics names j ps ≡ ok tt
      → All (IsPolicy P names) ps
  unfolding validate_policies
  validate_policies_lem metrics names j [] same h = tt
  validate_policies_lem metrics names j (p ∷ ps) same h =
      let (one, more) = >>-ok (within _ (validate_policy P metrics names p)) _ h in
      (
        validate_policy_lem P metrics names p same (within-ok _ _ one),
        validate_policies_lem metrics names (suc j) ps same more,
      )

  validate_service_lem :
      (zones : TimeZones) (sources known seen : List String) (svc : ServiceConfig V)
      → ((x : String) → is_in x sources ≡ is_in x known)
      → validate_service P zones sources seen svc ≡ ok tt
      → (is_in svc.name seen ≡ false) × IsService P zones known svc
  unfolding validate_service
  validate_service_lem zones sources known seen svc same h =
      let (fields, h1) = >>-ok (validate_fields seen svc) _ h in
      let (metrics, b, h2) = >>=-ok (within _ (validate_bindings sources [] 0 svc.metrics)) _ h1 in
      let (c, d) = >>-ok (within _ (validate_calendar zones svc.schedule)) _ h2 in
      let (new, named, identified, inhabited, counted) = validate_fields_lem seen svc fields in
      let (fresh, distinct, bound, set_eq) =
        validate_bindings_lem sources [] 0 svc.metrics metrics (within-ok _ _ b) in
      (
        new,
        record {
          named = named;
          identified = identified;
          inhabited = inhabited;
          counted = counted;
          local_names = distinct;
          bound = All-map _ _ svc.metrics (λ m k. IsBinding-known sources known m same k) bound;
          scheduled = validate_calendar_lem zones svc.schedule (within-ok _ _ c);
          decided =
              validate_policies_lem metrics (names_of svc.metrics) 0 svc.policies
                (λ x. ground (arith, set_eq x)) d;
        },
      )

  validate_services_lem :
      (zones : TimeZones) (sources known seen : List String) (i : ℕ) (svcs : List (ServiceConfig V))
      → ((x : String) → is_in x sources ≡ is_in x known)
      → validate_services P zones sources seen i svcs ≡ ok tt
      → IsFresh seen (service_names svcs)
        × Distinct (service_names svcs)
        × All (IsService P zones known) svcs
  unfolding validate_services
  validate_services_lem zones sources known seen i [] same h = (tt, tt, tt)
  validate_services_lem zones sources known seen i (svc ∷ svcs) same h =
      let (one, more) = >>-ok (within _ (validate_service P zones sources seen svc)) _ h in
      let (new, accepted) =
        validate_service_lem zones sources known seen svc same (within-ok _ _ one) in
      let (fresh, distinct, rest) =
        validate_services_lem zones sources known (svc.name ∷ seen) (suc i) svcs same more in
      let names = Distinct-cons svc.name seen (service_names svcs) new fresh distinct in
      (names.0, names.1, (accepted, rest))

  -- What `validate` accepts is a configuration whose parts fit together: an adapter that is known,
  -- services and sources with names of their own, counts in order, bindings that lead to a raw
  -- name or a configured source, schedules that can be read, windows of whole buckets over the
  -- service's own metrics, and expressions that compile.
  pub validate-IsConfig :
      (zones : TimeZones) (cfg : Config V) → validate P zones cfg ≡ ok tt → IsConfig P zones cfg
  unfolding validate
  validate-IsConfig zones cfg h =
      let (a, h1) = >>-ok (validate_adapter cfg.adapter) _ h in
      let (b, h2) = >>-ok (reject_if (is_empty cfg.services) _) _ h1 in
      let (sources, c, d) = >>=-ok (validate_sources [] 0 cfg.metrics.prometheus) _ h2 in
      let (fresh, distinct, located, set_eq) =
        validate_sources_lem [] 0 cfg.metrics.prometheus sources c in
      let (fresh', unique, served) =
        validate_services_lem zones sources (source_names cfg.metrics.prometheus) [] 0 cfg.services
          (λ x. ground (arith, set_eq x)) d in
      record {
        adapted = validate_adapter_lem cfg.adapter a;
        inhabited = not_empty cfg.services (reject_if-ok _ _ b);
        located = located;
        sourced = distinct;
        unique = unique;
        served = served;
      }
