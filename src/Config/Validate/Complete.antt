-- ===== src/Config/Validate/Complete.antt =====
-- `validate` (internal/config/config.go) lets every configuration through whose parts fit together, so
-- that it decides whether they do.
use ninjascale.Prelude.{
  ℕ, suc, ◌≡◌, ◌↔◌, ◌≢◌, inl, inr, refl, sym, false, List, [], ◌∷◌, String, arith, pos, ltb_ℤ,
  is_in, Distinct, IsFresh, IsFresh-nil, IsFresh-cons, ne_str, All, All-map,
}
use ninjascale.Prelude.Result.{ok}
use ninjascale.Metrics.{Float}
use ninjascale.Policy.Target.{ExprLang}
use ninjascale.Schedule.{TimeZones}
use ninjascale.Config.{PrometheusConfig, AdapterConfig, PolicyConfig, ServiceConfig, Config}
use ninjascale.Config.Bindings.Accepted.{IsBinding, names_of, validate_bindings_lem}
use ninjascale.Config.Bindings.Complete.{IsBinding-validate_bindings}
use ninjascale.Config.Calendar.Complete.{IsCalendar-validate_calendar}
use ninjascale.Config.Thresholds.Accepted.{IsPolicy}
use ninjascale.Config.Thresholds.Complete.{IsPolicy-validate_policy}
use ninjascale.Config.Validate.{
  validate_ecs, validate_adapter, validate_source, validate_sources, validate_policies,
  validate_fields, validate_service, validate_services, validate,
}
use ninjascale.Config.Validate.Fields.{
  IsCounted, IsAdapter, IsSource, source_names, service_names, IsService, IsConfig, IsBinding-known,
  not_nil, validate_sources_lem,
}
use ninjascale.Config.Validate.Accepted.{validate-IsConfig}

IsAdapter-validate_adapter : (a : AdapterConfig) → IsAdapter a → validate_adapter a ≡ ok tt
unfolding validate_adapter validate_ecs
IsAdapter-validate_adapter a (inl memory) = rw memory refl
IsAdapter-validate_adapter a (inr (ecs, region, cluster)) =
    rw (ecs, ne_str a.ecs.region "" region, ne_str a.ecs.cluster "" cluster) refl

IsSource-validate_sources :
    (seen : List String) (i : ℕ) (ps : List PrometheusConfig)
    → IsFresh seen (source_names ps)
    → Distinct (source_names ps)
    → All IsSource ps
    → (set : List String) × (validate_sources seen i ps ≡ ok set)
unfolding validate_sources validate_source
IsSource-validate_sources seen i [] fresh distinct h = (seen, refl)
IsSource-validate_sources seen i (p ∷ ps) fresh distinct h =
    let (set, e) =
      IsSource-validate_sources (p.name ∷ seen) (suc i) ps
        (IsFresh-cons p.name seen (source_names ps) fresh.1 distinct.0) distinct.1 h.1 in
    (set, rw (ne_str p.name "" h.0.0, ne_str p.address "" h.0.1, fresh.0) e)

IsCounted-validate_fields :
    {V : Type 0} (seen : List String) (svc : ServiceConfig V)
    → is_in svc.name seen ≡ false
    → svc.name ≢ ""
    → svc.identifier ≢ ""
    → svc.policies ≢ []
    → IsCounted svc.min_count svc.max_count
    → validate_fields seen svc ≡ ok tt
unfolding validate_fields
IsCounted-validate_fields seen svc fresh named identified inhabited (min, max, e, f, low, order) =
    let p : ltb_ℤ min (pos 0) ≡ false = ground arith in
    let q : ltb_ℤ max min ≡ false = ground arith in
    rw
      (
        ne_str svc.name "" named,
        fresh,
        ne_str svc.identifier "" identified,
        not_nil svc.policies inhabited,
        e,
        f,
        p,
        q,
      )
      refl

module _ {V : Type 0} (P : Type 0) ⦃float : Float V⦄ ⦃expr : ExprLang V P⦄ where
  IsPolicy-validate_policies :
      (metrics names : List String) (j : ℕ) (ps : List (PolicyConfig V))
      → ((x : String) → is_in x metrics ≡ is_in x names)
      → All (IsPolicy P names) ps
      → validate_policies P metrics names j ps ≡ ok tt
  unfolding validate_policies
  IsPolicy-validate_policies metrics names j [] same h = refl
  IsPolicy-validate_policies metrics names j (p ∷ ps) same h =
      rw (IsPolicy-validate_policy P metrics names p same h.0)
        (IsPolicy-validate_policies metrics names (suc j) ps same h.1)

  IsService-validate_service :
      (zones : TimeZones) (sources known seen : List String) (svc : ServiceConfig V)
      → ((x : String) → is_in x sources ≡ is_in x known)
      → is_in svc.name seen ≡ false
      → IsService P zones known svc
      → validate_service P zones sources seen svc ≡ ok tt
  unfolding validate_service
  IsService-validate_service zones sources known seen svc same fresh s =
      let bound : All (IsBinding sources) svc.metrics =
        All-map _ _ svc.metrics (λ m k. IsBinding-known known sources m (λ x. sym (same x)) k)
          s.bound in
      let (set, e) =
        IsBinding-validate_bindings sources [] 0 svc.metrics (IsFresh-nil (names_of svc.metrics))
          s.local_names bound in
      let (a, b, c, set_eq) = validate_bindings_lem sources [] 0 svc.metrics set e in
      rw
        (
          IsCounted-validate_fields seen svc fresh s.named s.identified s.inhabited s.counted,
          e,
          IsCalendar-validate_calendar zones svc.schedule s.scheduled,
        )
        (IsPolicy-validate_policies set (names_of svc.metrics) 0 svc.policies
          (λ x. ground (arith, set_eq x)) s.decided)

  IsService-validate_services :
      (zones : TimeZones) (sources known seen : List String) (i : ℕ) (svcs : List (ServiceConfig V))
      → ((x : String) → is_in x sources ≡ is_in x known)
      → IsFresh seen (service_names svcs)
      → Distinct (service_names svcs)
      → All (IsService P zones known) svcs
      → validate_services P zones sources seen i svcs ≡ ok tt
  unfolding validate_services
  IsService-validate_services zones sources known seen i [] same fresh distinct h = refl
  IsService-validate_services zones sources known seen i (svc ∷ svcs) same fresh distinct h =
      rw (IsService-validate_service zones sources known seen svc same fresh.0 h.0) (
        IsService-validate_services zones sources known (svc.name ∷ seen) (suc i) svcs same
          (IsFresh-cons svc.name seen (service_names svcs) fresh.1 distinct.0) distinct.1 h.1)

  IsConfig-validate :
      (zones : TimeZones) (cfg : Config V) → IsConfig P zones cfg → validate P zones cfg ≡ ok tt
  unfolding validate
  IsConfig-validate zones cfg c =
      let names : List String = source_names cfg.metrics.prometheus in
      let (set, e) =
        IsSource-validate_sources [] 0 cfg.metrics.prometheus (IsFresh-nil names) c.sourced
          c.located in
      let (a, b, d, set_eq) = validate_sources_lem [] 0 cfg.metrics.prometheus set e in
      rw (IsAdapter-validate_adapter cfg.adapter c.adapted, not_nil cfg.services c.inhabited, e)
        (IsService-validate_services zones set names [] 0 cfg.services
          (λ x. ground (arith, set_eq x)) (IsFresh-nil (service_names cfg.services)) c.unique
          c.served)

  -- `validate` accepts exactly the configurations whose parts fit together: an adapter that is
  -- known, with a region and a cluster on ECS; at least one service; services, sources and the
  -- bindings of a service with names of their own; sources with addresses; services with an
  -- identifier, policies and counts that are there and in order; bindings that lead to a raw name
  -- or a configured source; schedules that can be read; windows of whole buckets over the service's
  -- own metrics; and expressions that compile.
  pub validate_lem :
      (zones : TimeZones) (cfg : Config V) → (validate P zones cfg ≡ ok tt) ↔ IsConfig P zones cfg
  validate_lem zones cfg = (validate-IsConfig P zones cfg, IsConfig-validate zones cfg)
