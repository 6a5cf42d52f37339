-- ===== src/Config/Validate/Fields.antt =====
-- What the checks of single fields and of the sources in `validate` (internal/config/config.go) let
-- through.
use ninjascale.Prelude.{
  ℕ, suc, ◌≡◌, ◌≢◌, ◌⊎◌, inl, inr, refl, sym, ap, ◌∙◌, false, true, not, ◌||◌, Option, some, List,
  [], ◌∷◌, map, String, str_eq, eq_iff, arith, ℤ, pos, ◌≤ℤ◌, ltb_ℤ, is_empty, is_in, Distinct,
  IsFresh, Distinct-cons, is_in-In, In-is_in, str_ne, All,
}
use ninjascale.Prelude.Result.{
  ok, reject_if, or_err, within, >>-ok, >>=-ok, reject_if-ok, within-ok, or_err-ok,
}
use ninjascale.Metrics.{Float}
use ninjascale.Policy.Target.{ExprLang}
use ninjascale.Schedule.{TimeZones}
use ninjascale.Config.{MetricBindingConfig, PrometheusConfig, AdapterConfig, ServiceConfig, Config}
use ninjascale.Config.Bindings.Accepted.{IsBinding, otlp, prometheus, names_of}
use ninjascale.Config.Calendar.Accepted.{IsCalendar, not-false}
use ninjascale.Config.Thresholds.Accepted.{IsPolicy}
use ninjascale.Config.Validate.{
  validate_ecs, validate_adapter, validate_source, validate_sources, validate_fields,
}

-- Counts that are there, not negative and in order.
abbrev pub IsCounted : Option ℤ → Option ℤ → Type 0
IsCounted low high =
    (min : ℤ) × (max : ℤ) × (low ≡ some min) × (high ≡ some max) × (pos 0 ≤ℤ min) × (min ≤ℤ max)

-- An adapter that `New` of internal/adapter knows.
abbrev pub IsAdapter : AdapterConfig → Type 0
IsAdapter a = (a.kind ≡ "memory") ⊎ ((a.kind ≡ "ecs") × (a.ecs.region ≢ "") × (a.ecs.cluster ≢ ""))

-- A source with a name and an address.
abbrev pub IsSource : PrometheusConfig → Type 0
IsSource p = (p.name ≢ "") × (p.address ≢ "")

abbrev pub source_names : List PrometheusConfig → List String
source_names = map (λ p. p.name)

abbrev pub service_names : {V : Type 0} → List (ServiceConfig V) → List String
service_names = map (λ s. s.name)

-- A service with a name, counts in order, bindings that lead somewhere, a schedule that can be
-- read, and policies over its own bindings.
pub record IsService {V : Type 0} (P : Type 0) ⦃float : Float V⦄ ⦃expr : ExprLang V P⦄
    (zones : TimeZones) (sources : List String) (svc : ServiceConfig V) : Type 0 where
  pub named : svc.name ≢ ""
  pub identified : svc.identifier ≢ ""
  pub inhabited : svc.policies ≢ []
  pub counted : IsCounted svc.min_count svc.max_count
  pub local_names : Distinct (names_of svc.metrics)
  pub bound : All (IsBinding sources) svc.metrics
  pub scheduled : IsCalendar zones svc.schedule
  pub decided : All (IsPolicy P (names_of svc.metrics)) svc.policies

pub record IsConfig {V : Type 0} (P : Type 0) ⦃float : Float V⦄ ⦃expr : ExprLang V P⦄
    (zones : TimeZones) (cfg : Config V) : Type 0 where
  pub adapted : IsAdapter cfg.adapter
  pub inhabited : cfg.services ≢ []
  pub located : All IsSource cfg.metrics.prometheus
  pub sourced : Distinct (source_names cfg.metrics.prometheus)
  pub unique : Distinct (service_names cfg.services)
  pub served : All (IsService P zones (source_names cfg.metrics.prometheus)) cfg.services

pub not_empty {ℓ} : {A : Type ℓ} (xs : List A) → is_empty xs ≡ false → xs ≢ []
not_empty [] h e = cc
not_empty (x ∷ xs) h e = cc

pub not_nil {ℓ} : {A : Type ℓ} (xs : List A) → xs ≢ [] → is_empty xs ≡ false
not_nil [] h = absurd (h refl)
not_nil (x ∷ xs) h = refl

pub validate_adapter_lem : (a : AdapterConfig) → validate_adapter a ≡ ok tt → IsAdapter a
unfolding validate_adapter validate_ecs
validate_adapter_lem a h =
    let (named, h1) = >>-ok (reject_if (str_eq a.kind "") _) _ h in
    let (known, h2) = >>-ok (reject_if (not (is_in a.kind ("ecs" ∷ "memory" ∷ []))) _) _ h1 in
    elim (is_in-In a.kind ("ecs" ∷ "memory" ∷ []) (not-false _ (reject_if-ok _ _ known))) [
      | inl e ↦
          let t : str_eq a.kind "ecs" ≡ true = (eq_iff a.kind "ecs").1 (sym e) in
          let (region, cluster) = >>-ok (reject_if (str_eq a.ecs.region "") _) _ (rw t at h2) in
          inr (sym e, str_ne _ _ (reject_if-ok _ _ region), str_ne _ _ (reject_if-ok _ _ cluster))
      | inr (inl e) ↦ inl (sym e)
      | inr (inr e) ↦ absurd e
    ]

pub validate_sources_lem :
    (seen : List String) (i : ℕ) (ps : List PrometheusConfig) (set : List String)
    → validate_sources seen i ps ≡ ok set
    → IsFresh seen (source_names ps)
      × Distinct (source_names ps)
      × All IsSource ps
      × ((x : String) → is_in x set ≡ (is_in x (source_names ps) || is_in x seen))
unfolding validate_sources validate_source
validate_sources_lem seen i [] set h =
    let same : seen ≡ set = cc in (tt, tt, tt, λ x. ap (is_in x) (sym same))
validate_sources_lem seen i (p ∷ ps) set h =
    let (one, more) = >>-ok (within _ (validate_source seen p)) _ h in
    let (a, h1) = >>-ok (reject_if (str_eq p.name "") _) _ (within-ok _ _ one) in
    let (b, h2) = >>-ok (reject_if (str_eq p.address "") _) _ h1 in
    let (fresh, distinct, located, set_eq) =
      validate_sources_lem (p.name ∷ seen) (suc i) ps set more in
    let names = Distinct-cons p.name seen (source_names ps) (reject_if-ok _ _ h2) fresh distinct in
    let source : IsSource p = (str_ne _ _ (reject_if-ok _ _ a), str_ne _ _ (reject_if-ok _ _ b)) in
    (names.0, names.1, (source, located), λ x. ground (arith, set_eq x))

pub validate_fields_lem :
    {V : Type 0} (seen : List String) (svc : ServiceConfig V)
    → validate_fields seen svc ≡ ok tt
    → (is_in svc.name seen ≡ false)
      × (svc.name ≢ "")
      × (svc.identifier ≢ "")
      × (svc.policies ≢ [])
      × IsCounted svc.min_count svc.max_count
unfolding validate_fields
validate_fields_lem seen svc h =
    let (a, h1) = >>-ok (reject_if (str_eq svc.name "") _) _ h in
    let (b, h2) = >>-ok (reject_if (is_in svc.name seen) _) _ h1 in
    let (c, h3) = >>-ok (reject_if (str_eq svc.identifier "") _) _ h2 in
    let (d, h4) = >>-ok (reject_if (is_empty svc.policies) _) _ h3 in
    let (min, e, h5) = >>=-ok (or_err svc.min_count _) _ h4 in
    let (f, h6) = >>-ok (reject_if (ltb_ℤ min (pos 0)) _) _ h5 in
    let (max, g, k) = >>=-ok (or_err svc.max_count _) _ h6 in
    let low = reject_if-ok _ _ f in
    let high = reject_if-ok _ _ k in
    (
      reject_if-ok _ _ b,
      str_ne _ _ (reject_if-ok _ _ a),
      str_ne _ _ (reject_if-ok _ _ c),
      not_empty svc.policies (reject_if-ok _ _ d),
      (min, max, or_err-ok _ _ e, or_err-ok _ _ g, ground arith, ground arith),
    )

-- A set with the same names routes the same bindings.
pub IsBinding-known :
    (sources known : List String) (m : MetricBindingConfig)
    → ((x : String) → is_in x sources ≡ is_in x known)
    → IsBinding sources m
    → IsBinding known m
IsBinding-known sources known m same (named, otlp a b c) = (named, otlp a b c)
IsBinding-known sources known m same (named, prometheus name a ne i c d) = (
  named,
  prometheus name a ne (is_in-In name known (sym (same name) ∙ In-is_in name sources i)) c d,
)
