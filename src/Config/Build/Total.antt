-- ===== src/Config/Build/Total.antt =====
-- `BuildServices` (internal/config/config.go) on an accepted configuration with its defaults: it
-- neither fails nor panics, and what it builds is fit to run.
use mathlib.Core.Option
use ninjascale.Prelude.{
  ◌≡◌, refl, ◌∙◌, is_empty, false, true, Option, none, some, List, [], ◌∷◌, map, String, pos, ◌≤ℤ◌,
  All,
}
use ninjascale.Prelude.Result.{ok}
use ninjascale.Metrics.{Float}
use ninjascale.Metrics.Buckets.Gaps.{is_some}
use ninjascale.Policy.{Policy}
use ninjascale.Policy.Target.{ExprLang}
use ninjascale.Schedule.{TimeZones}
use ninjascale.Service.{Service}
use ninjascale.Config.{PolicyConfig, ServiceConfig}
use ninjascale.Config.Calendar.{build_schedule}
use ninjascale.Config.Defaults.{IsFilled}
use ninjascale.Config.Thresholds.Accepted.{IsPolicy}
use ninjascale.Config.Thresholds.Built.{PolicyFits, IsReady, build_policy-IsReady}
use ninjascale.Config.Described.{
  Pairs, IsBindingOf, IsScheduleOf, IsPolicyOf, bindings-IsBindingOf, build_schedule-IsScheduleOf,
}
use ninjascale.Config.Bindings.Accepted.{names_of}
use ninjascale.Config.Validate.Fields.{IsService, not_nil}
use ninjascale.Config.Build.{build_binding, build_policies, build_service, build_services}

-- A service that can run: counts in order, and policies of its own with whole windows.
pub record IsRunnable {V P : Type 0} (svc : Service V P) : Type 0 where
  pub low : pos 0 ≤ℤ svc.min_count
  pub in_order : svc.min_count ≤ℤ svc.max_count
  pub inhabited : is_empty svc.policies ≡ false
  pub ready : All (IsReady svc.name) svc.policies

abbrev pub ServiceFits : {V : Type 0} → ServiceConfig V → Type 0
ServiceFits sc = All PolicyFits sc.policies

-- The runtime service says what the configured one does, field by field and policy by policy.
pub record IsBuilt {V P : Type 0} ⦃float : Float V⦄ ⦃expr : ExprLang V P⦄ (sc : ServiceConfig V)
    (svc : Service V P) : Type 0 where
  pub name : svc.name ≡ sc.name
  pub identifier : svc.identifier ≡ sc.identifier
  pub min_count : sc.min_count ≡ some svc.min_count
  pub max_count : sc.max_count ≡ some svc.max_count
  pub cooldown : sc.cooldown ≡ some svc.cooldown
  pub metrics : Pairs IsBindingOf sc.metrics svc.metrics
  pub schedule : IsScheduleOf sc.schedule svc.schedule
  pub policies : Pairs (IsPolicyOf sc.name (names_of sc.metrics)) sc.policies svc.policies

-- A list of services beside the list that it was built from.
abbrev pub AreBuilt :
    {V P : Type 0}
    → ⦃float : Float V⦄ → ⦃expr : ExprLang V P⦄ → List (ServiceConfig V)
    → List (Service V P)
    → Type 0
AreBuilt [] [] = Unit
AreBuilt [] (svc ∷ svcs) = ⊥
AreBuilt (sc ∷ scs) [] = ⊥
AreBuilt (sc ∷ scs) (svc ∷ svcs) = (IsBuilt sc svc × IsRunnable svc) × AreBuilt scs svcs

is_some-some : {A : Type 0} (o : Option A) → is_some o ≡ true → (a : A) × (o ≡ some a)
is_some-some none h = cc
is_some-some (some a) h = (a, refl)

module _ {V : Type 0} (P : Type 0) ⦃float : Float V⦄ ⦃expr : ExprLang V P⦄ where
  build_policies-IsReady :
      (service : String) (names : List String) (ps : List (PolicyConfig V))
      → All (IsPolicy P names) ps
      → All PolicyFits ps
      → (qs : List (Policy V P)) × (build_policies P service names ps ≡ ok qs)
        × All (IsReady service) qs
        × Pairs (IsPolicyOf service names) ps qs
        × (is_empty qs ≡ is_empty ps)
  unfolding build_policies
  build_policies-IsReady service names [] h fits = ([], refl, tt, tt, refl)
  build_policies-IsReady service names (p ∷ ps) h fits =
      let (q, e, r, d) = build_policy-IsReady P service names p h.0 fits.0 in
      let (qs, es, rs, more, n) = build_policies-IsReady service names ps h.1 fits.1 in
      (q ∷ qs, rw (e, es) refl, (r, rs), (d, more), refl)

  build_service-IsRunnable :
      (zones : TimeZones) (sources : List String) (sc : ServiceConfig V)
      → IsService P zones sources sc
      → IsFilled sc
      → ServiceFits sc
      → (svc : Service V P) × (build_service P sc ≡ ok svc) × IsBuilt sc svc × IsRunnable svc
  unfolding build_service
  build_service-IsRunnable zones sources sc s filled fits =
      let (min, max, low, high, p, q) = s.counted in
      let (cooldown, c) = is_some-some sc.cooldown filled.2 in
      let (policies, built, ready, described, same) =
        build_policies-IsReady sc.name (names_of sc.metrics) sc.policies s.decided fits in
      (
        record {
          name = sc.name;
          identifier = sc.identifier;
          min_count = min;
          max_count = max;
          cooldown = cooldown;
          schedule = Option.map build_schedule sc.schedule;
          metrics = map build_binding sc.metrics;
          policies = policies;
        },
        rw (low, high, c, built) refl,
        record {
          name = refl;
          identifier = refl;
          min_count = low;
          max_count = high;
          cooldown = c;
          metrics = bindings-IsBindingOf sc.metrics;
          schedule = build_schedule-IsScheduleOf zones sc.schedule s.scheduled;
          policies = described;
        },
        record {
          low = p;
          in_order = q;
          inhabited = same ∙ not_nil sc.policies s.inhabited;
          ready = ready;
        },
      )

  -- An accepted configuration with its defaults, whose windows are durations of 64 bits, is built:
  -- no pointer is nil, every policy has a known type and every expression compiles. Each runtime
  -- service has the names, counts, cooldowns, bindings, schedule entries and policies of its
  -- configuration, field by field; its counts are in order, and its policies ask for windows of
  -- whole buckets.
  pub build_services-IsRunnable :
      (zones : TimeZones) (sources : List String) (scs : List (ServiceConfig V))
      → All (IsService P zones sources) scs
      → All IsFilled scs
      → All ServiceFits scs
      → (svcs : List (Service V P)) × (build_services P scs ≡ ok svcs) × AreBuilt scs svcs
  unfolding build_services
  build_services-IsRunnable zones sources [] s filled fits = ([], refl, tt)
  build_services-IsRunnable zones sources (sc ∷ scs) s filled fits =
      let (svc, e, b, r) = build_service-IsRunnable zones sources sc s.0 filled.0 fits.0 in
      let (svcs, es, rest) = build_services-IsRunnable zones sources scs s.1 filled.1 fits.1 in
      (svc ∷ svcs, rw (e, es) refl, ((b, r), rest))
