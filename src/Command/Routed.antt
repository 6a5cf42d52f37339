-- ===== src/Command/Routed.antt =====
-- Which raw names lead to the services of a configuration once it has started
-- (cmd/ninjascale/main.go, with BuildServices of internal/config/config.go and RegisterBinding of
-- internal/metrics/otlp.go).
use ninjascale.Prelude.{
  Among, All, ◌≡◌, inl, inr, refl, sym, ap, ◌∙◌, Bool, true, not, ◌&&◌, some, List, [], ◌∷◌, map,
  String, str_eq, eq_iff,
}
use mathlib.Core.Path.{subst}
use ninjascale.Prelude.Result.{ok, or_err, reject_if, within, >>=-ok, >>-ok, within-ok, ok-eq}
use ninjascale.Metrics.{Float}
use ninjascale.Metrics.Otlp.{Bindings}
use ninjascale.Policy.Target.{ExprLang}
use ninjascale.Schedule.{TimeZones}
use ninjascale.Service.{Service}
use ninjascale.Adapter.Selection.{new_adapter}
use ninjascale.Config.{OtlpConfig, MetricBindingConfig, ServiceConfig, Config}
use ninjascale.Config.Bindings.Accepted.{IsBinding, otlp, prometheus}
use ninjascale.Config.Bindings.Complete.{not_otlp}
use ninjascale.Config.Build.{build_binding, build_policies, build_service, build_services}
use ninjascale.Config.Thresholds.{nil_pointer}
use ninjascale.Config.Load.Parsed.{IsLoaded}
use ninjascale.Command.{
  Environment, Running, source_failed, adapter_failed, build_failed, receiver_failed, open_sources,
  register_services, receiver_of, start_up,
}
use ninjascale.Command.Registered.{Leads, IsOtlp, register_services_lem}

All-Among : {A : Type 0} (Q : A → Type 0) (a : A) (as' : List A) → All Q as' → Among a as' → Q a
All-Among Q a [] h i = absurd i
All-Among Q a (b ∷ bs) h (inl e) = subst Q e h.0
All-Among Q a (b ∷ bs) h (inr i) = All-Among Q a bs h.1 i

Among-map :
    {A B : Type 0} (f : A → B) (a : A) (as' : List A) → Among a as' → Among (f a) (map f as')
Among-map f a [] i = absurd i
Among-map f a (b ∷ bs) (inl e) = inl (ap f e)
Among-map f a (b ∷ bs) (inr i) = inr (Among-map f a bs i)

-- An accepted binding of the source OTLP has a name and a raw name.
IsBinding-IsOtlp :
    (sources : List String) (m : MetricBindingConfig)
    → IsBinding sources m
    → m.source ≡ "otlp"
    → IsOtlp (build_binding m)
IsBinding-IsOtlp sources m (named, otlp source raw keys) e = record {
  source = source;
  raw = raw;
  local = named;
}
IsBinding-IsOtlp sources m (named, prometheus name a ne i c d) e =
    let is : str_eq m.source "otlp" ≡ true = (eq_iff m.source "otlp").1 e in
    let isnt = not_otlp m.source name a in absurd cc

receiver_of-enabled :
    {V P : Type 0} (o : OtlpConfig) (svcs : List (Service V P))
    → o.enabled ≡ true
    → receiver_of o svcs ≡ some (register_services svcs [])
receiver_of-enabled o svcs e = rw e refl

module _ {V : Type 0} (P : Type 0) ⦃float : Float V⦄ ⦃expr : ExprLang V P⦄ where
  build_service-names :
      (sc : ServiceConfig V) (svc : Service V P)
      → build_service P sc ≡ ok svc
      → (svc.name ≡ sc.name) × (svc.metrics ≡ map build_binding sc.metrics)
  unfolding build_service
  build_service-names sc svc h =
      let (min, a, h1) = >>=-ok (or_err sc.min_count nil_pointer) _ h in
      let (max, b, h2) = >>=-ok (or_err sc.max_count nil_pointer) _ h1 in
      let (cooldown, c, h3) = >>=-ok (or_err sc.cooldown nil_pointer) _ h2 in
      let (policies, d, e) =
        >>=-ok (build_policies P sc.name (map (λ m. m.name) sc.metrics) sc.policies) _ h3 in
      let same = ok-eq _ refl e in
      (sym (ap (λ (s : Service V P). s.name) same), sym (ap (λ (s : Service V P). s.metrics) same))

  -- Every configured service is among those that are built.
  build_services-Among :
      (scs : List (ServiceConfig V)) (svcs : List (Service V P)) (sc : ServiceConfig V)
      → build_services P scs ≡ ok svcs
      → Among sc scs
      → (svc : Service V P) × Among svc svcs
        × (svc.name ≡ sc.name)
        × (svc.metrics ≡ map build_binding sc.metrics)
  unfolding build_services
  build_services-Among [] svcs sc h i = absurd i
  build_services-Among (s ∷ scs) svcs sc h i =
      let (svc, a, h1) = >>=-ok (build_service P s) _ h in
      let (rest, b, e) = >>=-ok (build_services P scs) _ h1 in
      let same = ok-eq _ refl e in
      elim i [
        | inl q ↦
            let (named, bound) = build_service-names s svc a in
            (
              svc,
              subst (Among svc) same (inl refl),
              named ∙ ap (λ (x : ServiceConfig V). x.name) q,
              bound ∙ ap (λ (x : ServiceConfig V). map build_binding x.metrics) q,
            )
        | inr j ↦
            let (found, k, named, bound) = build_services-Among scs rest sc b j in
            (found, subst (Among found) same (inr k), named, bound)
      ]

  module _ {A : Type 0} (env : Environment V A) where
    start_up-receiver :
        (cfg : Config V) (r : Running V P A)
        → start_up P env cfg ≡ ok r
        → cfg.metrics.otlp.enabled ≡ true
        → (svcs : List (Service V P)) × (build_services P cfg.services ≡ ok svcs)
          × (r.receiver ≡ some (register_services svcs []))
    unfolding start_up
    start_up-receiver cfg r h enabled =
        let (sources, a, h1) =
          >>=-ok (within source_failed (open_sources env.prometheus cfg.metrics.prometheus [])) _
            h in
        let (adapter, b, h2) =
          >>=-ok (within adapter_failed (new_adapter env.aws cfg.adapter)) _ h1 in
        let (svcs, c, h3) = >>=-ok (within build_failed (build_services P cfg.services)) _ h2 in
        let stopped : Bool =
          cfg.metrics.otlp.enabled && not (env.listens cfg.metrics.otlp.grpc_port) in
        let (d, e) = >>-ok (reject_if stopped receiver_failed) _ h3 in
        (
          svcs,
          within-ok _ _ c,
          sym (ap (λ (x : Running V P A). x.receiver) (ok-eq _ refl e))
              ∙ receiver_of-enabled cfg.metrics.otlp svcs enabled,
        )

    -- With the receiver enabled, each OTLP binding of each service of a configuration that was
    -- loaded and started is registered before the receiver listens: its raw name leads to the key
    -- of the service and the binding's name, with the binding's attributes.
    pub start_up-Leads :
        (zones : TimeZones) (cfg : Config V) (r : Running V P A) (sc : ServiceConfig V)
        (m : MetricBindingConfig)
        → IsLoaded P zones cfg
        → start_up P env cfg ≡ ok r
        → cfg.metrics.otlp.enabled ≡ true
        → Among sc cfg.services
        → Among m sc.metrics
        → m.source ≡ "otlp"
        → (bindings : Bindings) × (r.receiver ≡ some bindings)
          × Leads (record { service = sc.name; name = m.name }) m.attributes m.metric bindings
    start_up-Leads zones cfg r sc m (accepted, filled) h enabled i j source =
        let (svcs, built, e) = start_up-receiver cfg r h enabled in
        let (svc, k, named, bound) = build_services-Among cfg.services svcs sc built i in
        let known =
          All-Among _ m sc.metrics (All-Among _ sc cfg.services accepted.served i).bound j in
        let leads =
          register_services_lem svcs [] svc (build_binding m) k
            (subst (Among (build_binding m)) (sym bound) (Among-map build_binding m sc.metrics j))
            (IsBinding-IsOtlp _ m known source) in
        (
          register_services svcs [],
          e,
          subst
              (λ n.
                Leads (record { service = n; name = m.name }) m.attributes m.metric
                  (register_services svcs []))
              named leads,
        )
