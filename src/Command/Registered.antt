-- ===== src/Command/Registered.antt =====
-- What `run` (cmd/ninjascale/main.go) has registered when the receiver of internal/metrics/otlp.go
-- begins to listen.
use ninjascale.Prelude.{
  Among, ◌≡◌, ◌≢◌, ◌⊎◌, inl, inr, refl, sym, true, ◌&&◌, ◌||◌, List, [], ◌∷◌, ◌++◌, String, str_eq,
  eq_iff, arith, Bool-cases, lookup, lookup-insert, string_key, ne_str,
}
use mathlib.Core.Path.{subst}
use ninjascale.Metrics.{MetricKey, key_beq, key_beq_iff}
use ninjascale.Metrics.Otlp.{
  Binding, Bindings, or_no_bindings, maps_equal, is_registered, register_binding,
}
use ninjascale.Service.{MetricBinding, Service}
use ninjascale.Command.{register_metric, register_metrics, register_services}

module _ (key : MetricKey) (attributes : List (String × String)) where
  -- A binding to the key with these attributes: the same list, or an equal map.
  abbrev pub Serves : Binding → Type 0
  Serves b =
      (b.key ≡ key) × ((b.attributes ≡ attributes) ⊎ (maps_equal b.attributes attributes ≡ true))

  abbrev pub HasServing : List Binding → Type 0
  HasServing [] = ⊥
  HasServing (b ∷ bs) = Serves b ⊎ HasServing bs

  -- The raw name leads to the key.
  abbrev pub Leads : String → Bindings → Type 0
  Leads raw_name bindings = HasServing (or_no_bindings (lookup raw_name bindings))

  HasServing-append : (bs cs : List Binding) → HasServing bs → HasServing (bs ++ cs)
  HasServing-append [] cs h = absurd h
  HasServing-append (b ∷ bs) cs (inl h) = inl h
  HasServing-append (b ∷ bs) cs (inr h) = inr (HasServing-append bs cs h)

  HasServing-last : (bs : List Binding) (b : Binding) → Serves b → HasServing (bs ++ (b ∷ []))
  HasServing-last [] b h = inl h
  HasServing-last (c ∷ bs) b h = inr (HasServing-last bs b h)

  is_registered-HasServing :
      (bs : List Binding) → is_registered key attributes bs ≡ true → HasServing bs
  is_registered-HasServing [] h = cc
  is_registered-HasServing (b ∷ bs) h =
      elim (Bool-cases (key_beq b.key key && maps_equal b.attributes attributes)) [
        | inl e ↦ inl (
            let k : key_beq b.key key ≡ true = ground arith in
            let a : maps_equal b.attributes attributes ≡ true = ground arith in
            ((key_beq_iff b.key key).0 k, inr a))
        | inr e ↦ inr (is_registered-HasServing bs (ground arith))
      ]

  -- What leads to the key goes on to do so when another binding is registered.
  register_binding-Leads :
      (raw_name other : String) (key' : MetricKey) (attributes' : List (String × String))
      (bindings : Bindings)
      → Leads raw_name bindings
      → Leads raw_name (register_binding other key' attributes' bindings)
  unfolding register_binding
  register_binding-Leads raw_name other key' attributes' bindings h =
      elim (Bool-cases (str_eq other "" || str_eq key'.name "")) [
        | inl e ↦ rw e h
        | inr e ↦
            elim (Bool-cases
              (is_registered key' attributes' (or_no_bindings (lookup other bindings)))) [
                | inl f ↦ rw (e, f) h
                | inr f ↦
                    rw
                      (
                        e,
                        f,
                        lookup-insert other raw_name
                            (or_no_bindings (lookup other bindings)
                              ++ (record { key = key'; attributes = attributes' } ∷ []))
                            bindings,
                      )
                      (elim (Bool-cases (str_eq other raw_name)) [
                        | inl g ↦ rw g (
                            HasServing-append _ _
                              (subst (λ n. Leads n bindings) (sym ((eq_iff other raw_name).0 g)) h))
                        | inr g ↦ rw g h
                      ])
              ]
      ]

  register_binding-Leads_self :
      (raw_name : String) (bindings : Bindings)
      → raw_name ≢ ""
      → key.name ≢ ""
      → Leads raw_name (register_binding raw_name key attributes bindings)
  unfolding register_binding
  register_binding-Leads_self raw_name bindings named local =
      let known : List Binding = or_no_bindings (lookup raw_name bindings) in
      let b : Binding = record { key = key; attributes = attributes } in
      elim (Bool-cases (is_registered key attributes known)) [
        | inl f ↦
            rw (ne_str raw_name "" named, ne_str key.name "" local, f)
              (is_registered-HasServing known f)
        | inr f ↦
            rw
              (
                ne_str raw_name "" named,
                ne_str key.name "" local,
                f,
                lookup-insert raw_name raw_name (known ++ (b ∷ [])) bindings,
                (eq_iff raw_name raw_name).1 refl,
              )
              (HasServing-last known b (refl, inl refl))
      ]

abbrev key_of : String → MetricBinding → MetricKey
key_of service b = record { service = service; name = b.name }

module _ (key : MetricKey) (attributes : List (String × String)) (raw_name : String) where
  register_metric-Leads :
      (service : String) (b : MetricBinding) (bindings : Bindings)
      → Leads key attributes raw_name bindings
      → Leads key attributes raw_name (register_metric service b bindings)
  register_metric-Leads service b bindings h = elim (Bool-cases (str_eq b.source "otlp")) [
    | inl e ↦ rw e (
        register_binding-Leads key attributes raw_name b.metric (key_of service b) b.attributes
          bindings h)
    | inr e ↦ rw e h
  ]

  register_metrics-Leads :
      (service : String) (bs : List MetricBinding) (bindings : Bindings)
      → Leads key attributes raw_name bindings
      → Leads key attributes raw_name (register_metrics service bs bindings)
  unfolding register_metrics
  register_metrics-Leads service [] bindings h = h
  register_metrics-Leads service (b ∷ bs) bindings h =
      register_metrics-Leads service bs _ (register_metric-Leads service b bindings h)

  register_services-Leads :
      {V P : Type 0} (svcs : List (Service V P)) (bindings : Bindings)
      → Leads key attributes raw_name bindings
      → Leads key attributes raw_name (register_services svcs bindings)
  unfolding register_services
  register_services-Leads [] bindings h = h
  register_services-Leads (svc ∷ svcs) bindings h =
      register_services-Leads svcs _ (register_metrics-Leads svc.name svc.metrics bindings h)

-- A binding of OTLP that names its raw name and itself.
pub record IsOtlp (b : MetricBinding) : Type 0 where
  pub source : b.source ≡ "otlp"
  pub raw : b.metric ≢ ""
  pub local : b.name ≢ ""

register_metrics-Leads_own :
    (service : String) (bs : List MetricBinding) (bindings : Bindings) (b : MetricBinding)
    → Among b bs
    → IsOtlp b
    → Leads (key_of service b) b.attributes b.metric (register_metrics service bs bindings)
unfolding register_metrics
register_metrics-Leads_own service [] bindings b i o = absurd i
register_metrics-Leads_own service (c ∷ bs) bindings b (inl same) o =
    register_metrics-Leads (key_of service b) b.attributes b.metric service bs _ (
      subst
        (λ x. Leads (key_of service b) b.attributes b.metric (register_metric service x bindings))
        (sym same)
        (rw ((eq_iff b.source "otlp").1 o.source) (
          register_binding-Leads_self (key_of service b) b.attributes b.metric bindings o.raw
            o.local)))
register_metrics-Leads_own service (c ∷ bs) bindings b (inr i) o =
    register_metrics-Leads_own service bs _ b i o

-- Every OTLP binding of every service is registered, under its raw name and with its attributes,
-- whatever is registered before and after it.
pub register_services_lem :
    {V P : Type 0} (svcs : List (Service V P)) (bindings : Bindings) (svc : Service V P)
    (b : MetricBinding)
    → Among svc svcs
    → Among b svc.metrics
    → IsOtlp b
    → Leads
        (record { service = svc.name; name = b.name })
        b.attributes
        b.metric
        (register_services svcs bindings)
unfolding register_services
register_services_lem [] bindings svc b i j o = absurd i
register_services_lem (s ∷ svcs) bindings svc b (inl same) j o =
    register_services-Leads (key_of svc.name b) b.attributes b.metric svcs _ (
      subst
        (λ x.
          Leads (key_of svc.name b) b.attributes b.metric
            (register_metrics x.name x.metrics bindings))
        (sym same) (register_metrics-Leads_own svc.name svc.metrics bindings b j o))
register_services_lem (s ∷ svcs) bindings svc b (inr i) j o =
    register_services_lem svcs _ svc b i j o
