-- ===== src/Command/Only.antt =====
-- That the receiver routes nothing but what the configuration says (cmd/ninjascale/main.go, with
-- RegisterBinding of internal/metrics/otlp.go).
use ninjascale.Prelude.{
  Among, ◌≡◌, ◌⊎◌, inl, inr, refl, sym, ◌||◌, List, [], ◌∷◌, ◌++◌, String, str_eq, eq_iff,
  Bool-cases, lookup, lookup-insert, string_key,
}
use mathlib.Core.Path.{subst}
use ninjascale.Metrics.{MetricKey}
use ninjascale.Metrics.Otlp.{Binding, Bindings, or_no_bindings, is_registered, register_binding}
use ninjascale.Service.{MetricBinding, Service}
use ninjascale.Command.{register_metric, register_metrics, register_services}

-- The binding is registered under the raw name.
abbrev pub IsKnown : String → Binding → Bindings → Type 0
IsKnown raw_name b bindings = Among b (or_no_bindings (lookup raw_name bindings))

-- The registered binding comes from the OTLP binding `m` of a service of that name.
pub record IsFrom (raw_name service : String) (b : Binding) (m : MetricBinding) : Type 0 where
  pub source : m.source ≡ "otlp"
  pub raw : m.metric ≡ raw_name
  pub registered :
      b ≡ record { key = record { service = service; name = m.name }; attributes = m.attributes }

Among-last :
    {A : Type 0} (a x : A) (as' : List A) → Among a (as' ++ (x ∷ [])) → Among a as' ⊎ (x ≡ a)
Among-last a x [] (inl e) = inr e
Among-last a x [] (inr h) = absurd h
Among-last a x (b ∷ bs) (inl e) = inl (inl e)
Among-last a x (b ∷ bs) (inr i) = elim (Among-last a x bs i) [ inl j ↦ inl (inr j) | inr e ↦ inr e ]

module _ (raw_name : String) (b : Binding) where
  register_binding-IsKnown :
      (other : String) (key : MetricKey) (attributes : List (String × String)) (bindings : Bindings)
      → IsKnown raw_name b (register_binding other key attributes bindings)
      → IsKnown raw_name b bindings
        ⊎ ((other ≡ raw_name) × (b ≡ record { key = key; attributes = attributes }))
  unfolding register_binding
  register_binding-IsKnown other key attributes bindings h =
      let known : List Binding = or_no_bindings (lookup other bindings) in
      let new : Binding = record { key = key; attributes = attributes } in
      elim (Bool-cases (str_eq other "" || str_eq key.name "")) [
        | inl e ↦ inl (rw e at h)
        | inr e ↦ elim (Bool-cases (is_registered key attributes known)) [
          | inl f ↦ inl (rw (e, f) at h)
          | inr f ↦
              let h' =
                rw (e, f, lookup-insert other raw_name (known ++ (new ∷ [])) bindings) at h in
              elim (Bool-cases (str_eq other raw_name)) [
                | inl g ↦
                    let same = (eq_iff other raw_name).0 g in
                    elim (Among-last b new known (rw g at h')) [
                      | inl i ↦ inl (subst (λ n. IsKnown n b bindings) same i)
                      | inr n ↦ inr (same, sym n)
                    ]
                | inr g ↦ inl (rw g at h')
              ]
        ]
      ]

  register_metrics-IsFrom :
      (service : String) (ms : List MetricBinding) (bindings : Bindings)
      → IsKnown raw_name b (register_metrics service ms bindings)
      → IsKnown raw_name b bindings
        ⊎ ((m : MetricBinding) × Among m ms × IsFrom raw_name service b m)
  unfolding register_metrics
  register_metrics-IsFrom service [] bindings h = inl h
  register_metrics-IsFrom service (m ∷ ms) bindings h =
      elim (register_metrics-IsFrom service ms (register_metric service m bindings) h) [
        | inr (n, i, from) ↦ inr (n, inr i, from)
        | inl k ↦ elim (Bool-cases (str_eq m.source "otlp")) [
          | inr e ↦ inl (rw e at k)
          | inl e ↦
              elim (register_binding-IsKnown m.metric (record { service = service; name = m.name })
                m.attributes bindings (rw e at k)) [
                  | inl j ↦ inl j
                  | inr (raw, new) ↦ inr (
                    m,
                    inl refl,
                    record { source = (eq_iff m.source "otlp").0 e; raw = raw; registered = new },
                  )
                ]
        ]
      ]

  register_services-IsKnown :
      {V P : Type 0} (svcs : List (Service V P)) (bindings : Bindings)
      → IsKnown raw_name b (register_services svcs bindings)
      → IsKnown raw_name b bindings
        ⊎ ((svc : Service V P) × (m : MetricBinding) × Among svc svcs
            × Among m svc.metrics
            × IsFrom raw_name svc.name b m)
  unfolding register_services
  register_services-IsKnown [] bindings h = inl h
  register_services-IsKnown (svc ∷ svcs) bindings h =
      elim (register_services-IsKnown svcs (register_metrics svc.name svc.metrics bindings) h) [
        | inr (s, m, i, j, from) ↦ inr (s, m, inr i, j, from)
        | inl k ↦ elim (register_metrics-IsFrom svc.name svc.metrics bindings k) [
          | inl j ↦ inl j
          | inr (m, j, from) ↦ inr (svc, m, inl refl, j, from)
        ]
      ]

  -- Whatever the receiver has registered at its start under a raw name comes from an OTLP binding
  -- of that raw name of one of the services: with its key and its attributes.
  pub register_services-IsFrom :
      {V P : Type 0} (svcs : List (Service V P))
      → IsKnown raw_name b (register_services svcs [])
      → (svc : Service V P) × (m : MetricBinding) × Among svc svcs
        × Among m svc.metrics
        × IsFrom raw_name svc.name b m
  unfolding lookup
  register_services-IsFrom svcs h = elim (register_services-IsKnown svcs [] h) [
    | inl k ↦ absurd k
    | inr from ↦ from
  ]
