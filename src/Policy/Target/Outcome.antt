-- ===== src/Policy/Target/Outcome.antt =====
-- What a target policy's expression sees, and what becomes of its value (internal/policy/target.go,
-- `Evaluate`).
use mathlib.Core.Option
use ninjascale.Prelude.{
  ◌≡◌, refl, sym, ap, ◌∙◌, inl, inr, List, [], ◌∷◌, Option, none, some, String, str_eq, eq_iff,
  arith, if◌then◌else◌, ℤ, Bool-cases, Option-cases, any, lookup, insert, lookup-insert, string_key,
}
use ninjascale.Metrics.{Float, Sample}
use ninjascale.Metrics.Store.{Series, latest}
use ninjascale.Policy.Decision.{err, metric_missing}
use ninjascale.Policy.Target.{
  Env, ExprLang, TargetPolicy, bound, unbound, bind_metrics, decide, evaluate,
}

module _ {V : Type 0} where
  -- The latest value of a metric of the service.
  abbrev pub value_of : String → Series V → String → Option V
  value_of service series name =
      Option.map (λ s. s.value) (latest series (record { service = service; name = name }))

  abbrev first_or : String → Option (Sample V) → Option String → Option String
  first_or name none rest = some name
  first_or name (some sample) rest = rest

  -- The first name without a sample.
  abbrev pub first_missing : String → List String → Series V → Option String
  first_missing service [] series = none
  first_missing service (name ∷ names) series =
      first_or name (latest series (record { service = service; name = name }))
        (first_missing service names series)

  -- What a name reads as: its latest value if it is one of the metrics, else what `env` has.
  abbrev pub reading : String → List String → Series V → Env V → String → Option V
  reading service names series env x =
      if any (λ name. str_eq name x) names then value_of service series x else lookup x env

  bind_metrics-missing :
      (service : String) (names : List String) (series : Series V) (env : Env V) (name : String)
      → first_missing service names series ≡ some name
      → bind_metrics service names series env ≡ unbound name
  unfolding bind_metrics
  bind_metrics-missing service [] series env name h = cc
  bind_metrics-missing service (x ∷ names) series env name h =
      let rest : Option String = first_missing service names series in
      elim (Option-cases (latest series (record { service = service; name = x }))) [
        | inl e ↦
            let q : some x ≡ some name = sym (ap (λ o. first_or x o rest) e) ∙ h in
            rw (e, bind_metrics) cc
        | inr (s, e) ↦
            let q : rest ≡ some name = sym (ap (λ o. first_or x o rest) e) ∙ h in
            rw (e, bind_metrics) (bind_metrics-missing service names series _ name q)
      ]

  reading-insert :
      (service : String) (names : List String) (series : Series V) (env : Env V) (name : String)
      (s : Sample V) (x : String)
      → latest series (record { service = service; name = name }) ≡ some s
      → reading service names series (insert name s.value env) x
        ≡ reading service (name ∷ names) series env x
  reading-insert service names series env name s x e =
      rw (lookup-insert name x s.value env) (elim (Bool-cases (str_eq name x)) [
        | inl same ↦
            let q : value_of service series x ≡ some s.value =
              sym (ap (value_of service series) ((eq_iff name x).0 same))
              ∙ ap (Option.map (λ s. s.value)) e in
            ground (arith, q)
        | inr other ↦ ground arith
      ])

  bind_metrics-bound :
      (service : String) (names : List String) (series : Series V) (env : Env V)
      → first_missing service names series ≡ none
      → (env' : Env V) × ((x : String) → lookup x env' ≡ reading service names series env x)
        × (bind_metrics service names series env ≡ bound env')
  unfolding bind_metrics
  bind_metrics-bound service [] series env h = (env, λ x. refl, refl)
  bind_metrics-bound service (name ∷ names) series env h =
      let rest : Option String = first_missing service names series in
      elim (Option-cases (latest series (record { service = service; name = name }))) [
        | inl e ↦ let q : some name ≡ none = sym (ap (λ o. first_or name o rest) e) ∙ h in absurd cc
        | inr (s, e) ↦
            let q : rest ≡ none = sym (ap (λ o. first_or name o rest) e) ∙ h in
            let (env', reads, done) =
              bind_metrics-bound service names series (insert name s.value env) q in
            (
              env',
              λ x. reads x ∙ reading-insert service names series env name s x e,
              rw (e, bind_metrics) done,
            )
      ]

module _ {V P : Type 0} ⦃float : Float V⦄ ⦃expr : ExprLang V P⦄ where
  -- A target policy fails with the name of its first metric that has no sample.
  pub evaluate-missing :
      (t : TargetPolicy P) (current : ℤ) (series : Series V) (name : String)
      → first_missing t.service t.metric_names series ≡ some name
      → evaluate t current series ≡ err (metric_missing name)
  unfolding evaluate
  evaluate-missing t current series name h =
      rw
        (bind_metrics-missing t.service t.metric_names series
          (insert "current" (float.of_int current) []) name h)
        refl

  pub evaluate-present :
      (t : TargetPolicy P) (current : ℤ) (series : Series V)
      → first_missing t.service t.metric_names series ≡ none
      → (env : Env V) × ((x : String)
          → lookup x env
            ≡ reading t.service t.metric_names series
                (insert "current" (float.of_int current) [])
                x)
        × (evaluate t current series ≡ decide t.expression_text (expr.run t.program env))
  unfolding evaluate
  evaluate-present t current series h =
      let (env, reads, done) =
        bind_metrics-bound t.service t.metric_names series
          (insert "current" (float.of_int current) []) h in
      (env, reads, rw done refl)
