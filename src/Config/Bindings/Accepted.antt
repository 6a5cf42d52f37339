-- ===== src/Config/Bindings/Accepted.antt =====
-- What an accepted list of metric bindings is (internal/config/config.go, `validate`).
use ninjascale.Prelude.{
  ℕ, suc, ◌≡◌, ◌≢◌, inl, inr, refl, false, not, ◌||◌, Option, none, some, List, [], ◌∷◌, map,
  String, str_eq, eq_iff, arith, any, is_empty, Bool-cases, is_in, In, Distinct, IsFresh,
  Distinct-cons, ap, sym, is_in-In, str_ne, strip_prefix, is_blank, All,
}
use ninjascale.Prelude.Result.{ok, reject_if, within, >>-ok, reject_if-ok, within-ok}
use ninjascale.Config.{MetricBindingConfig}
use ninjascale.Config.Bindings.{
  validate_prometheus, validate_source, validate_binding, validate_bindings,
}

-- A binding that leads somewhere: to a raw OTLP name, or to a configured Prometheus source.
pub data IsRouted (sources : List String) (m : MetricBindingConfig) : Type 0 where
  otlp :
      m.source ≡ "otlp"
      → m.metric ≢ ""
      → any (λ a. str_eq a.0 "") m.attributes ≡ false
      → IsRouted sources m
  prometheus :
      (name : String)
      → strip_prefix "prometheus." m.source ≡ some name
      → name ≢ ""
      → In name sources
      → is_blank m.query ≡ false
      → m.attributes ≡ []
      → IsRouted sources m

abbrev pub IsBinding : List String → MetricBindingConfig → Type 0
IsBinding sources m = (m.name ≢ "") × IsRouted sources m

abbrev pub names_of : List MetricBindingConfig → List String
names_of = map (λ m. m.name)

is_empty-nil {ℓ} : {A : Type ℓ} (xs : List A) → not (is_empty xs) ≡ false → xs ≡ []
is_empty-nil [] h = refl
is_empty-nil (x ∷ xs) h = cc

validate_prometheus-IsRouted :
    (sources : List String) (m : MetricBindingConfig) (o : Option String)
    → strip_prefix "prometheus." m.source ≡ o
    → validate_prometheus sources m o ≡ ok tt
    → IsRouted sources m
validate_prometheus-IsRouted sources m none e h = cc
validate_prometheus-IsRouted sources m (some name) e h =
    let (known, h') = >>-ok (reject_if (str_eq name "" || not (is_in name sources)) _) _ h in
    let (asked, bare) = >>-ok (reject_if (is_blank m.query) _) _ h' in
    let source : (str_eq name "" || not (is_in name sources)) ≡ false = reject_if-ok _ _ known in
    prometheus name e (str_ne name "" (ground arith)) (is_in-In name sources (ground arith))
      (reject_if-ok _ _ asked) (is_empty-nil m.attributes (reject_if-ok _ _ bare))

validate_source-IsRouted :
    (sources : List String) (m : MetricBindingConfig)
    → validate_source sources m ≡ ok tt
    → IsRouted sources m
unfolding validate_source
validate_source-IsRouted sources m h = elim (Bool-cases (str_eq m.source "otlp")) [
  | inl e ↦
      let (named, keys) = >>-ok (reject_if (str_eq m.metric "") _) _ (rw e at h) in
      otlp ((eq_iff m.source "otlp").0 e) (str_ne m.metric "" (reject_if-ok _ _ named))
        (reject_if-ok _ _ keys)
  | inr e ↦ validate_prometheus-IsRouted sources m _ refl (rw e at h)
]

validate_binding-IsBinding :
    (sources seen : List String) (m : MetricBindingConfig)
    → validate_binding sources seen m ≡ ok tt
    → (is_in m.name seen ≡ false) × IsBinding sources m
unfolding validate_binding
validate_binding-IsBinding sources seen m h =
    let (named, h') = >>-ok (reject_if (str_eq m.name "") _) _ h in
    let (fresh, routed) = >>-ok (reject_if (is_in m.name seen) _) _ h' in
    (
      reject_if-ok _ _ fresh,
      (str_ne m.name "" (reject_if-ok _ _ named), validate_source-IsRouted sources m routed),
    )

-- No name of the list is among those seen, no name stands twice, every binding is accepted, and
-- the set at the end has the names of the list and those seen.
pub validate_bindings_lem :
    (sources seen : List String) (j : ℕ) (ms : List MetricBindingConfig) (set : List String)
    → validate_bindings sources seen j ms ≡ ok set
    → IsFresh seen (names_of ms)
      × Distinct (names_of ms)
      × All (IsBinding sources) ms
      × ((x : String) → is_in x set ≡ (is_in x (names_of ms) || is_in x seen))
unfolding validate_bindings
validate_bindings_lem sources seen j [] set h =
    let same : seen ≡ set = cc in (tt, tt, tt, λ x. ap (is_in x) (sym same))
validate_bindings_lem sources seen j (m ∷ ms) set h =
    let (one, more) = >>-ok (within (λ e. (j, e)) (validate_binding sources seen m)) _ h in
    let (new, accepted) = validate_binding-IsBinding sources seen m (within-ok _ _ one) in
    let (fresh, distinct, rest, set_eq) =
      validate_bindings_lem sources (m.name ∷ seen) (suc j) ms set more in
    let names = Distinct-cons m.name seen (names_of ms) new fresh distinct in
    (names.0, names.1, (accepted, rest), λ x. ground (arith, set_eq x))
