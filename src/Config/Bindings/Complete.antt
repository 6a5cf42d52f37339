-- ===== src/Config/Bindings/Complete.antt =====
-- `validate` (internal/config/config.go) lets every list of bindings through that leads somewhere.
use ninjascale.Prelude.{
  ℕ, suc, ◌≡◌, refl, sym, ap, ◌∙◌, false, none, some, List, [], ◌∷◌, String, str_eq, eq_iff, is_in,
  In-is_in, Distinct, IsFresh, IsFresh-cons, ne_str, strip_prefix, All,
}
use ninjascale.Prelude.Result.{ok}
use ninjascale.Config.{MetricBindingConfig}
use ninjascale.Config.Bindings.{validate_source, validate_binding, validate_bindings}
use ninjascale.Config.Bindings.Accepted.{IsRouted, otlp, prometheus, IsBinding, names_of}

strip_prefix-otlp : strip_prefix "prometheus." "otlp" ≡ none
unfolding strip_prefix
strip_prefix-otlp = refl

pub not_otlp :
    (source name : String)
    → strip_prefix "prometheus." source ≡ some name
    → str_eq source "otlp" ≡ false
not_otlp source name e = ne_str source "otlp" (λ same.
    let none_some : none ≡ some name =
      sym strip_prefix-otlp ∙ (ap (strip_prefix "prometheus.") (sym same) ∙ e) in
    cc)

IsRouted-validate_source :
    (sources : List String) (m : MetricBindingConfig)
    → IsRouted sources m
    → validate_source sources m ≡ ok tt
unfolding validate_source
IsRouted-validate_source sources m (otlp source named keys) =
    rw ((eq_iff m.source "otlp").1 source, ne_str m.metric "" named, keys) refl
IsRouted-validate_source sources m (prometheus name e named known asked bare) =
    rw (not_otlp m.source name e, e, ne_str name "" named, In-is_in name sources known, asked, bare)
      refl

IsBinding-validate_binding :
    (sources seen : List String) (m : MetricBindingConfig)
    → is_in m.name seen ≡ false
    → IsBinding sources m
    → validate_binding sources seen m ≡ ok tt
unfolding validate_binding
IsBinding-validate_binding sources seen m fresh (named, routed) =
    rw (ne_str m.name "" named, fresh) (IsRouted-validate_source sources m routed)

pub IsBinding-validate_bindings :
    (sources seen : List String) (j : ℕ) (ms : List MetricBindingConfig)
    → IsFresh seen (names_of ms)
    → Distinct (names_of ms)
    → All (IsBinding sources) ms
    → (set : List String) × (validate_bindings sources seen j ms ≡ ok set)
unfolding validate_bindings
IsBinding-validate_bindings sources seen j [] fresh distinct h = (seen, refl)
IsBinding-validate_bindings sources seen j (m ∷ ms) fresh distinct h =
    let (set, e) =
      IsBinding-validate_bindings sources (m.name ∷ seen) (suc j) ms
        (IsFresh-cons m.name seen (names_of ms) fresh.1 distinct.0) distinct.1 h.1 in
    (set, rw (IsBinding-validate_binding sources seen m fresh.0 h.0) e)
