-- ===== src/Metrics/Otlp/Matched.antt =====
-- The time and the attributes of a data point (internal/metrics/otlp.go, `processMetric` and
-- `matchesAttributes`), said as relations.
use ninjascale.Prelude.{
  ℕ, ◌+◌, ◌*◌, ◌^◌, ◌≤◌, ◌<◌, ◌≡◌, ◌↔◌, ◌⊎◌, refl, sym, inl, inr, true, false, none, some, List, [],
  ◌∷◌, String, str_eq, eq_iff, arith, pos, ◌==◌, leb, All, lookup, string_key, Bool-cases,
}
use mathlib.Core.Path.{subst}
use ninjascale.Time.{Time}
use ninjascale.Metrics.Otlp.{
  Formats, AnyValue, string_value, int_value, bool_value, double_value, other_value,
  attribute_string, has_entry, has_attribute, matches_attributes, observed_at,
}

-- The instant of a point: its receipt for the time 0, and else its nanoseconds since 1970, of which
-- there are fewer than 2^63.
abbrev pub IsInstant : Time → ℕ → Time → Type 0
IsInstant received nanos t =
    ((nanos ≡ 0) × (t ≡ received))
    ⊎ ((0 < nanos) × (nanos < 2 ^ 63) × (t ≡ pos (62135596800 * 1000000000 + nanos)))

pub observed_at-IsInstant :
    (received : Time) (nanos : ℕ) (t : Time)
    → observed_at received nanos ≡ some t
    → IsInstant received nanos t
observed_at-IsInstant received nanos t e = elim (Bool-cases (nanos == 0)) [
  | inl z ↦
      let same : some received ≡ some t = rw z at e in
      let at : received ≡ t = cc in inl (ground arith, sym at)
  | inr z ↦ elim (Bool-cases (leb (2 ^ 63) nanos)) [
    | inl l ↦ absurd (cc (rw (z, l) at e))
    | inr l ↦
        let same : some (pos (62135596800 * 1000000000 + nanos)) ≡ some t = rw (z, l) at e in
        let at : pos (62135596800 * 1000000000 + nanos) ≡ t = cc in
        inr (ground arith, ground arith, sym at)
  ]
]

pub observed_at-none :
    (received : Time) (nanos : ℕ) → observed_at received nanos ≡ none → 2 ^ 63 ≤ nanos
observed_at-none received nanos e = elim (Bool-cases (nanos == 0)) [
  | inl z ↦ absurd (cc (rw z at e))
  | inr z ↦ elim (Bool-cases (leb (2 ^ 63) nanos)) [
    | inl l ↦ ground arith
    | inr l ↦ absurd (cc (rw (z, l) at e))
  ]
]

module _ {V : Type 0} (f : Formats V) where
  -- The value of an attribute is written as the text.
  abbrev pub Reads : AnyValue V → String → Type 0
  Reads (string_value s) want = s ≡ want
  Reads (int_value n) want = f.format_int n ≡ want
  Reads (bool_value true) want = "true" ≡ want
  Reads (bool_value false) want = "false" ≡ want
  Reads (double_value v) want = f.format_float v ≡ want
  Reads other_value want = ⊥

  -- The first attribute of the name reads as the text.
  abbrev pub Carries : List (String × AnyValue V) → String × String → Type 0
  Carries attributes e = (v : AnyValue V) × (lookup e.0 attributes ≡ some v) × Reads v e.1

  has_entry-Reads :
      (v : AnyValue V) (want : String)
      → (has_entry (attribute_string f v) want ≡ true) ↔ Reads v want
  has_entry-Reads (string_value s) want = eq_iff s want
  has_entry-Reads (int_value n) want = eq_iff (f.format_int n) want
  has_entry-Reads (bool_value true) want = eq_iff "true" want
  has_entry-Reads (bool_value false) want = eq_iff "false" want
  has_entry-Reads (double_value v) want = eq_iff (f.format_float v) want
  has_entry-Reads other_value want = (λ h. absurd (cc h), λ h. absurd h)

  has_attribute-Carries :
      (key want : String) (attributes : List (String × AnyValue V))
      → (has_attribute f key want attributes ≡ true) ↔ Carries attributes (key, want)
  unfolding lookup
  has_attribute-Carries key want [] = (λ h. absurd (cc h), λ (v, e, r). absurd (cc e))
  has_attribute-Carries key want ((k, v) ∷ attributes) = elim (Bool-cases (str_eq k key)) [
    | inl e ↦ rw e (
      (λ h. (v, refl, (has_entry-Reads v want).0 h)),
      (λ (x, q, r).
          let same : v ≡ x = cc in
          (has_entry-Reads v want).1 (subst (λ y. Reads y want) (sym same) r)),
    )
    | inr e ↦ rw e (has_attribute-Carries key want attributes)
  ]

  pub matches_attributes-Carries :
      (attributes : List (String × AnyValue V)) (wants : List (String × String))
      → (matches_attributes f attributes wants ≡ true) ↔ All (Carries attributes) wants
  unfolding matches_attributes
  matches_attributes-Carries attributes [] = (λ h. tt, λ h. refl)
  matches_attributes-Carries attributes ((key, want) ∷ wants) = ground (
    arith,
    has_attribute-Carries key want attributes,
    matches_attributes-Carries attributes wants,
  )
