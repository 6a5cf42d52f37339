-- ===== src/Config/Described.antt =====
-- What a runtime service has to say for a configured one (internal/config/config.go, `BuildServices`),
-- field by field.
use ninjascale.Prelude.{
  ◌≡◌, refl, sym, ap, ◌∙◌, ◌⊎◌, inl, inr, ◌≢◌, Option, none, some, List, [], ◌∷◌, map, String,
  str_eq, eq_iff, lookup, string_key, All, Bool-cases,
}
use mathlib.Core.Option
use ninjascale.Time.{zero_time}
use ninjascale.Metrics.{Float}
use ninjascale.Policy.{Policy, window, target}
use ninjascale.Policy.Window.{WindowThreshold}
use ninjascale.Policy.Target.{ExprLang, compile_env}
use ninjascale.Schedule.{
  Weekday, sunday, monday, tuesday, wednesday, thursday, friday, saturday, TimeZones, Entry,
  Schedule,
}
use ninjascale.Service.{MetricBinding}
use ninjascale.Config.{
  ScheduleEntryConfig, ScheduleConfig, MetricBindingConfig, ThresholdConfig, PolicyConfig,
}
use ninjascale.Config.Calendar.{day_map, or_sunday, build_entry, build_schedule}
use ninjascale.Config.Calendar.Accepted.{IsDay, IsEntry, IsCalendar}
use ninjascale.Config.Thresholds.{build_threshold}
use ninjascale.Config.Build.{build_binding}

-- Two lists, item by item.
abbrev pub Pairs : {A B : Type 0} → (A → B → Type 0) → List A → List B → Type 0
Pairs R [] [] = Unit
Pairs R [] (b ∷ bs) = ⊥
Pairs R (a ∷ as') [] = ⊥
Pairs R (a ∷ as') (b ∷ bs) = R a b × Pairs R as' bs

Pairs-map :
    {A B : Type 0} (R : A → B → Type 0) (S : A → Type 0) (f : A → B) (xs : List A)
    → ((a : A) → S a → R a (f a))
    → All S xs
    → Pairs R xs (map f xs)
Pairs-map R S f [] step h = tt
Pairs-map R S f (x ∷ xs) step h = (step x h.0, Pairs-map R S f xs step h.1)

abbrev pub IsBindingOf : MetricBindingConfig → MetricBinding → Type 0
IsBindingOf m b =
    (b.name ≡ m.name)
    × (b.source ≡ m.source)
    × (b.query ≡ m.query)
    × (b.metric ≡ m.metric)
    × (b.attributes ≡ m.attributes)

pub bindings-IsBindingOf :
    (ms : List MetricBindingConfig) → Pairs IsBindingOf ms (map build_binding ms)
bindings-IsBindingOf [] = tt
bindings-IsBindingOf (m ∷ ms) = ((refl, refl, refl, refl, refl), bindings-IsBindingOf ms)

abbrev pub day_text : Weekday → String
day_text sunday = "sun"
day_text monday = "mon"
day_text tuesday = "tue"
day_text wednesday = "wed"
day_text thursday = "thu"
day_text friday = "fri"
day_text saturday = "sat"

abbrev pub IsDayOf : String → Weekday → Type 0
IsDayOf text day = text ≡ day_text day

abbrev pub IsEntryOf : ScheduleEntryConfig → Entry → Type 0
IsEntryOf c e =
    Pairs IsDayOf c.days e.days
    × (e.start ≡ c.start)
    × (e.end ≡ c.end)
    × (e.min_count ≡ c.min_count)
    × (e.max_count ≡ c.max_count)

-- A schedule without a time zone is in UTC.
abbrev pub IsZoneOf : String → String → Type 0
IsZoneOf text zone = ((text ≡ "") × (zone ≡ "UTC")) ⊎ ((text ≢ "") × (zone ≡ text))

abbrev pub IsScheduleOf : Option ScheduleConfig → Option Schedule → Type 0
IsScheduleOf none none = Unit
IsScheduleOf none (some s) = ⊥
IsScheduleOf (some c) none = ⊥
IsScheduleOf (some c) (some s) =
    IsZoneOf c.timezone s.timezone × Pairs IsEntryOf c.entries s.entries

lookup-IsDayOf :
    (m : List (String × Weekday)) (text : String) (day : Weekday)
    → All (λ e. IsDayOf e.0 e.1) m
    → lookup text m ≡ some day
    → IsDayOf text day
unfolding lookup
lookup-IsDayOf [] text day named e = cc
lookup-IsDayOf ((k, d) ∷ m) text day named e = elim (Bool-cases (str_eq k text)) [
  | inl q ↦
      let same : some d ≡ some day = rw q at e in
      let day_eq : d ≡ day = cc in sym ((eq_iff k text).0 q) ∙ named.0 ∙ ap day_text day_eq
  | inr q ↦ lookup-IsDayOf m text day named.1 (rw q at e)
]

built-IsDayOf : (text : String) → IsDay text → IsDayOf text (or_sunday (lookup text day_map))
built-IsDayOf text (day, e) =
    rw e
      (lookup-IsDayOf day_map text day (refl, (refl, (refl, (refl, (refl, (refl, (refl, tt))))))) e)

build_entry-IsEntryOf : (c : ScheduleEntryConfig) → IsEntry c → IsEntryOf c (build_entry c)
unfolding build_entry
build_entry-IsEntryOf c h = (
  Pairs-map IsDayOf IsDay (λ d. or_sunday (lookup d day_map)) c.days built-IsDayOf h.2,
  refl,
  refl,
  refl,
  refl,
)

pub build_schedule-IsScheduleOf :
    (zones : TimeZones) (o : Option ScheduleConfig)
    → IsCalendar zones o
    → IsScheduleOf o (Option.map build_schedule o)
unfolding build_schedule
build_schedule-IsScheduleOf zones none h = tt
build_schedule-IsScheduleOf zones (some c) h = (
  elim (Bool-cases (str_eq c.timezone "")) [
    | inl e ↦ inl ((eq_iff c.timezone "").0 e, rw e refl)
    | inr e ↦ inr ((λ q. cc (e, (eq_iff c.timezone "").1 q)), rw e refl)
  ],
  Pairs-map IsEntryOf IsEntry build_entry c.entries build_entry-IsEntryOf h.1,
)

abbrev pub IsThresholdOf :
    {V : Type 0} → Option (ThresholdConfig V) → Option (WindowThreshold V) → Type 0
IsThresholdOf none none = Unit
IsThresholdOf none (some t) = ⊥
IsThresholdOf (some c) none = ⊥
IsThresholdOf (some c) (some t) =
    (t.threshold ≡ c.threshold) × (t.sustained_for ≡ c.sustained_for) × (t.step ≡ c.step)

pub build_threshold-IsThresholdOf :
    {V : Type 0} (o : Option (ThresholdConfig V)) → IsThresholdOf o (build_threshold o)
build_threshold-IsThresholdOf none = tt
build_threshold-IsThresholdOf (some c) = (refl, refl, refl)

-- A policy of the service `service`, whose bindings have the names `names`. A window has not been
-- reset; a target has the program that its expression compiles to over the names.
abbrev pub IsPolicyOf :
    {V P : Type 0}
    → ⦃float : Float V⦄ → ⦃expr : ExprLang V P⦄ → String
    → List String
    → PolicyConfig V
    → Policy V P
    → Type 0
IsPolicyOf service names p (window w) =
    (p.kind ≡ "window")
    × (w.service ≡ service)
    × (w.metric ≡ p.metric)
    × (p.bucket_duration ≡ some w.bucket_duration)
    × IsThresholdOf p.upscale_when w.upscale_when
    × IsThresholdOf p.downscale_when w.downscale_when
    × (w.reset_cutoff ≡ zero_time)
IsPolicyOf ⦃float⦄ ⦃expr⦄ service names p (target t) =
    (p.kind ≡ "target")
    × (t.service ≡ service)
    × (t.expression_text ≡ p.expression)
    × (t.metric_names ≡ names)
    × (expr.compile p.expression (compile_env names []) ≡ some t.program)
