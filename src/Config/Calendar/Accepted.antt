-- ===== src/Config/Calendar/Accepted.antt =====
-- What an accepted schedule is (internal/config/config.go, `validate`).
use ninjascale.Prelude.{
  ℕ, suc, ◌-◌, ◌<◌, ◌≡◌, ◌⊎◌, inl, inr, refl, Bool, true, false, not, ◌&&◌, ◌==◌, Option, none,
  some, List, [], ◌∷◌, String, str_eq, eq_iff, arith, Bool-cases, All, lookup, string_key,
}
use ninjascale.Prelude.Result.{ok, reject_if, within, >>-ok, reject_if-ok, within-ok}
use ninjascale.Schedule.{Weekday, LocalTime, TimeZones, is_digit}
use ninjascale.Schedule.Clock.{clock_text}
use ninjascale.Time.{Time}
use ninjascale.Config.{ScheduleEntryConfig, ScheduleConfig}
use ninjascale.Config.Calendar.{
  day_map, is_missing, is_clock_text, validate_days, validate_entry, validate_entries,
  validate_calendar,
}

-- The text of two numbers of two digits.
abbrev pub IsTwoByTwo : List ℕ → Type 0
IsTwoByTwo text =
    (a : ℕ) × (b : ℕ) × (c : ℕ) × (d : ℕ) × (a < 10)
    × (b < 10)
    × (c < 10)
    × (d < 10)
    × (text ≡ clock_text a b c d)

abbrev pub IsDay : String → Type 0
IsDay d = (w : Weekday) × (lookup d day_map ≡ some w)

abbrev pub IsEntry : ScheduleEntryConfig → Type 0
IsEntry e = IsTwoByTwo e.start × IsTwoByTwo e.end × All IsDay e.days

abbrev pub IsZone : TimeZones → String → Type 0
IsZone zones name =
    (name ≡ "") ⊎ ((zone : Time → LocalTime) × (zones.load_location name ≡ some zone))

abbrev pub IsCalendar : TimeZones → Option ScheduleConfig → Type 0
IsCalendar zones none = Unit
IsCalendar zones (some s) = IsZone zones s.timezone × All IsEntry s.entries

pub is_missing-some : {A : Type 0} (o : Option A) → is_missing o ≡ false → (a : A) × (o ≡ some a)
is_missing-some none h = cc
is_missing-some (some a) h = (a, refl)

clock_text_eq :
    (a b c d e : ℕ)
    → (is_digit a && is_digit b && c == 58 && is_digit d && is_digit e) ≡ true
    → IsTwoByTwo (a ∷ b ∷ c ∷ d ∷ e ∷ [])
clock_text_eq a b c d e h = (
  a - 48,
  b - 48,
  d - 48,
  e - 48,
  ground arith,
  ground arith,
  ground arith,
  ground arith,
  ground arith,
)

is_clock_text-IsTwoByTwo : (text : List ℕ) → is_clock_text text ≡ true → IsTwoByTwo text
is_clock_text-IsTwoByTwo [] h = cc
is_clock_text-IsTwoByTwo (a ∷ []) h = cc
is_clock_text-IsTwoByTwo (a ∷ b ∷ []) h = cc
is_clock_text-IsTwoByTwo (a ∷ b ∷ c ∷ []) h = cc
is_clock_text-IsTwoByTwo (a ∷ b ∷ c ∷ d ∷ []) h = cc
is_clock_text-IsTwoByTwo (a ∷ b ∷ c ∷ d ∷ e ∷ []) h = clock_text_eq a b c d e h
is_clock_text-IsTwoByTwo (a ∷ b ∷ c ∷ d ∷ e ∷ f ∷ g) h = cc

pub not-false : (b : Bool) → not b ≡ false → b ≡ true
not-false true h = refl
not-false false h = cc

validate_days_lem : (ds : List String) → validate_days ds ≡ ok tt → All IsDay ds
unfolding validate_days
validate_days_lem [] h = tt
validate_days_lem (d ∷ ds) h =
    let (one, more) = >>-ok (reject_if (is_missing (lookup d day_map)) _) _ h in
    (is_missing-some (lookup d day_map) (reject_if-ok _ _ one), validate_days_lem ds more)

validate_entry_lem : (e : ScheduleEntryConfig) → validate_entry e ≡ ok tt → IsEntry e
unfolding validate_entry
validate_entry_lem e h =
    let (start, h') = >>-ok (reject_if (not (is_clock_text e.start)) _) _ h in
    let (end, days) = >>-ok (reject_if (not (is_clock_text e.end)) _) _ h' in
    (
      is_clock_text-IsTwoByTwo e.start (not-false _ (reject_if-ok _ _ start)),
      is_clock_text-IsTwoByTwo e.end (not-false _ (reject_if-ok _ _ end)),
      validate_days_lem e.days days,
    )

validate_entries_lem :
    (j : ℕ) (es : List ScheduleEntryConfig) → validate_entries j es ≡ ok tt → All IsEntry es
unfolding validate_entries
validate_entries_lem j [] h = tt
validate_entries_lem j (e ∷ es) h =
    let (one, more) = >>-ok (within _ (validate_entry e)) _ h in
    (validate_entry_lem e (within-ok _ _ one), validate_entries_lem (suc j) es more)

IsZone-known :
    (zones : TimeZones) (name : String)
    → (not (str_eq name "") && is_missing (zones.load_location name)) ≡ false
    → IsZone zones name
IsZone-known zones name h = elim (Bool-cases (str_eq name "")) [
  | inl e ↦ inl ((eq_iff name "").0 e)
  | inr e ↦ inr (is_missing-some (zones.load_location name) (ground arith))
]

-- An accepted schedule has a known zone or none, known days, and times of two by two digits.
pub validate_calendar_lem :
    (zones : TimeZones) (o : Option ScheduleConfig)
    → validate_calendar zones o ≡ ok tt
    → IsCalendar zones o
unfolding validate_calendar
validate_calendar_lem zones none h = tt
validate_calendar_lem zones (some s) h =
    let (zone, entries) = >>-ok (reject_if _ _) _ h in
    (
      IsZone-known zones s.timezone (reject_if-ok _ _ zone),
      validate_entries_lem 0 s.entries entries,
    )
