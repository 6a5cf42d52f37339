-- ===== src/Config/Calendar.antt =====
-- internal/config/config.go: the schedule of a service, as `validate` checks it and `BuildServices`
-- converts it.
pub mod Accepted
pub mod Complete
use ninjascale.Prelude.{
  ℕ, zero, suc, Bool, true, false, not, ◌&&◌, ◌==◌, Option, none, some, List, [], ◌∷◌, map, String,
  str_eq, if◌then◌else◌, lookup, string_key,
}
use ninjascale.Prelude.Result.{Result, ok, err, reject_if, within, ◌>>=◌, ◌>>◌}
use ninjascale.Schedule.{
  Weekday, sunday, monday, tuesday, wednesday, thursday, friday, saturday, TimeZones, Entry,
  Schedule, is_digit,
}
use ninjascale.Config.{ScheduleEntryConfig, ScheduleConfig}

abbrev pub day_map : List (String × Weekday)
day_map =
    ("sun", sunday)
    ∷ ("mon", monday)
    ∷ ("tue", tuesday)
    ∷ ("wed", wednesday)
    ∷ ("thu", thursday)
    ∷ ("fri", friday)
    ∷ ("sat", saturday)
    ∷ []

abbrev pub is_missing : {A : Type 0} → Option A → Bool
is_missing none = true
is_missing (some a) = false

-- `timeRegex`: two digits, a colon, two digits.
abbrev pub is_clock_text : List ℕ → Bool
is_clock_text (a ∷ b ∷ c ∷ d ∷ e ∷ []) =
    is_digit a && is_digit b && c == 58 && is_digit d && is_digit e
is_clock_text _ = false

pub data EntryError : Type 0 where
  bad_start : EntryError
  bad_end : EntryError
  bad_day : String → EntryError

pub data CalendarError : Type 0 where
  unknown_timezone : String → CalendarError
  in_entry : (index : ℕ) → EntryError → CalendarError

unfoldable pub validate_days : List String → Result EntryError (Unit {0})
validate_days [] = ok tt
validate_days (d ∷ ds) = do reject_if (is_missing (lookup d day_map)) (bad_day d); validate_days ds

unfoldable pub validate_entry : ScheduleEntryConfig → Result EntryError (Unit {0})
validate_entry e = do
  reject_if (not (is_clock_text e.start)) bad_start
  reject_if (not (is_clock_text e.end)) bad_end
  validate_days e.days

unfoldable pub validate_entries : ℕ → List ScheduleEntryConfig → Result CalendarError (Unit {0})
validate_entries j [] = ok tt
validate_entries j (e ∷ es) = do within (in_entry j) (validate_entry e); validate_entries (suc j) es

unfoldable pub validate_calendar :
    TimeZones → Option ScheduleConfig → Result CalendarError (Unit {0})
validate_calendar zones none = ok tt
validate_calendar zones (some s) = do
  reject_if (not (str_eq s.timezone "") && is_missing (zones.load_location s.timezone))
      (unknown_timezone s.timezone)
  validate_entries 0 s.entries

-- `dayMap[d]`, which is Sunday for another text.
abbrev pub or_sunday : Option Weekday → Weekday
or_sunday none = sunday
or_sunday (some d) = d

unfoldable pub build_entry : ScheduleEntryConfig → Entry
build_entry e = record {
  days = map (λ d. or_sunday (lookup d day_map)) e.days;
  start = e.start;
  end = e.end;
  min_count = e.min_count;
  max_count = e.max_count;
}

unfoldable pub build_schedule : ScheduleConfig → Schedule
build_schedule s = record {
  timezone = if str_eq s.timezone "" then "UTC" else s.timezone;
  entries = map build_entry s.entries;
}
