-- ===== src/Schedule/Active.antt =====
-- Which bounds are active (internal/schedule/schedule.go, `GetActiveBounds`).
use ninjascale.Prelude.{
  ℕ, ◌+◌, ◌*◌, ◌<◌, ◌≡◌, refl, Bool, ◌&&◌, inl, inr, List, [], ◌∷◌, Option, none, some, arith,
  String, leb, pos, pos_part, Bool-cases, Option-cases, select, All, emod-lt,
}
use ninjascale.Time.{Time}
use ninjascale.Schedule.{
  Weekday, LocalTime, TimeZones, Entry, Schedule, Bounds, utc, local_time, parse_time_minutes,
  contains_day, find_entry, get_active_bounds,
}
use ninjascale.Schedule.Clock.{minutes_since, entry_matches_lem}

-- The minute of the day that a text reads as.
abbrev pub minute_of : List ℕ → ℕ
minute_of text = pos_part (parse_time_minutes text)

-- A text that reads as a minute of a day.
abbrev pub IsClockText : List ℕ → Type 0
IsClockText text = (parse_time_minutes text ≡ pos (minute_of text)) × (minute_of text < 1440)

abbrev pub IsTimed : Entry → Type 0
IsTimed entry = IsClockText entry.start × IsClockText entry.end

-- The entry is for the weekday, and the minute lies in its interval.
abbrev pub covers : Weekday → ℕ → Entry → Bool
covers weekday m entry =
    contains_day entry.days weekday
    && leb (minutes_since (minute_of entry.start) m)
        (minutes_since (minute_of entry.start) (minute_of entry.end))

abbrev pub first_bounds : List Entry → Option Bounds
first_bounds [] = none
first_bounds (entry ∷ entries) = some (record { min = entry.min_count; max = entry.max_count })

find_entry-eq :
    (entries : List Entry) (weekday : Weekday) (m : ℕ)
    → All IsTimed entries
    → m < 1440
    → find_entry entries weekday (pos m) ≡ first_bounds (select (covers weekday m) entries)
unfolding find_entry
find_entry-eq [] weekday m h fits = refl
find_entry-eq (entry ∷ entries) weekday m h fits =
    rw
      (entry_matches_lem entry weekday (minute_of entry.start) (minute_of entry.end) m h.0.0.0
        h.0.1.0 h.0.0.1 h.0.1.1 fits)
      (elim (Bool-cases (covers weekday m entry)) [
        | inl e ↦ rw e refl
        | inr e ↦ rw e (find_entry-eq entries weekday m h.1 fits)
      ])

-- A time of day.
abbrev pub IsTimeOfDay : LocalTime → Type 0
IsTimeOfDay l = (l.hour < 24) × (l.minute < 60)

-- What the time zone database gives is a time of day.
abbrev pub GivesTimes : TimeZones → Type 0
GivesTimes zones =
    (name : String) (zone : Time → LocalTime)
    → zones.load_location name ≡ some zone
    → (t : Time) → IsTimeOfDay (zone t)

utc-IsTimeOfDay : (t : Time) → IsTimeOfDay (utc t)
unfolding utc
utc-IsTimeOfDay t = (
  omega (arith, emod-lt t 86400000000000 (omega arith)),
  omega (arith, emod-lt t 3600000000000 (omega arith)),
)

local_time-IsTimeOfDay :
    (zones : TimeZones) (name : String) (t : Time)
    → GivesTimes zones
    → IsTimeOfDay (local_time (zones.load_location name) t)
local_time-IsTimeOfDay zones name t h = elim (Option-cases (zones.load_location name)) [
  | inl e ↦ rw e (utc-IsTimeOfDay t)
  | inr (zone, e) ↦ rw e (h name zone e t)
]

pub get_active_bounds_lem :
    (zones : TimeZones) (s : Schedule) (t : Time)
    → GivesTimes zones
    → All IsTimed s.entries
    → let l = local_time (zones.load_location s.timezone) t in
      get_active_bounds zones s t
      ≡ first_bounds (select (covers l.weekday (l.hour * 60 + l.minute)) s.entries)
unfolding get_active_bounds
get_active_bounds_lem zones s t gives timed =
    let l : LocalTime = local_time (zones.load_location s.timezone) t in
    let fits : IsTimeOfDay l = local_time-IsTimeOfDay zones s.timezone t gives in
    find_entry-eq s.entries l.weekday (l.hour * 60 + l.minute) timed (omega (arith, fits.0, fits.1))
