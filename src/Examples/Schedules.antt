-- ===== src/Examples/Schedules.antt =====
-- Runs of internal/schedule/schedule.go.
use ninjascale.Prelude.{
  ◌+◌, ◌*◌, ◌≡◌, refl, ◌&&◌, [], ◌∷◌, some, arith, leb, pos, select, emod, int64, ◌+ℤ◌, ◌*ℤ◌,
}
use ninjascale.Schedule.{
  monday, Entry, Schedule, utc, contains_day, parse_time_minutes, entry_matches, get_active_bounds,
}
use ninjascale.Schedule.Clock.{
  clock_text, minutes_since, parse_time_minutes-clock, entry_matches_lem,
}
use ninjascale.Schedule.Active.{IsTimed, covers, first_bounds, get_active_bounds_lem}
use ninjascale.Examples.{no_zones}

parse_time_minutes-clock_example : parse_time_minutes (clock_text 2 3 5 9) ≡ pos 1439
parse_time_minutes-clock_example =
    parse_time_minutes-clock 2 3 5 9 (omega arith) (omega arith) (omega arith) (omega arith)

-- From 22:00 to 06:00.
abbrev night : Entry
night = record {
  days = [];
  start = clock_text 2 2 0 0;
  end = clock_text 0 6 0 0;
  min_count = pos 1;
  max_count = pos 2;
}

night_start : parse_time_minutes night.start ≡ pos 1320
night_start =
    parse_time_minutes-clock 2 2 0 0 (omega arith) (omega arith) (omega arith) (omega arith)

night_end : parse_time_minutes night.end ≡ pos 360
night_end = parse_time_minutes-clock 0 6 0 0 (omega arith) (omega arith) (omega arith) (omega arith)

entry_matches_lem_example :
    entry_matches night monday (pos 30)
    ≡ (contains_day [] monday && leb (minutes_since 1320 30) (minutes_since 1320 360))
entry_matches_lem_example =
    entry_matches_lem night monday 1320 360 30 night_start night_end (omega arith) (omega arith)
      (omega arith)

abbrev nightly : Schedule
nightly = record { timezone = "UTC"; entries = night ∷ [] }

night-IsTimed : IsTimed night
unfolding parse_time_minutes ◌+ℤ◌ ◌*ℤ◌ int64 emod
night-IsTimed = ((refl, omega arith), (refl, omega arith))

get_active_bounds_lem_example :
    get_active_bounds no_zones nightly (pos 0)
    ≡ first_bounds (
        select
          (covers (utc (pos 0)).weekday ((utc (pos 0)).hour * 60 + (utc (pos 0)).minute))
          (night ∷ []))
get_active_bounds_lem_example =
    get_active_bounds_lem no_zones nightly (pos 0) (λ name zone e t. cc) (night-IsTimed, tt)

night_bounds :
    get_active_bounds no_zones nightly (pos 0) ≡ some (record { min = pos 1; max = pos 2 })
unfolding get_active_bounds entry_matches ◌+ℤ◌ ◌*ℤ◌ int64 emod utc
night_bounds = refl
