-- ===== src/Config/Calendar/Complete.antt =====
-- `validate` (internal/config/config.go) lets every schedule through that can be read.
use ninjascale.Prelude.{
  ℕ, suc, ◌<◌, ◌≡◌, inl, inr, refl, ap, ◌∙◌, true, false, none, some, not, ◌&&◌, List, [], ◌∷◌,
  String, str_eq, eq_iff, arith, Option, All, string_key,
}
use ninjascale.Prelude.Result.{ok}
use ninjascale.Schedule.{TimeZones}
use ninjascale.Schedule.Clock.{clock_text}
use ninjascale.Config.{ScheduleEntryConfig, ScheduleConfig}
use ninjascale.Config.Calendar.{
  is_missing, is_clock_text, validate_days, validate_entry, validate_entries, validate_calendar,
}
use ninjascale.Config.Calendar.Accepted.{IsTwoByTwo, IsDay, IsEntry, IsZone, IsCalendar}

clock_text-is_clock_text :
    (a b c d : ℕ) → a < 10 → b < 10 → c < 10 → d < 10 → is_clock_text (clock_text a b c d) ≡ true
clock_text-is_clock_text a b c d p q r s = ground arith

IsTwoByTwo-is_clock_text : (text : List ℕ) → IsTwoByTwo text → is_clock_text text ≡ true
IsTwoByTwo-is_clock_text text (a, b, c, d, p, q, r, s, e) =
    ap is_clock_text e ∙ clock_text-is_clock_text a b c d p q r s

IsDay-validate_days : (ds : List String) → All IsDay ds → validate_days ds ≡ ok tt
unfolding validate_days
IsDay-validate_days [] h = refl
IsDay-validate_days (d ∷ ds) h = rw (h.0.1) (IsDay-validate_days ds h.1)

IsEntry-validate_entry : (e : ScheduleEntryConfig) → IsEntry e → validate_entry e ≡ ok tt
unfolding validate_entry
IsEntry-validate_entry e (start, end, days) =
    rw (IsTwoByTwo-is_clock_text e.start start, IsTwoByTwo-is_clock_text e.end end)
      (IsDay-validate_days e.days days)

IsEntry-validate_entries :
    (j : ℕ) (es : List ScheduleEntryConfig) → All IsEntry es → validate_entries j es ≡ ok tt
unfolding validate_entries
IsEntry-validate_entries j [] h = refl
IsEntry-validate_entries j (e ∷ es) h =
    rw (IsEntry-validate_entry e h.0) (IsEntry-validate_entries (suc j) es h.1)

IsZone-no_error :
    (zones : TimeZones) (name : String)
    → IsZone zones name
    → (not (str_eq name "") && is_missing (zones.load_location name)) ≡ false
IsZone-no_error zones name (inl e) = rw ((eq_iff name "").1 e) refl
IsZone-no_error zones name (inr (zone, e)) = rw e (ground arith)

pub IsCalendar-validate_calendar :
    (zones : TimeZones) (o : Option ScheduleConfig)
    → IsCalendar zones o
    → validate_calendar zones o ≡ ok tt
unfolding validate_calendar
IsCalendar-validate_calendar zones none h = refl
IsCalendar-validate_calendar zones (some s) (zone, entries) =
    rw (IsZone-no_error zones s.timezone zone) (IsEntry-validate_entries 0 s.entries entries)
