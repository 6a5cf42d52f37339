-- ===== src/Schedule.antt =====
-- internal/schedule/schedule.go: bounds by day and time. A text is the list of its bytes. The time
-- zone database of the standard library is the parameter `TimeZones`.
pub mod Clock
pub mod Active
use ninjascale.Prelude.{
  ℕ, zero, suc, ◌+◌, ◌-◌, ◌*◌, ◌/◌, ◌^◌, Bool, true, false, not, ◌&&◌, ◌||◌, Option, none, some,
  List, [], ◌∷◌, String, if◌then◌else◌, ltb, leb, ◌==◌, ℤ, pos, sub_ℕ, leb_ℤ, ltb_ℤ, ◌+ℤ◌, ◌*ℤ◌,
  int64, emod,
}
use ninjascale.Time.{Time}

pub data Weekday : Type 0 where
  sunday monday tuesday wednesday thursday friday saturday : Weekday

abbrev pub weekday_number : Weekday → ℕ
weekday_number sunday = 0
weekday_number monday = 1
weekday_number tuesday = 2
weekday_number wednesday = 3
weekday_number thursday = 4
weekday_number friday = 5
weekday_number saturday = 6

-- `localTime.Weekday()`, `.Hour()` and `.Minute()`.
pub record LocalTime : Type 0 where
  pub weekday : Weekday
  pub hour : ℕ
  pub minute : ℕ

-- `time.LoadLocation(name)` and `t.In(loc)`; none is the error.
pub record TimeZones : Type 0 where
  pub load_location : String → Option (Time → LocalTime)

pub record Entry : Type 0 where
  pub days : List Weekday
  pub start : List ℕ
  pub end : List ℕ
  pub min_count : ℤ
  pub max_count : ℤ

pub record Schedule : Type 0 where
  pub timezone : String
  pub entries : List Entry

pub record Bounds : Type 0 where
  pub min : ℤ
  pub max : ℤ

-- `t.In(time.UTC)`: the zero time begins a Monday.
abbrev weekday_at : ℕ → Weekday
weekday_at zero = monday
weekday_at (suc zero) = tuesday
weekday_at (suc (suc zero)) = wednesday
weekday_at (suc (suc (suc zero))) = thursday
weekday_at (suc (suc (suc (suc zero)))) = friday
weekday_at (suc (suc (suc (suc (suc zero))))) = saturday
weekday_at _ = sunday

unfoldable pub utc : Time → LocalTime
utc t = record {
  weekday = weekday_at (emod t (7 * 86400000000000) / 86400000000000);
  hour = emod t 86400000000000 / 3600000000000;
  minute = emod t 3600000000000 / 60000000000;
}

-- `for _, d := range days { if d == day … }`, behind the test for an empty list.
unfoldable pub contains_day : List Weekday → Weekday → Bool
contains_day [] day = true
contains_day (d ∷ []) day = weekday_number d == weekday_number day
contains_day (d ∷ e ∷ days) day =
    weekday_number d == weekday_number day || contains_day (e ∷ days) day

-- What `fmt.Sscanf` reads for `%d`: spaces, a sign, digits. A number that is not an int is an error.
abbrev pub is_digit : ℕ → Bool
is_digit c = leb 48 c && leb c 57

abbrev is_space : ℕ → Bool
is_space c = c == 32 || (leb 9 c && leb c 13 && not (c == 10))

abbrev skip_space : List ℕ → List ℕ
skip_space [] = []
skip_space (c ∷ cs) = if is_space c then skip_space cs else c ∷ cs

-- The digits' value, how many there are, and what follows them.
pub record Digits : Type 0 where
  pub value : ℕ
  pub found : Bool
  pub rest : List ℕ

unfoldable pub scan_digits : List ℕ → ℕ → Bool → Digits
scan_digits [] acc found = record { value = acc; found = found; rest = [] }
scan_digits (c ∷ cs) acc found =
    let more = scan_digits cs (acc * 10 + (c - 48)) true in
    if is_digit c then more else record { value = acc; found = found; rest = c ∷ cs }

-- The limit of a positive and of a negative int.
abbrev signed : Bool → Digits → Option (ℤ × List ℕ)
signed negative d =
    if not d.found
    then none
    else if negative
    then (if leb d.value (2 ^ 63) then some (sub_ℕ 0 d.value, d.rest) else none)
    else (if ltb d.value (2 ^ 63) then some (pos d.value, d.rest) else none)

abbrev scan_signed : List ℕ → Option (ℤ × List ℕ)
scan_signed [] = none
scan_signed (c ∷ cs) =
    if c == 45
    then signed true (scan_digits cs 0 false)
    else if c == 43
    then signed false (scan_digits cs 0 false)
    else signed false (scan_digits (c ∷ cs) 0 false)

unfoldable pub scan_int : List ℕ → Option (ℤ × List ℕ)
unfolding scan_digits
scan_int cs = scan_signed (skip_space cs)

-- What is assigned to `m` behind the colon; what is not read stays 0.
abbrev scan_minutes : List ℕ → ℤ
scan_minutes [] = pos 0
scan_minutes (c ∷ cs) =
    if c == 58 then elim (scan_int cs) [ none ↦ pos 0 | some (m, rest) ↦ m ] else pos 0

unfoldable pub parse_time_minutes : List ℕ → ℤ
unfolding scan_int
parse_time_minutes t = elim (scan_int t) [
  | none ↦ pos 0
  | some (h, rest) ↦ int64 (int64 (h *ℤ pos 60) +ℤ scan_minutes rest)
]

-- The tests of the loop's body on one entry.
unfoldable pub entry_matches : Entry → Weekday → ℤ → Bool
unfolding contains_day parse_time_minutes
entry_matches entry weekday current =
    let start = parse_time_minutes entry.start in
    let end = parse_time_minutes entry.end in
    if not (contains_day entry.days weekday)
    then false
    else if ltb_ℤ end start
    then leb_ℤ start current || leb_ℤ current end
    else leb_ℤ start current && leb_ℤ current end

unfoldable pub find_entry : List Entry → Weekday → ℤ → Option Bounds
find_entry [] weekday current = none
find_entry (entry ∷ entries) weekday current =
    if entry_matches entry weekday current
    then some (record { min = entry.min_count; max = entry.max_count })
    else find_entry entries weekday current

abbrev pub local_time : Option (Time → LocalTime) → Time → LocalTime
local_time none t = utc t
local_time (some zone) t = zone t

-- `GetActiveBounds`: none is `matched == false`.
unfoldable pub get_active_bounds : TimeZones → Schedule → Time → Option Bounds
unfolding find_entry
get_active_bounds zones s t =
    let l = local_time (zones.load_location s.timezone) t in
    find_entry s.entries l.weekday (pos (l.hour * 60 + l.minute))
