-- ===== src/Schedule/Clock.antt =====
-- What a schedule's texts and entries mean (internal/schedule/schedule.go): a text of two digits, a
-- colon and two digits is its minute of the day, and an entry covers a circular interval.
use ninjascale.Prelude.{
  ℕ, ◌+◌, ◌-◌, ◌*◌, ◌%◌, ◌<◌, ◌≡◌, ◌&&◌, List, [], ◌∷◌, some, arith, leb, pos, int64, int64-eq,
  pos-*ℤ-pos, pos-+ℤ-pos, ◌*ℤ◌, ◌+ℤ◌,
}
use ninjascale.Schedule.{
  Weekday, Entry, scan_digits, scan_int, parse_time_minutes, contains_day, entry_matches,
}

-- The text of an hour and a minute, by their digits.
abbrev pub clock_text : ℕ → ℕ → ℕ → ℕ → List ℕ
clock_text a b c d = (48 + a) ∷ (48 + b) ∷ 58 ∷ (48 + c) ∷ (48 + d) ∷ []

-- The minute of the day that the digits name.
abbrev pub clock_minutes : ℕ → ℕ → ℕ → ℕ → ℕ
clock_minutes a b c d = (a * 10 + b) * 60 + (c * 10 + d)

scan_two :
    (a b : ℕ) (rest : List ℕ)
    → a < 10
    → b < 10
    → scan_int ((48 + a) ∷ (48 + b) ∷ 58 ∷ rest) ≡ some (pos (a * 10 + b), 58 ∷ rest)
unfolding scan_int scan_digits
scan_two a b rest ha hb = ground arith

scan_last_two :
    (a b : ℕ) → a < 10 → b < 10 → scan_int ((48 + a) ∷ (48 + b) ∷ []) ≡ some (pos (a * 10 + b), [])
unfolding scan_int scan_digits
scan_last_two a b ha hb = ground arith

minutes_fit :
    (h m : ℕ) → h < 100 → m < 100 → int64 (int64 (pos h *ℤ pos 60) +ℤ pos m) ≡ pos (h * 60 + m)
minutes_fit h m hh hm =
    rw (pos-*ℤ-pos h 60, int64-eq (pos (h * 60)) (omega arith, omega arith), pos-+ℤ-pos (h * 60) m)
      (int64-eq (pos (h * 60 + m)) (omega arith, omega arith))

-- A text of two digits, a colon and two digits reads as 60 times the first number plus the second.
pub parse_time_minutes-clock :
    (a b c d : ℕ)
    → a < 10
    → b < 10
    → c < 10
    → d < 10
    → parse_time_minutes (clock_text a b c d) ≡ pos (clock_minutes a b c d)
unfolding parse_time_minutes
parse_time_minutes-clock a b c d ha hb hc hd =
    rw (scan_two a b ((48 + c) ∷ (48 + d) ∷ []) ha hb, parse_time_minutes)
      (rw (scan_last_two c d hc hd)
        (minutes_fit (a * 10 + b) (c * 10 + d) (omega arith) (omega arith)))

-- How far the minute `m` of a day lies behind the minute `start`, going forward over midnight.
abbrev pub minutes_since : ℕ → ℕ → ℕ
minutes_since start m = (m + 1440 - start) % 1440

-- An entry whose texts read as minutes of a day covers, on its weekdays, the minutes from its start
-- forward to its end, both included, also over midnight.
pub entry_matches_lem :
    (entry : Entry) (weekday : Weekday) (start end m : ℕ)
    → parse_time_minutes entry.start ≡ pos start
    → parse_time_minutes entry.end ≡ pos end
    → start < 1440
    → end < 1440
    → m < 1440
    → entry_matches entry weekday (pos m)
      ≡ (contains_day entry.days weekday && leb (minutes_since start m) (minutes_since start end))
unfolding entry_matches
entry_matches_lem entry weekday start end m es ee hs he hm = rw (es, ee) (ground arith)
