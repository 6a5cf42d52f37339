-- ===== src/Time.antt =====
-- Go's `time.Time` and `time.Duration`, as far as the program uses them. An instant is its number
-- of nanoseconds since Go's zero time (year 1, UTC) and a duration its nanoseconds; instants have
-- no bound, and a duration that the program computes is wrapped to 64 bits where it is computed.
use ninjascale.Prelude.{
  ℕ, ◌-◌, ◌*◌, ◌^◌, ◌<◌, ◌≡◌, Bool, arith, if◌then◌else◌, ℤ, pos, negsuc, pos_part, neg_part, ◌+ℤ◌,
  ◌-ℤ◌, ◌≤ℤ◌, ◌<ℤ◌, ltb_ℤ, leb_ℤ, eqb_ℤ, emod, emod-lt, +ℤ_parts, -ℤ_parts,
}

abbrev pub Time : Type 0
Time = ℤ

abbrev pub Duration : Type 0
Duration = ℤ

abbrev pub zero_time : Time
zero_time = pos 0

abbrev pub second : ℕ
second = 1000000000

abbrev pub seconds : ℕ → Duration
seconds n = pos (n * 1000000000)

-- `t.IsZero()`, `t.Before(u)`, `t.After(u)`, `t.Equal(u)`.
abbrev pub is_zero : Time → Bool
is_zero t = eqb_ℤ t zero_time

abbrev pub before : Time → Time → Bool
before t u = ltb_ℤ t u

abbrev pub after : Time → Time → Bool
after t u = ltb_ℤ u t

-- `t.Sub(u)` stops at the least and the greatest duration.
unfoldable pub saturate : ℤ → Duration
saturate d =
    if leb_ℤ (pos (2 ^ 63)) d
    then pos (2 ^ 63 - 1)
    else if ltb_ℤ d (negsuc (2 ^ 63 - 1))
    then negsuc (2 ^ 63 - 1)
    else d

unfoldable pub sub : Time → Time → Duration
unfolding saturate
sub t u = saturate (t -ℤ u)

-- `t.Truncate(d)`: down to a multiple of `d` since the zero time.
unfoldable pub truncate : Time → Duration → Time
truncate t d = if leb_ℤ d (pos 0) then t else t -ℤ pos (emod t (pos_part d))

-- A duration of 64 bits, above the least.
abbrev pub IsDuration : Duration → Type 0
IsDuration d = (pos_part d < 2 ^ 63) × (neg_part d < 2 ^ 63)

saturate-ge : (d z : ℤ) → IsDuration d → leb_ℤ d (saturate z) ≡ leb_ℤ d z
unfolding saturate
saturate-ge (pos d) (pos z) h = ground arith
saturate-ge (pos d) (negsuc z) h = ground arith
saturate-ge (negsuc d) (pos z) h = ground arith
saturate-ge (negsuc d) (negsuc z) h = ground arith

-- Saturation does not show when a difference is compared with a duration.
pub sub-ge : (t u : Time) (d : Duration) → IsDuration d → leb_ℤ d (sub t u) ≡ leb_ℤ d (t -ℤ u)
unfolding sub
sub-ge t u d h = saturate-ge d (t -ℤ u) h

-- The truncated instant is the last multiple that is not after `t`.
pub truncate_bounds :
    (t : Time) (w : ℕ) → 0 < w → (truncate t (pos w) ≤ℤ t) × (t <ℤ truncate t (pos w) +ℤ pos w)
unfolding truncate
truncate_bounds t w h =
    ground
      (arith, -ℤ_parts t (pos (emod t w)), +ℤ_parts (t -ℤ pos (emod t w)) (pos w), emod-lt t w h)
