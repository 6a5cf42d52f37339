-- ===== src/Prelude/Words.antt =====
-- The fixed widths of Go's `int`, `int32` and `time.Duration`: wrapping, quotient and remainder.
use Prim.Native.Nat.{◌/◌, zero, ◌*◌, ℕ, suc, ◌-◌, ◌%◌, ◌^◌, ◌≤◌, ◌<◌}
use mathlib.Core.Path.{◌≡◌}
use native.Mathlib.Omega.{arith}
use ninjascale.Prelude.Int.{◌-ℤ◌, ◌*ℤ◌, pos-*ℤ-pos, ℤ, pos, negsuc, pos_part, neg_part, sub_ℕ, ◌+ℤ◌}

-- The remainder that is never negative, for a modulus above 0.
unfoldable pub emod : ℤ → ℕ → ℕ
emod (pos n) m = n % m
emod (negsuc n) m = m - 1 - n % m

-- Go's `/` and `%` on signed integers: both round towards zero. (At a divisor of 0 Go panics.)
abbrev negate : ℤ → ℤ
negate z = sub_ℕ (neg_part z) (pos_part z)

unfoldable pub quot : ℤ → ℤ → ℤ
quot (pos m) (pos n) = pos (m / n)
quot (negsuc m) (pos n) = negate (pos (suc m / n))
quot (pos m) (negsuc n) = negate (pos (m / suc n))
quot (negsuc m) (negsuc n) = pos (suc m / suc n)

unfoldable pub rem : ℤ → ℤ → ℤ
rem (pos m) (pos n) = pos (m % n)
rem (negsuc m) (pos n) = negate (pos (suc m % n))
rem (pos m) (negsuc n) = pos (m % suc n)
rem (negsuc m) (negsuc n) = negate (pos (suc m % suc n))

-- A value of 64 bits (`int`, `int64`, `time.Duration`), and of 32, with wrap-around.
unfoldable pub int64 : ℤ → ℤ
unfolding emod ◌+ℤ◌
int64 z = sub_ℕ (emod (z +ℤ pos (2 ^ 63)) (2 ^ 64)) (2 ^ 63)

unfoldable pub int32 : ℤ → ℤ
unfolding emod ◌+ℤ◌
int32 z = sub_ℕ (emod (z +ℤ pos (2 ^ 31)) (2 ^ 32)) (2 ^ 31)

abbrev pub IsInt64 : ℤ → Type 0
IsInt64 z = (pos_part z < 2 ^ 63) × (neg_part z ≤ 2 ^ 63)

abbrev pub IsInt32 : ℤ → Type 0
IsInt32 z = (pos_part z < 2 ^ 31) × (neg_part z ≤ 2 ^ 31)

pub int64-eq : (z : ℤ) → IsInt64 z → int64 z ≡ z
unfolding int64
int64-eq (pos n) h = ground arith
int64-eq (negsuc n) h = ground arith

pub int32-eq : (z : ℤ) → IsInt32 z → int32 z ≡ z
unfolding int32
int32-eq (pos n) h = ground arith
int32-eq (negsuc n) h = ground arith

pub int64-IsInt64 : (z : ℤ) → IsInt64 (int64 z)
unfolding int64
int64-IsInt64 (pos n) = ground arith
int64-IsInt64 (negsuc n) = ground arith

pub int32-IsInt32 : (z : ℤ) → IsInt32 (int32 z)
unfolding int32
int32-IsInt32 (pos n) = ground arith
int32-IsInt32 (negsuc n) = ground arith

pub emod-lt : (z : ℤ) (m : ℕ) → 0 < m → emod z m < m
unfolding emod
emod-lt (pos n) m h = omega arith
emod-lt (negsuc n) m h = omega arith

-- A product of two 64-bit values that fits is the product.
pub int64-* : (m n : ℕ) → m * n < 2 ^ 63 → int64 (pos m *ℤ pos n) ≡ pos (m * n)
int64-* m n h = rw (pos-*ℤ-pos m n) (int64-eq (pos (m * n)) (h, omega arith))

neg-*ℤ : (m n : ℕ) → (pos 0 -ℤ pos m) *ℤ pos n ≡ pos 0 -ℤ pos (m * n)
unfolding ◌-ℤ◌ ◌*ℤ◌
neg-*ℤ zero n = ground arith
neg-*ℤ (suc m) n = ground arith

-- `-m * n`, as the product of the negated number.
pub int64-neg-* :
    (m n : ℕ)
    → m < 2 ^ 63
    → m * n < 2 ^ 63
    → int64 (int64 (pos 0 -ℤ pos m) *ℤ pos n) ≡ pos 0 -ℤ pos (m * n)
int64-neg-* m n hm h =
    rw (int64-eq (pos 0 -ℤ pos m) (fits m hm), neg-*ℤ m n)
      (int64-eq (pos 0 -ℤ pos (m * n)) (fits (m * n) h))
  where
    fits : (k : ℕ) → k < 2 ^ 63 → IsInt64 (pos 0 -ℤ pos k)
    fits k le = unfold ◌-ℤ◌ in ground arith
