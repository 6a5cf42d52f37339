-- ===== src/Metrics/Buckets/Gaps.antt =====
-- The slots of a window without a bucket, and the start of its oldest slot (internal/metrics/store.go,
-- `CompleteBuckets`).
use ninjascale.Prelude.{
  ℕ, zero, suc, ◌+◌, ◌*◌, ◌^◌, ◌<◌, ◌≡◌, refl, Bool, true, false, ◌&&◌, inl, inr, List, [], ◌∷◌,
  map, Option, none, some, arith, if◌then◌else◌, ◌==◌, ltb, pos, ◌+ℤ◌, ◌-ℤ◌, ◌≤ℤ◌, length, last?,
  all, any, is_empty, Bool-cases, int64-*, int64-neg-*, +ℤ_parts,
}
use ninjascale.Time.{Time, before, truncate}
use ninjascale.Metrics.{BucketStatus, complete, stale, gap, incomplete}
use ninjascale.Metrics.Buckets.{bucket_start, oldest_start, starts_before, is_last}

module _ {ℓ} {A : Type ℓ} where
  abbrev pub is_some : Option A → Bool
  is_some none = false
  is_some (some a) = true

  abbrev pub is_none : Option A → Bool
  is_none none = true
  is_none (some a) = false

  -- The values that are there.
  abbrev pub present : List (Option A) → List A
  present [] = []
  present (none ∷ xs) = present xs
  present (some a ∷ xs) = a ∷ present xs

  abbrev pub newest_missing : List (Option A) → Bool
  newest_missing [] = false
  newest_missing (x ∷ []) = is_none x
  newest_missing (x ∷ y ∷ xs) = newest_missing (y ∷ xs)

  abbrev pub holes : ℕ → List (Option A) → List ℕ
  holes i [] = []
  holes i (none ∷ xs) = i ∷ holes (suc i) xs
  holes i (some a ∷ xs) = holes (suc i) xs

  -- The status that the empty slots of a window mean.
  abbrev pub status_of : List (Option A) → BucketStatus
  status_of [] = complete
  status_of (x ∷ xs) =
      if is_some x && all is_some xs
      then complete
      else if newest_missing (x ∷ xs)
      then stale
      else if any is_none xs
      then gap
      else incomplete

  pub holes-all : (i : ℕ) (xs : List (Option A)) → (length (holes i xs) == 0) ≡ all is_some xs
  holes-all i [] = refl
  holes-all i (none ∷ xs) = ground arith
  holes-all i (some a ∷ xs) = holes-all (suc i) xs

  pub holes-newest :
      (i j : ℕ) (xs : List (Option A))
      → i + length xs ≡ j
      → is_last j (last? (holes i xs)) ≡ newest_missing xs
  holes-newest i j [] e = refl
  holes-newest i j (none ∷ []) e = ground arith
  holes-newest i j (some a ∷ []) e = refl
  holes-newest i j (some a ∷ y ∷ xs) e = holes-newest (suc i) j (y ∷ xs) (omega arith)
  holes-newest i j (none ∷ y ∷ xs) e =
      keep (holes (suc i) (y ∷ xs)) (holes-newest (suc i) j (y ∷ xs) (omega arith))
    where
      keep :
          (hs : List ℕ)
          → is_last j (last? hs) ≡ newest_missing (y ∷ xs)
          → is_last j (last? (i ∷ hs)) ≡ newest_missing (y ∷ xs)
      keep [] q = ground arith
      keep (h ∷ hs) q = q

  pub holes-gap :
      (i : ℕ) (xs : List (Option A)) → any (λ n. ltb 0 n) (holes (suc i) xs) ≡ any is_none xs
  holes-gap i [] = refl
  holes-gap i (none ∷ xs) = ground arith
  holes-gap i (some a ∷ xs) = holes-gap (suc i) xs

  pub any-none : (xs : List (Option A)) → all is_some xs ≡ false → any is_none xs ≡ true
  any-none [] e = cc
  any-none (none ∷ xs) e = refl
  any-none (some a ∷ xs) e = any-none xs e

  pub map-present : (xs : List (Option A)) → all is_some xs ≡ true → map some (present xs) ≡ xs
  map-present [] e = refl
  map-present (none ∷ xs) e = cc
  map-present (some a ∷ xs) e = cc (map-present xs e)

-- Where the window begins.
abbrev pub window_start : Time → ℕ → ℕ → Time
window_start now w count = truncate now (pos w) +ℤ (pos 0 -ℤ pos (count * w))

pub oldest_start-eq :
    (now : Time) (w count : ℕ)
    → count < 2 ^ 63
    → count * w < 2 ^ 63
    → oldest_start now (pos w) (pos count) ≡ window_start now w count
unfolding oldest_start
oldest_start-eq now w count hc h = rw (int64-neg-* count w hc h)

pub length-is_empty {ℓ} : {A : Type ℓ} (xs : List A) → (length xs == 0) ≡ is_empty xs
length-is_empty [] = refl
length-is_empty (x ∷ xs) = ground arith

pub bucket_start-eq :
    (oldest : Time) (w i : ℕ)
    → i * w < 2 ^ 63
    → bucket_start oldest (pos w) i ≡ oldest +ℤ pos (i * w)
unfolding bucket_start
bucket_start-eq oldest w i h = rw (int64-* i w h)

-- The starts increase, so the first one decides.
starts_before-late :
    (oldest cutoff : Time) (w i n : ℕ)
    → (i + n) * w < 2 ^ 63
    → cutoff ≤ℤ oldest
    → starts_before oldest (pos w) cutoff i n ≡ false
unfolding starts_before
starts_before-late oldest cutoff w i zero fits h = refl
starts_before-late oldest cutoff w i (suc n) fits h =
    let rest = starts_before-late oldest cutoff w (suc i) n (grind arith) h in
    rw (bucket_start-eq oldest w i (grind arith))
      (ground (arith, rest, +ℤ_parts oldest (pos (i * w))))

pub starts_before-eq :
    (oldest cutoff : Time) (w n : ℕ)
    → suc n * w < 2 ^ 63
    → starts_before oldest (pos w) cutoff 0 (suc n) ≡ before oldest cutoff
unfolding starts_before
starts_before-eq oldest cutoff w n fits = elim (Bool-cases (before oldest cutoff)) [
  | inl e ↦
      rw (bucket_start-eq oldest w 0 (omega arith)) (ground (arith, +ℤ_parts oldest (pos (0 * w))))
  | inr e ↦ rw e (starts_before-late oldest cutoff w 0 (suc n) (grind arith) (ground arith))
]
