-- ===== src/Reconciler/Desired.antt =====
-- How the decisions of a service's policies become one count (internal/reconciler/reconciler.go,
-- `computeDesired` and `clamp`).
use ninjascale.Prelude.{
  ◌≡◌, refl, sym, ◌∙◌, true, false, inl, inr, ◌⊎◌, List, [], ◌∷◌, arith, if◌then◌else◌, ℤ, pos,
  ◌≤ℤ◌, ◌<ℤ◌, ltb_ℤ, lt→ltb_ℤ, ge→ltb_ℤ, leb_ℤ, any, All, Bool-cases,
}
use ninjascale.Policy.Decision.{ScaleDecision}
use ninjascale.Reconciler.{clamp, max_desired, downscale_target, compute_desired}

larger-cases :
    (best n : ℤ)
    → ((if ltb_ℤ best n then n else best) ≡ best) ⊎ ((if ltb_ℤ best n then n else best) ≡ n)
larger-cases best n = elim (Bool-cases (ltb_ℤ best n)) [ inl e ↦ inr (rw e) | inr e ↦ inl (rw e) ]

ap_le : {a b : ℤ} → a ≡ b → a ≤ℤ b
ap_le e = ground arith

module _ {V : Type 0} where
  -- Some decision asks for the count `r`.
  abbrev pub AskedFor : ℤ → List (ScaleDecision V) → Type 0
  AskedFor r [] = ⊥
  AskedFor r (d ∷ ds) = (d.desired_count ≡ r) ⊎ AskedFor r ds

  -- No decision asks for more than `r`.
  abbrev pub AtMost : ℤ → List (ScaleDecision V) → Type 0
  AtMost r = All (λ d. d.desired_count ≤ℤ r)

  max_desired-AtMost :
      (best : ℤ) (ds : List (ScaleDecision V))
      → (best ≤ℤ max_desired best ds) × AtMost (max_desired best ds) ds
  unfolding max_desired
  max_desired-AtMost best [] = (omega arith, tt)
  max_desired-AtMost best (d ∷ ds) =
      let best' : ℤ = if ltb_ℤ best d.desired_count then d.desired_count else best in
      let ih = max_desired-AtMost best' ds in
      let le : best ≤ℤ best' = ground arith in
      let le' : d.desired_count ≤ℤ best' = ground arith in
      (omega (arith, ih.0), (omega (arith, ih.0), ih.1))

  max_desired-AskedFor :
      (best : ℤ) (ds : List (ScaleDecision V))
      → (max_desired best ds ≡ best) ⊎ AskedFor (max_desired best ds) ds
  unfolding max_desired
  max_desired-AskedFor best [] = inl refl
  max_desired-AskedFor best (d ∷ ds) =
      let best' : ℤ = if ltb_ℤ best d.desired_count then d.desired_count else best in
      elim (max_desired-AskedFor best' ds) [
        | inr q ↦ inr (inr q)
        | inl q ↦ elim (larger-cases best d.desired_count) [
          | inl b ↦ inl (q ∙ b)
          | inr b ↦ inr (inl (sym (q ∙ b)))
        ]
      ]

  any_above :
      (current r : ℤ) (ds : List (ScaleDecision V))
      → AtMost r ds
      → any (λ d. ltb_ℤ current d.desired_count) ds ≡ true
      → current <ℤ r
  any_above current r [] h e = cc
  any_above current r (d ∷ ds) h e = ground (arith, any_above current r ds h.1)

  none_above :
      (current r : ℤ) (ds : List (ScaleDecision V))
      → AskedFor r ds
      → any (λ d. ltb_ℤ current d.desired_count) ds ≡ false
      → r ≤ℤ current
  none_above current r [] h e = elim h [ ]
  none_above current r (d ∷ ds) (inl q) e = ground arith
  none_above current r (d ∷ ds) (inr q) e = ground (arith, none_above current r ds q)

  -- The largest count is above the current one exactly when some decision is.
  above-eq :
      (current : ℤ) (ds : List (ScaleDecision V))
      → ltb_ℤ current (max_desired current ds) ≡ any (λ d. ltb_ℤ current d.desired_count) ds
  above-eq current ds =
      let most = max_desired-AtMost current ds in
      elim (Bool-cases (any (λ d. ltb_ℤ current d.desired_count) ds)) [
        | inl e ↦ rw e (lt→ltb_ℤ current _ (any_above current (max_desired current ds) ds most.1 e))
        | inr e ↦ rw e (
            ge→ltb_ℤ current _ (elim (max_desired-AskedFor current ds) [
              | inl q ↦ ap_le q
              | inr q ↦ none_above current (max_desired current ds) ds q e
            ]))
      ]

  downscale_target-hold :
      (current target : ℤ) (ds : List (ScaleDecision V))
      → any (λ d. leb_ℤ current d.desired_count) ds ≡ true
      → downscale_target current target ds ≡ current
  unfolding downscale_target
  downscale_target-hold current target [] e = cc
  downscale_target-hold current target (d ∷ ds) e = ground (
    arith,
    downscale_target-hold current (if ltb_ℤ target d.desired_count then d.desired_count else target)
        ds,
  )

  -- When every decision is below the current count the loop is the one for the maximum.
  downscale_target-eq :
      (current target : ℤ) (ds : List (ScaleDecision V))
      → any (λ d. leb_ℤ current d.desired_count) ds ≡ false
      → downscale_target current target ds ≡ max_desired target ds
  unfolding downscale_target max_desired
  downscale_target-eq current target [] e = refl
  downscale_target-eq current target (d ∷ ds) e = ground (
    arith,
    downscale_target-eq current (if ltb_ℤ target d.desired_count then d.desired_count else target)
        ds,
  )

  any_le_of_lt :
      (current : ℤ) (ds : List (ScaleDecision V))
      → any (λ d. leb_ℤ current d.desired_count) ds ≡ false
      → any (λ d. ltb_ℤ current d.desired_count) ds ≡ false
  any_le_of_lt current [] e = refl
  any_le_of_lt current (d ∷ ds) e = ground (arith, any_le_of_lt current ds)

  asked_above :
      (current : ℤ) (ds : List (ScaleDecision V))
      → any (λ d. ltb_ℤ current d.desired_count) ds ≡ true
      → AskedFor (max_desired current ds) ds
  asked_above current ds up =
      let most = max_desired-AtMost current ds in
      elim (max_desired-AskedFor current ds) [
        | inl q ↦
            let lt = any_above current (max_desired current ds) ds most.1 up in
            absurd (ground arith)
        | inr q ↦ q
      ]

  -- Scale-up wins: if a decision is above the current count, the result is above it too, is one of
  -- the counts that are asked for, and is the largest of them.
  pub compute_desired-up :
      (current : ℤ) (ds : List (ScaleDecision V))
      → any (λ d. ltb_ℤ current d.desired_count) ds ≡ true
      → (current <ℤ compute_desired current ds)
        × AtMost (compute_desired current ds) ds
        × AskedFor (compute_desired current ds) ds
  unfolding compute_desired
  compute_desired-up current ds up =
      let most = max_desired-AtMost current ds in
      rw (above-eq current ds, up)
        (any_above current (max_desired current ds) ds most.1 up, most.1, asked_above current ds up)

  -- If no decision is above the current count and one keeps it, the result is the current count,
  -- whatever the other decisions ask for.
  pub compute_desired-hold :
      (current : ℤ) (ds : List (ScaleDecision V))
      → any (λ d. ltb_ℤ current d.desired_count) ds ≡ false
      → any (λ d. leb_ℤ current d.desired_count) ds ≡ true
      → compute_desired current ds ≡ current
  unfolding compute_desired
  compute_desired-hold current ds no_up stay =
      rw (above-eq current ds, no_up) (downscale_target-hold current (pos 0) ds stay)

  -- If every decision is below the current count, the result is at least every count that is asked
  -- for, is not negative, and is 0 or one of those counts.
  pub compute_desired-down :
      (current : ℤ) (ds : List (ScaleDecision V))
      → any (λ d. leb_ℤ current d.desired_count) ds ≡ false
      → (pos 0 ≤ℤ compute_desired current ds)
        × AtMost (compute_desired current ds) ds
        × ((compute_desired current ds ≡ pos 0) ⊎ AskedFor (compute_desired current ds) ds)
  unfolding compute_desired
  compute_desired-down current ds down =
      let zero_most = max_desired-AtMost (pos 0) ds in
      rw
        (
          above-eq current ds,
          any_le_of_lt current ds down,
          downscale_target-eq current (pos 0) ds down,
        )
        (zero_most.0, zero_most.1, max_desired-AskedFor (pos 0) ds)

module _ {V : Type 0} where
  -- No decision asks for the current count or more.
  abbrev pub AreBelow : ℤ → List (ScaleDecision V) → Type 0
  AreBelow current = All (λ d. d.desired_count <ℤ current)

  not_any-AtMost :
      (current : ℤ) (ds : List (ScaleDecision V))
      → any (λ d. ltb_ℤ current d.desired_count) ds ≡ false
      → AtMost current ds
  not_any-AtMost current [] up = tt
  not_any-AtMost current (d ∷ ds) up = (ground arith, not_any-AtMost current ds (ground arith))

  any_le-AskedFor :
      (current : ℤ) (ds : List (ScaleDecision V))
      → any (λ d. ltb_ℤ current d.desired_count) ds ≡ false
      → any (λ d. leb_ℤ current d.desired_count) ds ≡ true
      → AskedFor current ds
  any_le-AskedFor current [] up stay = cc
  any_le-AskedFor current (d ∷ ds) up stay = elim (Bool-cases (leb_ℤ current d.desired_count)) [
    | inl e ↦ inl (ground arith)
    | inr e ↦ inr (any_le-AskedFor current ds (ground arith) (rw e at stay))
  ]

  any_le-AreBelow :
      (current : ℤ) (ds : List (ScaleDecision V))
      → any (λ d. leb_ℤ current d.desired_count) ds ≡ false
      → AreBelow current ds
  any_le-AreBelow current [] h = tt
  any_le-AreBelow current (d ∷ ds) h = (ground arith, any_le-AreBelow current ds (ground arith))

  -- The count that `computeDesired` gives is one of three. It is above the current count, and the
  -- largest that is asked for; or no decision is above the current count, one asks for it, and it is
  -- kept; or every decision is below the current count, and the result is the largest count that is
  -- asked for, but not below 0, which it is where no decision asks for more than 0.
  pub compute_desired_lem :
      (current : ℤ) (ds : List (ScaleDecision V))
      → ((current <ℤ compute_desired current ds)
          × AskedFor (compute_desired current ds) ds
          × AtMost (compute_desired current ds) ds)
        ⊎ (((compute_desired current ds ≡ current) × AskedFor current ds × AtMost current ds)
            ⊎ (AreBelow current ds
                × (pos 0 ≤ℤ compute_desired current ds)
                × AtMost (compute_desired current ds) ds
                × ((compute_desired current ds ≡ pos 0)
                    ⊎ AskedFor (compute_desired current ds) ds)))
  compute_desired_lem current ds = elim (Bool-cases (any (λ d. ltb_ℤ current d.desired_count) ds)) [
    | inl e ↦ let (more, most, asked) = compute_desired-up current ds e in inl (more, asked, most)
    | inr e ↦ elim (Bool-cases (any (λ d. leb_ℤ current d.desired_count) ds)) [
      | inl k ↦ inr (
          inl (
            compute_desired-hold current ds e k,
            any_le-AskedFor current ds e k,
            not_any-AtMost current ds e,
          ))
      | inr k ↦
          let (low, most, asked) = compute_desired-down current ds k in
          inr (inr (any_le-AreBelow current ds k, low, most, asked))
    ]
  ]

-- With bounds in order the clamped count lies in them.
pub clamp_lem : (n min max : ℤ) → min ≤ℤ max → (min ≤ℤ clamp n min max) × (clamp n min max ≤ℤ max)
unfolding clamp
clamp_lem n min max h = ground arith
