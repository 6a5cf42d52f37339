-- ===== src/Metrics/Store/Sorted.antt =====
-- The order of a series (internal/metrics/store.go): what the binary searches of `Add` and of
-- `pruneSamples` rely on, and what they come to on a series in order.
use ninjascale.Prelude.{
  ℕ, zero, suc, ◌≤◌, ◌<◌, ◌≡◌, refl, true, inl, inr, List, [], ◌∷◌, Option, none, some, arith,
  if◌then◌else◌, ◌==◌, leb, ◌<ℤ◌, ◌≤ℤ◌, leb→le, length-drop, sym, eqb_ℤ, length, drop, last?,
  select, All, All-map, Bool-cases, IsPartitioned, prefix_len, prefix_len-le, search_slice-eq,
  drop-prefix_len, drop-length, ==_iff,
}
use ninjascale.Time.{Time, before}
use ninjascale.Metrics.{Sample}
use ninjascale.Metrics.Store.{not_before, put_at, put_sample, last_only, prune_at, prune_samples}

module _ {V : Type 0} where
  -- Every sample of the list is later than `t`.
  abbrev pub Later : Time → List (Sample V) → Type 0
  Later t = All (λ v. t <ℤ v.observed_at)

  -- Strictly increasing in event time.
  abbrev pub IsSorted : List (Sample V) → Type 0
  IsSorted [] = Unit
  IsSorted (v ∷ vs) = Later v.observed_at vs × IsSorted vs

  pub IsSorted-IsPartitioned :
      (t : Time) (vs : List (Sample V)) → IsSorted vs → IsPartitioned (not_before t) vs
  IsSorted-IsPartitioned t [] h = tt
  IsSorted-IsPartitioned t (v ∷ vs) h = (
    λ e.
        All-map (λ w. v.observed_at <ℤ w.observed_at) (λ w. not_before t w ≡ true) vs
          (λ w lt. ground arith) h.0,
    IsSorted-IsPartitioned t vs h.1,
  )

  -- The insertion that `Add` means: before the first later sample, in place of an equal one.
  abbrev pub insert_sorted : Sample V → List (Sample V) → List (Sample V)
  insert_sorted s [] = s ∷ []
  insert_sorted s (v ∷ vs) =
      let rest = insert_sorted s vs in
      if before v.observed_at s.observed_at
      then v ∷ rest
      else if eqb_ℤ v.observed_at s.observed_at
      then s ∷ vs
      else s ∷ (v ∷ vs)

  put_at-eq :
      (s : Sample V) (vs : List (Sample V))
      → put_at s vs (prefix_len (not_before s.observed_at) vs) ≡ insert_sorted s vs
  put_at-eq s [] = refl
  put_at-eq s (v ∷ vs) = ground (arith, put_at-eq s vs)

  pub put_sample-eq :
      (s : Sample V) (vs : List (Sample V)) → IsSorted vs → put_sample s vs ≡ insert_sorted s vs
  unfolding put_sample
  put_sample-eq s vs h =
      rw (search_slice-eq _ vs (IsSorted-IsPartitioned s.observed_at vs h)) (put_at-eq s vs)

  Later-insert_sorted :
      (t : Time) (s : Sample V) (vs : List (Sample V))
      → t <ℤ s.observed_at
      → Later t vs
      → Later t (insert_sorted s vs)
  Later-insert_sorted t s [] lt h = (lt, tt)
  Later-insert_sorted t s (v ∷ vs) lt h = ground (arith, Later-insert_sorted t s vs lt h.1)

  Later-trans : (t u : Time) (vs : List (Sample V)) → t <ℤ u → Later u vs → Later t vs
  Later-trans t u vs lt h =
      All-map (λ w. u <ℤ w.observed_at) (λ w. t <ℤ w.observed_at) vs (λ w k. omega arith) h

  Later-same : (t u : Time) (vs : List (Sample V)) → u ≤ℤ t → Later t vs → Later u vs
  Later-same t u vs le h =
      All-map (λ w. t <ℤ w.observed_at) (λ w. u <ℤ w.observed_at) vs (λ w k. omega arith) h

  pub insert_sorted-IsSorted :
      (s : Sample V) (vs : List (Sample V)) → IsSorted vs → IsSorted (insert_sorted s vs)
  insert_sorted-IsSorted s [] h = (tt, tt)
  insert_sorted-IsSorted s (v ∷ vs) h = elim (Bool-cases (before v.observed_at s.observed_at)) [
    | inl e ↦
        rw e (
          Later-insert_sorted v.observed_at s vs (ground arith) h.0,
          insert_sorted-IsSorted s vs h.1,
        )
    | inr e ↦ elim (Bool-cases (eqb_ℤ v.observed_at s.observed_at)) [
      | inl q ↦ rw (e, q) (Later-same v.observed_at s.observed_at vs (ground arith) h.0, h.1)
      | inr q ↦
          rw (e, q)
            ((ground arith, Later-trans s.observed_at v.observed_at vs (ground arith) h.0), h)
    ]
  ]

  pub put_sample-IsSorted :
      (s : Sample V) (vs : List (Sample V)) → IsSorted vs → IsSorted (put_sample s vs)
  put_sample-IsSorted s vs h = rw (put_sample-eq s vs h) (insert_sorted-IsSorted s vs h)

  -- The value that a series shows at an instant.
  abbrev pub at_instant : Time → List (Sample V) → Option (Sample V)
  at_instant t [] = none
  at_instant t (v ∷ vs) = if eqb_ℤ v.observed_at t then some v else at_instant t vs

  at_instant-insert_sorted :
      (t : Time) (s : Sample V) (vs : List (Sample V))
      → at_instant t (insert_sorted s vs)
        ≡ (if eqb_ℤ s.observed_at t then some s else at_instant t vs)
  at_instant-insert_sorted t s [] = refl
  at_instant-insert_sorted t s (v ∷ vs) = ground (arith, at_instant-insert_sorted t s vs)

  -- A series in order stays in order when a sample is put in its place, and then shows that sample
  -- at its instant, and what it showed before at every other instant.
  pub put_sample_lem :
      (s : Sample V) (vs : List (Sample V))
      → IsSorted vs
      → IsSorted (put_sample s vs)
        × ((t : Time)
            → at_instant t (put_sample s vs)
              ≡ (if eqb_ℤ s.observed_at t then some s else at_instant t vs))
  put_sample_lem s vs h =
      (put_sample-IsSorted s vs h, λ t. rw (put_sample-eq s vs h) (at_instant-insert_sorted t s vs))

  -- The samples that are not before the cutoff, or the newest alone if there are none.
  abbrev pub or_last : List (Sample V) → List (Sample V) → List (Sample V)
  or_last values [] = last_only values (last? values)
  or_last values (v ∷ vs) = v ∷ vs

  or_last_self : (vs : List (Sample V)) → or_last vs vs ≡ vs
  or_last_self [] = refl
  or_last_self (v ∷ vs) = refl

  or_last_nonempty : (vs ws : List (Sample V)) → 0 < length ws → or_last vs ws ≡ ws
  or_last_nonempty vs [] h = absurd (omega arith)
  or_last_nonempty vs (w ∷ ws) h = refl

  short_drop : (vs : List (Sample V)) (n : ℕ) → length vs ≤ 1 → vs ≡ or_last vs (drop n vs)
  short_drop [] zero h = refl
  short_drop [] (suc n) h = refl
  short_drop (v ∷ []) zero h = refl
  short_drop (v ∷ []) (suc zero) h = refl
  short_drop (v ∷ []) (suc (suc n)) h = refl
  short_drop (v ∷ w ∷ vs) n h = absurd (omega arith)

  prune_at-eq :
      (vs ws : List (Sample V)) (n : ℕ)
      → n ≤ length vs
      → drop n vs ≡ ws
      → (if leb (length vs) 1 then vs else prune_at vs n) ≡ or_last vs ws
  prune_at-eq vs ws n le e = rw (← e) (elim (Bool-cases (leb (length vs) 1)) [
    | inl short ↦ rw short (short_drop vs n (leb→le _ 1 short))
    | inr long ↦ rw long (elim (Bool-cases (n == 0)) [
      | inl z ↦ rw ((==_iff n 0).0 z) (sym (or_last_self vs))
      | inr nz ↦ elim (Bool-cases (n == length vs)) [
        | inl q ↦
            let d : drop n vs ≡ [] = rw ((==_iff n (length vs)).0 q) (drop-length vs) in
            rw (nz, q, d) refl
        | inr q ↦
            rw (nz, q)
              (sym (
                or_last_nonempty vs (drop n vs)
                  (let lt : n < length vs = ground arith in omega (arith, length-drop n vs))))
      ]
    ])
  ])

  -- Pruning a series in order keeps the samples that are not before the cutoff, in their order, or
  -- the newest sample alone where all are before it.
  pub prune_samples_lem :
      (vs : List (Sample V)) (cutoff : Time)
      → IsSorted vs
      → prune_samples vs cutoff ≡ or_last vs (select (not_before cutoff) vs)
  unfolding prune_samples
  prune_samples_lem vs cutoff h =
      let part : IsPartitioned (not_before cutoff) vs = IsSorted-IsPartitioned cutoff vs h in
      rw (search_slice-eq _ vs part) (
        prune_at-eq vs (select (not_before cutoff) vs) (prefix_len (not_before cutoff) vs)
          (prefix_len-le _ vs) (drop-prefix_len _ vs part))
