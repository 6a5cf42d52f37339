-- ===== src/Metrics/Buckets/Window.antt =====
-- One bucket of `CompleteBuckets` (internal/metrics/store.go): the two binary searches find the
-- latest sample of the half-open interval.
use ninjascale.Prelude.{
  ℕ, zero, suc, ◌-◌, ◌≤◌, ◌<◌, ◌≡◌, refl, sym, ap, ◌∙◌, Bool, true, false, not, ◌&&◌, inl, inr,
  List, [], ◌∷◌, none, some, arith, ◌==◌, ◌≤ℤ◌, ◌<ℤ◌, length, last?, get_elem?, select, All,
  All-map, Bool-cases, prefix_len, prefix_len-le, search_slice-eq,
}
use ninjascale.Time.{Time, before}
use ninjascale.Metrics.{Sample}
use ninjascale.Metrics.Store.{not_before}
use ninjascale.Metrics.Store.Sorted.{IsSorted, IsSorted-IsPartitioned}
use ninjascale.Metrics.Buckets.{bucket_of, sample_at, bucket_at}

module _ {ℓ} {A : Type ℓ} where
  last?-cons : (x y : A) (xs : List A) → last? xs ≡ some y → last? (x ∷ xs) ≡ some y
  last?-cons x y [] e = cc
  last?-cons x y (z ∷ xs) e = e

  last?-none : (xs : List A) → last? xs ≡ none → xs ≡ []
  last?-none [] e = refl
  last?-none (x ∷ []) e = cc
  last?-none (x ∷ y ∷ xs) e = cc (last?-none (y ∷ xs) e)

  get_elem?-some : (xs : List A) (i : ℕ) → i < length xs → (x : A) × (get_elem? xs i ≡ some x)
  get_elem?-some [] i h = elim h [ ]
  get_elem?-some (x ∷ xs) zero h = (x, refl)
  get_elem?-some (x ∷ xs) (suc i) h = get_elem?-some xs i (omega arith)

  prefix_len-zero : (p : A → Bool) (xs : List A) → All (λ x. p x ≡ true) xs → prefix_len p xs ≡ 0
  prefix_len-zero p [] h = refl
  prefix_len-zero p (x ∷ xs) h = rw h.0

  select-none : (p : A → Bool) (xs : List A) → All (λ x. p x ≡ false) xs → select p xs ≡ []
  select-none p [] h = refl
  select-none p (x ∷ xs) h = rw h.0 (select-none p xs h.1)

module _ {V : Type 0} where
  -- The samples of the bucket.
  abbrev pub in_bucket : Time → Time → Sample V → Bool
  in_bucket start end v = not (before v.observed_at start) && before v.observed_at end

  prefix_len_mono :
      (start end : Time) (vs : List (Sample V))
      → start ≤ℤ end
      → prefix_len (not_before start) vs ≤ prefix_len (not_before end) vs
  prefix_len_mono start end [] le = omega arith
  prefix_len_mono start end (v ∷ vs) le = ground (arith, prefix_len_mono start end vs le)

  -- The two indices at a series whose first sample is dropped.
  sample_at-suc :
      (v : Sample V) (vs : List (Sample V)) (f l : ℕ)
      → f ≤ l
      → sample_at (v ∷ vs) (suc f) (suc l) ≡ sample_at vs f l
  sample_at-suc v vs f zero h = ground arith
  sample_at-suc v vs f (suc l) h =
      let e : suc (suc l) - 1 ≡ suc l = omega arith in
      let e' : suc l - 1 ≡ l = omega arith in
      elim (Bool-cases (f == suc l)) [
        | inl q ↦ let q' : (suc f == suc (suc l)) ≡ true = ground arith in rw (q, q')
        | inr q ↦ let q' : (suc f == suc (suc l)) ≡ false = ground arith in rw (q, q', e, e')
      ]

  -- A first sample inside the bucket: it counts unless a later one is inside too.
  sample_at-first :
      (v : Sample V) (vs ys : List (Sample V)) (l : ℕ)
      → l ≤ length vs
      → sample_at vs 0 l ≡ last? ys
      → sample_at (v ∷ vs) 0 (suc l) ≡ last? (v ∷ ys)
  sample_at-first v vs ys zero h e = rw (last?-none ys (sym e))
  sample_at-first v vs ys (suc l) h e =
      let (x, found) = get_elem?-some vs l (omega arith) in
      let e' : sample_at vs 0 (suc l) ≡ some x = ground arith in
      let e'' : sample_at (v ∷ vs) 0 (suc (suc l)) ≡ some x = ground arith in
      e'' ∙ sym (last?-cons v x ys (sym e ∙ e'))

  late_bucket :
      (start end : Time) (vs : List (Sample V))
      → All (λ v. end ≤ℤ v.observed_at) vs
      → select (in_bucket start end) vs ≡ []
  late_bucket start end vs h = select-none _ vs (
      All-map (λ v. end ≤ℤ v.observed_at) (λ v. in_bucket start end v ≡ false) vs
        (λ v le. ground arith) h)

  sample_at-lem :
      (start end : Time) (vs : List (Sample V))
      → start ≤ℤ end
      → IsSorted vs
      → sample_at vs (prefix_len (not_before start) vs) (prefix_len (not_before end) vs)
        ≡ last? (select (in_bucket start end) vs)
  sample_at-lem start end [] le s = refl
  sample_at-lem start end (v ∷ vs) le s =
      let ih : sample_at vs (prefix_len (not_before start) vs) (prefix_len (not_before end) vs)
          ≡ last? (select (in_bucket start end) vs) =
        sample_at-lem start end vs le s.1 in
      elim (Bool-cases (before v.observed_at start)) [
        | inl early ↦
            let early' : before v.observed_at end ≡ true = ground arith in
            rw (early, early') (sample_at-suc v vs _ _ (prefix_len_mono start end vs le) ∙ ih)
        | inr on ↦
            let zero_first : prefix_len (not_before start) vs ≡ 0 = prefix_len-zero _ vs (
              All-map (λ w. v.observed_at <ℤ w.observed_at) (λ w. not_before start w ≡ true) vs
                (λ w lt. ground arith) s.0) in
            elim (Bool-cases (before v.observed_at end)) [
              | inl inside ↦
                  rw (on, inside)
                    (sample_at-first v vs (select (in_bucket start end) vs) _
                      (prefix_len-le (not_before end) vs) (rw zero_first at ih))
              | inr late ↦
                  rw (on, late)
                    (sym (
                      ap last? (
                        late_bucket start end vs (
                          All-map (λ w. v.observed_at <ℤ w.observed_at) (λ w. end ≤ℤ w.observed_at)
                            vs (λ w lt. ground arith) s.0))))
            ]
      ]

  -- For a series in order and an interval that does not end before it starts, the bucket that the
  -- searches give is the latest sample of the interval, with the interval, if there is one.
  pub bucket_at_lem :
      (values : List (Sample V)) (start end : Time)
      → start ≤ℤ end
      → IsSorted values
      → bucket_at values start end
        ≡ bucket_of start end (last? (select (in_bucket start end) values))
  unfolding bucket_at
  bucket_at_lem values start end le s = rw (
    search_slice-eq _ values (IsSorted-IsPartitioned start values s),
    search_slice-eq _ values (IsSorted-IsPartitioned end values s),
    sample_at-lem start end values le s,
  )
