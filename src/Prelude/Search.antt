-- ===== src/Prelude/Search.antt =====
-- Go's `sort.Search`: the binary search of the standard library over an index predicate.
use Prim.Native.Nat.{ℕ, zero, suc, ◌+◌, ◌/◌, ◌≤◌, ◌<◌}
use mathlib.Core.Path.{◌≡◌, refl}
use mathlib.Core.Bool.{Bool, true, false}
use mathlib.Core.Logic.{inl, inr}
use native.Mathlib.Omega.{arith}
use ninjascale.Prelude.Tests.{ltb, if◌then◌else◌, Bool-cases}
use mathlib.Core.List.{List, [], ◌∷◌}
use mathlib.Core.Option.{Option, none, some}
use ninjascale.Prelude.Lists.{length, get_elem?, All, drop, select, select-All}

-- `for i < j { h := (i+j)/2; if !f(h) { i = h+1 } else { j = h } }; return i`, on fuel.
unfoldable pub search_loop : ℕ → (ℕ → Bool) → ℕ → ℕ → ℕ
search_loop zero f i j = i
search_loop (suc fuel) f i j =
    let h = (i + j) / 2 in
    let left = search_loop fuel f i h in
    let right = search_loop fuel f (h + 1) j in if ltb i j then (if f h then left else right) else i

-- `sort.Search(n, f)`.
unfoldable pub search_index : ℕ → (ℕ → Bool) → ℕ
unfolding search_loop
search_index n f = search_loop n f 0 n

-- The loop finds the point `r` at which `f` turns from false to true.
search_loop-eq :
    (fuel : ℕ) (f : ℕ → Bool) (i j r : ℕ)
    → ((k : ℕ) → k < r → f k ≡ false)
    → ((k : ℕ) → r ≤ k → k < j → f k ≡ true)
    → i ≤ r
    → r ≤ j
    → j ≤ fuel + i
    → search_loop fuel f i j ≡ r
unfolding search_loop
search_loop-eq zero f i j r below above lo hi enough = omega arith
search_loop-eq (suc fuel) f i j r below above lo hi enough =
    let h : ℕ = (i + j) / 2 in
    elim (Bool-cases (ltb i j)) [
      | inr e ↦ rw e (ground arith)
      | inl e ↦ elim (Bool-cases (f h)) [
        | inl t ↦
            rw (e, t)
              (search_loop-eq fuel f i h r below (λ k lo' hi'. above k lo' (ground arith)) lo
                (ground (arith, below h)) (ground arith))
        | inr t ↦
            rw (e, t)
              (search_loop-eq fuel f (h + 1) j r below above (ground (arith, above h)) hi
                (ground arith))
      ]
    ]

-- An item's test at an index; `sort.Search` never asks for one out of range.
abbrev pub test_at {ℓ} : {A : Type ℓ} → (A → Bool) → Option A → Bool
test_at p none = false
test_at p (some a) = p a

-- `sort.Search(len(values), func(i int) bool { return p(values[i]) })`.
unfoldable pub search_slice {ℓ} : {A : Type ℓ} → (A → Bool) → List A → ℕ
unfolding search_index
search_slice p xs = search_index (length xs) (λ i. test_at p (get_elem? xs i))

-- How many items stand before the first that passes the test.
abbrev pub prefix_len {ℓ} : {A : Type ℓ} → (A → Bool) → List A → ℕ
prefix_len p [] = 0
prefix_len p (x ∷ xs) = let rest = prefix_len p xs in if p x then 0 else suc rest

-- Behind an item that passes, every item passes.
abbrev pub IsPartitioned {ℓ} : {A : Type ℓ} → (A → Bool) → List A → Type 0
IsPartitioned p [] = Unit
IsPartitioned p (x ∷ xs) = (p x ≡ true → All (λ y. p y ≡ true) xs) × IsPartitioned p xs

module _ {ℓ} {A : Type ℓ} (p : A → Bool) where
  pub prefix_len-le : (xs : List A) → prefix_len p xs ≤ length xs
  prefix_len-le [] = omega arith
  prefix_len-le (x ∷ xs) = ground (arith, prefix_len-le xs)

  before_prefix : (xs : List A) (k : ℕ) → k < prefix_len p xs → test_at p (get_elem? xs k) ≡ false
  before_prefix [] k h = elim h [ ]
  before_prefix (x ∷ xs) zero h = ground arith
  before_prefix (x ∷ xs) (suc k) h = ground (arith, before_prefix xs k)

  All-at :
      (xs : List A) (k : ℕ)
      → All (λ y. p y ≡ true) xs
      → k < length xs
      → test_at p (get_elem? xs k) ≡ true
  All-at [] k a h = elim h [ ]
  All-at (x ∷ xs) zero a h = a.0
  All-at (x ∷ xs) (suc k) a h = All-at xs k a.1 (omega arith)

  after_prefix :
      (xs : List A) (k : ℕ)
      → IsPartitioned p xs
      → prefix_len p xs ≤ k
      → k < length xs
      → test_at p (get_elem? xs k) ≡ true
  after_prefix [] k part lo hi = elim hi [ ]
  after_prefix (x ∷ xs) zero part lo hi = ground arith
  after_prefix (x ∷ xs) (suc k) part lo hi = elim (Bool-cases (p x)) [
    | inl e ↦ All-at xs k (part.0 e) (omega arith)
    | inr e ↦ after_prefix xs k part.1 (ground arith) (omega arith)
  ]

  -- The binary search is the linear search, where the test is monotone along the slice.
  pub search_slice-eq : (xs : List A) → IsPartitioned p xs → search_slice p xs ≡ prefix_len p xs
  unfolding search_slice
  search_slice-eq xs part =
      search_loop-eq (length xs) _ 0 (length xs) (prefix_len p xs) (before_prefix xs)
        (λ k lo hi. after_prefix xs k part lo hi) (omega arith) (prefix_len-le xs) (omega arith)

  -- What stands behind the point that the search finds is what passes the test.
  pub drop-prefix_len : (xs : List A) → IsPartitioned p xs → drop (prefix_len p xs) xs ≡ select p xs
  drop-prefix_len [] part = refl
  drop-prefix_len (x ∷ xs) part = elim (Bool-cases (p x)) [
    | inl e ↦ rw (e, select-All p xs (part.0 e))
    | inr e ↦ rw e (drop-prefix_len xs part.1)
  ]
