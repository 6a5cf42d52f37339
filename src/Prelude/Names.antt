-- ===== src/Prelude/Names.antt =====
-- Sets of names, as lists: a Go map from names to `true`.
use Prim.Native.String.{String}
use mathlib.Core.Path.{◌≡◌, subst, refl, sym}
use mathlib.Core.Logic.{◌≢◌, ◌⊎◌, inl, inr}
use mathlib.Core.Bool.{Bool, true, false, ◌||◌}
use mathlib.Core.List.{List, [], ◌∷◌}
use native.Mathlib.Omega.{arith}
use text.Mathlib.Text.{◌==◌ as str_eq}
use text.Mathlib.TextEquality.{eq_iff}
use ninjascale.Prelude.Tests.{Bool-cases}
use ninjascale.Prelude.Lists.{All}

abbrev pub is_in : String → List String → Bool
is_in x [] = false
is_in x (y ∷ ys) = str_eq y x || is_in x ys

abbrev pub In : String → List String → Type 0
In x [] = ⊥
In x (y ∷ ys) = (y ≡ x) ⊎ In x ys

-- No name twice.
abbrev pub Distinct : List String → Type 0
Distinct [] = Unit
Distinct (x ∷ xs) = (¬ In x xs) × Distinct xs

pub is_in-In : (x : String) (ys : List String) → is_in x ys ≡ true → In x ys
is_in-In x [] h = cc
is_in-In x (y ∷ ys) h = elim (Bool-cases (str_eq y x)) [
  | inl e ↦ inl ((eq_iff y x).0 e)
  | inr e ↦ inr (is_in-In x ys (ground arith))
]

pub In-is_in : (x : String) (ys : List String) → In x ys → is_in x ys ≡ true
In-is_in x [] h = elim h [ ]
In-is_in x (y ∷ ys) (inl e) = ground (arith, eq_iff y x)
In-is_in x (y ∷ ys) (inr h) = ground (arith, In-is_in x ys h)

pub str_ne : (a b : String) → str_eq a b ≡ false → a ≢ b
str_ne a b h e = ground (arith, eq_iff a b)

pub ne_str : (a b : String) → a ≢ b → str_eq a b ≡ false
ne_str a b h = elim (Bool-cases (str_eq a b)) [ inl e ↦ absurd (h ((eq_iff a b).0 e)) | inr e ↦ e ]

-- No name of the list is in the set.
abbrev pub IsFresh : List String → List String → Type 0
IsFresh seen = All (λ y. is_in y seen ≡ false)

pub All-In : (P : String → Type 0) (x : String) (xs : List String) → All P xs → In x xs → P x
All-In P x [] h i = elim i [ ]
All-In P x (y ∷ ys) h (inl e) = subst P e h.0
All-In P x (y ∷ ys) h (inr i) = All-In P x ys h.1 i

IsFresh-rest : (x : String) (seen xs : List String) → IsFresh (x ∷ seen) xs → IsFresh seen xs
IsFresh-rest x seen [] h = tt
IsFresh-rest x seen (y ∷ ys) h = (ground arith, IsFresh-rest x seen ys h.1)

-- A list that is fresh behind its first name has that name only once.
pub Distinct-cons :
    (x : String) (seen xs : List String)
    → is_in x seen ≡ false
    → IsFresh (x ∷ seen) xs
    → Distinct xs
    → IsFresh seen (x ∷ xs) × Distinct (x ∷ xs)
Distinct-cons x seen xs new fresh d = (
  (new, IsFresh-rest x seen xs fresh),
  (
    λ i.
        let e = All-In (λ y. is_in y (x ∷ seen) ≡ false) x xs fresh i in
        ground (arith, eq_iff x x, e),
    d,
  ),
)

pub IsFresh-nil : (xs : List String) → IsFresh [] xs
IsFresh-nil [] = tt
IsFresh-nil (x ∷ xs) = (refl, IsFresh-nil xs)

pub IsFresh-cons :
    (x : String) (seen xs : List String) → IsFresh seen xs → ¬ In x xs → IsFresh (x ∷ seen) xs
IsFresh-cons x seen [] fresh apart = tt
IsFresh-cons x seen (y ∷ ys) fresh apart =
    let e : str_eq x y ≡ false = ne_str x y (λ same. apart (inl (sym same))) in
    (ground (arith, fresh.0), IsFresh-cons x seen ys fresh.1 (λ i. apart (inr i)))
