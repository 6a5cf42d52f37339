-- ===== src/Prelude/Assoc.antt =====
-- A Go map as an association list, for any key with a test for equality. The order of the list
-- stands for the order in which a `range` loop visits the map, which Go leaves open.
use Prim.Native.String.{String}
use mathlib.Core.Path.{◌≡◌, refl}
use mathlib.Core.Logic.{◌↔◌}
use mathlib.Core.Bool.{Bool, true}
use mathlib.Core.Option.{Option, none, some}
use mathlib.Core.List.{List, [], ◌∷◌}
use text.Mathlib.Text.{◌==◌ as str_eq}
use text.Mathlib.TextEquality.{eq_iff}
use native.Mathlib.Omega.{arith}
use mathlib.Core.Logic.{inl, inr}
use mathlib.Core.Path.{subst}
use mathlib.Core.Option.{some-injective}
use ninjascale.Prelude.Tests.{if◌then◌else◌, Bool-cases}
use ninjascale.Prelude.Lists.{All}

-- What a type needs to be a map's key.
pub record Key {ℓ} (K : Type ℓ) : Type ℓ where
  pub beq : K → K → Bool
  pub beq_iff : (a b : K) → (beq a b ≡ true) ↔ (a ≡ b)

instance abbrev pub string_key : Key String
string_key = record { beq = str_eq; beq_iff = eq_iff }

pub beq_refl {ℓ} : {K : Type ℓ} ⦃key : Key K⦄ (k : K) → key.beq k k ≡ true
beq_refl ⦃key⦄ k = (key.beq_iff k k).1 refl

module _ {ℓ κ} {K : Type ℓ} {V : Type κ} ⦃key : Key K⦄ where
  unfoldable pub lookup : K → List (K × V) → Option V
  lookup k [] = none
  lookup k ((j, v) ∷ m) = if key.beq j k then some v else lookup k m

  -- `m[k] = v`: in place where the key stands, else a new entry.
  unfoldable pub insert : K → V → List (K × V) → List (K × V)
  insert k v [] = (k, v) ∷ []
  insert k v ((j, w) ∷ m) = if key.beq j k then (j, v) ∷ m else (j, w) ∷ insert k v m

  -- `delete(m, k)`.
  unfoldable pub delete : K → List (K × V) → List (K × V)
  delete k [] = []
  delete k ((j, w) ∷ m) = if key.beq j k then delete k m else (j, w) ∷ delete k m

  pub lookup-insert :
      (k j : K) (v : V) (m : List (K × V))
      → lookup j (insert k v m) ≡ (if key.beq k j then some v else lookup j m)
  unfolding lookup insert
  lookup-insert k j v [] = refl
  lookup-insert k j v ((i, w) ∷ m) =
      ground (arith, key.beq_iff k j, key.beq_iff i k, key.beq_iff i j, lookup-insert k j v m)

  pub lookup-delete :
      (k j : K) (m : List (K × V))
      → lookup j (delete k m) ≡ (if key.beq k j then none else lookup j m)
  unfolding lookup delete
  lookup-delete k j [] = ground arith
  lookup-delete k j ((i, w) ∷ m) =
      ground (arith, key.beq_iff k j, key.beq_iff i k, key.beq_iff i j, lookup-delete k j m)

  -- A predicate on every value of the map.
  abbrev pub AllValues {μ} : (V → Type μ) → List (K × V) → Type μ
  AllValues P = All (λ e. P e.1)

  pub AllValues-insert {μ} :
      (P : V → Type μ) (k : K) (v : V) (m : List (K × V))
      → P v
      → AllValues P m
      → AllValues P (insert k v m)
  unfolding insert
  AllValues-insert P k v [] p h = (p, tt)
  AllValues-insert P k v ((j, w) ∷ m) p h = elim (Bool-cases (key.beq j k)) [
    | inl e ↦ rw e (p, h.1)
    | inr e ↦ rw e (h.0, AllValues-insert P k v m p h.1)
  ]

  pub AllValues-delete {μ} :
      (P : V → Type μ) (k : K) (m : List (K × V)) → AllValues P m → AllValues P (delete k m)
  unfolding delete
  AllValues-delete P k [] h = h
  AllValues-delete P k ((j, w) ∷ m) h = elim (Bool-cases (key.beq j k)) [
    | inl e ↦ rw e (AllValues-delete P k m h.1)
    | inr e ↦ rw e (h.0, AllValues-delete P k m h.1)
  ]

  pub AllValues-lookup {μ} :
      (P : V → Type μ) (k : K) (m : List (K × V)) (v : V)
      → AllValues P m
      → lookup k m ≡ some v
      → P v
  unfolding lookup
  AllValues-lookup P k [] v h e = cc
  AllValues-lookup P k ((j, w) ∷ m) v h e = elim (Bool-cases (key.beq j k)) [
    | inl q ↦ subst P (some-injective w v (rw q at e)) h.0
    | inr q ↦ AllValues-lookup P k m v h.1 (rw q at e)
  ]

  pub lookup-cons_some :
      (k j : K) (v w : V) (m : List (K × V))
      → lookup k m ≡ some v
      → (u : V) × (lookup k ((j, w) ∷ m) ≡ some u)
  unfolding lookup
  lookup-cons_some k j v w m e = elim (Bool-cases (key.beq j k)) [
    | inl q ↦ (w, rw q)
    | inr q ↦ (v, rw q e)
  ]

  pub lookup-cons_same :
      (k j : K) (w : V) (m : List (K × V)) → j ≡ k → lookup k ((j, w) ∷ m) ≡ some w
  unfolding lookup
  lookup-cons_same k j w m e = rw ((key.beq_iff j k).1 e)

  pub lookup-insert_self : (k : K) (v : V) (m : List (K × V)) → lookup k (insert k v m) ≡ some v
  lookup-insert_self k v m = rw (lookup-insert k k v m, beq_refl k)
