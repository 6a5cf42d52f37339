-- ===== src/Prelude/Result.antt =====
-- A result or an error, as the functions with an `error` return them, and their sequence.
use mathlib.Core.Path.{◌≡◌, refl}
use mathlib.Core.Option.{Option, none, some}
use mathlib.Core.Logic.{◌⊎◌, inl, inr}
use mathlib.Core.Bool.{Bool, true, false}

pub data Result (E A : Type 0) : Type 0 where
  ok : A → Result E A
  err : E → Result E A

infixl 5 ◌>>=◌ ◌>>◌
abbrev pub ◌>>=◌ : {E A B : Type 0} → Result E A → (A → Result E B) → Result E B
ok a >>= f = f a
err e >>= f = err e

abbrev pub ◌>>◌ : {E B : Type 0} → Result E (Unit {0}) → Result E B → Result E B
m >> k = m >>= λ _. k

-- `if c { return e }`.
abbrev pub reject_if : {E : Type 0} → Bool → E → Result E (Unit {0})
reject_if true e = err e
reject_if false e = ok tt

-- A pointer that is followed: `e` is what a nil pointer leads to.
abbrev pub or_err : {E A : Type 0} → Option A → E → Result E A
or_err none e = err e
or_err (some a) e = ok a

pub ok-eq : {E A : Type 0} (m : Result E A) {a b : A} → m ≡ ok a → m ≡ ok b → a ≡ b
ok-eq m h h' = cc

pub >>-ok :
    {E B : Type 0} (m : Result E (Unit {0})) (k : Result E B) {b : B}
    → (m >> k) ≡ ok b
    → (m ≡ ok tt) × (k ≡ ok b)
>>-ok (ok tt) k h = (refl, h)
>>-ok (err e) k h = cc

pub >>=-ok :
    {E A B : Type 0} (m : Result E A) (f : A → Result E B) {b : B}
    → (m >>= f) ≡ ok b
    → (a : A) × (m ≡ ok a) × (f a ≡ ok b)
>>=-ok (ok a) f h = (a, refl, h)
>>=-ok (err e) f h = cc

pub reject_if-ok : {E : Type 0} (c : Bool) (e : E) {u : Unit {0}} → reject_if c e ≡ ok u → c ≡ false
reject_if-ok true e h = cc
reject_if-ok false e h = refl

pub or_err-ok : {E A : Type 0} (o : Option A) (e : E) {a : A} → or_err o e ≡ ok a → o ≡ some a
or_err-ok none e h = cc
or_err-ok (some a) e h = cc

-- `fmt.Errorf` around an error.
abbrev pub within : {E F A : Type 0} → (E → F) → Result E A → Result F A
within f (ok a) = ok a
within f (err e) = err (f e)

pub within-ok : {E F A : Type 0} (f : E → F) (m : Result E A) {a : A} → within f m ≡ ok a → m ≡ ok a
within-ok f (ok a) h = cc
within-ok f (err e) h = cc

-- Where an error comes from.
pub >>=-err :
    {E A B : Type 0} (m : Result E A) (f : A → Result E B) {e : E}
    → (m >>= f) ≡ err e
    → (m ≡ err e) ⊎ ((a : A) × (f a ≡ err e))
>>=-err (ok a) f h = inr (a, h)
>>=-err (err e) f h = inl cc

pub reject_if-err : {E : Type 0} (c : Bool) (e : E) {e' : E} → reject_if c e ≡ err e' → e ≡ e'
reject_if-err true e h = cc
reject_if-err false e h = cc

pub or_err-err : {E A : Type 0} (o : Option A) (e : E) {e' : E} → or_err o e ≡ err e' → e ≡ e'
or_err-err none e h = cc
or_err-err (some a) e h = cc
