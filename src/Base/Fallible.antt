-- ===== src/Base/Fallible.antt =====
-- What a call of the source comes to: a value, an error, or a panic (`assert!`, `expect`,
-- `unreachable!`).
use mathlib.Core.Path.{◌≡◌, refl}
use mathlib.Core.Logic.{◌≢◌}
use mathlib.Core.Bool.{Bool, true, false}
use native.Mathlib.Omega.{arith}
use mathlib.Core.Option.{Option, none, some}

pub data Outcome {ℓ κ} (E : Type ℓ) (A : Type κ) : Type (ℓ ⊔ κ) where
  ok : A → Outcome E A
  err : E → Outcome E A
  panic : Outcome E A

module _ {ℓ κ μ} {E : Type ℓ} {A : Type κ} {B : Type μ} where
  infixl 5 ◌>>=◌
  abbrev pub ◌>>=◌ : Outcome E A → (A → Outcome E B) → Outcome E B
  ok a >>= f = f a
  err e >>= f = err e
  panic >>= f = panic

  -- What a chain returned, its first call and the rest of it returned.
  pub >>=-eq-ok :
      (first : Outcome E A) (rest : A → Outcome E B) {last : B}
      → (first >>= rest) ≡ ok last
      → (middle : A) × (first ≡ ok middle) × (rest middle ≡ ok last)
  >>=-eq-ok panic rest returned = cc
  >>=-eq-ok (err failure) rest returned = cc
  >>=-eq-ok (ok middle) rest returned = (middle, refl, returned)

-- `assert!`, before the rest of the body.
abbrev pub assert {ℓ κ} : {E : Type ℓ} {A : Type κ} → Bool → Outcome E A → Outcome E A
assert true k = k
assert false k = panic

-- `ok_or`
abbrev pub ok_or {ℓ κ} : {E : Type ℓ} {A : Type κ} → Option A → E → Outcome E A
ok_or none e = err e
ok_or (some a) e = ok a

-- A call without an error type that does not panic returns.
pub ok_of_ne_panic {κ} : {A : Type κ} (o : Outcome ⊥ A) → o ≢ panic → (a : A) × (o ≡ ok a)
ok_of_ne_panic (ok a) h = (a, refl)
ok_of_ne_panic (err e) h = absurd e
ok_of_ne_panic panic h = absurd (h refl)

-- A call without an error type, inside one that has errors.
abbrev pub lift {ℓ κ} : {E : Type ℓ} {A : Type κ} → Outcome ⊥ A → Outcome E A
lift (ok a) = ok a
lift (err e) = absurd e
lift panic = panic

pub lift-eq-ok {ℓ κ} :
    {E : Type ℓ} {A : Type κ} (o : Outcome ⊥ A) {a : A} → lift {E = E} o ≡ ok a → o ≡ ok a
lift-eq-ok (ok a) h = ground arith
lift-eq-ok (err e) h = absurd e
lift-eq-ok panic h = cc

pub ok_or-eq-ok {ℓ κ} :
    {E : Type ℓ} {A : Type κ} (o : Option A) (e : E) {a : A} → ok_or o e ≡ ok a → o ≡ some a
ok_or-eq-ok none e h = cc
ok_or-eq-ok (some a) e h = ground arith

pub assert-eq-ok {ℓ κ} :
    {E : Type ℓ} {A : Type κ} {v : A} (b : Bool) {k : Outcome E A}
    → assert b k ≡ ok v
    → (b ≡ true) × (k ≡ ok v)
assert-eq-ok true h = (refl, h)
assert-eq-ok false h = absurd (ground arith)
