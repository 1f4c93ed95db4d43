-- ===== src/Base/Equality.antt =====
-- Rust's `==` for every type whose equality can be decided, and `contains`.
use Prim.Native.Nat.{ℕ}
use mathlib.Core.Path.{◌≡◌, refl, ap}
use mathlib.Core.Logic.{ite, dite}
use mathlib.Core.Bool.{Bool, true, false, ◌||◌}
use mathlib.Core.Option.{Option, none, some, none-ne-some, some-ne-none, some-injective}
use mathlib.Core.List.{List, [], ◌∷◌}
use native.Mathlib.Decide.{ℕ_discrete}
use native.Mathlib.Omega.{arith}

pub record Eq {ℓ} (A : Type ℓ) : Type ℓ where
  pub dec : Discrete A

module _ {ℓ} {A : Type ℓ} ⦃e : Eq A⦄ where
  infix 50 ◌==◌
  abbrev pub ◌==◌ : A → A → Bool
  a == b = ite (e.dec a b) true false

  pub ==-self : (a : A) → (a == a) ≡ true
  ==-self a = ground arith

  pub ==-sound : (a b : A) → (a == b) ≡ true → a ≡ b
  ==-sound a b h = elim (e.dec a b) [ yes p ↦ p | no n ↦ absurd (ground arith) ]

  abbrev pub contains : List A → A → Bool
  contains [] a = false
  contains (x ∷ xs) a = a == x || contains xs a

  unfoldable pub option_dec : Discrete (Option A)
  option_dec none none = yes refl
  option_dec none (some b) = no (none-ne-some b)
  option_dec (some a) none = no (some-ne-none a)
  option_dec (some a) (some b) =
      dite (e.dec a b) (λ p. yes (ap some p)) (λ n. no (λ p. n (some-injective a b p)))

  instance abbrev pub option_eq : Eq (Option A)
  option_eq = record { dec = option_dec }

  pub head_eq : {x y : A} {xs ys : List A} → x ∷ xs ≡ y ∷ ys → x ≡ y
  head_eq h = ground arith

  pub tail_eq : {x y : A} {xs ys : List A} → x ∷ xs ≡ y ∷ ys → xs ≡ ys
  tail_eq h = ground arith

  pub nil-ne-cons : (x : A) (xs : List A) → ¬ ([] ≡ x ∷ xs)
  nil-ne-cons x xs h = cc

  pub cons-ne-nil : (x : A) (xs : List A) → ¬ (x ∷ xs ≡ [])
  cons-ne-nil x xs h = cc

  pub cons_eq : {x y : A} {xs ys : List A} → x ≡ y → xs ≡ ys → x ∷ xs ≡ y ∷ ys
  cons_eq p q = cc

  -- `==` on slices
  unfoldable pub list_dec : Discrete (List A)
  list_dec [] [] = yes refl
  list_dec [] (y ∷ ys) = no (nil-ne-cons y ys)
  list_dec (x ∷ xs) [] = no (cons-ne-nil x xs)
  list_dec (x ∷ xs) (y ∷ ys) =
      let rest = list_dec xs ys in
      dite (e.dec x y)
        (λ p. elim rest [ yes q ↦ yes (cons_eq p q) | no n ↦ no (λ r. n (tail_eq r)) ])
        (λ n. no (λ r. n (head_eq r)))

  instance abbrev pub list_eq : Eq (List A)
  list_eq = record { dec = list_dec }

instance abbrev pub nat_eq : Eq ℕ
nat_eq = record { dec = ℕ_discrete }

module _ {ℓ κ} {A : Type ℓ} {B : Type κ} ⦃e : Eq A⦄ ⦃f : Eq B⦄ where
  pub pair_eq_parts : {a c : A} {b d : B} → a ≡ c → b ≡ d → ◌≡◌ {A = A × B} (a, b) (c, d)
  pair_eq_parts p q = λ i. (p i, q i)

  unfoldable pub pair_dec : Discrete (A × B)
  pair_dec (a, b) (c, d) =
      dite (e.dec a c)
        (λ p. dite (f.dec b d) (λ q. yes (pair_eq_parts p q)) (λ n. no (λ r. n (ap (λ x. x.1) r))))
        (λ n. no (λ r. n (ap (λ x. x.0) r)))

  instance abbrev pub pair_eq : Eq (A × B)
  pair_eq = record { dec = pair_dec }

-- The bytes of a text, or of a file. A `String` of the source is its UTF-8 bytes.
abbrev pub Bytes : Type 0
Bytes = List ℕ
