-- ===== src/Base/Calls.antt =====
-- A handler that changes a state: what was changed before an error stays changed, so the state
-- comes back beside every result. `reads` looks at the state; a step of `updates` that does not
-- return changes nothing.
use mathlib.Core.Path.{◌≡◌, refl, ◌∙◌}
use mathlib.Core.Logic.{◌⊎◌, inl, inr}
use mathlib.Core.Bool.{Bool, true, false}
use lunar_fs.Base.Fallible.{Outcome, ok, err, panic}
use lunar_fs.Base.Tests.{if◌then◌else◌}
use native.Mathlib.Omega.{arith}

abbrev pub Call : Type 0 → Type 0 → Type 0 → Type 0
Call E S A = S → Outcome E A × S

module _ {E S A : Type 0} where
  unfoldable pub reads : (S → Outcome E A) → Call E S A
  reads f s = (f s, s)

  abbrev settle : S → Outcome E (A × S) → Outcome E A × S
  settle s (ok (a, s')) = (ok a, s')
  settle s (err e) = (err e, s)
  settle s panic = (panic, s)

  unfoldable pub updates : (S → Outcome E (A × S)) → Call E S A
  updates f s = settle s (f s)

  abbrev pub returns : A → Call E S A
  returns a = reads λ s. ok a

  abbrev pub fails : E → Call E S A
  fails e = reads λ s. err e

  -- `assert!`
  unfoldable pub asserts : Bool → Call E S A → Call E S A
  asserts true k = k
  asserts false k = reads λ s. panic

module _ {E S A B : Type 0} where
  abbrev continue : Outcome E A × S → (A → Call E S B) → Outcome E B × S
  continue (ok a, s) f = f a s
  continue (err e, s) f = (err e, s)
  continue (panic, s) f = (panic, s)

  infixl 5 ◌>>>◌
  unfoldable pub ◌>>>◌ : Call E S A → (A → Call E S B) → Call E S B
  ◌>>>◌ m f s = continue (m s) f

  continue-eq-ok :
      (r : Outcome E A × S) (f : A → Call E S B) {b : B} {t : S}
      → continue r f ≡ (ok b, t)
      → (a : A) × (s : S) × (r ≡ (ok a, s)) × (f a s ≡ (ok b, t))
  continue-eq-ok (ok a, s) f h = (a, s, refl, h)
  continue-eq-ok (err e, s) f h = absurd (ground arith)
  continue-eq-ok (panic, s) f h = absurd (ground arith)

  -- What a handler returned, its first step and the rest of it returned.
  pub >>>-eq-ok :
      (m : Call E S A) (f : A → Call E S B) (s : S) {b : B} {t : S}
      → (m >>> f) s ≡ (ok b, t)
      → (a : A) × (u : S) × (m s ≡ (ok a, u)) × (f a u ≡ (ok b, t))
  unfolding ◌>>>◌
  >>>-eq-ok m f s h = continue-eq-ok (m s) f h

  pub >>>-ok :
      (m : Call E S A) (f : A → Call E S B) (s : S) {a : A} {u : S}
      → m s ≡ (ok a, u)
      → (m >>> f) s ≡ f a u
  unfolding ◌>>>◌
  >>>-ok m f s h = rw h refl

module _ {E S A : Type 0} where
  pub asserts-eq-ok :
      (b : Bool) (m : Call E S A) (s : S) {a : A} {t : S}
      → asserts b m s ≡ (ok a, t)
      → (b ≡ true) × (m s ≡ (ok a, t))
  unfolding asserts reads
  asserts-eq-ok true m s h = (refl, h)
  asserts-eq-ok false m s h = absurd (ground arith)

  pub asserts-true : (b : Bool) (m : Call E S A) → b ≡ true → asserts b m ≡ m
  unfolding asserts
  asserts-true true m h = refl
  asserts-true false m h = absurd (ground arith)

  settle-eq-ok :
      (s : S) (o : Outcome E (A × S)) {a : A} {t : S} → settle s o ≡ (ok a, t) → o ≡ ok (a, t)
  settle-eq-ok s (ok (a, s')) h = ground arith
  settle-eq-ok s (err e) h = absurd (ground arith)
  settle-eq-ok s panic h = absurd (ground arith)

  pub updates-eq-ok :
      (f : S → Outcome E (A × S)) (s : S) {a : A} {t : S}
      → updates f s ≡ (ok a, t)
      → f s ≡ ok (a, t)
  unfolding updates
  updates-eq-ok f s h = settle-eq-ok s (f s) h

  pub updates-ok :
      (f : S → Outcome E (A × S)) (s : S) {a : A} {t : S}
      → f s ≡ ok (a, t)
      → updates f s ≡ (ok a, t)
  unfolding updates
  updates-ok f s h = rw h refl

-- `m` keeps `P`, however it ends.
pub record Keeps {E S A : Type 0} (P : S → Type 0) (m : Call E S A) : Type 0 where
  pub at : (s : S) → P s → P (m s).1

module _ {E S A : Type 0} {P : S → Type 0} where
  pub Keeps-reads : (f : S → Outcome E A) → Keeps P (reads f)
  unfolding reads
  Keeps-reads f = record { at = λ s h. h }

  settle-keeps :
      (s : S) (o : Outcome E (A × S))
      → P s
      → ((a : A) (s' : S) → o ≡ ok (a, s') → P s')
      → P (settle s o).1
  settle-keeps s (ok (a, s')) h k = k a s' refl
  settle-keeps s (err e) h k = h
  settle-keeps s panic h k = h

  pub Keeps-updates :
      (f : S → Outcome E (A × S))
      → ((s s' : S) (a : A) → P s → f s ≡ ok (a, s') → P s')
      → Keeps P (updates f)
  unfolding updates
  Keeps-updates f k = record { at = λ s h. settle-keeps s (f s) h (λ a s' e. k s s' a h e) }

  pub Keeps-asserts : (b : Bool) (m : Call E S A) → Keeps P m → Keeps P (asserts b m)
  unfolding asserts
  Keeps-asserts true m k = k
  Keeps-asserts false m k = Keeps-reads (λ s. panic)

  pub Keeps-if :
      (b : Bool) (m n : Call E S A) → Keeps P m → Keeps P n → Keeps P (if b then m else n)
  Keeps-if true m n km kn = km
  Keeps-if false m n km kn = kn

module _ {E S A B : Type 0} {P : S → Type 0} where
  continue-keeps :
      (r : Outcome E A × S) (f : A → Call E S B)
      → P r.1
      → ((a : A) → Keeps P (f a))
      → P (continue r f).1
  continue-keeps (ok a, s) f h k = (k a).at s h
  continue-keeps (err e, s) f h k = h
  continue-keeps (panic, s) f h k = h

  pub Keeps-bind :
      (m : Call E S A) (f : A → Call E S B)
      → Keeps P m
      → ((a : A) → Keeps P (f a))
      → Keeps P (m >>> f)
  unfolding ◌>>>◌
  Keeps-bind m f km kf = record { at = λ s h. continue-keeps (m s) f (km.at s h) kf }

  continue-keeps_returned :
      (r : Outcome E A × S) (f : A → Call E S B)
      → P r.1
      → ((a : A) → r.0 ≡ ok a → Keeps P (f a))
      → P (continue r f).1
  continue-keeps_returned (ok a, s) f h k = (k a refl).at s h
  continue-keeps_returned (err e, s) f h k = h
  continue-keeps_returned (panic, s) f h k = h

  -- The rest of a handler may use what its first step returned.
  pub Keeps-bind_returned :
      (m : Call E S A) (f : A → Call E S B)
      → Keeps P m
      → ((s : S) (a : A) → (m s).0 ≡ ok a → Keeps P (f a))
      → Keeps P (m >>> f)
  unfolding ◌>>>◌
  Keeps-bind_returned m f km kf = record {
    at = λ s h. continue-keeps_returned (m s) f (km.at s h) (kf s);
  }

pub ruleset keeps_rules = (Keeps-reads, Keeps-updates, Keeps-asserts, Keeps-if, Keeps-bind)

-- `m` only reads.
pub record Still {E S A : Type 0} (m : Call E S A) : Type 0 where
  pub at : (s : S) → (m s).1 ≡ s

module _ {E S A : Type 0} where
  pub Still-reads : (f : S → Outcome E A) → Still (reads f)
  unfolding reads
  Still-reads f = record { at = λ s. refl }

  pub Still-asserts : (b : Bool) (m : Call E S A) → Still m → Still (asserts b m)
  unfolding asserts
  Still-asserts true m k = k
  Still-asserts false m k = Still-reads (λ s. panic)

  pub Still-if : (b : Bool) (m n : Call E S A) → Still m → Still n → Still (if b then m else n)
  Still-if true m n km kn = km
  Still-if false m n km kn = kn

module _ {E S A B : Type 0} where
  continue-Still :
      (r : Outcome E A × S) (f : A → Call E S B) (s : S)
      → r.1 ≡ s
      → ((a : A) → Still (f a))
      → (continue r f).1 ≡ s
  continue-Still (ok a, t) f s same k = (k a).at t ∙ same
  continue-Still (err e, t) f s same k = same
  continue-Still (panic, t) f s same k = same

  pub Still-bind :
      (m : Call E S A) (f : A → Call E S B) → Still m → ((a : A) → Still (f a)) → Still (m >>> f)
  unfolding ◌>>>◌
  Still-bind m f km kf = record { at = λ s. continue-Still (m s) f s (km.at s) kf }

-- The errors of a handler: `Only` that it has none but one, `Clean` that after any other the state
-- is as before.
module _ {E S : Type 0} (e₀ : E) where
  pub record Only {A : Type 0} (m : Call E S A) : Type 0 where
    pub at : (s : S) (e : E) → (m s).0 ≡ err e → e ≡ e₀

  pub record Clean {A : Type 0} (m : Call E S A) : Type 0 where
    pub at : (s : S) (e : E) → (m s).0 ≡ err e → (e ≡ e₀) ⊎ ((m s).1 ≡ s)

  module _ {A : Type 0} where
    pub Clean-reads : (f : S → Outcome E A) → Clean (reads f)
    unfolding reads
    Clean-reads f = record { at = λ s e h. inr refl }

    settle-clean :
        (s : S) (o : Outcome E (A × S)) (e : E) → (settle s o).0 ≡ err e → (settle s o).1 ≡ s
    settle-clean s (ok (a, s')) e h = absurd (ground arith)
    settle-clean s (err f) e h = refl
    settle-clean s panic e h = refl

    pub Clean-updates : (f : S → Outcome E (A × S)) → Clean (updates f)
    unfolding updates
    Clean-updates f = record { at = λ s e h. inr (settle-clean s (f s) e h) }

    pub Clean-asserts : (b : Bool) (m : Call E S A) → Clean m → Clean (asserts b m)
    unfolding asserts
    Clean-asserts true m k = k
    Clean-asserts false m k = Clean-reads (λ s. panic)

    pub Clean-if : (b : Bool) (m n : Call E S A) → Clean m → Clean n → Clean (if b then m else n)
    Clean-if true m n km kn = km
    Clean-if false m n km kn = kn

    pub Clean-Only : (m : Call E S A) → Only m → Clean m
    Clean-Only m k = record { at = λ s e h. inl (k.at s e h) }

    pub Only-asserts : (b : Bool) (m : Call E S A) → Only m → Only (asserts b m)
    unfolding asserts reads
    Only-asserts true m k = k
    Only-asserts false m k = record { at = λ s e h. absurd (ground arith) }

    pub Only-if : (b : Bool) (m n : Call E S A) → Only m → Only n → Only (if b then m else n)
    Only-if true m n km kn = km
    Only-if false m n km kn = kn

    pub Only-reads :
        (f : S → Outcome E A) → ((s : S) (e : E) → f s ≡ err e → e ≡ e₀) → Only (reads f)
    unfolding reads
    Only-reads f k = record { at = k }

    settle-only : (s : S) (o : Outcome E (A × S)) (e : E) → (settle s o).0 ≡ err e → o ≡ err e
    settle-only s (ok (a, s')) e h = absurd (ground arith)
    settle-only s (err f) e h = ground arith
    settle-only s panic e h = absurd (ground arith)

    pub Only-updates :
        (f : S → Outcome E (A × S)) → ((s : S) (e : E) → f s ≡ err e → e ≡ e₀) → Only (updates f)
    unfolding updates
    Only-updates f k = record { at = λ s e h. k s e (settle-only s (f s) e h) }

  module _ {A B : Type 0} where
    continue-Only :
        (r : Outcome E A × S) (f : A → Call E S B) (e : E)
        → (r.0 ≡ err e → e ≡ e₀)
        → ((a : A) → Only (f a))
        → (continue r f).0 ≡ err e
        → e ≡ e₀
    continue-Only (ok a, s) f e first k h = (k a).at s e h
    continue-Only (err d, s) f e first k h = first (ground arith)
    continue-Only (panic, s) f e first k h = absurd (ground arith)

    pub Only-bind :
        (m : Call E S A) (f : A → Call E S B) → Only m → ((a : A) → Only (f a)) → Only (m >>> f)
    unfolding ◌>>>◌
    Only-bind m f km kf = record { at = λ s e. continue-Only (m s) f e (km.at s e) kf }

    -- Reading first, a clean handler stays clean.
    pub Clean-Still :
        (m : Call E S A) (f : A → Call E S B) → Still m → ((a : A) → Clean (f a)) → Clean (m >>> f)
    unfolding ◌>>>◌
    Clean-Still m f km kf = record { at = λ s e h. after (m s) s e (km.at s) h }
      where
        after :
            (r : Outcome E A × S) (s : S) (e : E)
            → r.1 ≡ s
            → (continue r f).0 ≡ err e
            → (e ≡ e₀) ⊎ ((continue r f).1 ≡ s)
        after (ok a, t) s e same h = elim ((kf a).at t e h) [
          | inl only ↦ inl only
          | inr kept ↦ inr (kept ∙ same)
        ]
        after (err d, t) s e same h = inr same
        after (panic, t) s e same h = inr same

    -- Once the state has changed, only the one error is left.
    pub Clean-bind :
        (m : Call E S A) (f : A → Call E S B) → Clean m → ((a : A) → Only (f a)) → Clean (m >>> f)
    unfolding ◌>>>◌
    Clean-bind m f km kf = record { at = λ s e h. after (m s) s e (km.at s e) h }
      where
        after :
            (r : Outcome E A × S) (s : S) (e : E)
            → (r.0 ≡ err e → (e ≡ e₀) ⊎ (r.1 ≡ s))
            → (continue r f).0 ≡ err e
            → (e ≡ e₀) ⊎ ((continue r f).1 ≡ s)
        after (ok a, t) s e first h = inl ((kf a).at t e h)
        after (err d, t) s e first h = first (ground arith)
        after (panic, t) s e first h = absurd (ground arith)

pub ruleset still_rules = (Still-reads, Still-asserts, Still-if, Still-bind)

pub ruleset only_rules = (Only-asserts, Only-if, Only-bind)

pub ruleset clean_rules = (Clean-reads, Clean-asserts, Clean-if)
