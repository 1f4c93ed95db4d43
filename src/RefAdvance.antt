-- ===== src/RefAdvance.antt =====
-- src/ref_advance.rs: named refs that advance by compare-and-swap.
-- A call holds the lock of the map throughout, so it is one step on the map.
pub mod Races
use lunar_fs.Base.{
  ◌≡◌, refl, ◌≢◌, ◌⊎◌, inl, inr, ◌∷◌, Bool, true, false, not, Option, none, some, List, [], Bytes,
  Outcome, ok, assert, ◌==◌, list_eq, nat_eq, if◌then◌else◌, arith,
}
use lunar_fs.Base.Dict.{Dict, get, insert, get-insert}
use lunar_fs.Base.Text.{is_empty, is_empty_of_ne}

pub data CasResult : Type 0 where
  committed : Bytes → CasResult
  mismatch : Bytes → CasResult

-- The trait `RefStore`, over the state that its implementation keeps.
pub record RefStore : Type 1 where
  pub State : Type 0
  pub advance : State → Bytes → Option Bytes → Bytes → Outcome ⊥ (CasResult × State)
  pub read : State → Bytes → Outcome ⊥ (Option Bytes)

-- What the trait's documentation asks of an implementation: an advance of a named ref to a value
-- that is not empty answers; a commit finds the expected value and leaves the new one, alone; a
-- mismatch leaves everything, and tells the current value, which is empty for a ref that is not set.
pub record IsAtomic (R : RefStore) : Type 0 where
  pub advance-answers :
      (s : R.State) (name new : Bytes) (old : Option Bytes)
      → name ≢ []
      → new ≢ []
      → (c : CasResult) × (s' : R.State) × (R.advance s name old new ≡ ok (c, s'))
  pub advance-committed :
      (s s' : R.State) (name new v : Bytes) (old : Option Bytes)
      → R.advance s name old new ≡ ok (committed v, s')
      → (v ≡ new)
        × (R.read s name ≡ ok old)
        × (R.read s' name ≡ ok (some new))
        × ((other : Bytes) → other ≢ name → R.read s' other ≡ R.read s other)
  pub advance-mismatch :
      (s s' : R.State) (name new v : Bytes) (old : Option Bytes)
      → R.advance s name old new ≡ ok (mismatch v, s')
      → (s' ≡ s)
        × (R.read s name ≢ ok old)
        × ((R.read s name ≡ ok (some v)) ⊎ ((R.read s name ≡ ok none) × (v ≡ [])))

abbrev pub Refs : Type 0
Refs = Dict Bytes Bytes

-- The match on the expected and the current value.
unfoldable pub swap : Refs → Bytes → Option Bytes → Option Bytes → Bytes → CasResult × Refs
swap refs name none none new = (committed new, insert refs name new)
swap refs name none (some cur) new = (mismatch cur, refs)
swap refs name (some expected) none new = (mismatch [], refs)
swap refs name (some expected) (some cur) new =
    if cur == expected then (committed new, insert refs name new) else (mismatch cur, refs)

unfoldable pub advance : Refs → Bytes → Option Bytes → Bytes → Outcome ⊥ (CasResult × Refs)
unfolding swap is_empty
advance refs name expected_old new =
    assert (not (is_empty name))
      (assert (not (is_empty new)) (ok (swap refs name expected_old (get refs name) new)))

unfoldable pub read : Refs → Bytes → Outcome ⊥ (Option Bytes)
unfolding is_empty
read refs name = assert (not (is_empty name)) (ok (get refs name))

abbrev pub mem_ref_store : RefStore
mem_ref_store = record { State = Refs; advance = advance; read = read }

swap-committed :
    (refs refs' : Refs) (name new v : Bytes) (old cur : Option Bytes)
    → swap refs name old cur new ≡ (committed v, refs')
    → (v ≡ new) × (cur ≡ old) × (refs' ≡ insert refs name new)
unfolding swap
swap-committed refs refs' name new v none none h = ground arith
swap-committed refs refs' name new v none (some c) h = ground arith
swap-committed refs refs' name new v (some e) none h = ground arith
swap-committed refs refs' name new v (some e) (some c) h = ground arith

swap-mismatch :
    (refs refs' : Refs) (name new v : Bytes) (old cur : Option Bytes)
    → swap refs name old cur new ≡ (mismatch v, refs')
    → (refs' ≡ refs) × (cur ≢ old) × ((cur ≡ some v) ⊎ ((cur ≡ none) × (v ≡ [])))
unfolding swap
swap-mismatch refs refs' name new v none none h = ground arith
swap-mismatch refs refs' name new v none (some c) h = ground arith
swap-mismatch refs refs' name new v (some e) none h = ground arith
swap-mismatch refs refs' name new v (some e) (some c) h = ground arith

-- `MemRefStore` keeps the contract of the trait: an advance of a named ref to a value that is not
-- empty answers; a commit finds the expected value and leaves the new one, with every other ref as it
-- was; a mismatch finds another value than the expected one, changes nothing, and tells that value,
-- or an empty one for a ref that is not set.
pub mem_ref_store-IsAtomic : IsAtomic mem_ref_store
unfolding advance read
mem_ref_store-IsAtomic = record {
  advance-answers = λ s name new old named fresh.
      let (c, s') = swap s name old (get s name) new in
      (c, s', rw (is_empty_of_ne named, is_empty_of_ne fresh) refl);
  advance-committed = λ s s' name new v old h.
      let c = swap-committed s s' name new v old (get s name) (ground arith) in
      (
        c.0,
        ground arith,
        ground (arith, get-insert s name name new),
        λ other ne. ground (arith, get-insert s name other new),
      );
  advance-mismatch = λ s s' name new v old h.
      let (same, apart, told) = swap-mismatch s s' name new v old (get s name) (ground arith) in
      (
        same,
        (λ e. apart (ground arith)),
        elim told [ inl now ↦ inl (ground arith) | inr unset ↦ inr (ground arith, unset.1) ],
      );
}

-- An advance from the value that the ref has.
pub advance-eq :
    (refs : Refs) (name new old : Bytes)
    → name ≢ []
    → new ≢ []
    → get refs name ≡ some old
    → advance refs name (some old) new ≡ ok (committed new, insert refs name new)
unfolding advance
advance-eq refs [] new old named fresh h = absurd (named refl)
advance-eq refs (c ∷ name) [] old named fresh h = absurd (fresh refl)
advance-eq refs (c ∷ name) (d ∷ new) old named fresh h = ground arith

pub read-eq : (refs : Refs) (name : Bytes) → name ≢ [] → read refs name ≡ ok (get refs name)
unfolding read
read-eq refs [] named = absurd (named refl)
read-eq refs (c ∷ name) named = refl
