-- ===== src/RefAdvance/Races.antt =====
-- Writers that race to advance one ref.
use lunar_fs.Base.{
  ℕ, ◌+◌, ◌≡◌, sym, ◌∙◌, ◌≢◌, Option, none, some, List, [], ◌∷◌, Bytes, Outcome, ok, ◌>>=◌,
  >>=-eq-ok, arith, list_eq, nat_eq,
}
use lunar_fs.Base.Dict.{get, get-insert}
use lunar_fs.RefAdvance.{CasResult, committed, mismatch, Refs, advance}

-- The callers of `advance`, one after another, each with its own new value and all with the same
-- expected one. The result counts the commits.
abbrev is_commit : CasResult → ℕ
is_commit (committed v) = 1
is_commit (mismatch v) = 0

unfoldable pub race : Bytes → Option Bytes → List Bytes → Refs → Outcome ⊥ (ℕ × Refs)
race name expected [] refs = ok (0, refs)
race name expected (new ∷ rest) refs = advance refs name expected new >>= λ (c, refs').
    race name expected rest refs' >>= λ (n, refs''). ok (is_commit c + n, refs'')

module _ (refs refs' : Refs) (name new : Bytes) (c : CasResult) where
  advance_found :
      (old : Option Bytes)
      → get refs name ≡ old
      → advance refs name old new ≡ ok (c, refs')
      → (is_commit c ≡ 1) × (get refs' name ≡ some new)
  unfolding advance
  advance_found none found h = ground (arith, get-insert refs name name new)
  advance_found (some e) found h = ground (arith, get-insert refs name name new)

  advance_missed :
      (old : Option Bytes)
      → get refs name ≢ old
      → advance refs name old new ≡ ok (c, refs')
      → (is_commit c ≡ 0) × (refs' ≡ refs)
  unfolding advance
  advance_missed none missed h = ground arith
  advance_missed (some e) missed h = ground arith

race_lost :
    (name : Bytes) (expected : Option Bytes) (news : List Bytes) (refs refs' : Refs) (n : ℕ)
    → get refs name ≢ expected
    → race name expected news refs ≡ ok (n, refs')
    → (n ≡ 0) × (refs' ≡ refs)
unfolding race
race_lost name expected [] refs refs' n missed h = ground arith
race_lost name expected (new ∷ rest) refs refs' n missed h =
    let ((c, s), first, later) = >>=-eq-ok (advance refs name expected new) _ h in
    let ((m, t), others, sum) = >>=-eq-ok (race name expected rest s) _ later in
    let step = advance_missed refs s name new c expected missed first in
    ground (arith, race_lost name expected rest refs t m missed (rw step.1 at others))

-- Of writers that expect the value that the ref has, and that each write another one, exactly
-- one commits, the first, and its value stays.
pub race_has_one_winner :
    (name : Bytes) (expected : Option Bytes) (new : Bytes) (rest : List Bytes) (refs refs' : Refs)
    (n : ℕ)
    → get refs name ≡ expected
    → some new ≢ expected
    → race name expected (new ∷ rest) refs ≡ ok (n, refs')
    → (n ≡ 1) × (get refs' name ≡ some new)
unfolding race
race_has_one_winner name expected new rest refs refs' n found fresh h =
    let ((c, s), first, later) = >>=-eq-ok (advance refs name expected new) _ h in
    let ((m, t), others, sum) = >>=-eq-ok (race name expected rest s) _ later in
    let step = advance_found refs s name new c expected found first in
    let lost = race_lost name expected rest s t m (λ e. fresh (sym step.1 ∙ e)) others in
    ground (arith)

-- If the first writer writes the value that it expects, a second one commits too.
pub race_has_two_winners :
    (name v new : Bytes) (refs refs' : Refs) (n : ℕ)
    → get refs name ≡ some v
    → race name (some v) (v ∷ new ∷ []) refs ≡ ok (n, refs')
    → (n ≡ 2) × (get refs' name ≡ some new)
unfolding race
race_has_two_winners name v new refs refs' n found h =
    let ((c, s), first, later) = >>=-eq-ok (advance refs name (some v) v) _ h in
    let ((m, t), others, sum) = >>=-eq-ok (race name (some v) (new ∷ []) s) _ later in
    let ((d, u), second, last) = >>=-eq-ok (advance s name (some v) new) _ others in
    let one = advance_found refs s name v c (some v) found first in
    let two = advance_found s u name new d (some v) one.1 second in ground arith
