-- ===== src/Autosync/Debounce.antt =====
-- When the gate of src/autosync.rs fires.
use lunar_fs.Base.{
  ℕ, suc, ◌-◌, ◌≡◌, refl, ap, Bool, true, false, Bool-cases, inl, inr, ◌||◌, some, List, [], ◌∷◌,
  leb, if◌then◌else◌,
}
use lunar_fs.Autosync.{DebounceGate, on_event, check_settle}

-- How often the gate fires when it is checked at these times.
unfoldable pub fires : List ℕ → DebounceGate → ℕ
fires [] gate = 0
fires (t ∷ rest) gate =
    let checked : Bool × DebounceGate = check_settle t gate in
    let later = fires rest checked.1 in if checked.0 then suc later else later

-- Whether one of these times is late enough after `last`.
unfoldable pub is_reached : ℕ → ℕ → List ℕ → Bool
is_reached debounce last [] = false
is_reached debounce last (t ∷ rest) = leb debounce (t - last) || is_reached debounce last rest

fires-settled :
    (times : List ℕ) (debounce last : ℕ)
    → fires times (record { debounce_ms = debounce; last_event_ms = some last; settled = true }) ≡ 0
unfolding fires check_settle
fires-settled [] debounce last = refl
fires-settled (t ∷ rest) debounce last = fires-settled rest debounce last

-- After an event at `now`, whatever the times of the checks that follow: the gate fires once if one
-- of them is at least its interval later, and not at all if none is.
pub fires-on_event :
    (times : List ℕ) (now : ℕ) (gate : DebounceGate)
    → fires times (on_event now gate) ≡ (if is_reached gate.debounce_ms now times then 1 else 0)
unfolding fires check_settle on_event is_reached
fires-on_event [] now gate = refl
fires-on_event (t ∷ rest) now gate = elim (Bool-cases (leb gate.debounce_ms (t - now))) [
  | inl due ↦ rw due (ap suc (fires-settled rest gate.debounce_ms now))
  | inr early ↦ rw early (fires-on_event rest now gate)
]
