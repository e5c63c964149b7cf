-- ===== src/Examples/Ringing.antt =====
-- A bell with three waits, and the bells of two loops.
use tinyray.Common.{ℕ, List, [], ◌∷◌, Bool, true, false, ◌≡◌, ◌==◌}
use tinyray.Common.Distinct.{is_in}
use tinyray.Bells.{new_bell, fire, close, Event, begins, rings, finishes, happen_all}
use tinyray.Bells.Wakeups.{bell_wakes}

-- the second wait is cancelled, and the third begins behind a ring
abbrev events : List Event
events = begins ∷ begins ∷ finishes 1 ∷ rings ∷ begins ∷ finishes 0 ∷ []

bell_wakes_example :
    let b = happen_all events (new_bell 2) in
    ((j : ℕ)
      → is_in j b.active ≡ true
      → (is_in j (fire b).done ≡ true) × (is_in j (close false b).done ≡ true))
    × ((j : ℕ) → is_in j b.waiters ≡ true → is_in j b.active ≡ true)
bell_wakes_example = bell_wakes 2 events

-- loop 1 is closed, loop 4 runs and has a bell of an earlier client
abbrev bells : List (ℕ × ℕ)
bells = (1, 10) ∷ (4, 40) ∷ (5, 50) ∷ []

abbrev is_gone : ℕ → Bool
is_gone loop = loop == 1

abbrev is_current : ℕ → Bool
is_current bell = bell == 50
