-- ===== src/Examples/Counting.antt =====
-- The counters of one call that overlaps another.
use tinyray.Common.{◌∷◌, [], List, ◌≡◌, ◌≤◌, refl, arith, true}
use tinyray.Counters.{Event, entered, answered, left, refuse, fresh, count_all}
use tinyray.Counters.Balance.{IsSound, count_all_lem}

abbrev events : List Event
events = entered ∷ entered ∷ refuse ∷ answered true ∷ left 900 ∷ []

count_all_lem_example :
    ((count_all events fresh).in_flight ≡ 1)
    × IsSound (count_all events fresh)
    × (0 ≤ (count_all events fresh).peak_in_flight)
count_all_lem_example = count_all_lem events fresh 1 (omega arith, omega arith) (omega arith, refl)
