-- ===== src/Counters/Balance.antt =====
-- What the counters say of the calls that were made.
use tinyray.Common.{ℕ, ◌+◌, ◌-◌, ◌≤◌, List, [], ◌∷◌, ◌≡◌, arith}
use tinyray.Counters.{Counters, Event, entered, answered, left, refuse, count, count_all}

-- No call is left that has not entered, with `running` calls at the start and `rest` at the end.
abbrev pub IsNested : ℕ → List Event → ℕ → Type 0
IsNested running [] rest = running ≡ rest
IsNested running (entered ∷ events) rest = IsNested (running + 1) events rest
IsNested running (left spent ∷ events) rest = (1 ≤ running) × IsNested (running - 1) events rest
IsNested running (answered failed ∷ events) rest = IsNested running events rest
IsNested running (refuse ∷ events) rest = IsNested running events rest

-- at most as many failed as were answered, and as many in flight as ever were at once
abbrev pub IsSound : Counters → Type 0
IsSound c = (c.failed ≤ c.calls) × (c.in_flight ≤ c.peak_in_flight)

count-IsSound : (e : Event) (c : Counters) → IsSound c → IsSound (count e c)
unfolding count
count-IsSound entered c h = ground arith
count-IsSound (answered failed) c h = ground arith
count-IsSound (left spent) c h = (h.0, omega arith)
count-IsSound refuse c h = h

peak-later :
    (e : Event) (c : Counters) {n : ℕ} → (count e c).peak_in_flight ≤ n → c.peak_in_flight ≤ n
unfolding count
peak-later entered c h = ground arith
peak-later (answered failed) c h = h
peak-later (left spent) c h = h
peak-later refuse c h = h

-- Over any sequence of calls in which none is left before it entered, however they interleave, the
-- calls in flight are those entered and not yet left; no more failed than were answered, and the
-- peak never falls and is at least the number in flight.
pub count_all_lem :
    (events : List Event) (c : Counters) (rest : ℕ)
    → IsSound c
    → IsNested c.in_flight events rest
    → ((count_all events c).in_flight ≡ rest)
      × IsSound (count_all events c)
      × (c.peak_in_flight ≤ (count_all events c).peak_in_flight)
unfolding count_all
count_all_lem [] c rest sound nested = (nested, sound, omega arith)
count_all_lem (entered ∷ events) c rest sound nested =
    let ih =
      count_all_lem events (count entered c) rest (count-IsSound entered c sound)
        (unfold count in nested) in
    (ih.0, ih.1, peak-later entered c ih.2)
count_all_lem (answered failed ∷ events) c rest sound nested =
    let ih =
      count_all_lem events (count (answered failed) c) rest
        (count-IsSound (answered failed) c sound) (unfold count in nested) in
    (ih.0, ih.1, peak-later (answered failed) c ih.2)
count_all_lem (left spent ∷ events) c rest sound nested =
    let ih =
      count_all_lem events (count (left spent) c) rest (count-IsSound (left spent) c sound)
        (unfold count in nested.1) in
    (ih.0, ih.1, peak-later (left spent) c ih.2)
count_all_lem (refuse ∷ events) c rest sound nested =
    let ih =
      count_all_lem events (count refuse c) rest (count-IsSound refuse c sound)
        (unfold count in nested) in
    (ih.0, ih.1, peak-later refuse c ih.2)
