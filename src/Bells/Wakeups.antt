-- ===== src/Bells/Wakeups.antt =====
-- Which waits a bell wakes, and which it forgets.
use tinyray.Common.{
  ℕ, ◌<◌, List, [], ◌∷◌, true, false, not, if◌then◌else◌, ◌==◌, keep, ◌≡◌, ◌⊎◌, inr, arith,
}
use tinyray.Common.Distinct.{is_in, append-is_in, IsDistinct, append-IsDistinct}
use tinyray.Bells.{
  Bell, new_bell, resolve, resolve_all, fire, begin, expire, take_out, finish, close, Event, begins,
  rings, expires, finishes, happen, happen_all,
}

resolve-is_in : (j k : ℕ) (done : List ℕ) → is_in j done ≡ true → is_in j (resolve k done) ≡ true
unfolding resolve
resolve-is_in j k done h = ground arith

resolve_self : (k : ℕ) (done : List ℕ) → is_in k (resolve k done) ≡ true
unfolding resolve
resolve_self k done = ground arith

resolve_all-is_in :
    (j : ℕ) (waiters done : List ℕ)
    → (is_in j waiters ≡ true) ⊎ (is_in j done ≡ true)
    → is_in j (resolve_all waiters done) ≡ true
unfolding resolve_all
resolve_all-is_in j [] done h = ground arith
resolve_all-is_in j (k ∷ waiters) done h =
    resolve_all-is_in j waiters (resolve k done)
      (ground (arith, resolve-is_in j k done, resolve_self k done))

keep-is_in :
    (j k : ℕ) (xs : List ℕ)
    → is_in j (keep (λ x. not (x == k)) xs) ≡ (if k == j then false else is_in j xs)
keep-is_in j k [] = ground arith
keep-is_in j k (x ∷ xs) = ground (arith, keep-is_in j k xs)

take_out-is_in :
    (j k : ℕ) (xs : List ℕ)
    → IsDistinct xs
    → is_in j (take_out k xs) ≡ (if k == j then false else is_in j xs)
unfolding take_out
take_out-is_in j k [] d = ground arith
take_out-is_in j k (x ∷ xs) (new, d) = ground (arith, take_out-is_in j k xs d)

take_out-IsDistinct : (k : ℕ) (xs : List ℕ) → IsDistinct xs → IsDistinct (take_out k xs)
unfolding take_out
take_out-IsDistinct k [] d = tt
take_out-IsDistinct k (x ∷ xs) (new, d) =
    ground (arith, take_out-is_in x k xs d, take_out-IsDistinct k xs d)

-- A wait that has not returned is in the list or has its result; only such waits are in the list,
-- once each, and the numbers of all are used up.
abbrev pub IsReady : Bell → Type 0
IsReady b =
    ((j : ℕ) → is_in j b.active ≡ true → (is_in j b.waiters ≡ true) ⊎ (is_in j b.done ≡ true))
    × ((j : ℕ) → is_in j b.waiters ≡ true → is_in j b.active ≡ true)
    × ((j : ℕ) → is_in j b.active ≡ true → j < b.next)
    × IsDistinct b.waiters

fire-IsReady : (b : Bell) → IsReady b → IsReady (fire b)
unfolding fire
fire-IsReady b (woken, waits, used, once) = (
  (λ j h. inr (resolve_all-is_in j b.waiters b.done (woken j h))),
  (λ j h. absurd (ground arith)),
  used,
  tt,
)

expire-IsReady : (k : ℕ) (b : Bell) → IsReady b → IsReady (expire k b)
unfolding expire
expire-IsReady k b (woken, waits, used, once) =
    ((λ j h. ground (arith, woken j, resolve-is_in j k b.done)), waits, used, once)

begin-IsReady : (b : Bell) → IsReady b → IsReady (begin b)
unfolding begin
begin-IsReady b (woken, waits, used, once) = (
  (λ j h. ground (arith, woken j, append-is_in j b.next b.waiters)),
  (λ j h. ground (arith, waits j, append-is_in j b.next b.waiters)),
  (λ j h. ground (arith, used j)),
  append-IsDistinct b.next b.waiters once (ground (arith, waits b.next, used b.next)),
)

finish-IsReady : (k : ℕ) (b : Bell) → IsReady b → IsReady (finish k b)
unfolding finish
finish-IsReady k b (woken, waits, used, once) = (
  (λ j h. ground (arith, woken j, keep-is_in j k b.active, take_out-is_in j k b.waiters once)),
  (λ j h. ground (arith, waits j, keep-is_in j k b.active, take_out-is_in j k b.waiters once)),
  (λ j h. ground (arith, used j, keep-is_in j k b.active)),
  take_out-IsDistinct k b.waiters once,
)

happen-IsReady : (e : Event) (b : Bell) → IsReady b → IsReady (happen e b)
unfolding happen
happen-IsReady begins b = begin-IsReady b
happen-IsReady rings b = fire-IsReady b
happen-IsReady (expires k) b = expire-IsReady k b
happen-IsReady (finishes k) b = finish-IsReady k b

happen_all-IsReady : (events : List Event) (b : Bell) → IsReady b → IsReady (happen_all events b)
unfolding happen_all
happen_all-IsReady [] b ready = ready
happen_all-IsReady (e ∷ events) b ready =
    happen_all-IsReady events (happen e b) (happen-IsReady e b ready)

new_bell-IsReady : (client : ℕ) → IsReady (new_bell client)
unfolding new_bell
new_bell-IsReady client = (
  (λ j h. absurd (ground arith)),
  (λ j h. absurd (ground arith)),
  (λ j h. absurd (ground arith)),
  tt,
)

-- However waits begin, end, are cancelled and time out on a bell: when it rings, and when it is
-- closed on a loop that still runs, every wait that has not returned has its result, so none misses
-- the wakeup; and the bell holds on to no wait that has returned.
pub bell_wakes :
    (client : ℕ) (events : List Event)
    → let b = happen_all events (new_bell client) in
      ((j : ℕ)
        → is_in j b.active ≡ true
        → (is_in j (fire b).done ≡ true) × (is_in j (close false b).done ≡ true))
      × ((j : ℕ) → is_in j b.waiters ≡ true → is_in j b.active ≡ true)
unfolding fire close
bell_wakes client events =
    let b = happen_all events (new_bell client) in
    let (woken, waits, used, once) =
      happen_all-IsReady events (new_bell client) (new_bell-IsReady client) in
    ((λ j h. let done = resolve_all-is_in j b.waiters b.done (woken j h) in (done, done)), waits)
