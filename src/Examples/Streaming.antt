-- ===== src/Examples/Streaming.antt =====
-- Watches on one pool.
use tinyray.Common.{
  map, ◌==◌, ℕ, List, ◌∷◌, [], none, some, Option, true, false, ◌≡◌, refl, arith, ltb,
  if◌then◌else◌,
}
use tinyray.Watch.Loop.{Beat, look_of, as_looks, next_on_loop, auntil, auntil_same}
use tinyray.Watch.Until.{UntilSays, until_lem}
use tinyray.Errors.{ok}
use tinyray.Watch.{until, left_ms, Look, Watching, known, next_snapshot, step, yielded, waiting}

-- a look at the moment `t` that finds a version and a digest; the snapshot is the moment
abbrev look : ℕ → ℕ → ℕ → Look ℕ
look t version digest = record {
  closed = false;
  accepted = true;
  first_clock = t;
  revision = version;
  version = some version;
  fields = some digest;
  snapshot = t;
  last_clock = t;
}

abbrev stream : Watching
stream = record {
  seen = 5;
  deadline = some 9000;
  closed = false;
  tick = 5;
  has_fields = true;
  digest = known (some 70);
}

-- the version moves at the third look, the fields at the fourth
abbrev looks : List (Look ℕ)
looks = look 1000 5 70 ∷ look 2000 5 70 ∷ look 3000 6 70 ∷ look 4000 7 71 ∷ []

-- the version moves at 3000 and at 4000, the fields only at 4000
abbrev version : ℕ → Option ℕ
version t = if ltb t 3000 then some 5 else if ltb t 4000 then some 6 else some 7

abbrev digest : ℕ → Option ℕ
digest t = if ltb t 4000 then some 70 else some 71

-- the third of the looks meets the condition
until_lem_example : UntilSays (λ s. s == 3000) 500 (some 9100) looks (some (ok 3000))
unfolding until tinyray.Watch.until_loop next_snapshot step tinyray.Watch.watching left_ms
    tinyray.Watch.compare_version tinyray.Watch.moved
until_lem_example = until_lem (λ s. s == 3000) none (some 9000) 600 700 500 5 5 looks (omega arith)

-- the same looks on an event loop that nothing disturbs
abbrev beat : Look ℕ → Beat ℕ
beat l = record { bell = ok tt; look = l; woken = ok tt }

abbrev beats : List (Beat ℕ)
beats = beat (look 1000 5 70) ∷ beat (look 2000 5 70) ∷ beat (look 3000 6 70) ∷ []

auntil_same_example :
    (auntil (λ s. s == 3000) none (some 9000) 500 600 0 5 4 beats
      ≡ until (λ s. s == 3000) none (some 9000) 500 600 0 5 4 (map look_of beats))
    × (as_looks (next_on_loop beats stream) ≡ next_snapshot (map look_of beats) stream)
auntil_same_example =
    auntil_same (λ s. s == 3000) none (some 9000) 500 600 0 5 4 beats stream
      ((refl, refl), ((refl, refl), ((refl, refl), tt)))
