-- ===== src/Watch/Until.antt =====
-- What `Pool.until` returns or raises.
use mathlib.Core.Path.{subst}
use tinyray.Common.{
  ℕ, zero, suc, ◌+◌, ◌≤◌, ◌<◌, List, [], ◌∷◌, ◌++◌, Option, none, some, Bool, true, false, All,
  length, ◌≡◌, ◌⊎◌, inl, inr, refl, arith, sym, ap, ◌∙◌, length-append, All-append, Bool-cases,
}
use tinyray.Errors.{Exn, Result, ok, err, fenced, timeout_error}
use tinyray.Value.{Value}
use tinyray.Watch.{
  Watching, Look, Step, give, pause, Turn, yielded, stopped, raised, waiting, step, turn_of,
  next_snapshot, until_loop, until_turn, until, watching, time_left,
}
use tinyray.Watch.Streams.{IsEnd, Somewhere, StepMeans, step-StepMeans, Means, next_snapshot_lem}

module _ {S : Type 0} where
  Somewhere-later :
      (P : Look S → Type 0) (used rest : List (Look S))
      → Somewhere P rest
      → Somewhere P (used ++ rest)
  Somewhere-later P [] rest h = h
  Somewhere-later P (x ∷ used) rest h = inr (Somewhere-later P used rest h)

  -- What a turn that hands over a snapshot leaves: the looks behind those that it used.
  Leaves : Watching → List (Look S) → Turn S × Watching × List (Look S) → Type 0
  Leaves w looks after =
      (used : List (Look S)) × (looks ≡ used ++ after.2)
      × All (λ l. l.accepted ≡ true) used
      × (1 ≤ length used)
      × (after.1.closed ≡ w.closed)
      × (after.1.deadline ≡ w.deadline)

  turn_of-Leaves :
      (r : Result (Exn Value) (Step S)) (look : Look S) (looks : List (Look S)) (w w' : Watching)
      (later : Turn S × Watching × List (Look S)) (s : S)
      → StepMeans w look r
      → w'.closed ≡ w.closed
      → w'.deadline ≡ w.deadline
      → (later.0 ≡ yielded s → Leaves w' looks later)
      → (turn_of r w' looks later).0 ≡ yielded s
      → Leaves w (look ∷ looks) (turn_of r w' looks later)
  unfolding Leaves turn_of
  turn_of-Leaves (err e) look looks w w' later s m c d ih h = absurd (ground arith)
  turn_of-Leaves (ok (give x)) look looks w w' later s m c d ih h =
      (look ∷ [], refl, (m.1, tt), omega arith, c, d)
  turn_of-Leaves (ok (pause zero)) look looks w w' later s m c d ih h = absurd (ground arith)
  turn_of-Leaves (ok (pause (suc ms))) look looks w w' later s m c d ih h =
      let (used, split, accepted, some_used, c', d') = ih h in
      (look ∷ used, ap (λ l. look ∷ l) split, (m.1, accepted), omega arith, c' ∙ c, d' ∙ d)

  next_snapshot-Leaves :
      (looks : List (Look S)) (w : Watching) (s : S)
      → (next_snapshot looks w).0 ≡ yielded s
      → Leaves w looks (next_snapshot looks w)
  unfolding next_snapshot
  next_snapshot-Leaves [] w s h = absurd (ground arith)
  next_snapshot-Leaves (look ∷ looks) w s h =
      let (r, w') = step look w in
      let (means, c, d) = step-StepMeans look w in
      turn_of-Leaves r look looks w w' (next_snapshot looks w') s means c d
        (next_snapshot-Leaves looks w' s) h

  -- What a result of the loop says of the looks that it was given.
  abbrev pub UntilMeans :
      (S → Bool) → Option ℕ → List (Look S) → Option (Result (Exn Value) S) → Type 0
  UntilMeans predicate deadline looks none = All (λ l. l.accepted ≡ true) looks
  UntilMeans predicate deadline looks (some (ok s)) =
      (predicate s ≡ true) × Somewhere (λ l. (l.accepted ≡ true) × (l.snapshot ≡ s)) looks
  UntilMeans predicate deadline looks (some (err e)) =
      ((e ≡ timeout_error) × Somewhere (λ l. IsEnd deadline l) looks)
      ⊎ ((e ≡ fenced) × Somewhere (λ l. l.accepted ≡ false) looks)

  later-UntilMeans :
      (predicate : S → Bool) (deadline : Option ℕ) (used rest : List (Look S))
      (r : Option (Result (Exn Value) S))
      → All (λ l. l.accepted ≡ true) used
      → UntilMeans predicate deadline rest r
      → UntilMeans predicate deadline (used ++ rest) r
  later-UntilMeans predicate deadline used rest none h m = All-append _ used rest h m
  later-UntilMeans predicate deadline used rest (some (ok s)) h (p, m) =
      (p, Somewhere-later _ used rest m)
  later-UntilMeans predicate deadline used rest (some (err e)) h (inl (p, m)) =
      inl (p, Somewhere-later _ used rest m)
  later-UntilMeans predicate deadline used rest (some (err e)) h (inr (p, m)) =
      inr (p, Somewhere-later _ used rest m)

  until_turn-UntilMeans :
      (predicate : S → Bool) (looks : List (Look S)) (w : Watching) (turn : Turn S)
      (rest : Option (Result (Exn Value) S))
      → w.closed ≡ false
      → Means w looks turn
      → ((s : S) → turn ≡ yielded s → UntilMeans predicate w.deadline looks rest)
      → UntilMeans predicate w.deadline looks (until_turn predicate turn rest)
  unfolding until_turn
  until_turn-UntilMeans predicate looks w (yielded s) rest o (c, m) later =
      elim (Bool-cases (predicate s)) [
        | inl met ↦ rw met (met, m)
        | inr unmet ↦ rw unmet (later s refl)
      ]
  until_turn-UntilMeans predicate looks w stopped rest o (inl c) later = absurd (ground arith)
  until_turn-UntilMeans predicate looks w stopped rest o (inr m) later = inl (refl, m)
  until_turn-UntilMeans predicate looks w (raised e) rest o (c, same, m) later = inr (same, m)
  until_turn-UntilMeans predicate looks w waiting rest o (inl e) later =
      subst (All (λ l. l.accepted ≡ true)) (sym e) tt
  until_turn-UntilMeans predicate looks w waiting rest o (inr (c, m)) later = m

  until_loop-UntilMeans :
      (predicate : S → Bool) (fuel : ℕ) (looks : List (Look S)) (w : Watching)
      → length looks < fuel
      → w.closed ≡ false
      → UntilMeans predicate w.deadline looks (until_loop predicate fuel looks w)
  unfolding until_loop Leaves
  until_loop-UntilMeans predicate zero looks w enough o = absurd (omega arith)
  until_loop-UntilMeans predicate (suc n) looks w enough o =
      let (turn, w', left) = next_snapshot looks w in
      until_turn-UntilMeans predicate looks w turn (until_loop predicate n left w') o
        (next_snapshot_lem looks w)
        (λ s h.
          let (used, split, accepted, some_used, c, d) = next_snapshot-Leaves looks w s h in
          let shorter : length left < n = omega (arith, ap length split, length-append used left) in
          let rest = until_loop-UntilMeans predicate n left w' shorter (c ∙ o) in
          subst (λ l. UntilMeans predicate w.deadline l (until_loop predicate n left w'))
            (sym split)
            (later-UntilMeans predicate w.deadline used left _ accepted
              (subst (λ t. UntilMeans predicate t left (until_loop predicate n left w')) d rest)))

  -- What a result of `until` says of the first snapshot and of the looks behind it.
  abbrev pub UntilSays :
      (S → Bool) → S → Option ℕ → List (Look S) → Option (Result (Exn Value) S) → Type 0
  UntilSays predicate first deadline looks none =
      (predicate first ≡ false) × All (λ l. l.accepted ≡ true) looks
  UntilSays predicate first deadline looks (some (ok s)) =
      (predicate s ≡ true)
      × ((s ≡ first) ⊎ Somewhere (λ l. (l.accepted ≡ true) × (l.snapshot ≡ s)) looks)
  UntilSays predicate first deadline looks (some (err e)) =
      (predicate first ≡ false)
      × (((e ≡ timeout_error) × Somewhere (λ l. IsEnd deadline l) looks)
          ⊎ ((e ≡ fenced) × Somewhere (λ l. l.accepted ≡ false) looks))

  says :
      (predicate : S → Bool) (first : S) (deadline : Option ℕ) (looks : List (Look S))
      (r : Option (Result (Exn Value) S))
      → predicate first ≡ false
      → UntilMeans predicate deadline looks r
      → UntilSays predicate first deadline looks r
  says predicate first deadline looks none h m = (h, m)
  says predicate first deadline looks (some (ok s)) h (p, m) = (p, inr m)
  says predicate first deadline looks (some (err e)) h m = (h, m)

  -- With more fuel than looks, `until` returns a snapshot only if the predicate accepts it and it is
  -- the first one or that of a look that found the seat held; it raises `TimeoutError` only when a
  -- look found the stream closed, by another thread, or found the seat held and the time up, and
  -- `Fenced` only when one found the seat lost. It
  -- goes on waiting only if every look found the seat held.
  pub until_lem :
      (predicate : S → Bool) (since deadline : Option ℕ) (now later : ℕ) (first : S)
      (revision fuel : ℕ) (looks : List (Look S))
      → length looks < fuel
      → UntilSays predicate first
          (elim (time_left deadline now) [ none ↦ none | some t ↦ some (later + t) ])
          looks
          (until predicate since deadline now later first revision fuel looks)
  unfolding until watching
  until_lem predicate since deadline now later first revision fuel looks enough =
      elim (Bool-cases (predicate first)) [
        | inl met ↦ rw met (met, inl refl)
        | inr unmet ↦ rw unmet (
            says predicate first _ looks _ unmet
              (until_loop-UntilMeans predicate fuel looks _ enough refl))
      ]
