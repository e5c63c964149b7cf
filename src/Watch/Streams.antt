-- ===== src/Watch/Streams.antt =====
-- What a stream hands over and when it ends.
use mathlib.Core.Path.{subst}
use tinyray.Common.{
  ℕ, zero, suc, ◌≤◌, List, [], ◌∷◌, Option, none, some, true, false, All, ◌≡◌, ◌≢◌, ◌⊎◌, inl, inr,
  refl, sym, arith,
}
use tinyray.Errors.{Exn, Result, ok, err, fenced}
use tinyray.Value.{Value}
use tinyray.Watch.{
  left_ms, Watching, Look, Step, give, pause, Turn, yielded, stopped, raised, waiting, rest_of,
  moved, compare_version, step, next_snapshot, turn_of,
}

-- The time is up at one of the two looks at the clock.
abbrev pub IsOver : {S : Type 0} → Option ℕ → Look S → Type 0
IsOver none look = ⊥
IsOver (some deadline) look = (deadline ≤ look.first_clock) ⊎ (deadline ≤ look.last_clock)

abbrev pub Somewhere : {S : Type 0} → (Look S → Type 0) → List (Look S) → Type 0
Somewhere P [] = ⊥
Somewhere P (look ∷ looks) = P look ⊎ Somewhere P looks

left_ms-none :
    (deadline : Option ℕ) (now : ℕ)
    → left_ms deadline now ≡ none
    → (d : ℕ) × (deadline ≡ some d) × (d ≤ now)
unfolding left_ms
left_ms-none none now h = absurd (ground arith)
left_ms-none (some d) now h = (d, refl, ground arith)

left_ms-positive : (deadline : Option ℕ) (now : ℕ) → left_ms deadline now ≢ some 0
unfolding left_ms
left_ms-positive none now h = ground arith
left_ms-positive (some d) now h = ground arith

module _ {S : Type 0} where
  -- the look ends the stream: it was closed meanwhile, or its time is up while the seat is held
  abbrev pub IsEnd : Option ℕ → Look S → Type 0
  IsEnd deadline look = (look.closed ≡ true) ⊎ ((look.accepted ≡ true) × IsOver deadline look)

  -- What the result of a turn says of the looks that the turn was given.
  abbrev pub Means : Watching → List (Look S) → Turn S → Type 0
  Means w looks (yielded s) =
      (w.closed ≡ false) × Somewhere (λ look. (look.accepted ≡ true) × (look.snapshot ≡ s)) looks
  Means w looks stopped = (w.closed ≡ true) ⊎ Somewhere (λ look. IsEnd w.deadline look) looks
  Means w looks (raised e) =
      (w.closed ≡ false) × (e ≡ fenced) × Somewhere (λ look. look.accepted ≡ false) looks
  Means w looks waiting =
      (looks ≡ []) ⊎ ((w.closed ≡ false) × All (λ look. look.accepted ≡ true) looks)

  abbrev pub StepMeans : Watching → Look S → Result (Exn Value) (Step S) → Type 0
  StepMeans w look (ok (give s)) = (w.closed ≡ false) × (look.accepted ≡ true) × (look.snapshot ≡ s)
  StepMeans w look (ok (pause zero)) = (w.closed ≡ true) ⊎ IsEnd w.deadline look
  StepMeans w look (ok (pause (suc ms))) = (w.closed ≡ false) × (look.accepted ≡ true)
  StepMeans w look (err e) = (w.closed ≡ false) × (e ≡ fenced) × (look.accepted ≡ false)

  compare_version-answers :
      (look : Look S) (w : Watching)
      → let (s, w') = compare_version look.version look w in
        ((s ≡ give look.snapshot) ⊎ (s ≡ rest_of (left_ms w.deadline look.last_clock)))
        × (w'.closed ≡ w.closed)
        × (w'.deadline ≡ w.deadline)
  unfolding compare_version moved
  compare_version-answers look w = ground arith

  rest-StepMeans :
      (look : Look S) (w : Watching)
      → w.closed ≡ false
      → look.accepted ≡ true
      → StepMeans w look (ok (rest_of (left_ms w.deadline look.last_clock)))
  unfolding rest_of left_ms
  rest-StepMeans look w h k = ground arith

  pub step-StepMeans :
      (look : Look S) (w : Watching)
      → let (r, w') = step look w in
        StepMeans w look r × (w'.closed ≡ w.closed) × (w'.deadline ≡ w.deadline)
  unfolding step
  step-StepMeans look w =
      let ticked = record w { tick = look.revision } in
      ground (
        arith,
        compare_version-answers look ticked,
        rest-StepMeans look ticked,
        left_ms-none w.deadline look.first_clock,
      )

  later-Means :
      (look : Look S) (looks : List (Look S)) (w w' : Watching) (turn : Turn S)
      → (w'.closed ≡ w.closed)
      → (w'.deadline ≡ w.deadline)
      → (w.closed ≡ false)
      → (look.accepted ≡ true)
      → Means w' looks turn
      → Means w (look ∷ looks) turn
  later-Means look looks w w' (yielded s) same_closed same_deadline h k (_, m) = (h, inr m)
  later-Means look looks w w' stopped same_closed same_deadline h k (inl m) = ground arith
  later-Means look looks w w' stopped same_closed same_deadline h k (inr m) =
      inr (inr (subst (λ d. Somewhere (λ l. IsEnd d l) looks) same_deadline m))
  later-Means look looks w w' (raised e) same_closed same_deadline h k (_, m, n) = (h, m, inr n)
  later-Means look looks w w' waiting same_closed same_deadline h k (inl m) =
      inr (h, (k, subst (All (λ l. l.accepted ≡ true)) (sym m) tt))
  later-Means look looks w w' waiting same_closed same_deadline h k (inr (_, m)) = inr (h, (k, m))

  turn_of-Means :
      (r : Result (Exn Value) (Step S)) (look : Look S) (looks : List (Look S)) (w w' : Watching)
      (later : Turn S × Watching × List (Look S))
      → StepMeans w look r
      → (w'.closed ≡ w.closed)
      → (w'.deadline ≡ w.deadline)
      → Means w' looks later.0
      → Means w (look ∷ looks) (turn_of r w' looks later).0
  unfolding turn_of
  turn_of-Means (err e) look looks w w' later (h, same, k) c d m = (h, same, inl k)
  turn_of-Means (ok (give s)) look looks w w' later (h, k, same) c d m = (h, inl (k, same))
  turn_of-Means (ok (pause zero)) look looks w w' later (inl h) c d m = inl h
  turn_of-Means (ok (pause zero)) look looks w w' later (inr h) c d m = inr (inl h)
  turn_of-Means (ok (pause (suc ms))) look looks w w' later (h, k) c d m =
      later-Means look looks w w' later.0 c d h k m

  -- A turn hands over a snapshot of one of its looks, made while the seat was held. It stops only if
  -- the stream was closed, before or at a look, or its time was up while the seat was held, and it raises only `Fenced`,
  -- at a look that found the seat lost. A closed stream stops, whatever else holds.
  pub next_snapshot_lem :
      (looks : List (Look S)) (w : Watching) → Means w looks (next_snapshot looks w).0
  unfolding next_snapshot
  next_snapshot_lem [] w = inl refl
  next_snapshot_lem (look ∷ looks) w =
      let (r, w') = step look w in
      let (means, same_closed, same_deadline) = step-StepMeans look w in
      turn_of-Means r look looks w w' (next_snapshot looks w') means same_closed same_deadline
        (next_snapshot_lem looks w')
