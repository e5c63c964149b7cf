-- ===== src/Watch/Loop.antt =====
-- python/tinyray/__init__.py: the streams and waits on an event loop (`AsyncWatch.__anext__`,
-- `AsyncPool.auntil`) and `_Watching.close`. A `Beat` is what one round reads: how the bell of the
-- loop is got, a look, and how the wait for the bell ends, where a cancellation raises.
use mathlib.Core.Path.{subst}
use tinyray.Common.{
  ℕ, zero, suc, List, [], ◌∷◌, Option, none, some, Bool, true, false, if◌then◌else◌, map, All, ◌≡◌,
  refl, ap, sym, ◌∙◌, arith, Bool-cases, inl, inr,
}
use tinyray.Errors.{Result, ok, err, Exn}
use tinyray.Value.{Value}
use tinyray.Watch.{
  Watching, Look, Step, give, pause, Turn, yielded, stopped, raised, waiting, step, turn_of,
  next_snapshot, until_turn, until_loop, until, watching, time_left,
}

pub record Beat (S : Type 0) : Type 0 where
  pub bell : Result (Exn Value) (Unit {0})
  pub look : Look S
  pub woken : Result (Exn Value) (Unit {0})

-- _Watching.close
unfoldable pub close : Watching → Watching
close w = record w { closed = true }

abbrev pub look_of : {S : Type 0} → Beat S → Look S
look_of beat = beat.look

module _ {S : Type 0} where
  -- `await bell.wait(…)`, given what the later rounds do
  unfoldable pub woken_turn :
      Result (Exn Value) (Unit {0})
      → Watching
      → List (Beat S)
      → Turn S × Watching × List (Beat S)
      → Turn S × Watching × List (Beat S)
  woken_turn (err e) w beats later = (raised e, w, beats)
  woken_turn (ok _) w beats later = later

  -- the end of one round of `__anext__`
  unfoldable pub beat_turn :
      Result (Exn Value) (Step S)
      → Result (Exn Value) (Unit {0})
      → Watching
      → List (Beat S)
      → Turn S × Watching × List (Beat S)
      → Turn S × Watching × List (Beat S)
  unfolding woken_turn
  beat_turn (err e) woken w beats later = (raised e, w, beats)
  beat_turn (ok (give s)) woken w beats later = (yielded s, w, beats)
  beat_turn (ok (pause zero)) woken w beats later = (stopped, w, beats)
  beat_turn (ok (pause (suc ms))) woken w beats later = woken_turn woken w beats later

  -- AsyncWatch.__anext__
  unfoldable pub next_on_loop : List (Beat S) → Watching → Turn S × Watching × List (Beat S)
  unfolding beat_turn
  next_on_loop [] w = (waiting, w, [])
  next_on_loop (beat ∷ beats) w =
      let (result, w') = step beat.look w in
      let later = next_on_loop beats w' in
      if w.closed then (stopped, w, beats) else elim beat.bell [
        | err e ↦ (raised e, w, beats)
        | ok _ ↦ beat_turn result beat.woken w' beats later
      ]

  -- the loop of AsyncPool.auntil over the stream: `none` where the beats are used up
  unfoldable pub auntil_loop :
      (S → Bool) → ℕ → List (Beat S) → Watching → Option (Result (Exn Value) S)
  unfolding until_turn
  auntil_loop predicate zero beats w = none
  auntil_loop predicate (suc n) beats w =
      let (turn, w', beats') = next_on_loop beats w in
      let rest = auntil_loop predicate n beats' w' in until_turn predicate turn rest

  -- AsyncPool.auntil
  unfoldable pub auntil :
      (S → Bool)
      → Option ℕ
      → Option ℕ
      → ℕ
      → ℕ
      → S
      → ℕ
      → ℕ
      → List (Beat S)
      → Option (Result (Exn Value) S)
  auntil predicate since deadline now later first revision fuel beats =
      let from : ℕ = elim since [ none ↦ revision | some r ↦ r ] in
      if predicate first
      then some (ok first)
      else auntil_loop predicate fuel beats
          (watching (some from) (time_left deadline now) later false none 0)

  -- no cancellation, and a bell for every round
  abbrev pub IsUndisturbed : Beat S → Type 0
  IsUndisturbed beat = (beat.bell ≡ ok tt) × (beat.woken ≡ ok tt)

  -- the same round, with looks in place of beats
  abbrev pub as_looks : Turn S × Watching × List (Beat S) → Turn S × Watching × List (Look S)
  as_looks (turn, w, beats) = (turn, w, map look_of beats)

  beat_turn-turn_of :
      (result : Result (Exn Value) (Step S)) (w : Watching) (beats : List (Beat S))
      (later : Turn S × Watching × List (Beat S))
      → as_looks (beat_turn result (ok tt) w beats later)
        ≡ turn_of result w (map look_of beats) (as_looks later)
  unfolding beat_turn turn_of
  beat_turn-turn_of (err e) w beats later = refl
  beat_turn-turn_of (ok (give s)) w beats later = refl
  beat_turn-turn_of (ok (pause zero)) w beats later = refl
  beat_turn-turn_of (ok (pause (suc ms))) w beats later = refl

  next_closed :
      (look : Look S) (looks : List (Look S)) (w : Watching)
      → w.closed ≡ true
      → next_snapshot (look ∷ looks) w ≡ (stopped, w, looks)
  unfolding next_snapshot step turn_of
  next_closed look looks w closed = ground arith

  loop_closed :
      (beat : Beat S) (beats : List (Beat S)) (w : Watching)
      → w.closed ≡ true
      → next_on_loop (beat ∷ beats) w ≡ (stopped, w, beats)
  unfolding next_on_loop
  loop_closed beat beats w closed = ground arith

  loop_runs :
      (beat : Beat S) (beats : List (Beat S)) (w : Watching)
      → w.closed ≡ false
      → IsUndisturbed beat
      → next_on_loop (beat ∷ beats) w
        ≡ beat_turn
            (step beat.look w).0
            (ok tt)
            (step beat.look w).1
            beats
            (next_on_loop beats (step beat.look w).1)
  unfolding next_on_loop
  loop_runs beat beats w running (bell, woken) = simp (running, bell, woken)

  next_on_loop_same :
      (beats : List (Beat S)) (w : Watching)
      → All IsUndisturbed beats
      → as_looks (next_on_loop beats w) ≡ next_snapshot (map look_of beats) w
  unfolding next_on_loop next_snapshot
  next_on_loop_same [] w quiet = refl
  next_on_loop_same (beat ∷ beats) w (here, quiet) = elim (Bool-cases w.closed) [
    | inl closed ↦
        ap as_looks (loop_closed beat beats w closed)
        ∙ sym (next_closed beat.look (map look_of beats) w closed)
    | inr running ↦
        let w' = (step beat.look w).1 in
        ap as_looks (loop_runs beat beats w running here)
        ∙ beat_turn-turn_of (step beat.look w).0 w' beats (next_on_loop beats w')
        ∙ ap (turn_of (step beat.look w).0 w' (map look_of beats))
            (next_on_loop_same beats w' quiet)
  ]

  beat_turn-rest :
      (result : Result (Exn Value) (Step S)) (woken : Result (Exn Value) (Unit {0})) (w : Watching)
      (beats : List (Beat S)) (later : Turn S × Watching × List (Beat S))
      → All IsUndisturbed beats
      → All IsUndisturbed later.2
      → All IsUndisturbed (beat_turn result woken w beats later).2
  unfolding beat_turn woken_turn
  beat_turn-rest (err e) woken w beats later quiet rest = quiet
  beat_turn-rest (ok (give s)) woken w beats later quiet rest = quiet
  beat_turn-rest (ok (pause zero)) woken w beats later quiet rest = quiet
  beat_turn-rest (ok (pause (suc ms))) (ok u) w beats later quiet rest = rest
  beat_turn-rest (ok (pause (suc ms))) (err e) w beats later quiet rest = quiet

  next_on_loop-rest :
      (beats : List (Beat S)) (w : Watching)
      → All IsUndisturbed beats
      → All IsUndisturbed (next_on_loop beats w).2
  unfolding next_on_loop
  next_on_loop-rest [] w quiet = tt
  next_on_loop-rest (beat ∷ beats) w (here, quiet) = elim (Bool-cases w.closed) [
    | inl closed ↦ subst (λ r. All IsUndisturbed r.2) (sym (loop_closed beat beats w closed)) quiet
    | inr running ↦
        subst (λ r. All IsUndisturbed r.2) (sym (loop_runs beat beats w running here))
          (beat_turn-rest (step beat.look w).0 (ok tt) (step beat.look w).1 beats
            (next_on_loop beats (step beat.look w).1) quiet
            (next_on_loop-rest beats (step beat.look w).1 quiet))
  ]

  auntil_loop_same :
      (predicate : S → Bool) (fuel : ℕ) (beats : List (Beat S)) (w : Watching)
      → All IsUndisturbed beats
      → auntil_loop predicate fuel beats w ≡ until_loop predicate fuel (map look_of beats) w
  unfolding auntil_loop until_loop
  auntil_loop_same predicate zero beats w quiet = refl
  auntil_loop_same predicate (suc n) beats w quiet =
      let after = next_on_loop beats w in
      ap (until_turn predicate after.0)
        (auntil_loop_same predicate n after.2 after.1 (next_on_loop-rest beats w quiet))
      ∙ ap (λ x. until_turn predicate x.0 (until_loop predicate n x.2 x.1))
          (next_on_loop_same beats w quiet)

  -- On an event loop whose waits are neither cancelled nor without a bell, `auntil` returns and raises
  -- what `until` does on the same observations, and so does each step of the stream under it, with
  -- the same state left behind.
  pub auntil_same :
      (predicate : S → Bool) (since deadline : Option ℕ) (now later : ℕ) (first : S)
      (revision fuel : ℕ) (beats : List (Beat S)) (w : Watching)
      → All IsUndisturbed beats
      → (auntil predicate since deadline now later first revision fuel beats
          ≡ until predicate since deadline now later first revision fuel (map look_of beats))
        × (as_looks (next_on_loop beats w) ≡ next_snapshot (map look_of beats) w)
  unfolding auntil until
  auntil_same predicate since deadline now later first revision fuel beats w quiet =
      let from : ℕ = elim since [ none ↦ revision | some r ↦ r ] in
      let stream : Watching = watching (some from) (time_left deadline now) later false none 0 in
      (
        ap (λ x. if predicate first then some (ok first) else x)
            (auntil_loop_same predicate fuel beats stream quiet),
        next_on_loop_same beats w quiet,
      )

  -- A stream that was closed ends at its next step, blocking or on a loop, whatever it would read.
  pub close_stops :
      (beat : Beat S) (beats : List (Beat S)) (w : Watching)
      → (next_snapshot (map look_of (beat ∷ beats)) (close w)
          ≡ (stopped, close w, map look_of beats))
        × (next_on_loop (beat ∷ beats) (close w) ≡ (stopped, close w, beats))
  unfolding close
  close_stops beat beats w = (
    next_closed beat.look (map look_of beats) (close w) refl,
    loop_closed beat beats (close w) refl,
  )
