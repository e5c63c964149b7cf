-- ===== src/Pool/Waiting.antt =====
-- The two ways to wait for a native answer: what they return, that they end, and the live waits.
use tinyray.Common.{
  ℕ, ◌≤◌, List, [], ◌∷◌, Option, none, some, Bool, true, false, ◌≡◌, ◌≢◌, ◌⊎◌, inl, inr, refl,
  arith, ◌∙◌, if◌then◌else◌, ◌==◌, ap, any,
}
use tinyray.Errors.{Result, ok, err, Result-cases}
use tinyray.Rpc.{Error}
use tinyray.Watch.{left_ms}
use tinyray.Pool.{
  Status, wait_pending, Verdict, is_settled, discard, add, Waiter, timed_out, wait_behind,
  wait_native, bound_of, Round, Moment, judge, round_of, await_loop, await_native,
}

left_ms-over : (d now : ℕ) → d ≤ now → left_ms (some d) now ≡ none
unfolding left_ms
left_ms-over d now h = ground arith

left_ms-none :
    (deadline : Option ℕ) (now : ℕ)
    → left_ms deadline now ≡ none
    → (d : ℕ) × (deadline ≡ some d) × (d ≤ now)
unfolding left_ms
left_ms-none none now h = absurd (ground arith)
left_ms-none (some d) now h = (d, refl, ground arith)

settled-pending : (s : Status) → is_settled s ≡ true → s ≢ wait_pending
unfolding is_settled
settled-pending s h = ground arith

module _ {S : Type 0} where
  -- what a round may say: its own answer, or that the deadline has passed by one of its clocks
  unfoldable pub IsAnswer : Option ℕ → Round S → Verdict S → Type 0
  IsAnswer deadline r v =
      ((r.checked ≡ ok v) × (v.status ≢ wait_pending))
      ⊎ ((checked : Verdict S) × (d : ℕ) × (r.checked ≡ ok checked)
          × (v ≡ timed_out checked)
          × (deadline ≡ some d)
          × ((d ≤ r.first_clock) ⊎ (d ≤ r.last_clock)))

  abbrev pub Somewhere : (Round S → Type 0) → List (Round S) → Type 0
  Somewhere P [] = ⊥
  Somewhere P (r ∷ rounds) = P r ⊎ Somewhere P rounds

  judge-IsAnswer :
      (initial : Bool) (deadline : Option ℕ) (r : Round S) (c v : Verdict S)
      (later : Option (Result Error (Verdict S)))
      → r.checked ≡ ok c
      → judge initial deadline r c later ≡ some (ok v)
      → IsAnswer deadline r v ⊎ (later ≡ some (ok v))
  unfolding judge IsAnswer
  judge-IsAnswer initial deadline r c v later at h = ground (
    arith,
    settled-pending c.status,
    left_ms-none deadline r.first_clock,
    left_ms-none deadline r.last_clock,
  )

  round-IsAnswer :
      (initial : Bool) (deadline : Option ℕ) (r : Round S) (v : Verdict S)
      (later : Option (Result Error (Verdict S)))
      → round_of initial deadline r later ≡ some (ok v)
      → IsAnswer deadline r v ⊎ (later ≡ some (ok v))
  unfolding round_of
  round-IsAnswer initial deadline r v later h = elim (Result-cases r.bell) [
    | inr (e, p) ↦ absurd (ground arith)
    | inl (u, p) ↦ elim (Result-cases r.checked) [
      | inr (e, q) ↦ absurd (ground arith)
      | inl (c, q) ↦ judge-IsAnswer initial deadline r c v later q (rw (p, q, round_of) at h)
    ]
  ]

  -- A wait on an event loop returns what one of its checks answered, which is not `pending`, or that
  -- the time is up, and then one of its clocks had reached the deadline.
  pub await_loop-answers :
      (initial : Bool) (deadline : Option ℕ) (rounds : List (Round S)) (v : Verdict S)
      → await_loop initial deadline rounds ≡ some (ok v)
      → Somewhere (λ r. IsAnswer deadline r v) rounds
  unfolding await_loop
  await_loop-answers initial deadline [] v h = absurd (ground arith)
  await_loop-answers initial deadline (r ∷ rounds) v h =
      elim (round-IsAnswer initial deadline r v (await_loop false deadline rounds) h) [
        | inl answers ↦ inl answers
        | inr later ↦ inr (await_loop-answers false deadline rounds v later)
      ]

  round-ends :
      (initial : Bool) (d : ℕ) (r : Round S) (later : Option (Result Error (Verdict S)))
      → (d ≤ r.last_clock) ⊎ (later ≢ none)
      → round_of initial (some d) r later ≢ none
  unfolding round_of judge
  round-ends initial d r later h = ground (arith, left_ms-over d r.last_clock)

  -- With a deadline, a wait on an event loop is over as soon as a round finds its last clock at or
  -- behind the deadline, whatever the checks answer: it returns or raises.
  pub await_loop-ends :
      (initial : Bool) (d : ℕ) (rounds : List (Round S))
      → Somewhere (λ r. d ≤ r.last_clock) rounds
      → await_loop initial (some d) rounds ≢ none
  unfolding await_loop
  await_loop-ends initial d [] late = absurd late
  await_loop-ends initial d (r ∷ rounds) (inl late) =
      round-ends initial d r (await_loop false (some d) rounds) (inl late)
  await_loop-ends initial d (r ∷ rounds) (inr late) =
      round-ends initial d r (await_loop false (some d) rounds)
        (inr (await_loop-ends false d rounds late))

abbrev pub is_live : ℕ → List ℕ → Bool
is_live j live = any (λ k. k == j) live

discard-is_live :
    (j k : ℕ) (live : List ℕ)
    → is_live j (discard k live) ≡ (if j == k then false else is_live j live)
unfolding discard
discard-is_live j k [] = ground arith
discard-is_live j k (x ∷ live) = ground (arith, discard-is_live j k live)

add-is_live : (k : ℕ) (live : List ℕ) → is_live k (add k live) ≡ true
unfolding add
add-is_live k live = ground arith

discard-add :
    (j k : ℕ) (live : List ℕ)
    → is_live j (discard k (add k live)) ≡ (if j == k then false else is_live j live)
unfolding add
discard-add j k live =
    ground (arith, discard-is_live j k (k ∷ discard k live), discard-is_live j k live)

module _ {S W : Type 0} where
  -- Behind a wait, blocking or on an event loop, its waiter is not among the live waits, and the
  -- others are as they were, whatever the wait returned or raised.
  pub wait_native-is_live :
      (waiter : Waiter S W) (deadline : Option ℕ) (moments : List (Moment W)) (j k now : ℕ)
      (live : List ℕ) (w : W)
      → let left = if j == k then false else is_live j live in
        (is_live j (wait_native waiter k deadline now live w).1 ≡ left)
        × (is_live j (await_native waiter k deadline moments live).1 ≡ left)
  unfolding wait_native await_native
  wait_native-is_live waiter deadline moments j k now live w =
      (discard-add j k live, discard-add j k live)

  wait_behind_same :
      (one two : Waiter S W) (k : ℕ) (deadline : Option ℕ) (now : ℕ) (live : List ℕ)
      (opened : Result Error (Verdict S) × W)
      → ((bound : Option ℕ) (w : W) → one.wait bound false live w ≡ two.wait bound false live w)
      → wait_behind one deadline now live opened ≡ wait_behind two deadline now live opened
  unfolding wait_behind
  wait_behind_same one two k deadline now live (err e, w) same = refl
  wait_behind_same one two k deadline now live (ok v, w) same =
      ap (λ x. if is_settled v.status then (ok v, w) else x) (same (bound_of deadline now) w)

  -- A blocking wait calls its native waiter only while that is among the live waits, which `leave`
  -- closes: waiters that agree there cannot be told apart by it.
  pub wait_native_live_only :
      (one two : Waiter S W) (k : ℕ) (deadline : Option ℕ) (now : ℕ) (live : List ℕ) (w : W)
      → ((initial : Bool) (inside : List ℕ) (u : W)
          → is_live k inside ≡ true
          → one.check initial inside u ≡ two.check initial inside u)
      → ((bound : Option ℕ) (initial : Bool) (inside : List ℕ) (u : W)
          → is_live k inside ≡ true
          → one.wait bound initial inside u ≡ two.wait bound initial inside u)
      → wait_native one k deadline now live w ≡ wait_native two k deadline now live w
  unfolding wait_native
  wait_native_live_only one two k deadline now live w checks waits =
      let inside = add k live in
      let opened : one.check true inside w ≡ two.check true inside w =
        checks true inside w (add-is_live k live) in
      let behind =
        wait_behind_same one two k deadline now inside (two.check true inside w)
          (λ bound u. waits bound false inside u (add-is_live k live)) in
      ap (λ r. (r.0, discard k inside, r.1))
        (ap (λ c. wait_behind one deadline now inside c) opened ∙ behind)
