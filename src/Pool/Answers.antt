-- ===== src/Pool/Answers.antt =====
-- What the answers of the awaited waits stand on.
use tinyray.Common.{
  ℕ, List, [], ◌∷◌, Option, none, some, Bool, true, false, ◌≡◌, ◌⊎◌, inl, inr, refl, arith, sym, ap,
  ◌∙◌, Option-cases,
}
use tinyray.Common.Int.{ℤ}
use tinyray.Common.Text.{Text}
use tinyray.Errors.{Result, ok, err, Result-cases}
use tinyray.Rpc.{Bytes, Error}
use tinyray.Value.{Value}
use tinyray.Identity.{seat_of}
use tinyray.Roster.{native_seat}
use tinyray.Pool.{
  wait_ready, Verdict, Waiter, Round, Moment, rounds_of, timed_out, await_loop, await_native,
  members_of, has_departed, replaced_by, replacement_target,
}
use tinyray.Pool.Waiting.{IsAnswer, Somewhere, await_loop-answers}
use tinyray.Pool.Waits.{
  PoolClient, native_threshold, encode_filter, read_end, deadline_from, counting, replacing,
  awaiting, await_ready, await_departure, await_replacement,
}

module _ {S : Type 0} where
  -- a check of the waiter that said `ready`, with what the wait makes of it
  abbrev pub Said : {A : Type 0} → (Verdict S → Result Error A) → A → Round S → Type 0
  Said read a r = (v : Verdict S) × (r.checked ≡ ok v) × (v.status ≡ wait_ready) × (read v ≡ ok a)

  answer-Said :
      {A : Type 0} (read : Verdict S → Result Error A) (a : A) (deadline : Option ℕ) (v : Verdict S)
      → v.status ≡ wait_ready
      → read v ≡ ok a
      → (rounds : List (Round S)) → Somewhere (λ r. IsAnswer deadline r v) rounds
      → Somewhere (Said read a) rounds
  unfolding IsAnswer timed_out
  answer-Said read a deadline v ready says [] i = absurd i
  answer-Said read a deadline v ready says (r ∷ rounds) (inr i) =
      inr (answer-Said read a deadline v ready says rounds i)
  answer-Said read a deadline v ready says (r ∷ rounds) (inl (inl (e, settled))) =
      inl (v, e, ready, says)
  answer-Said read a deadline v ready says (r ∷ rounds) (inl (inr (c, d, e, same, _, _))) =
      absurd (ground arith)

  read_end_ok :
      {A : Type 0} (read : Verdict S → Result Error A) (a : A)
      (result : Option (Result Error (Verdict S)))
      → read_end read result ≡ some (ok a)
      → (v : Verdict S) × (result ≡ some (ok v)) × (read v ≡ ok a)
  read_end_ok read a none h = absurd (ground arith)
  read_end_ok read a (some (err e)) h = absurd (ground arith)
  read_end_ok read a (some (ok v)) h = (v, refl, ground arith)

module _ {S H F W : Type 0} (client : PoolClient S H F W) where
  awaiting-Said :
      {A : Type 0} (read : Verdict S → Result Error A) (a : A) (opened : Result Error (Waiter S W))
      (k : ℕ) (deadline : Option ℕ) (moments : List (Moment W)) (live : List ℕ)
      → ((v : Verdict S) → read v ≡ ok a → v.status ≡ wait_ready)
      → (awaiting client read opened k deadline moments live).0 ≡ some (ok a)
      → (waiter : Waiter S W) × (opened ≡ ok waiter)
        × Somewhere (Said read a) (rounds_of waiter true moments)
  unfolding awaiting await_native
  awaiting-Said read a (err e) k deadline moments live positive h = absurd (ground arith)
  awaiting-Said read a (ok waiter) k deadline moments live positive h =
      let rounds = rounds_of waiter true moments in
      let (v, ends, says) = read_end_ok read a (await_loop true deadline rounds) h in
      (
        waiter,
        refl,
        answer-Said read a deadline v (positive v says) says rounds
            (await_loop-answers true deadline rounds v ends),
      )

  -- where the waiter of a wait for a count comes from
  counting_ok :
      (count : ℤ) (filt : Option F) (waiter : Waiter S W)
      → counting client count filt ≡ ok waiter
      → (raw : Option Bytes) × (encode_filter client filt ≡ ok raw)
        × (client.count_waiter (native_threshold count) raw ≡ ok waiter)
  unfolding counting
  counting_ok count filt waiter h = elim (Result-cases (encode_filter client filt)) [
    | inl (raw, e) ↦ (raw, e, rw (e, counting) at h)
    | inr (x, e) ↦ absurd (ground arith)
  ]

members_of_ready :
    {S H : Type 0} (materialize : S → List H) (hs : List H) (v : Verdict S)
    → members_of materialize v ≡ ok hs
    → v.status ≡ wait_ready
unfolding members_of
members_of_ready materialize hs v h = ground arith

has_departed_ready : {S : Type 0} (v : Verdict S) → has_departed v ≡ ok true → v.status ≡ wait_ready
unfolding has_departed
has_departed_ready v h = ground arith

replaced_by_ready :
    {S H : Type 0} (slot : ℕ → S → Option H) (seat : ℕ) (h : H) (v : Verdict S)
    → replaced_by slot seat v ≡ ok (some h)
    → v.status ≡ wait_ready
unfolding replaced_by
replaced_by_ready slot seat h v e = ground arith

-- The seat that a call of `await_replacement` is about: that of `slot`, of which the present tenure
-- has to give way, or that of `identity`, which has to.
abbrev pub IsAbout : Option ℕ → Option Text → ℕ → Option Text → Bool → Type 0
IsAbout slot identity seat was capture =
    ((n : ℕ) × (slot ≡ some n)
      × (identity ≡ none)
      × (native_seat n ≡ some seat)
      × (was ≡ none)
      × (capture ≡ true))
    ⊎ ((token : Text) × (slot ≡ none)
        × (identity ≡ some token)
        × (seat_of {V = Value} token ≡ ok seat)
        × (was ≡ some token)
        × (capture ≡ false))

replacement_target-IsAbout :
    (slot : Option ℕ) (identity : Option Text) (target : ℕ × Option Text × Bool)
    → replacement_target slot identity ≡ ok target
    → IsAbout slot identity target.0 target.1 target.2
unfolding replacement_target
replacement_target-IsAbout none none target h = absurd (ground arith)
replacement_target-IsAbout (some n) (some token) target h = absurd (ground arith)
replacement_target-IsAbout none (some token) target h =
    elim (Result-cases (seat_of {V = Value} token)) [
      | inr (e, p) ↦ absurd (ground arith)
      | inl (seat, p) ↦
          let same : ◌≡◌ {A = Result Error (ℕ × Option Text × Bool)} (ok (seat, some token, false))
              (ok target) =
            ground arith in
          inr (
            token,
            refl,
            refl,
            p ∙ ap (λ r. elim r [ ok t ↦ ok t.0 | err e ↦ err e ]) same,
            ap (λ r. elim r [ ok t ↦ t.1 | err e ↦ none ]) (sym same),
            ap (λ r. elim r [ ok t ↦ t.2 | err e ↦ false ]) (sym same),
          )
    ]
replacement_target-IsAbout (some n) none target h = elim (Option-cases (native_seat n)) [
  | inl p ↦ absurd (ground arith)
  | inr (seat, p) ↦
      let same : ◌≡◌ {A = Result Error (ℕ × Option Text × Bool)} (ok (seat, none, true))
          (ok target) =
        ground arith in
      inl (
        n,
        refl,
        refl,
        p ∙ ap (λ r. elim r [ ok t ↦ some t.0 | err e ↦ none ]) same,
        ap (λ r. elim r [ ok t ↦ t.1 | err e ↦ none ]) (sym same),
        ap (λ r. elim r [ ok t ↦ t.2 | err e ↦ true ]) (sym same),
      )
]

module _ {S H F W : Type 0} (client : PoolClient S H F W) (k now : ℕ) (moments : List (Moment W))
    (live : List ℕ) where
  -- `await_ready` returns members only where a check of its waiter, which the client made for the
  -- count, clamped, and the encoded filter, said `ready`: they are the members of the view that came
  -- with it.
  pub await_ready-Said :
      (count : ℤ) (timeout : ℕ) (filt : Option F) (hs : List H)
      → (await_ready client count timeout filt k now moments live).0 ≡ some (ok hs)
      → (raw : Option Bytes) × (waiter : Waiter S W) × (encode_filter client filt ≡ ok raw)
        × (client.count_waiter (native_threshold count) raw ≡ ok waiter)
        × Somewhere (Said (members_of client.materialize) hs) (rounds_of waiter true moments)
  unfolding await_ready
  await_ready-Said count timeout filt hs h =
      let (waiter, opened, said) =
        awaiting-Said client (members_of client.materialize) hs (counting client count filt) k
          (deadline_from now (some timeout)) moments live (members_of_ready client.materialize hs)
          h in
      let (raw, encoded, made) = counting_ok client count filt waiter opened in
      (raw, waiter, encoded, made, said)

  -- `await_departure` says that a tenure is gone only where a check of its waiter said `ready`.
  pub await_departure-Said :
      (identity : Text) (timeout : Option ℕ)
      → (await_departure client identity timeout k now moments live).0 ≡ some (ok true)
      → (waiter : Waiter S W) × (client.departure_waiter identity ≡ ok waiter)
        × Somewhere (Said has_departed true) (rounds_of waiter true moments)
  unfolding await_departure
  await_departure-Said identity timeout h =
      awaiting-Said client has_departed true (client.departure_waiter identity) k
        (deadline_from now timeout) moments live has_departed_ready h

  -- `await_replacement` returns a member only where it was given exactly one of `slot` and `identity`,
  -- which names a seat, and a check of the waiter that the client made for this seat, the tenure that
  -- has to give way and whether the present one is taken for it, said `ready`: it is the member that
  -- the view that came with it has on the seat.
  pub await_replacement-Said :
      (slot : Option ℕ) (identity : Option Text) (timeout : Option ℕ) (h : H)
      → (await_replacement client slot identity timeout k now moments live).0 ≡ some (ok (some h))
      → (seat : ℕ) × (was : Option Text) × (capture : Bool) × IsAbout slot identity seat was capture
        × (waiter : Waiter S W) × (client.replacement_waiter seat was capture ≡ ok waiter)
        × Somewhere (Said (replaced_by client.slot seat) (some h)) (rounds_of waiter true moments)
  unfolding await_replacement replacing
  await_replacement-Said slot identity timeout h e =
      elim (Result-cases (replacement_target slot identity)) [
        | inr (x, p) ↦ absurd (ground (arith, rw (p, await_replacement) at e))
        | inl ((seat, was, capture), p) ↦
            let about = replacement_target-IsAbout slot identity (seat, was, capture) p in
            let (waiter, opened, said) =
              awaiting-Said client (replaced_by client.slot seat) (some h)
                (replacing client (seat, was, capture)) k (deadline_from now timeout) moments live
                (replaced_by_ready client.slot seat h) (rw (p, await_replacement) at e) in
            (seat, was, capture, about, waiter, opened, said)
      ]
