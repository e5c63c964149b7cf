-- ===== src/Pool/Seats.antt =====
-- What the lookups of one member and the targets of a wait for a replacement are.
use tinyray.Common.{
  ℕ, ◌+◌, ◌/◌, ◌^◌, ◌≤◌, ◌<◌, List, [], ◌∷◌, Option, none, some, Bool, true, false, ◌≡◌, ◌≢◌, ◌⊎◌,
  ◌↔◌, inl, inr, refl, arith,
}
use tinyray.Common.Text.{Text, Lacks}
use tinyray.Errors.{ok, err, not_found, type_error}
use tinyray.Identity.{identity}
use tinyray.Identity.Seats.{seat_of-identity}
use tinyray.Value.{Value}
use tinyray.Roster.{Handle, NativeMember, from_native, native_seat, slot_of, ready_of, read_field}
use tinyray.Watch.{left_ms}
use tinyray.Pool.{
  replacement_target, Cache, slot, settle, settle_loop, glance_of, Glance, Settled, answered,
  registry_silent, out_of_time, lease_ms, first_answer,
}

module _ (cache : Cache)
    (sits : (k : ℕ) (require_ready : Bool) (m : NativeMember)
      → cache.lookup_slot_ref k require_ready ≡ some m
      → (m.slot ≡ some k) × (require_ready ≡ true → m.ready ≡ true)) where
  slot-ok :
      (k : ℕ) (require_ready : Bool) (h : Handle)
      → slot cache k require_ready ≡ ok h
      → (m : NativeMember) × (h ≡ from_native m)
        × (cache.lookup_slot_ref k require_ready ≡ some m)
        × (k < 2 ^ 64)
  unfolding slot native_seat
  slot-ok k require_ready h e = ground arith

  slot_missing :
      (k : ℕ) (require_ready : Bool)
      → (slot cache k require_ready ≡ err not_found)
        ↔ ((2 ^ 64 ≤ k) ⊎ (cache.lookup_slot_ref k require_ready ≡ none))
  unfolding slot native_seat
  slot_missing k require_ready = ground arith

  -- `slot` never hands over another member: a handle that it returns sits at the seat that was asked
  -- for, and is ready where that was asked for. It raises `NotFound` exactly for a seat of 2 ^ 64 or
  -- more and where the cache knows no such member.
  pub slot-sits :
      (k : ℕ) (require_ready : Bool)
      → ((h : Handle)
          → slot cache k require_ready ≡ ok h
          → (slot_of h ≡ some k) × (require_ready ≡ true → ready_of h ≡ true))
        × ((slot cache k require_ready ≡ err not_found)
            ↔ ((2 ^ 64 ≤ k) ⊎ (cache.lookup_slot_ref k require_ready ≡ none)))
  unfolding read_field
  slot-sits k require_ready = (
    (λ h e.
        let (m, same, found, below) = slot-ok k require_ready h e in
        let (at, is_ready) = sits k require_ready m found in rw same (at, is_ready)),
    slot_missing k require_ready,
  )

module _ (pool : Text) (k ident incarnation : ℕ) (no_slash : Lacks b'/' pool)
    (usable : k < 2 ^ 64) where
  -- A wait for a replacement that is given the identity of a seated member watches the seat of that
  -- member and that tenure; given the seat, it watches the same seat and whoever holds it. Given both
  -- or neither it raises `TypeError`.
  pub replacement_target-identity :
      let token = identity pool (some k) ident incarnation in
      (replacement_target none (some token) ≡ ok (k, some token, false))
      × (replacement_target (some k) none ≡ ok (k, none, true))
      × (replacement_target (some k) (some token) ≡ err type_error)
      × (replacement_target none none ≡ err type_error)
  unfolding replacement_target native_seat
  replacement_target-identity = (
    rw (seat_of-identity pool (some k) ident incarnation no_slash {V = Value}, replacement_target)
        refl,
    ground arith,
    refl,
    refl,
  )

lease_ms_least : (interval : Option ℕ) → 1000 ≤ lease_ms interval
unfolding lease_ms
lease_ms_least interval = ground arith

-- what a round of `_settle` must read for the answer that it gives
abbrev pub IsReason : ℕ → Settled → Glance → Type 0
IsReason deadline answered g = g.is_known ≡ true
IsReason deadline registry_silent g =
    (g.is_known ≡ false) × (lease_ms g.interval / 2 < g.silence_ms)
IsReason deadline out_of_time g = (g.is_known ≡ false) × (deadline ≤ g.clock)

abbrev pub SomeGlance : (Glance → Type 0) → List Glance → Type 0
SomeGlance P [] = ⊥
SomeGlance P (g ∷ glances) = P g ⊎ SomeGlance P glances

glance-IsReason :
    (deadline : ℕ) (g : Glance) (later : Option Settled) (why : Settled)
    → glance_of deadline g later ≡ some why
    → IsReason deadline why g ⊎ (later ≡ some why)
unfolding glance_of left_ms
glance-IsReason deadline g later answered h = ground arith
glance-IsReason deadline g later registry_silent h = ground arith
glance-IsReason deadline g later out_of_time h = ground arith

settle_loop-IsReason :
    (deadline : ℕ) (glances : List Glance) (why : Settled)
    → settle_loop deadline glances ≡ some why
    → SomeGlance (IsReason deadline why) glances
unfolding settle_loop
settle_loop-IsReason deadline [] why h = absurd (ground arith)
settle_loop-IsReason deadline (g ∷ glances) why h =
    elim (glance-IsReason deadline g (settle_loop deadline glances) why h) [
      | inl reason ↦ inl reason
      | inr later ↦ inr (settle_loop-IsReason deadline glances why later)
    ]

glance-ends :
    (deadline : ℕ) (g : Glance) (later : Option Settled)
    → ((deadline ≤ g.clock) ⊎ (later ≢ none))
    → glance_of deadline g later ≢ none
unfolding glance_of left_ms
glance-ends deadline g later h = ground arith

settle_loop-ends :
    (deadline : ℕ) (glances : List Glance)
    → SomeGlance (λ g. deadline ≤ g.clock) glances
    → settle_loop deadline glances ≢ none
unfolding settle_loop
settle_loop-ends deadline [] late = absurd late
settle_loop-ends deadline (g ∷ glances) (inl late) =
    glance-ends deadline g (settle_loop deadline glances) (inl late)
settle_loop-ends deadline (g ∷ glances) (inr late) =
    glance-ends deadline g (settle_loop deadline glances)
      (inr (settle_loop-ends deadline glances late))

-- A lookup waits for the first answer about its pool until one comes, until the registry has been
-- silent for more than half a lease, or until two seconds have passed, and it does not wait on where
-- a round finds one of these.
pub settle_lem :
    (now : ℕ) (glances : List Glance)
    → ((why : Settled)
        → settle now glances ≡ some why
        → SomeGlance (IsReason (now + 2000000) why) glances)
      × (SomeGlance (λ g. now + 2000000 ≤ g.clock) glances → settle now glances ≢ none)
unfolding settle
settle_lem now glances = (
  settle_loop-IsReason (now + first_answer) glances,
  settle_loop-ends (now + first_answer) glances,
)
