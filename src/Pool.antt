-- ===== src/Pool.antt =====
-- python/tinyray/__init__.py: the lookups and the waits of `Pool` and `AsyncPool` that stand on the
-- native client (`_settle`, `pick`, `slot`, the waits for members, a departure, a replacement, and
-- `epoch`). A native wait is a parameter; `S` is the type of native views of a pool. What a loop
-- reads in one round is a record, as for the watches.
pub mod Waiting
pub mod Waits
pub mod Answers
pub mod Outcomes
pub mod Seats
use tinyray.Common.{
  ℕ, zero, suc, ◌+◌, ◌-◌, ◌*◌, ◌/◌, ◌^◌, List, [], ◌∷◌, Option, none, some, Bool, true, false, not,
  ◌&&◌, ◌||◌, if◌then◌else◌, ltb, leb, ◌==◌,
}
use tinyray.Common.Text.{Text}
use tinyray.Errors.{
  Result, ok, err, ◌>>=◌, fenced, stale, policy_error, timeout_error, type_error, value_error,
  not_found,
}
use tinyray.Rpc.{Error}
use tinyray.Identity.{seat_of}
use tinyray.Roster.{Handle, NativeMember, from_native, native_seat}
use tinyray.Watch.{left_ms}

-- the status of a native wait
pub data Status : Type 0 where
  wait_pending wait_ready wait_timeout wait_fenced wait_closed wait_stale wait_no_size
        wait_mismatch :
      Status

-- result[0], result[1], result[3] and result[4] of a native wait
pub record Verdict (S : Type 0) : Type 0 where
  pub status : Status
  pub view : Option S
  pub found : ℕ
  pub revision : ℕ

-- result[0] != _WAIT_PENDING
unfoldable pub is_settled : Status → Bool
is_settled wait_pending = false
is_settled _ = true

-- result[0] in (_WAIT_FENCED, _WAIT_CLOSED)
unfoldable pub is_final : Status → Bool
is_final wait_fenced = true
is_final wait_closed = true
is_final _ = false

-- _live_native_waits
unfoldable pub discard : ℕ → List ℕ → List ℕ
discard k [] = []
discard k (x ∷ live) = let rest = discard k live in if k == x then rest else x ∷ rest

unfoldable pub add : ℕ → List ℕ → List ℕ
unfolding discard
add k live = k ∷ discard k live

-- a native waiter on its state `W`, which sees what waits are live while it waits
pub record Waiter (S W : Type 0) : Type 0 where
  pub check : Bool → List ℕ → W → Result Error (Verdict S) × W
  pub wait : Option ℕ → Bool → List ℕ → W → Result Error (Verdict S) × W

abbrev pub or_zero_ms : Option ℕ → ℕ
or_zero_ms none = 0
or_zero_ms (some ms) = ms

-- what the deadline leaves of the native wait
abbrev pub bound_of : Option ℕ → ℕ → Option ℕ
bound_of none now = none
bound_of (some deadline) now = some (or_zero_ms (left_ms (some deadline) now))

-- What one round of `_await_native` reads, in order: the bell of the loop, the check, the clock
-- twice, and how the wait for the bell ends (a cancellation raises).
pub record Round (S : Type 0) : Type 0 where
  pub bell : Result Error (Unit {0})
  pub checked : Result Error (Verdict S)
  pub first_clock : ℕ
  pub last_clock : ℕ
  pub woken : Result Error (Unit {0})

-- The same without the check: the state of the native waiter at its moment, with the waits that are
-- live then. What moves it between two checks is the member's traffic.
pub record Moment (W : Type 0) : Type 0 where
  pub bell : Result Error (Unit {0})
  pub live : List ℕ
  pub state : W
  pub first_clock : ℕ
  pub last_clock : ℕ
  pub woken : Result Error (Unit {0})

module _ {S : Type 0} where
  unfoldable pub timed_out : Verdict S → Verdict S
  timed_out v = record v { status = wait_timeout; view = none }

  module _ {W : Type 0} (waiter : Waiter S W) where
    -- the wait behind the first check
    unfoldable pub wait_behind :
        Option ℕ → ℕ → List ℕ → Result Error (Verdict S) × W → Result Error (Verdict S) × W
    wait_behind deadline now live (err e, w) = (err e, w)
    wait_behind deadline now live (ok v, w) =
        if is_settled v.status then (ok v, w) else waiter.wait (bound_of deadline now) false live w

    -- _wait_native, of the waiter with the number `k`: `now` is the clock behind the first check
    unfoldable pub wait_native :
        ℕ → Option ℕ → ℕ → List ℕ → W → Result Error (Verdict S) × List ℕ × W
    unfolding wait_behind add discard
    wait_native k deadline now live w =
        let inside = add k live in
        let (result, w') = wait_behind deadline now inside (waiter.check true inside w) in
        (result, discard k inside, w')

  -- the two tests of the deadline and of the answer, given what the later rounds do
  unfoldable pub judge :
      Bool
      → Option ℕ
      → Round S
      → Verdict S
      → Option (Result Error (Verdict S))
      → Option (Result Error (Verdict S))
  unfolding is_settled is_final timed_out
  judge initial deadline r v later =
      let first : Bool = elim (left_ms deadline r.first_clock) [ none ↦ true | some ms ↦ false ] in
      if not initial && (not (is_final v.status) && first)
      then some (ok (timed_out v))
      else if is_settled v.status
      then some (ok v)
      else elim (left_ms deadline r.last_clock) [
        | none ↦ some (ok (timed_out v))
        | some ms ↦ elim r.woken [ err e ↦ some (err e) | ok _ ↦ later ]
      ]

  unfoldable pub round_of :
      Bool
      → Option ℕ
      → Round S
      → Option (Result Error (Verdict S))
      → Option (Result Error (Verdict S))
  unfolding judge
  round_of initial deadline r later = elim r.bell [
    | err e ↦ some (err e)
    | ok _ ↦ elim r.checked [ err e ↦ some (err e) | ok v ↦ judge initial deadline r v later ]
  ]

  -- the loop of _await_native: `none` where the rounds are used up
  unfoldable pub await_loop : Bool → Option ℕ → List (Round S) → Option (Result Error (Verdict S))
  unfolding round_of
  await_loop initial deadline [] = none
  await_loop initial deadline (r ∷ rounds) =
      let later = await_loop false deadline rounds in round_of initial deadline r later

  module _ {W : Type 0} (waiter : Waiter S W) where
    -- what a round reads, where `waiter.check` is what its waiter answers at that moment
    unfoldable pub round_at : Bool → Moment W → Round S
    round_at initial m = record {
      bell = m.bell;
      checked = (waiter.check initial m.live m.state).0;
      first_clock = m.first_clock;
      last_clock = m.last_clock;
      woken = m.woken;
    }

    -- the rounds of a wait: just the first check is an initial one
    unfoldable pub rounds_of : Bool → List (Moment W) → List (Round S)
    unfolding round_at
    rounds_of initial [] = []
    rounds_of initial (m ∷ moments) = round_at initial m ∷ rounds_of false moments

    -- _await_native, of the waiter with the number `k`
    unfoldable pub await_native :
        ℕ → Option ℕ → List (Moment W) → List ℕ → Option (Result Error (Verdict S)) × List ℕ
    unfolding rounds_of
    await_native k deadline moments live =
        (await_loop true deadline (rounds_of true moments), discard k (add k live))

-- Pool._replacement_target: the seat to watch, the tenure that must give way, and whether the
-- waiter takes the present one for it
unfoldable pub replacement_target : Option ℕ → Option Text → Result Error (ℕ × Option Text × Bool)
replacement_target none none = err type_error
replacement_target (some slot) (some token) = err type_error
replacement_target none (some token) = elim (seat_of token) [
  | err e ↦ err e
  | ok seat ↦ ok (seat, some token, false)
]
replacement_target (some slot) none = elim (native_seat slot) [
  | none ↦ err value_error
  | some seat ↦ ok (seat, none, true)
]

-- how a wait for a count, a departure and a replacement reads its verdict
module _ {S : Type 0} where
  -- Pool.wait and AsyncPool.await_ready
  unfoldable pub members_of : {H : Type 0} → (S → List H) → Verdict S → Result Error (List H)
  members_of materialize v = elim v.status [
    | wait_fenced ↦ err fenced
    | wait_ready ↦ elim v.view [ none ↦ err timeout_error | some s ↦ ok (materialize s) ]
    | _ ↦ err timeout_error
  ]

  -- Pool.wait_departure and AsyncPool.await_departure
  unfoldable pub has_departed : Verdict S → Result Error Bool
  has_departed v = elim v.status [ wait_fenced ↦ err fenced | wait_ready ↦ ok true | _ ↦ ok false ]

  -- Pool.wait_replacement and AsyncPool.await_replacement
  unfoldable pub replaced_by :
      {H : Type 0} → (ℕ → S → Option H) → ℕ → Verdict S → Result Error (Option H)
  replaced_by slot seat v = elim v.status [
    | wait_fenced ↦ err fenced
    | wait_ready ↦ elim v.view [ none ↦ ok none | some s ↦ ok (slot seat s) ]
    | _ ↦ ok none
  ]

-- What `Pool.epoch` takes from the native wait: the verdict, the size aimed at, whether the registry
-- has said anything about the pool, and `accepted` as `_check_fenced` reads it.
pub record EpochVerdict (S : Type 0) : Type 0 where
  pub verdict : Verdict S
  pub seen_pool : Bool
  pub accepted : Bool

-- _check_fenced
unfoldable pub check_fenced : Bool → Result Error (Unit {0})
check_fenced accepted = if not accepted then err fenced else ok tt

-- the part of Pool.epoch behind the test for fencing
unfoldable pub epoch_behind : {S : Type 0} → Status → Option S → Bool → Result Error S
epoch_behind wait_stale view seen_pool = err stale
epoch_behind wait_no_size view seen_pool = err policy_error
epoch_behind wait_ready (some s) seen_pool = ok s
epoch_behind wait_ready none seen_pool = err timeout_error
epoch_behind _ view seen_pool = err timeout_error

-- Pool.epoch: the view that the round is frozen from
unfoldable pub epoch_of : {S : Type 0} → EpochVerdict S → Result Error S
unfolding check_fenced epoch_behind
epoch_of e = elim e.verdict.status [
  | wait_fenced ↦ elim (check_fenced e.accepted) [
    | err raised ↦ err raised
    | ok _ ↦ epoch_behind wait_fenced e.verdict.view e.seen_pool
  ]
  | status ↦ epoch_behind status e.verdict.view e.seen_pool
]

-- Pool._lease_ms, from what `stats()` says of the interval
unfoldable pub lease_ms : Option ℕ → ℕ
lease_ms interval =
    let lease : ℕ = elim interval [ none ↦ 4000 | some ms ↦ ms * 4 ] in
    if ltb lease 1000 then 1000 else lease

-- What one round of `_settle` reads: whether the pool is known, the silence, the interval and the
-- clock.
pub record Glance : Type 0 where
  pub is_known : Bool
  pub silence_ms : ℕ
  pub interval : Option ℕ
  pub clock : ℕ

-- why `_settle` ends
pub data Settled : Type 0 where
  answered : Settled
  registry_silent : Settled
  out_of_time : Settled

unfoldable pub glance_of : ℕ → Glance → Option Settled → Option Settled
unfolding lease_ms
glance_of deadline g later =
    if g.is_known
    then some answered
    else if ltb (lease_ms g.interval / 2) g.silence_ms
    then some registry_silent
    else elim (left_ms (some deadline) g.clock) [ none ↦ some out_of_time | some ms ↦ later ]

-- _FIRST_ANSWER_S, in microseconds
abbrev pub first_answer : ℕ
first_answer = 2000000

-- Pool._settle, from the time `now`: `none` where the rounds are used up
unfoldable pub settle_loop : ℕ → List Glance → Option Settled
unfolding glance_of
settle_loop deadline [] = none
settle_loop deadline (g ∷ glances) =
    let later = settle_loop deadline glances in glance_of deadline g later

unfoldable pub settle : ℕ → List Glance → Option Settled
unfolding settle_loop
settle now glances = settle_loop (now + first_answer) glances

-- the native cache's lookups of one member
pub record Cache : Type 0 where
  pub choose_ref : Option NativeMember
  pub lookup_slot_ref : ℕ → Bool → Option NativeMember

-- Pool.pick
unfoldable pub pick : Cache → Result Error Handle
pick cache = elim cache.choose_ref [ none ↦ err not_found | some member ↦ ok (from_native member) ]

-- Pool.slot
unfoldable pub slot : Cache → ℕ → Bool → Result Error Handle
slot cache k require_ready = elim (native_seat k) [
  | none ↦ err not_found
  | some seat ↦ elim (cache.lookup_slot_ref seat require_ready) [
    | none ↦ err not_found
    | some member ↦ ok (from_native member)
  ]
]
