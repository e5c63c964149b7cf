-- ===== src/Pool/Waits.antt =====
-- python/tinyray/__init__.py: the waits of `Pool` and `AsyncPool` as they are called, from their
-- arguments to what they return (`wait`, `wait_departure`, `wait_replacement` and their awaited
-- forms), and the lookups of a whole pool (`_members`, `all`, `snapshot`, `__len__`). `H` is the
-- type of handles and `F` that of the keywords of a filter (`none` where there are none).
use tinyray.Common.{ℕ, ◌+◌, ◌-◌, ◌^◌, List, [], Option, none, some, Bool, if◌then◌else◌, ltb}
use tinyray.Common.Int.{ℤ, pos, negsuc}
use tinyray.Common.Text.{Text}
use tinyray.Errors.{Result, ok, err}
use tinyray.Rpc.{Bytes, Error}
use tinyray.Watch.{left_ms}
use tinyray.Pool.{
  Verdict, Waiter, Moment, wait_native, await_native, replacement_target, members_of, has_departed,
  replaced_by, Glance, settle, EpochVerdict, epoch_of, or_zero_ms,
}

-- _native_threshold
unfoldable pub native_threshold : ℤ → ℤ
native_threshold (pos n) = pos (if ltb n (2 ^ 127) then n else 2 ^ 127 - 1)
native_threshold (negsuc n) = negsuc (if ltb n (2 ^ 127) then n else 2 ^ 127 - 1)

-- What a pool takes from the native client, for its own name, and from msgspec.
pub record PoolClient (S H F W : Type 0) : Type 0 where
  pub count_waiter : ℤ → Option Bytes → Result Error (Waiter S W)
  pub departure_waiter : Text → Result Error (Waiter S W)
  pub replacement_waiter : ℕ → Option Text → Bool → Result Error (Waiter S W)
  pub encode : F → Result Error Bytes
  pub materialize : S → List H
  pub slot : ℕ → S → Option H

-- None if timeout is None else time.monotonic() + timeout
abbrev pub deadline_from : ℕ → Option ℕ → Option ℕ
deadline_from now none = none
deadline_from now (some timeout) = some (now + timeout)

abbrev pub read_as :
    {S A : Type 0} → (Verdict S → Result Error A) → Result Error (Verdict S) → Result Error A
read_as read (err e) = err e
read_as read (ok v) = read v

abbrev pub read_end :
    {S A : Type 0}
    → (Verdict S → Result Error A)
    → Option (Result Error (Verdict S))
    → Option (Result Error A)
read_end read none = none
read_end read (some r) = some (read_as read r)

module _ {S H F W : Type 0} (client : PoolClient S H F W) where
  -- None if not filt else _msgpack_encode(filt)
  unfoldable pub encode_filter : Option F → Result Error (Option Bytes)
  encode_filter none = ok none
  encode_filter (some filt) = elim (client.encode filt) [ err e ↦ err e | ok raw ↦ ok (some raw) ]

  unfoldable pub counting : ℤ → Option F → Result Error (Waiter S W)
  counting count filt = elim (encode_filter filt) [
    | err e ↦ err e
    | ok raw ↦ client.count_waiter (native_threshold count) raw
  ]

  unfoldable pub replacing : ℕ × Option Text × Bool → Result Error (Waiter S W)
  replacing (seat, was, capture) = client.replacement_waiter seat was capture

  -- A wait that blocks, with the waiter number `k`: `now` is the clock at its start and `behind` the
  -- clock behind the first check.
  unfoldable pub blocking :
      {A : Type 0}
      → (Verdict S → Result Error A)
      → Result Error (Waiter S W)
      → ℕ
      → Option ℕ
      → ℕ
      → List ℕ
      → W
      → Result Error A × List ℕ × W
  blocking read (err e) k deadline behind live w = (err e, live, w)
  blocking read (ok waiter) k deadline behind live w =
      let (result, live', w') = wait_native waiter k deadline behind live w in
      (read_as read result, live', w')

  -- the same on an event loop, over the moments of its rounds
  unfoldable pub awaiting :
      {A : Type 0}
      → (Verdict S → Result Error A)
      → Result Error (Waiter S W)
      → ℕ
      → Option ℕ
      → List (Moment W)
      → List ℕ
      → Option (Result Error A) × List ℕ
  awaiting read (err e) k deadline moments live = (some (err e), live)
  awaiting read (ok waiter) k deadline moments live =
      let (result, live') = await_native waiter k deadline moments live in
      (read_end read result, live')

  -- Pool.wait
  unfoldable pub wait :
      ℤ → ℕ → Option F → ℕ → ℕ → ℕ → List ℕ → W → Result Error (List H) × List ℕ × W
  wait count timeout filt k now behind live w =
      blocking (members_of client.materialize) (counting count filt) k
        (deadline_from now (some timeout)) behind live w

  -- AsyncPool.await_ready
  unfoldable pub await_ready :
      ℤ → ℕ → Option F → ℕ → ℕ → List (Moment W) → List ℕ → Option (Result Error (List H)) × List ℕ
  await_ready count timeout filt k now moments live =
      awaiting (members_of client.materialize) (counting count filt) k
        (deadline_from now (some timeout)) moments live

  -- Pool.wait_departure
  unfoldable pub wait_departure :
      Text → Option ℕ → ℕ → ℕ → ℕ → List ℕ → W → Result Error Bool × List ℕ × W
  wait_departure identity timeout k now behind live w =
      blocking has_departed (client.departure_waiter identity) k (deadline_from now timeout) behind
        live w

  -- AsyncPool.await_departure
  unfoldable pub await_departure :
      Text → Option ℕ → ℕ → ℕ → List (Moment W) → List ℕ → Option (Result Error Bool) × List ℕ
  await_departure identity timeout k now moments live =
      awaiting has_departed (client.departure_waiter identity) k (deadline_from now timeout) moments
        live

  -- Pool.wait_replacement
  unfoldable pub wait_replacement :
      Option ℕ
      → Option Text
      → Option ℕ
      → ℕ
      → ℕ
      → ℕ
      → List ℕ
      → W
      → Result Error (Option H) × List ℕ × W
  wait_replacement slot identity timeout k now behind live w =
      elim (replacement_target slot identity) [
        | err e ↦ (err e, live, w)
        | ok target ↦
            blocking (replaced_by client.slot target.0) (replacing target) k
              (deadline_from now timeout) behind live w
      ]

  -- AsyncPool.await_replacement
  unfoldable pub await_replacement :
      Option ℕ
      → Option Text
      → Option ℕ
      → ℕ
      → ℕ
      → List (Moment W)
      → List ℕ
      → Option (Result Error (Option H)) × List ℕ
  await_replacement slot identity timeout k now moments live =
      elim (replacement_target slot identity) [
        | err e ↦ (some (err e), live)
        | ok target ↦
            awaiting (replaced_by client.slot target.0) (replacing target) k
              (deadline_from now timeout) moments live
      ]

  -- Pool._members, from what `_settle` reads and the view for the encoded filter
  unfoldable pub members_in :
      ℕ → List Glance → Option F → (Option Bytes → Option S) → Option (Result Error (List H))
  members_in now glances filt view = elim (settle now glances) [
    | none ↦ none
    | some why ↦ elim (encode_filter filt) [
      | err e ↦ some (err e)
      | ok raw ↦ elim (view raw) [ none ↦ some (ok []) | some s ↦ some (ok (client.materialize s)) ]
    ]
  ]

  -- Pool.snapshot: the revision and the members
  unfoldable pub snapshot_in : (S → ℕ) → ℕ → List Glance → Option S → Option (ℕ × List H)
  snapshot_in revision now glances view = elim (settle now glances) [
    | none ↦ none
    | some why ↦ elim view [
      | none ↦ some (0, [])
      | some s ↦ some (revision s, client.materialize s)
    ]
  ]

-- Pool.epoch, with the clock at its start and behind it; `wait_epoch` is the native wait
unfoldable pub epoch :
    {S : Type 0} → (ℕ → Option ℤ → EpochVerdict S) → Option ℤ → ℕ → ℕ → ℕ → Result Error S
epoch wait_epoch least timeout now behind = epoch_of (
    wait_epoch (or_zero_ms (left_ms (some (now + timeout)) behind))
      (elim least [ none ↦ none | some n ↦ some (native_threshold n) ]))
