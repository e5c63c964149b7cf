-- ===== src/Client/Await.antt =====
-- python/tinyray/_rpc.py: `_await_native`, `ainvoke` and `abatch`. An awaited call is a future of its
-- event loop, which the native transport completes by `complete`, and a coroutine that waits for
-- it. The loop does one thing at a time, so what happens to the call is a list of events.
use tinyray.Common.{
  ℕ, List, [], ◌∷◌, ◌++◌, Option, none, some, Bool, true, false, if◌then◌else◌, length,
}
use tinyray.Common.Text.{Text, codes}
use tinyray.Errors.{Result, ok, err}
use tinyray.Value.{Value}
use tinyray.Rpc.{
  Bytes, Error, Outcome, is_reply, transport_error, decode, decode_typed, decode_batch,
}
use tinyray.RequestId.{Ids}
use tinyray.Calls.{Given, batch_payload, batch_dict}
use tinyray.Client.{
  Peer, Timeout, timeout_ms, Packet, Wire, Prepared, prepare, packet_of, decoded_by,
}

pub data Future : Type 0 where
  pending : Future
  with_result : Outcome → Future
  with_exception : Error → Future
  is_cancelled : Future

abbrev pub is_done : Future → Bool
is_done pending = false
is_done _ = true

-- How an awaited call ends: not yet, with what it returned or raised, or with `CancelledError`.
pub data End (A : Type 0) : Type 0 where
  waiting : End A
  answered : Result Error A → End A
  cancelled : End A

-- What happens to a call: the transport completes it (with what `resolve(True)` returns or raises),
-- its task is cancelled, or the loop resumes its coroutine.
pub data Event : Type 0 where
  completes : Result Error Outcome → Event
  cancels : Event
  wakes : Event

-- `resolved` are the arguments of the calls of `completion.resolve`, in order; `must_cancel` is the
-- task's mark for a cancellation that came after the future was done; `ticket_cancelled` says
-- whether `ticket.cancel()` has been called.
pub record Awaiting : Type 0 where
  pub future : Future
  pub resolved : List Bool
  pub must_cancel : Bool
  pub ticket_cancelled : Bool
  pub end : End Outcome

abbrev pub just_asked : Awaiting
just_asked = record {
  future = pending;
  resolved = [];
  must_cancel = false;
  ticket_cancelled = false;
  end = waiting;
}

abbrev pub future_of : Result Error Outcome → Future
future_of (ok outcome) = with_result outcome
future_of (err e) = with_exception e

unfoldable pub complete : Result Error Outcome → Awaiting → Awaiting
complete r s =
    if is_done s.future
    then record s { resolved = s.resolved ++ false ∷ [] }
    else record s { resolved = s.resolved ++ true ∷ []; future = future_of r }

-- Task.cancel, of a task that waits for the future
abbrev pub cancelled_future : Future → Awaiting → Awaiting
cancelled_future pending s = record s { future = is_cancelled }
cancelled_future _ s = record s { must_cancel = true }

unfoldable pub cancel : Awaiting → Awaiting
cancel s = elim s.end [ waiting ↦ cancelled_future s.future s | _ ↦ s ]

-- `if outcome.kind != RPC_OUTCOME_REPLY: raise`
abbrev pub reply_or_raise : Outcome → Result Error Outcome
reply_or_raise outcome = if is_reply outcome.kind then ok outcome else err (transport_error outcome)

abbrev pub cancel_ticket : Awaiting → Awaiting
cancel_ticket s = record s { ticket_cancelled = true; end = cancelled }

-- `await future`, and what follows it
abbrev pub resume : Future → Awaiting → Awaiting
resume pending s = s
resume is_cancelled s = cancel_ticket s
resume (with_result outcome) s =
    if s.must_cancel then cancel_ticket s else record s { end = answered (reply_or_raise outcome) }
resume (with_exception e) s =
    if s.must_cancel then cancel_ticket s else record s { end = answered (err e) }

unfoldable pub wake : Awaiting → Awaiting
wake s = elim s.end [ waiting ↦ resume s.future s | _ ↦ s ]

unfoldable pub happens : Event → Awaiting → Awaiting
happens (completes r) s = complete r s
happens cancels s = cancel s
happens wakes s = wake s

unfoldable pub await_all : List Event → Awaiting → Awaiting
await_all [] s = s
await_all (e ∷ events) s = await_all events (happens e s)

-- The transport's side of an awaited call: `rpc_call_async` raises, or what then happens to the call.
pub record AsyncWire (N : Type 0) : Type 0 where
  pub wire : Wire N
  pub rpc_call_async : Packet → N → Result Error (List Event) × N

abbrev pub awaited : Result Error (List Event) → End Outcome
awaited (err e) = answered (err e)
awaited (ok events) = (await_all events just_asked).end

module _ {N : Type 0} (async : AsyncWire N) where
  abbrev pub decoded_end : {A : Type 0} → (Outcome → Bytes → Result Error A) → End Outcome → End A
  decoded_end read waiting = waiting
  decoded_end read cancelled = cancelled
  decoded_end read (answered r) = answered (decoded_by async.wire read r)

  -- _await_native
  unfoldable pub await_native :
      Peer → Text → Option ℕ → Text → Timeout → Prepared → N → End Outcome × N
  await_native peer name batch_size who timeout p n = elim (timeout_ms timeout) [
    | err e ↦ (answered (err e), n)
    | ok ms ↦
        let (call, n') =
          async.rpc_call_async (packet_of async.wire peer name batch_size who p ms) n in
        (awaited call, n')
  ]

  unfoldable pub await_prepared :
      Peer → Text → Option ℕ → Timeout → Result Error Prepared × Ids → N → End Outcome × Ids × N
  await_prepared peer name batch_size timeout (err e, ids) n = (answered (err e), ids, n)
  await_prepared peer name batch_size timeout (ok p, ids) n =
      let (result, n') = await_native peer name batch_size ids.who timeout p n in (result, ids, n')

  -- the part of `ainvoke` before it decodes
  unfoldable pub aexchange :
      Peer → Text → Value → Option ℕ → Timeout → Ids → N → End Outcome × Ids × N
  aexchange peer name payload batch_size timeout ids n =
      await_prepared peer name batch_size timeout (prepare async.wire peer payload ids) n

  -- ainvoke, for a single call, with a return type or `none`
  unfoldable pub ainvoke :
      Peer
      → Text
      → Value
      → Timeout
      → Option (Bytes → Result Error Value)
      → Ids
      → N
      → End Value × Ids × N
  ainvoke peer name payload timeout return_type ids n =
      let (result, ids', n') = aexchange peer name payload none timeout ids n in
      (
        decoded_end
            (elim return_type [
              | none ↦ decode async.wire.loads
              | some convert ↦ decode_typed async.wire.loads convert
            ])
            result,
        ids',
        n',
      )

  -- ainvoke, for a batch
  unfoldable pub ainvoke_batch : Peer → Value → ℕ → Timeout → Ids → N → End (List Value) × Ids × N
  ainvoke_batch peer payload size timeout ids n =
      let (result, ids', n') = aexchange peer (codes "batch") payload (some size) timeout ids n in
      (decoded_end (λ outcome raw. decode_batch async.wire.loads outcome size raw) result, ids', n')

  unfoldable pub abatch_items :
      Peer → Result Error (List Value) → Timeout → Ids → N → End (List Value) × Ids × N
  abatch_items peer (err e) timeout ids n = (answered (err e), ids, n)
  abatch_items peer (ok []) timeout ids n = (answered (ok []), ids, n)
  abatch_items peer (ok (item ∷ items)) timeout ids n =
      ainvoke_batch peer (batch_dict (item ∷ items)) (length (item ∷ items)) timeout ids n

  unfoldable pub abatch : Peer → List Given → Timeout → Ids → N → End (List Value) × Ids × N
  abatch peer calls timeout ids n = abatch_items peer (batch_payload calls) timeout ids n
