-- ===== src/Client/Agreement.antt =====
-- Awaited calls beside the calls that block.
use tinyray.Common.{ℕ, List, [], ◌∷◌, Option, none, some, inl, inr, ◌≡◌, refl, ap, sym, ◌∙◌, length}
use tinyray.Common.Text.{Text, codes}
use tinyray.Errors.{Result, ok, err, Result-cases}
use tinyray.Value.{Value}
use tinyray.Rpc.{Bytes, Error, Outcome, decode, decode_typed, decode_batch}
use tinyray.RequestId.{Ids}
use tinyray.Calls.{Given, batch_payload, batch_dict}
use tinyray.Client.{
  Peer, Timeout, timeout_ms, Packet, Prepared, prepare, or_transport, native_sync, send_prepared,
  exchange, invoke, packet_of, invoke_batch, batch_items, batch,
}
use tinyray.Client.Await.{
  End, answered, Event, AsyncWire, awaited, await_native, await_prepared, aexchange, ainvoke,
  decoded_end, abatch, abatch_items, ainvoke_batch,
}
use tinyray.Client.Awaited.{decided, end_of, await_all-decided}

-- What happens to an awaited packet: it is completed, some time, with what a call that blocks would
-- have returned, and it is not cancelled before its coroutine is resumed.
abbrev pub Delivers : {N : Type 0} → AsyncWire N → Type 0
Delivers {N} async =
    (p : Packet) (n : N)
    → let (result, n') = async.wire.rpc_call p n in
      (events : List Event) × (async.rpc_call_async p n ≡ (ok events, n'))
      × (decided events ≡ end_of result)

-- what blocks, as an awaited call that has ended
abbrev pub end_at_once : {A N : Type 0} → Result Error A × Ids × N → End A × Ids × N
end_at_once (r, ids, n) = (answered r, ids, n)

module _ {N : Type 0} (async : AsyncWire N) (delivers : Delivers async) where
  answer-or_transport : (r : Result Error Outcome × N) → end_of r.0 ≡ answered (or_transport r).0
  unfolding or_transport
  answer-or_transport (ok outcome, n) = refl
  answer-or_transport (err e, n) = refl

  or_transport_state : (r : Result Error Outcome × N) → (or_transport r).1 ≡ r.1
  unfolding or_transport
  or_transport_state (ok outcome, n) = refl
  or_transport_state (err e, n) = refl

  -- what blocks returns at once
  abbrev at_once : {A : Type 0} → Result Error A × N → End A × N
  at_once (r, n) = (answered r, n)

  abbrev awaited_call : Result Error (List Event) × N → End Outcome × N
  awaited_call (call, n) = (awaited call, n)

  transport-same :
      (p : Packet) (n : N)
      → awaited_call (async.rpc_call_async p n) ≡ at_once (or_transport (async.wire.rpc_call p n))
  transport-same p n =
      let r = async.wire.rpc_call p n in
      let (events, call, e) = delivers p n in
      ap awaited_call call
      ∙ ap (λ x. (x, r.1)) (await_all-decided events ∙ e ∙ answer-or_transport r)
      ∙ ap (λ m. (answered (or_transport r).0, m)) (sym (or_transport_state r))

  native-same :
      (peer : Peer) (name : Text) (size : Option ℕ) (who : Text) (timeout : Timeout) (p : Prepared)
      (n : N)
      → await_native async peer name size who timeout p n
        ≡ at_once (native_sync async.wire peer name size who timeout p n)
  unfolding await_native native_sync
  native-same peer name size who timeout p n = elim (Result-cases (timeout_ms timeout)) [
    | inr (e, h) ↦ rw (h, await_native, native_sync) refl
    | inl (ms, h) ↦
        rw (h, await_native, native_sync)
          (transport-same (packet_of async.wire peer name size who p ms) n)
  ]

  prepared-same :
      (peer : Peer) (name : Text) (size : Option ℕ) (timeout : Timeout)
      (p : Result Error Prepared × Ids) (n : N)
      → await_prepared async peer name size timeout p n
        ≡ end_at_once (send_prepared async.wire peer name size timeout p n)
  unfolding await_prepared send_prepared
  prepared-same peer name size timeout (err e, ids) n = refl
  prepared-same peer name size timeout (ok p, ids) n =
      ap (λ r. (r.0, ids, r.1)) (native-same peer name size ids.who timeout p n)

  exchange-same :
      (peer : Peer) (name : Text) (payload : Value) (size : Option ℕ) (timeout : Timeout)
      (ids : Ids) (n : N)
      → aexchange async peer name payload size timeout ids n
        ≡ end_at_once (exchange async.wire peer name payload size timeout ids n)
  unfolding aexchange exchange
  exchange-same peer name payload size timeout ids n =
      prepared-same peer name size timeout (prepare async.wire peer payload ids) n

  invoke-same :
      (peer : Peer) (name : Text) (payload : Value) (timeout : Timeout)
      (return_type : Option (Bytes → Result Error Value)) (ids : Ids) (n : N)
      → ainvoke async peer name payload timeout return_type ids n
        ≡ end_at_once (invoke async.wire peer name payload timeout return_type ids n)
  unfolding ainvoke invoke
  invoke-same peer name payload timeout none ids n =
      ap (λ r. (decoded_end async (decode async.wire.loads) r.0, r.1, r.2))
        (exchange-same peer name payload none timeout ids n)
  invoke-same peer name payload timeout (some convert) ids n =
      ap (λ r. (decoded_end async (decode_typed async.wire.loads convert) r.0, r.1, r.2))
        (exchange-same peer name payload none timeout ids n)

  batch_items-same :
      (peer : Peer) (items : Result Error (List Value)) (timeout : Timeout) (ids : Ids) (n : N)
      → abatch_items async peer items timeout ids n
        ≡ end_at_once (batch_items async.wire peer items timeout ids n)
  unfolding abatch_items batch_items ainvoke_batch invoke_batch
  batch_items-same peer (err e) timeout ids n = refl
  batch_items-same peer (ok []) timeout ids n = refl
  batch_items-same peer (ok (item ∷ items)) timeout ids n =
      let size = length (item ∷ items) in
      ap
        (λ r. (
          decoded_end async (λ outcome raw. decode_batch async.wire.loads outcome size raw) r.0,
          r.1,
          r.2,
        ))
        (exchange-same peer (codes "batch") (batch_dict (item ∷ items)) (some size) timeout ids n)

-- Where the transport completes an awaited packet, sooner or later, with what a call that blocks would
-- have returned, and the task is not cancelled before the coroutine is resumed: `ainvoke` and `abatch`
-- end with the result or the exception of `invoke` and `batch`, having drawn the same request ids
-- and left the transport the same.
pub awaited_same :
    {N : Type 0} (async : AsyncWire N)
    → Delivers async
    → (peer : Peer) (name : Text) (payload : Value) (calls : List Given) (timeout : Timeout)
      (return_type : Option (Bytes → Result Error Value)) (ids : Ids) (n : N)
    → (ainvoke async peer name payload timeout return_type ids n
        ≡ end_at_once (invoke async.wire peer name payload timeout return_type ids n))
      × (abatch async peer calls timeout ids n
          ≡ end_at_once (batch async.wire peer calls timeout ids n))
unfolding abatch batch
awaited_same async delivers peer name payload calls timeout return_type ids n = (
  invoke-same async delivers peer name payload timeout return_type ids n,
  batch_items-same async delivers peer (batch_payload calls) timeout ids n,
)
