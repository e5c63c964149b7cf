-- ===== src/Client/Served.antt =====
-- A batch from the caller's list of calls to the server's methods and back.
use mathlib.Core.Path.{subst}
use tinyray.Common.{
  ℕ, ◌≤◌, List, [], ◌∷◌, Option, none, some, ◌≡◌, refl, arith, ap, sym, ◌∙◌, length,
}
use tinyray.Common.Text.{Text, codes, text_eq}
use tinyray.Errors.{Result, ok, err}
use tinyray.Value.{Value}
use tinyray.Rpc.{Bytes, Error, Kind, Outcome, decode_batch}
use tinyray.RequestId.{Ids, next_request_id}
use tinyray.Endpoint.{dialled}
use tinyray.Calls.{Given, batch_payload, batch_dict}
use tinyray.Calls.Accepted.{batch_payload-check_batch, length-batch_payload}
use tinyray.Serve.{Reply, Runtime, Method, Dispatch}
use tinyray.Serve.Batch.{Item, check_batch, read_batch, dispatch}
use tinyray.Serve.Call.{load_request}
use tinyray.Serve.Contract.{IsFaithful, told, meant, perform}
use tinyray.Serve.Contract.Refinement.{batch-perform}
use tinyray.Client.Sending.{exchange-ok}
use tinyray.Serve.Refusals.{Carries}
use tinyray.Client.{
  Peer, Timeout, timeout_ms, Packet, Wire, Prepared, or_transport, packet_of, exchange,
  invoke_batch, batch_items, batch, decoded_by,
}

told-some :
    (loads : Bytes → Result Error Value) (wire : Reply → Outcome) (n : ℕ) (x : Result Error Reply)
    (result : Result Error (List Value))
    → told loads wire n x ≡ some result
    → (reply : Reply) × (x ≡ ok reply) × (decode_batch loads (wire reply) n reply.payload ≡ result)
told-some loads wire n (ok reply) result h = (reply, refl, ground arith)
told-some loads wire n (err e) result h = absurd (ground arith)

reply_kept :
    {N : Type 0} (outcome : Outcome) (n : N)
    → outcome.kind ≡ Kind.reply
    → or_transport (ok outcome, n) ≡ (ok outcome, n)
unfolding or_transport
reply_kept outcome n h = ground arith

module _ {W Arguments : Type 0} (rt : Runtime) (d : Dispatch W Arguments) where
  read_batch-ok :
      (body : Bytes) (payload : Value) (n : Option ℕ) (items : List Item)
      → rt.loads body ≡ ok payload
      → check_batch payload n ≡ ok items
      → read_batch rt d body n ≡ ok (ok items)
  unfolding read_batch load_request
  read_batch-ok body payload n items loads checks = rw (loads, load_request) (rw checks refl)

  dispatch-batch :
      (method : Option Text) (body : Bytes) (caller request_id : Text) (n : Option ℕ) (w : W)
      → dispatch rt d (codes "batch") method body caller request_id n w
        ≡ tinyray.Serve.Batch.batch rt d body caller request_id n w
  unfolding dispatch text_eq
  dispatch-batch method body caller request_id n w = refl

  module _ (link : Wire W) where
    sent_whole :
        (peer : Peer) (vs : List Value) (timeout : Timeout) (ids : Ids) (w : W)
        → 1 ≤ length vs
        → batch_items link peer (ok vs) timeout ids w
          ≡ invoke_batch link peer (batch_dict vs) (length vs) timeout ids w
    unfolding batch_items
    sent_whole peer [] timeout ids w h = absurd (omega arith)
    sent_whole peer (v ∷ vs) timeout ids w h = refl

    module _ (decoded : Value → Value) (wire : Reply → Outcome)
        (carries : (r : Reply) → Carries r (wire r)) (faithful : IsFaithful rt decoded)
        (delivers : (p : Packet) (w w' : W) (reply : Reply)
          → dispatch rt d (codes "batch") p.method p.body p.who p.request p.batch_len w
            ≡ (ok reply, w')
          → link.rpc_call p w ≡ (ok (wire reply), w'))
        (same_codec : link.loads ≡ rt.loads) where
      -- A list of calls that makes a batch of at least one item, over a transport that brings each
      -- packet to the server and its reply back, with an address, a request id and a timeout that can
      -- be used and an encoding that the server reads back, runs there in order as `perform` says:
      -- where `perform` ends in something that the caller is told, `batch` returns or raises just
      -- that, and the server's methods have done just what `perform` does.
      pub batch-served :
          (peer : Peer) (calls : List Given) (vs : List Value) (timeout : Timeout) (ids : Ids)
          (w : W) (endpoint : Text) (body : Bytes) (owners : List ℕ) (request : Text) (ms : ℕ)
          → dialled peer.url ≡ ok endpoint
          → batch_payload calls ≡ ok vs
          → 1 ≤ length vs
          → link.dumps (batch_dict vs) ≡ ok (body, owners)
          → rt.loads body ≡ ok (batch_dict vs)
          → (next_request_id link.sha256_hex {V = Value} ids).0 ≡ ok request
          → timeout_ms timeout ≡ ok ms
          → (items : List Item) × (check_batch (batch_dict vs) (some (length vs)) ≡ ok items)
            × ((result : Result Error (List Value))
                → meant decoded
                    (perform rt d ids.who request items [] w).0
                    (perform rt d ids.who request items [] w).1
                  ≡ some result
                → ((batch link peer calls timeout ids w).0 ≡ result)
                  × ((batch link peer calls timeout ids w).2
                      ≡ (perform rt d ids.who request items [] w).2))
      unfolding batch invoke_batch packet_of
      batch-served peer calls vs timeout ids w endpoint body owners request ms at payload some_calls
            encoded loads got usable =
          let (items, checks, size, fits) = batch_payload-check_batch calls vs payload in
          let n = length vs in
          let as_sent : length vs ≡ length calls = length-batch_payload calls vs payload in
          let checked : check_batch (batch_dict vs) (some n) ≡ ok items =
            subst (λ k. check_batch (batch_dict vs) (some k) ≡ ok items) (sym as_sent) checks in
          let read = read_batch-ok body (batch_dict vs) (some n) items loads checked in
          let (tells, moves) =
            batch-perform rt decoded wire d carries faithful ids.who request body (some n) items w
              read in
          (
            items,
            checked,
            (λ result means.
                let (reply, replies, reads) =
                  told-some rt.loads wire (length items) _ result (tells ∙ means) in
                let w' = (tinyray.Serve.Batch.batch rt d body ids.who request (some n) w).1 in
                let prepared : Prepared = record {
                  endpoint = endpoint;
                  body = body;
                  request = request;
                  owners = owners;
                } in
                let packet = packet_of link peer (codes "batch") (some n) ids.who prepared ms in
                let called : link.rpc_call packet w ≡ (ok (wire reply), w') =
                  delivers packet w w' reply (
                    dispatch-batch none body ids.who request (some n) w
                    ∙ ap (λ r. (r, w')) replies) in
                let kept =
                  ap or_transport called ∙ reply_kept (wire reply) w' (carries reply).kind in
                let asked = (next_request_id link.sha256_hex {V = Value} ids).1 in
                let exchanged : exchange link peer (codes "batch") (batch_dict vs) (some n) timeout
                      ids w
                    ≡ (ok (wire reply), asked, w') =
                  exchange-ok link peer (codes "batch") (batch_dict vs) (some n) timeout ids w
                    endpoint body owners request ms at encoded got usable
                  ∙ ap (λ r. (r.0, asked, r.1)) kept in
                let whole =
                  ap (λ r. batch_items link peer r timeout ids w) payload
                  ∙ sent_whole peer vs timeout ids w some_calls in
                let read_back : Outcome → Bytes → Result Error (List Value) =
                  λ outcome raw. decode_batch link.loads outcome n raw in
                (
                  ap (λ r. r.0) whole
                      ∙ ap (λ x. decoded_by link read_back x.0) exchanged
                      ∙ ap (λ l. decode_batch l (wire reply) n (wire reply).payload) same_codec
                      ∙ ap (λ raw. decode_batch rt.loads (wire reply) n raw) (carries reply).payload
                      ∙ ap (λ k. decode_batch rt.loads (wire reply) k reply.payload)
                          (as_sent ∙ sym size)
                      ∙ reads,
                  ap (λ r. r.2) whole ∙ ap (λ x. x.2) exchanged ∙ moves,
                )),
          )
