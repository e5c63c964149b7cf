-- ===== src/Client/Sending.antt =====
-- What a call sends.
use mathlib.Core.Path.{subst}
use tinyray.Common.{ℕ, List, Option, ◌≡◌, ◌⊎◌, inl, inr, refl, arith, ap, sym, ◌∙◌}
use tinyray.Common.Text.{Text}
use tinyray.Errors.{Result, ok, err, Result-cases}
use tinyray.Value.{Value}
use tinyray.Rpc.{Bytes, Error, Outcome}
use tinyray.RequestId.{Ids, next_request_id}
use tinyray.Endpoint.{dialled}
use tinyray.Client.{
  Peer, Timeout, timeout_ms, Packet, Wire, Prepared, method_of, or_transport, with_request, prepare,
  packet_of, native_sync, send_prepared, exchange,
}

module _ {N : Type 0} (wire : Wire N) (peer : Peer) (name : Text) (payload : Value)
    (batch_size : Option ℕ) (limit : Timeout) (ids : Ids) where
  abbrev asked : Result Error Text × Ids
  asked = next_request_id wire.sha256_hex ids

  -- the packet says what the call was given
  pub record IsPacket (p : Packet) : Type 0 where
    pub endpoint : dialled peer.url ≡ ok p.endpoint
    pub encoded : wire.dumps payload ≡ ok (p.body, p.owners)
    pub request : asked.0 ≡ ok p.request
    pub timeout : timeout_ms limit ≡ ok p.timeout
    pub target : p.target ≡ peer.identity
    pub who : p.who ≡ ids.who
    pub method : p.method ≡ method_of batch_size name
    pub batch_len : p.batch_len ≡ batch_size

  -- what makes a call fail before it is sent
  abbrev pub IsUnsendable : Error → Type 0
  IsUnsendable e =
      (dialled peer.url ≡ err e)
      ⊎ ((wire.dumps payload ≡ err e) ⊎ ((asked.0 ≡ err e) ⊎ (timeout_ms limit ≡ err e)))

  who_kept : asked.1.who ≡ ids.who
  unfolding next_request_id
  who_kept = ground arith

  module _ (n : N) where
    Sends : Result Error Outcome × Ids × N → Type 0
    Sends sent =
        ((p : Packet) × IsPacket p
          × (sent.0 ≡ (or_transport (wire.rpc_call p n)).0)
          × (sent.2 ≡ (wire.rpc_call p n).1))
        ⊎ ((e : Error) × (sent.0 ≡ err e) × (sent.2 ≡ n) × IsUnsendable e)

    or_transport_state : (r : Result Error Outcome × N) → (or_transport r).1 ≡ r.1
    unfolding or_transport
    or_transport_state (ok outcome, n') = refl
    or_transport_state (err e, n') = refl

    native_sync-Sends :
        (p : Prepared) (ids' : Ids) (r : Result Error ℕ)
        → dialled peer.url ≡ ok p.endpoint
        → wire.dumps payload ≡ ok (p.body, p.owners)
        → asked.0 ≡ ok p.request
        → ids'.who ≡ ids.who
        → timeout_ms limit ≡ r
        → Sends (send_prepared wire peer name batch_size limit (ok p, ids') n)
    unfolding Sends send_prepared native_sync packet_of
    native_sync-Sends p ids' (err e) at encoded request who fails =
        rw (fails, native_sync) (inr (e, refl, refl, inr (inr (inr refl))))
    native_sync-Sends p ids' (ok ms) at encoded request who usable =
        let packet = packet_of wire peer name batch_size ids'.who p ms in
        let says : IsPacket packet = record {
          endpoint = at;
          encoded = encoded;
          request = request;
          timeout = usable;
          target = refl;
          who = who;
          method = refl;
          batch_len = refl;
        } in
        rw (usable, native_sync)
          (inl (packet, says, refl, or_transport_state (wire.rpc_call packet n)))

    with_request-Sends :
        (endpoint : Text) (encoded : Bytes × List ℕ) (got : Result Error Text × Ids)
        → dialled peer.url ≡ ok endpoint
        → wire.dumps payload ≡ ok encoded
        → asked ≡ got
        → Sends (
            send_prepared wire peer name batch_size limit
              (with_request wire endpoint encoded got)
              n)
    unfolding Sends with_request send_prepared
    with_request-Sends endpoint encoded (err e, ids') at body got =
        inr (e, refl, refl, inr (inr (inl (ap (λ r. r.0) got))))
    with_request-Sends endpoint (body, owners) (ok request, ids') at encoded got =
        native_sync-Sends
          (record { endpoint = endpoint; body = body; request = request; owners = owners }) ids'
          (timeout_ms limit) at encoded (ap (λ r. r.0) got) (sym (ap (λ r. r.1.who) got) ∙ who_kept)
          refl

    prepared :
        (endpoint : Text) (encoded : Bytes × List ℕ)
        → dialled peer.url ≡ ok endpoint
        → wire.dumps payload ≡ ok encoded
        → exchange wire peer name payload batch_size limit ids n
          ≡ send_prepared wire peer name batch_size limit
              (with_request wire endpoint encoded asked)
              n
    unfolding exchange prepare
    prepared endpoint encoded at body = rw (at, body, prepare) refl

    pub exchange-ok :
        (endpoint : Text) (body : Bytes) (owners : List ℕ) (request : Text) (ms : ℕ)
        → dialled peer.url ≡ ok endpoint
        → wire.dumps payload ≡ ok (body, owners)
        → asked.0 ≡ ok request
        → timeout_ms limit ≡ ok ms
        → let p : Prepared = record {
          endpoint = endpoint;
          body = body;
          request = request;
          owners = owners;
        } in
          let called =
            or_transport (wire.rpc_call (packet_of wire peer name batch_size ids.who p ms) n) in
          exchange wire peer name payload batch_size limit ids n ≡ (called.0, asked.1, called.1)
    unfolding send_prepared native_sync with_request
    exchange-ok endpoint body owners request ms at encoded got usable =
        let p : Prepared = record {
          endpoint = endpoint;
          body = body;
          request = request;
          owners = owners;
        } in
        let pair : asked ≡ (ok request, asked.1) = ap (λ r. (r, asked.1)) got in
        prepared endpoint (body, owners) at encoded
        ∙ ap
            (λ r.
              send_prepared wire peer name batch_size limit
                (with_request wire endpoint (body, owners) r) n)
            pair
        ∙ rw (usable, native_sync) (rw who_kept refl)

    -- A call that can be sent is sent once, to the address of the handle, with the encoded payload, a
    -- request id of its own and the identities of both sides, and ends as the transport says. A call
    -- that cannot be sent, for its address, its payload, its request id or its timeout, raises for
    -- that reason and leaves the transport alone.
    pub exchange_lem :
        ((p : Packet) × IsPacket p
          × ((exchange wire peer name payload batch_size limit ids n).0
              ≡ (or_transport (wire.rpc_call p n)).0)
          × ((exchange wire peer name payload batch_size limit ids n).2 ≡ (wire.rpc_call p n).1))
        ⊎ ((e : Error) × ((exchange wire peer name payload batch_size limit ids n).0 ≡ err e)
            × ((exchange wire peer name payload batch_size limit ids n).2 ≡ n)
            × IsUnsendable e)
    unfolding exchange prepare send_prepared Sends
    exchange_lem = elim (Result-cases (dialled peer.url)) [
      | inr (e, away) ↦ rw (away, prepare) (inr (e, refl, refl, inl refl))
      | inl (endpoint, at) ↦ elim (Result-cases (wire.dumps payload)) [
        | inr (e, fails) ↦ rw (at, fails, prepare) (inr (e, refl, refl, inr (inl refl)))
        | inl (encoded, body) ↦
            subst Sends (sym (prepared endpoint encoded at body))
              (with_request-Sends endpoint encoded asked at body refl)
      ]
    ]
