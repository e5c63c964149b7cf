-- ===== src/Examples/Calling.antt =====
-- A batch from a caller to a server and back.
use tinyray.Common.{
  ℕ, zero, suc, ◌+◌, ◌≤◌, List, [], ◌∷◌, Option, none, some, Bool, true, false, ◌≡◌, ◌⊎◌, refl,
  arith, length, ap,
}
use tinyray.Common.Text.{Text, codes}
use tinyray.Errors.{Result, ok, err}
use tinyray.Value.{Value, text, null, other}
use tinyray.Rpc.{Bytes, Error, Outcome}
use tinyray.RequestId.{Ids, next_request_id}
use tinyray.Calls.{Call, sequence, Given, a_call, batch_dict}
use tinyray.Serve.{Reply}
use tinyray.Serve.Batch.{Item, check_batch, dispatch}
use tinyray.Serve.Contract.{meant, perform}
use tinyray.Client.{Peer, Timeout, micros, Packet, Wire, or_transport, exchange, batch}
use tinyray.Client.Sending.{IsPacket, IsUnsendable, exchange_lem}
use tinyray.Client.Served.{batch-served}
use tinyray.Examples.{
  toy_sha256, request_item, request, toy_loads, toy, toy_decoded, toy-IsFaithful, toy_wire,
  toy-Carries, server,
}

-- the request that is sent here is the only one that this codec knows
abbrev pub one_request : Value → Result Error (Bytes × List ℕ)
one_request v = ok (1 ∷ 0 ∷ [], [])

abbrev pub carried : Result Error Reply × ℕ → Result Error Outcome × ℕ
carried (ok reply, w) = (ok (toy_wire reply), w)
carried (err e, w) = (err e, w)

-- a transport that hands every batch to the one server
abbrev pub link : Wire ℕ
link = record {
  loads = toy_loads;
  dumps = one_request;
  sha256_hex = toy_sha256;
  rpc_call = λ p w.
      carried (dispatch toy server (codes "batch") p.method p.body p.who p.request p.batch_len w);
}

abbrev pub peer : Peer
peer = record { url = some (codes "h:9000"); identity = codes "engine/3#17" }

abbrev pub ids : Ids
ids = record { pinned = some (codes "r-1"); next = 0; who = codes "trainer/0#2" }

abbrev pub call_of : Text → ℕ → Given
call_of name n =
    a_call (record { method = text name; args = sequence (other n ∷ []); kwargs = null })

abbrev pub calls : List Given
calls = call_of (codes "add") 3 ∷ call_of (codes "add") 4 ∷ call_of (codes "drop") 5 ∷ []

abbrev payloads : List Value
payloads =
    request_item (codes "add") 3 ∷ request_item (codes "add") 4 ∷ request_item (codes "drop") 5 ∷ []

batch-served_example :
    (items : List Item) × (check_batch (batch_dict payloads) (some (length payloads)) ≡ ok items)
    × ((result : Result Error (List Value))
        → meant toy_decoded
            (perform toy server (codes "trainer/0#2") (codes "r-1") items [] 0).0
            (perform toy server (codes "trainer/0#2") (codes "r-1") items [] 0).1
          ≡ some result
        → ((batch link peer calls (micros 30000000) ids 0).0 ≡ result)
          × ((batch link peer calls (micros 30000000) ids 0).2
              ≡ (perform toy server (codes "trainer/0#2") (codes "r-1") items [] 0).2))
unfolding tinyray.Endpoint.dialled tinyray.Common.Text.contains tinyray.Common.Text.starts_with
    tinyray.Common.Text.text_eq tinyray.Common.Text.strip tinyray.Common.Text.is_space
    tinyray.Calls.batch_payload tinyray.Calls.given_payload tinyray.Calls.call_payload
    tinyray.Serve.Batch.is_method_name next_request_id tinyray.Client.timeout_ms
batch-served_example =
    batch-served toy server link toy_decoded toy_wire toy-Carries toy-IsFaithful
      (λ p w w' reply h. ap carried h) refl peer calls payloads (micros 30000000) ids 0
      (codes "h:9000") (1 ∷ 0 ∷ []) [] (codes "r-1") 30000 refl refl (omega arith) refl refl refl
      refl

abbrev sent : Result Error Outcome × Ids × ℕ
sent = exchange link peer (codes "batch") request (some 3) (micros 30000000) ids 0

exchange_lem_example :
    ((p : Packet) × IsPacket link peer (codes "batch") request (some 3) (micros 30000000) ids p
      × (sent.0 ≡ (or_transport (link.rpc_call p 0)).0)
      × (sent.2 ≡ (link.rpc_call p 0).1))
    ⊎ ((e : Error) × (sent.0 ≡ err e)
        × (sent.2 ≡ 0)
        × IsUnsendable link peer (codes "batch") request (some 3) (micros 30000000) ids e)
exchange_lem_example =
    exchange_lem link peer (codes "batch") request (some 3) (micros 30000000) ids 0
