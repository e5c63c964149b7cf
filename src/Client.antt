-- ===== src/Client.antt =====
-- python/tinyray/_rpc.py: how a call leaves a process and what comes back (`_prepare`,
-- `_timeout_ms`, `_native_sync`, `invoke`, `batch` and `BoundMethod`). The native transport is a
-- parameter on a state `N`; `dumps` stands for `dumps_with_blob_refs`. The warnings of `_nudge` have
-- no effect on the result. Handles are read once: their `url` and `identity`.
pub mod Sending
pub mod Await
pub mod Awaited
pub mod Tickets
pub mod Agreement
pub mod Served
use tinyray.Common.{
  ℕ, zero, suc, ◌+◌, ◌-◌, ◌*◌, ◌/◌, ◌^◌, List, [], ◌∷◌, Option, none, some, Bool, true, false, not,
  if◌then◌else◌, ltb, length,
}
use tinyray.Common.Text.{Text, codes}
use tinyray.Errors.{Result, ok, err, value_error, overflow_error}
use tinyray.Value.{Value, list, dict, Entries, end, entry, text, of_list}
use tinyray.Rpc.{
  Bytes, Error, Kind, Outcome, is_reply, transport_error, decode, decode_typed, decode_batch,
}
use tinyray.RequestId.{Ids, next_request_id}
use tinyray.Endpoint.{dialled}
use tinyray.Calls.{Given, batch_payload, batch_dict}

-- what a call reads of its handle
pub record Peer : Type 0 where
  pub url : Option Text
  pub identity : Text

-- A timeout as `float` reads it: no number at all, a number that is negative or not finite, one that
-- is too large for `float` or of which the milliseconds are, or microseconds.
pub data Timeout : Type 0 where
  not_number : Timeout
  unusable : Timeout
  overflows : Timeout
  micros : ℕ → Timeout

unfoldable pub timeout_ms : Timeout → Result Error ℕ
timeout_ms not_number = err value_error
timeout_ms unusable = err value_error
timeout_ms overflows = err overflow_error
timeout_ms (micros us) =
    let ms = (us + 999) / 1000 in ok (if ltb ms (2 ^ 64 - 1) then ms else 2 ^ 64 - 1)

-- the arguments of rpc_call_sync
pub record Packet : Type 0 where
  pub endpoint : Text
  pub request : Text
  pub who : Text
  pub target : Text
  pub body : Bytes
  pub timeout : ℕ
  pub method : Option Text
  pub batch_len : Option ℕ
  pub owners : List ℕ

-- What the package takes from the codec, SHA-256 and the native transport.
pub record Wire (N : Type 0) : Type 0 where
  pub loads : Bytes → Result Error Value
  pub dumps : Value → Result Error (Bytes × List ℕ)
  pub sha256_hex : Text → Text
  pub rpc_call : Packet → N → Result Error Outcome × N

-- _prepare's result
pub record Prepared : Type 0 where
  pub endpoint : Text
  pub body : Bytes
  pub request : Text
  pub owners : List ℕ

-- method=None if batch_size is not None else name
abbrev pub method_of : Option ℕ → Text → Option Text
method_of none name = some name
method_of (some n) name = none

-- `if outcome.kind != RPC_OUTCOME_REPLY: raise`
unfoldable pub or_transport : {N : Type 0} → Result Error Outcome × N → Result Error Outcome × N
or_transport (err e, n) = (err e, n)
or_transport (ok outcome, n) =
    (if is_reply outcome.kind then ok outcome else err (transport_error outcome), n)

module _ {N : Type 0} (wire : Wire N) where
  unfoldable pub with_request :
      Text → Bytes × List ℕ → Result Error Text × Ids → Result Error Prepared × Ids
  with_request endpoint encoded (err e, ids) = (err e, ids)
  with_request endpoint (body, owners) (ok request, ids) =
      (ok (record { endpoint = endpoint; body = body; request = request; owners = owners }), ids)

  unfoldable pub prepare : Peer → Value → Ids → Result Error Prepared × Ids
  unfolding with_request
  prepare peer payload ids = elim (dialled peer.url) [
    | err e ↦ (err e, ids)
    | ok endpoint ↦ elim (wire.dumps payload) [
      | err e ↦ (err e, ids)
      | ok encoded ↦ with_request endpoint encoded (next_request_id wire.sha256_hex ids)
    ]
  ]

  unfoldable pub packet_of : Peer → Text → Option ℕ → Text → Prepared → ℕ → Packet
  packet_of peer name batch_size who p ms = record {
    endpoint = p.endpoint;
    request = p.request;
    who = who;
    target = peer.identity;
    body = p.body;
    timeout = ms;
    method = method_of batch_size name;
    batch_len = batch_size;
    owners = p.owners;
  }

  -- _native_sync
  unfoldable pub native_sync :
      Peer → Text → Option ℕ → Text → Timeout → Prepared → N → Result Error Outcome × N
  unfolding packet_of or_transport
  native_sync peer name batch_size who timeout p n = elim (timeout_ms timeout) [
    | err e ↦ (err e, n)
    | ok ms ↦ or_transport (wire.rpc_call (packet_of peer name batch_size who p ms) n)
  ]

  unfoldable pub send_prepared :
      Peer
      → Text
      → Option ℕ
      → Timeout
      → Result Error Prepared × Ids
      → N
      → Result Error Outcome × Ids × N
  send_prepared peer name batch_size timeout (err e, ids) n = (err e, ids, n)
  send_prepared peer name batch_size timeout (ok p, ids) n =
      let (result, n') = native_sync peer name batch_size ids.who timeout p n in (result, ids, n')

  -- the part of `invoke` before it decodes
  unfoldable pub exchange :
      Peer → Text → Value → Option ℕ → Timeout → Ids → N → Result Error Outcome × Ids × N
  unfolding send_prepared
  exchange peer name payload batch_size timeout ids n =
      send_prepared peer name batch_size timeout (prepare peer payload ids) n

  abbrev pub decoded_by :
      {A : Type 0} → (Outcome → Bytes → Result Error A) → Result Error Outcome → Result Error A
  decoded_by read (err e) = err e
  decoded_by read (ok outcome) = read outcome outcome.payload

  -- invoke, for a single call, with a return type or `none`
  unfoldable pub invoke :
      Peer
      → Text
      → Value
      → Timeout
      → Option (Bytes → Result Error Value)
      → Ids
      → N
      → Result Error Value × Ids × N
  invoke peer name payload timeout return_type ids n =
      let (result, ids', n') = exchange peer name payload none timeout ids n in
      (
        decoded_by
            (elim return_type [
              | none ↦ decode wire.loads
              | some convert ↦ decode_typed wire.loads convert
            ])
            result,
        ids',
        n',
      )

  -- invoke, for a batch
  unfoldable pub invoke_batch :
      Peer → Value → ℕ → Timeout → Ids → N → Result Error (List Value) × Ids × N
  invoke_batch peer payload size timeout ids n =
      let (result, ids', n') = exchange peer (codes "batch") payload (some size) timeout ids n in
      (decoded_by (λ outcome raw. decode_batch wire.loads outcome size raw) result, ids', n')

  unfoldable pub batch_items :
      Peer → Result Error (List Value) → Timeout → Ids → N → Result Error (List Value) × Ids × N
  batch_items peer (err e) timeout ids n = (err e, ids, n)
  batch_items peer (ok []) timeout ids n = (ok [], ids, n)
  batch_items peer (ok (item ∷ items)) timeout ids n =
      invoke_batch peer (batch_dict (item ∷ items)) (length (item ∷ items)) timeout ids n

  -- batch
  unfoldable pub batch : Peer → List Given → Timeout → Ids → N → Result Error (List Value) × Ids × N
  unfolding batch_items
  batch peer calls timeout ids n = batch_items peer (batch_payload calls) timeout ids n

-- BoundMethod
pub record BoundMethod : Type 0 where
  pub peer : Peer
  pub name : Text
  pub timeout : Timeout
  pub return_type : Option (Bytes → Result Error Value)

-- BoundMethod.timeout, and BoundMethod.returns with what `validate_type` says of the type
unfoldable pub with_timeout : Timeout → BoundMethod → BoundMethod
with_timeout seconds m = record m { timeout = seconds }

unfoldable pub returns :
    Result Error (Unit {0}) → (Bytes → Result Error Value) → BoundMethod → Result Error BoundMethod
returns (err e) convert m = err e
returns (ok valid) convert m = ok (record m { return_type = some convert })

-- {"args": list(args), "kwargs": kwargs}
abbrev pub args_dict : List Value → Entries → Value
args_dict args kwargs = dict (
    entry (text (codes "args")) (list (of_list args))
      (entry (text (codes "kwargs")) (dict kwargs) end))

-- BoundMethod.__call__
unfoldable pub call_bound :
    {N : Type 0}
    → Wire N
    → BoundMethod
    → List Value
    → Entries
    → Ids
    → N
    → Result Error Value × Ids × N
unfolding invoke
call_bound wire m args kwargs ids n =
    invoke wire m.peer m.name (args_dict args kwargs) m.timeout m.return_type ids n
