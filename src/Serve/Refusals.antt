-- ===== src/Serve/Refusals.antt =====
-- Answers that promise that no method ran.
use tinyray.Common.{
  ◌≢◌, ℕ, ◌+◌, List, [], ◌∷◌, ◌++◌, Option, none, some, ◌≡◌, ◌⊎◌, inl, inr, arith, Option-cases,
}
use tinyray.Common.Text.{Text, codes}
use tinyray.Errors.{not_delivered, Result, ok, err, Result-cases}
use tinyray.Value.{Value}
use tinyray.RequestId.{batch_request_id}
use tinyray.Rpc.{Bytes, Error, Status, Kind, Outcome, decode, decode_batch}
use tinyray.Rpc.Batches.{IsItemFailure, decode_batch-not_delivered}
use tinyray.Rpc.Verdicts.{IsCodec, decode-not_delivered}
use tinyray.Serve.{Reply, Payload, Runtime, Method, Dispatch, lookup}
use tinyray.Serve.Call.{
  load_request, read_payload, answer_of, raised, finish, run_bound, coerce, invoke, call,
}
use tinyray.Serve.Batch.{
  Item, item_payload, fenced_reply, no_method, stop, Round-cases, settle, round_with, round,
  calls_of, check_item, check_items, check_batch, run_items, read_batch, batch, dispatch,
}

-- What the transport owes a reply: the caller's outcome has its fields.
pub record Carries (r : Reply) (o : Outcome) : Type 0 where
  pub kind : o.kind ≡ Kind.reply
  pub status : o.status ≡ r.status
  pub error_type : o.error_type ≡ r.error_type
  pub message : o.message ≡ r.message
  pub trace : o.trace ≡ r.trace
  pub batch_index : o.batch_index ≡ r.batch_index
  pub completed : o.completed ≡ r.completed
  pub payload : o.payload ≡ r.payload

-- The answers that a method's body can end in.
abbrev pub HasRun : Status → Type 0
HasRun Status.success = Unit
HasRun Status.remote_error = Unit
HasRun _ = ⊥

-- The answers to a request that was not run.
abbrev pub IsRefused : Status → Type 0
IsRefused Status.caller_fault = Unit
IsRefused Status.malformed_protocol = Unit
IsRefused Status.method_not_found = Unit
IsRefused _ = ⊥

check_item-IsRefused :
    (v : Value) (reply : Reply)
    → check_item v ≡ err reply
    → IsRefused reply.status × (reply.batch_index ≡ none)
unfolding check_item
check_item-IsRefused v reply h = ground arith

check_items-IsRefused :
    (vs : List Value) (reply : Reply)
    → check_items vs ≡ err reply
    → IsRefused reply.status × (reply.batch_index ≡ none)
unfolding check_items
check_items-IsRefused [] reply h = ground arith
check_items-IsRefused (v ∷ vs) reply h =
    ground (arith, check_item-IsRefused v reply, check_items-IsRefused vs reply)

calls_of-IsRefused :
    (v : Value) (reply : Reply)
    → calls_of v ≡ err reply
    → IsRefused reply.status × (reply.batch_index ≡ none)
unfolding calls_of
calls_of-IsRefused v reply h = ground arith

check_batch-IsRefused :
    (v : Value) (batch_len : Option ℕ) (reply : Reply)
    → check_batch v batch_len ≡ err reply
    → IsRefused reply.status × (reply.batch_index ≡ none)
unfolding check_batch
check_batch-IsRefused v batch_len reply h = elim (Result-cases (calls_of v)) [
  | inl (calls, e) ↦ ground (arith, check_items-IsRefused calls reply)
  | inr (x, e) ↦ ground (arith, calls_of-IsRefused v reply)
]

load_request-IsRefused :
    (rt : Runtime) (prefix : Text) (body : Bytes) (reply : Reply)
    → load_request rt prefix body ≡ ok (err reply)
    → IsRefused reply.status × (reply.batch_index ≡ none)
unfolding load_request
load_request-IsRefused rt prefix body reply h = ground arith

module _ {W : Type 0} (rt : Runtime) where
  finish-HasRun :
      (outcome : Result Error Value × W) (w' : W) (reply : Reply)
      → finish rt outcome ≡ (ok reply, w')
      → HasRun reply.status × (reply.batch_index ≡ none)
  unfolding finish answer_of raised
  finish-HasRun (ok result, w) w' reply h = ground arith
  finish-HasRun (err e, w) w' reply h = ground arith

module _ {W Arguments : Type 0} (rt : Runtime) where
  run_bound-quiet :
      (fn : Method W Arguments) (name : Text) (bound : Result Error Arguments) (w w' : W)
      (reply : Reply)
      → run_bound rt fn name bound w ≡ (ok reply, w')
      → (reply.batch_index ≡ none)
        × (HasRun reply.status ⊎ ((reply.status ≡ Status.caller_fault) × (w' ≡ w)))
  unfolding run_bound
  run_bound-quiet fn name (ok arguments) w w' reply h =
      let (ran, top) = finish-HasRun rt (fn.run arguments w) w' reply h in (top, inl ran)
  run_bound-quiet fn name (err e) w w' reply h = ground arith

  pub invoke-quiet :
      (fn : Method W Arguments) (name : Text) (payload : Payload) (caller request_id : Text)
      (w w' : W) (reply : Reply)
      → invoke rt fn name payload caller request_id w ≡ (ok reply, w')
      → (reply.batch_index ≡ none)
        × (HasRun reply.status ⊎ ((reply.status ≡ Status.caller_fault) × (w' ≡ w)))
  unfolding invoke
  invoke-quiet fn name payload caller request_id w w' reply h =
      run_bound-quiet fn name (coerce fn payload caller request_id) w w' reply h

  read_payload-IsRefused :
      (fn : Method W Arguments) (name : Text) (body : Bytes) (reply : Reply)
      → read_payload rt fn name body ≡ ok (err reply)
      → IsRefused reply.status × (reply.batch_index ≡ none)
  unfolding read_payload
  read_payload-IsRefused fn name body reply h =
      ground
        (arith, load_request-IsRefused rt (name ++ codes "(): malformed MessagePack: ") body reply)

  call-quiet :
      (fn : Method W Arguments) (name : Text) (body : Bytes) (caller request_id : Text) (w w' : W)
      (reply : Reply)
      → call rt fn name body caller request_id w ≡ (ok reply, w')
      → (reply.batch_index ≡ none) × (HasRun reply.status ⊎ (IsRefused reply.status × (w' ≡ w)))
  unfolding call
  call-quiet fn name body caller request_id w w' reply h =
      elim (Result-cases (read_payload rt fn name body)) [
        | inl (ok payload, e) ↦
            ground (arith, invoke-quiet fn name payload caller request_id w w' reply)
        | inl (err r, e) ↦ ground (arith, read_payload-IsRefused fn name body reply)
        | inr (x, e) ↦ ground arith
      ]

  module _ (d : Dispatch W Arguments) where
    round_with-stop :
        (found : Option (Method W Arguments)) (caller request_id : Text) (index : ℕ) (item : Item)
        (w : W) (reply : Reply)
        → (round_with rt d found caller request_id index item w).0 ≡ stop reply
        → IsItemFailure reply.status
    unfolding round_with settle no_method
    round_with-stop none caller request_id index item w reply h = ground arith
    round_with-stop (some fn) caller request_id index item w reply h =
        let id = batch_request_id rt.sha256_hex request_id index in
        let (result, w') = invoke rt fn item.method (item_payload item) caller id w in
        ground (arith, invoke-quiet fn item.method (item_payload item) caller id w w' reply)

    round-stop :
        (caller request_id : Text) (index : ℕ) (item : Item) (w : W) (reply : Reply)
        → (round rt d caller request_id index item w).0 ≡ stop reply
        → IsItemFailure reply.status
    unfolding round fenced_reply
    round-stop caller request_id index item w reply h =
        ground (
          arith,
          round_with-stop (lookup item.method d.methods) caller request_id index item w reply,
        )

    run_items-stops :
        (caller request_id : Text) (index : ℕ) (items : List Item) (completed : List Bytes)
        (owners : List ℕ) (w w' : W) (reply : Reply)
        → run_items rt d caller request_id index items completed owners w ≡ (ok reply, w')
        → ((reply.status ≡ Status.success) × (reply.batch_index ≡ none))
          ⊎ (IsItemFailure reply.status × (reply.batch_index ≢ none))
    unfolding run_items
    run_items-stops caller request_id index [] completed owners w w' reply h = ground arith
    run_items-stops caller request_id index (item ∷ items) completed owners w w' reply h =
        let (r, w1) = round rt d caller request_id index item w in
        elim (Round-cases r) [
          | inl (answer, e) ↦
              run_items-stops caller request_id (index + 1) items (completed ++ answer.payload ∷ [])
                (owners ++ answer.blob_owners) w1 w' reply (ground arith)
          | inr (inl (answer, e)) ↦ ground (arith, round-stop caller request_id index item w answer)
          | inr (inr (x, e)) ↦ ground arith
        ]

    read_batch-IsRefused :
        (body : Bytes) (batch_len : Option ℕ) (reply : Reply)
        → read_batch rt d body batch_len ≡ ok (err reply)
        → IsRefused reply.status × (reply.batch_index ≡ none)
    unfolding read_batch
    read_batch-IsRefused body batch_len reply h =
        let prefix = codes "malformed batch MessagePack: " in
        elim (Result-cases (load_request rt prefix body)) [
          | inl (ok payload, e) ↦ ground (arith, check_batch-IsRefused payload batch_len reply)
          | inl (err r, e) ↦ ground (arith, load_request-IsRefused rt prefix body reply)
          | inr (x, e) ↦ ground arith
        ]

    batch-quiet :
        (body : Bytes) (caller request_id : Text) (batch_len : Option ℕ) (w w' : W) (reply : Reply)
        → batch rt d body caller request_id batch_len w ≡ (ok reply, w')
        → (IsRefused reply.status × (reply.batch_index ≡ none) × (w' ≡ w))
          ⊎ ((reply.status ≡ Status.success) × (reply.batch_index ≡ none))
          ⊎ (IsItemFailure reply.status × (reply.batch_index ≢ none))
    unfolding batch
    batch-quiet body caller request_id batch_len w w' reply h =
        elim (Result-cases (read_batch rt d body batch_len)) [
          | inl (ok items, e) ↦
              inr (run_items-stops caller request_id 0 items [] [] w w' reply (ground arith))
          | inl (err r, e) ↦ ground (arith, read_batch-IsRefused body batch_len reply)
          | inr (x, e) ↦ ground arith
        ]

    dispatch-quiet :
        (operation : Text) (method : Option Text) (body : Bytes) (caller request_id : Text)
        (batch_len : Option ℕ) (w w' : W) (reply : Reply)
        → dispatch rt d operation method body caller request_id batch_len w ≡ (ok reply, w')
        → (IsRefused reply.status × (reply.batch_index ≡ none) × (w' ≡ w))
          ⊎ (HasRun reply.status × (reply.batch_index ≡ none))
          ⊎ (IsItemFailure reply.status × (reply.batch_index ≢ none))
    unfolding dispatch no_method
    dispatch-quiet operation none body caller request_id batch_len w w' reply h =
        ground (arith, batch-quiet body caller request_id batch_len w w' reply)
    dispatch-quiet operation (some name) body caller request_id batch_len w w' reply h =
        elim (Option-cases (lookup name d.methods)) [
          | inl e ↦ ground (arith, batch-quiet body caller request_id batch_len w w' reply)
          | inr (fn, e) ↦ ground (
            arith,
            batch-quiet body caller request_id batch_len w w' reply,
            call-quiet fn name body caller request_id w w' reply,
          )
        ]

    -- A request answered outside any batch item, and neither with success nor with an error that a
    -- body raised, has run no method: what the methods read and change is as before.
    pub dispatch-nothing_ran :
        (operation : Text) (method : Option Text) (body : Bytes) (caller request_id : Text)
        (batch_len : Option ℕ) (w w' : W) (reply : Reply)
        → dispatch rt d operation method body caller request_id batch_len w ≡ (ok reply, w')
        → (HasRun reply.status → ⊥)
        → reply.batch_index ≡ none
        → w' ≡ w
    dispatch-nothing_ran operation method body caller request_id batch_len w w' reply h quiet top =
        elim (dispatch-quiet operation method body caller request_id batch_len w w' reply h) [
          | inl (refused, at_top, same) ↦ same
          | inr (inl (ran, at_top)) ↦ absurd (quiet ran)
          | inr (inr (stopped, inside)) ↦ absurd (inside top)
        ]

    -- If the caller of this server is told `NotDelivered`, by the reader of a single call or by that
    -- of a batch, then no method ran, and repeating the request repeats nothing.
    pub dispatch-not_delivered :
        (wire : Reply → Outcome)
        → ((r : Reply) → Carries r (wire r))
        → IsCodec rt.loads
        → (operation : Text) (method : Option Text) (body : Bytes) (caller request_id : Text)
          (batch_len : Option ℕ) (expected : ℕ) (w w' : W) (reply : Reply)
        → dispatch rt d operation method body caller request_id batch_len w ≡ (ok reply, w')
        → (decode rt.loads (wire reply) reply.payload ≡ err not_delivered)
          ⊎ (decode_batch rt.loads (wire reply) expected reply.payload ≡ err not_delivered)
        → w' ≡ w
    dispatch-not_delivered wire carries codec operation method body caller request_id batch_len
          expected w w' reply h told =
        let o = wire reply in
        let sent = carries reply in
        let single = decode-not_delivered rt.loads codec o reply.payload sent.kind in
        let many = decode_batch-not_delivered rt.loads codec o expected reply.payload in
        let quiet = dispatch-quiet operation method body caller request_id batch_len w w' reply h in
        ground (arith, sent.status, single, many)
