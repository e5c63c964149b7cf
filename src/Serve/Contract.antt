-- ===== src/Serve/Contract.antt =====
-- What a batch of `_Dispatch._batch` means, without replies, indices or bytes.
pub mod Refinement
use tinyray.Common.{
  ◌≡◌, refl, ◌⊎◌, inl, inr, ℕ, suc, ◌+◌, ◌≤◌, ◌<◌, List, [], ◌∷◌, ◌++◌, map, Option, none, some,
  Bool, true, false, not, ◌≡◌, refl, ap, ◌∙◌, sym, arith, length, length-append, length-map,
  if◌then◌else◌, Option-cases, Bool-cases, inl, inr,
}
use tinyray.Common.Text.{Text, codes}
use tinyray.Errors.{
  Exn, batch_error, Result, ok, err, Result-cases, batch_error, attribute_error, type_error,
  remote_error,
}
use tinyray.Value.{Value, list, to_list, of_list, to_list-of_list}
use tinyray.RequestId.{batch_request_id}
use tinyray.Rpc.{Bytes, Error, Status, Kind, Outcome, raise_reply, or_exception, decode_batch}
use tinyray.Rpc.Batches.{IsItemFailure, decode_batch_complete, decode_batch_stopped}
use tinyray.Serve.{Reply, Runtime, Method, Dispatch, lookup}
use tinyray.Serve.Call.{coerce, cannot_send, is_argument_fault, is_return_fault}
use tinyray.Serve.Batch.{
  Item, item_payload, fenced_reply, no_method, Round, next, stop, crash, settle, round, run_items,
  at_item,
}
use tinyray.Serve.Refusals.{Carries}

-- How one item ends: with the value that its method returns, with the exception that its caller is
-- to see, or with one that no handler of the server catches.
pub data Attempt : Type 0 where
  returned : Value → Attempt
  failed : Error → Attempt
  crashed : Error → Attempt

pub Attempt-cases :
    (a : Attempt)
    → ((v : Value) × (a ≡ returned v))
      ⊎ ((e : Error) × (a ≡ failed e))
      ⊎ ((e : Error) × (a ≡ crashed e))
Attempt-cases (returned v) = inl (v, refl)
Attempt-cases (failed e) = inr (inl (e, refl))
Attempt-cases (crashed e) = inr (inr (e, refl))

-- How a batch ends, after the values of its first items.
pub data Ending : Type 0 where
  complete : Ending
  cut : Error → Ending
  lost : Error → Ending

module _ (rt : Runtime) where
  -- the value goes back, or is found to be no message
  unfoldable pub sent_back : Value → Result Error (Bytes × List ℕ) → Attempt
  sent_back v (ok sent) = returned v
  sent_back v (err e) =
      if is_return_fault e
      then failed (remote_error (codes "TypeError") (cannot_send rt e) [])
      else crashed e

  unfoldable pub of_body : {W : Type 0} → Result Error Value × W → Attempt × W
  of_body (ok v, w) = (sent_back v (rt.dumps v), w)
  of_body (err e, w) =
      (failed (remote_error (or_exception (rt.type_name e)) (rt.text_of e) (rt.trace_of e)), w)

module _ {W Arguments : Type 0} (rt : Runtime) where
  unfoldable pub attempt_bound : Method W Arguments → Result Error Arguments → W → Attempt × W
  attempt_bound fn (ok arguments) w = of_body rt (fn.run arguments w)
  attempt_bound fn (err e) w = (if is_argument_fault e then failed type_error else crashed e, w)

  unfoldable pub attempt_with :
      Option (Method W Arguments) → Text → Text → ℕ → Item → W → Attempt × W
  attempt_with none caller request_id index item w = (failed attribute_error, w)
  attempt_with (some fn) caller request_id index item w =
      attempt_bound fn
        (coerce fn (item_payload item) caller (batch_request_id rt.sha256_hex request_id index)) w

module _ {W Arguments : Type 0} (rt : Runtime) (d : Dispatch W Arguments)
    (caller request_id : Text) where
  -- one item: nothing runs once the seat is lost, and a missing method runs nothing
  unfoldable pub attempt : ℕ → Item → W → Attempt × W
  attempt index item w =
      if not (d.still_ours w)
      then (failed Exn.fenced, w)
      else attempt_with rt (lookup item.method d.methods) caller request_id index item w

  -- The items in order, behind those whose values are `done`, up to the first that fails.
  unfoldable pub perform : List Item → List Value → W → List Value × Ending × W
  perform [] done w = (done, complete, w)
  perform (item ∷ items) done w =
      let (a, w') = attempt (length done) item w in
      elim a [
        | returned v ↦ perform items (done ++ v ∷ []) w'
        | failed e ↦ (done, cut e, w')
        | crashed e ↦ (done, lost e, w')
      ]

-- What the codec owes: what was encoded decodes, to the value that `decoded` says (a tuple comes
-- back as a list), and encoded results can be put together into one list.
abbrev pub Encoded :
    (Bytes → Result Error Value) → (Value → Value) → List Value → List Bytes → Type 0
Encoded loads decoded [] [] = Unit
Encoded loads decoded [] (b ∷ bs) = ⊥
Encoded loads decoded (v ∷ vs) [] = ⊥
Encoded loads decoded (v ∷ vs) (b ∷ bs) = (loads b ≡ ok (decoded v)) × Encoded loads decoded vs bs

pub record IsFaithful (rt : Runtime) (decoded : Value → Value) : Type 0 where
  pub one :
      (v : Value) (b : Bytes) (owners : List ℕ)
      → rt.dumps v ≡ ok (b, owners)
      → rt.loads b ≡ ok (decoded v)
  pub many :
      (vs : List Value) (bs : List Bytes)
      → Encoded rt.loads decoded vs bs
      → rt.loads (rt.dumps_raws bs) ≡ ok (list (of_list (map decoded vs)))

-- What the caller is told: nothing where the server's handler itself raised.
abbrev pub told :
    (Bytes → Result Error Value)
    → (Reply → Outcome)
    → ℕ
    → Result Error Reply
    → Option (Result Error (List Value))
told loads wire n (ok reply) = some (decode_batch loads (wire reply) n reply.payload)
told loads wire n (err e) = none

-- What the caller should be told.
abbrev pub meant : (Value → Value) → List Value → Ending → Option (Result Error (List Value))
meant decoded vs complete = some (ok (map decoded vs))
meant decoded vs (cut e) = some (err (batch_error (length vs) (map decoded vs) e))
meant decoded vs (lost e) = none
