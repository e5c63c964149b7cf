-- ===== src/Serve/Call.antt =====
-- `_Dispatch._invoke` and `_Dispatch._call`. Both may raise what no handler catches.
use tinyray.Common.{
  ℕ, not, ◌&&◌, List, [], ◌++◌, Option, none, some, Bool, true, false, if◌then◌else◌,
}
use tinyray.Common.Text.{Text, codes, is_empty}
use tinyray.Errors.{
  Result, ok, err, ◌>>=◌, blob_error, type_error, value_error, validation_error, unicode_error,
  policy_error, overflow_error, recursion_error, decode_error,
}
use tinyray.Value.{Value}
use tinyray.Rpc.{Bytes, Error, Status, is_malformed}
use tinyray.Serve.{
  Reply, RawCall, failure, success_reply, Payload, raw_call, value, Runtime, Method,
}
use tinyray.Serve.Envelope.{unpack}

-- except (BlobError, msgspec.ValidationError, TypeError, ValueError)
abbrev pub is_argument_fault : Error → Bool
is_argument_fault blob_error = true
is_argument_fault validation_error = true
is_argument_fault type_error = true
is_argument_fault value_error = true
is_argument_fault unicode_error = true
is_argument_fault policy_error = true
is_argument_fault _ = false

-- except (TypeError, ValueError, OverflowError, RecursionError)
abbrev pub is_return_fault : Error → Bool
is_return_fault type_error = true
is_return_fault value_error = true
is_return_fault unicode_error = true
is_return_fault policy_error = true
is_return_fault overflow_error = true
is_return_fault recursion_error = true
is_return_fault _ = false

-- except msgspec.DecodeError
abbrev pub is_decode_error : Error → Bool
is_decode_error decode_error = true
is_decode_error validation_error = true
is_decode_error _ = false

-- except (BlobError, TypeError)
abbrev pub is_blob_or_type_error : Error → Bool
is_blob_or_type_error blob_error = true
is_blob_or_type_error type_error = true
is_blob_or_type_error _ = false

abbrev pub colon : Text → Text → Text
colon name rest = name ++ codes "(): " ++ rest

module _ (rt : Runtime) where
  -- the `try` around `loads` of a request, with the words of its two handlers
  unfoldable pub load_request : Text → Bytes → Result Error (Result Reply Value)
  load_request prefix body = elim (rt.loads body) [
    | ok v ↦ ok (ok v)
    | err e ↦
        if is_blob_or_type_error e
        then ok (err (failure Status.caller_fault (codes "TypeError") (prefix ++ rt.text_of e) []))
        else if is_malformed e
        then ok (
            err (failure Status.caller_fault (codes "ValidationError") (prefix ++ rt.text_of e) []))
        else err e
  ]

  abbrev pub cannot_send : Error → Text
  cannot_send e = codes "the return value cannot be sent as MessagePack: " ++ rt.text_of e

  abbrev pub unsendable : Error → Reply
  unsendable e = failure Status.remote_error (codes "TypeError") (cannot_send e) []

  abbrev pub argument_fault : Text → Error → Reply
  argument_fault name e =
      failure Status.caller_fault (codes "TypeError") (colon name (rt.text_of e)) []

  -- the last `try` of `_invoke`: what the dump of the result gave
  unfoldable pub answer_of : Result Error (Bytes × List ℕ) → Result Error Reply
  answer_of (ok (payload, owners)) = ok (success_reply payload owners)
  answer_of (err e) = if is_return_fault e then ok (unsendable e) else err e

  -- `_decode_raw_call`, tried where a parameter has a model type
  unfoldable pub raw_payload : Bool → Bytes → Result Error (Option RawCall)
  raw_payload false body = ok none
  raw_payload true body = elim (rt.decode_raw_call body) [
    | ok call ↦ ok (some call)
    | err e ↦ if is_decode_error e then ok none else err e
  ]

  -- `except Exception as exc`
  unfoldable pub raised : Error → Reply
  raised e = failure Status.remote_error (rt.type_name e) (rt.text_of e) (rt.trace_of e)

unfoldable pub coerce :
    {W Arguments : Type 0} → Method W Arguments → Payload → Text → Text → Result Error Arguments
unfolding unpack
coerce fn payload caller request_id = do
  given ← unpack payload
  fn.bind given.0 given.1 caller request_id

module _ {W : Type 0} (rt : Runtime) where
  -- the two last `try` blocks of `_invoke`, behind the call of the body
  unfoldable pub finish : Result Error Value × W → Result Error Reply × W
  finish (ok result, w) = (answer_of rt (rt.dumps result), w)
  finish (err e, w) = (ok (raised rt e), w)

module _ {W Arguments : Type 0} (rt : Runtime) where
  -- `_invoke` behind `_coerce`
  unfoldable pub run_bound :
      Method W Arguments → Text → Result Error Arguments → W → Result Error Reply × W
  run_bound fn name (ok arguments) w = finish rt (fn.run arguments w)
  run_bound fn name (err e) w =
      (if is_argument_fault e then ok (argument_fault rt name e) else err e, w)

  unfoldable pub invoke :
      Method W Arguments → Text → Payload → Text → Text → W → Result Error Reply × W
  invoke fn name payload caller request_id w =
      run_bound fn name (coerce fn payload caller request_id) w

  -- the two attempts of `_call` to read the payload
  unfoldable pub read_payload :
      Method W Arguments → Text → Bytes → Result Error (Result Reply Payload)
  unfolding raw_payload
  read_payload fn name body = do
    typed ← raw_payload rt (not (is_empty body) && fn.takes_model) body
    elim typed [
      | some call ↦ ok (ok (raw_call call))
      | none ↦ (do
        loaded ← load_request rt (name ++ codes "(): malformed MessagePack: ") body
        elim loaded [ ok v ↦ ok (ok (value v)) | err reply ↦ ok (err reply) ])
    ]

  unfoldable pub call : Method W Arguments → Text → Bytes → Text → Text → W → Result Error Reply × W
  call fn name body caller request_id w = elim (read_payload fn name body) [
    | ok (ok payload) ↦ invoke fn name payload caller request_id w
    | ok (err reply) ↦ (ok reply, w)
    | err e ↦ (err e, w)
  ]
