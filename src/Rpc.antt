-- ===== src/Rpc.antt =====
-- python/tinyray/_rpc.py: how a caller reads the outcome of a call. The transport under
-- crates/tinyray is outside the model: an `Outcome` has the fields that `RpcOutcome` shows to
-- Python. The codec (`loads`, `convert_msgpack`) is a parameter that may raise.
pub mod Verdicts
pub mod Batches
use tinyray.Common.{
  ℕ, List, [], ◌∷◌, Option, none, some, Bool, true, false, not, ◌&&◌, ◌||◌, if◌then◌else◌, length,
  ltb, ◌==◌,
}
use tinyray.Common.Text.{Text, codes, is_empty}
use tinyray.Errors.{
  Exn, Result, ok, err, ◌>>=◌, ◌>>◌, raise_if, not_delivered, outcome_unknown, batch_error,
  attribute_error, type_error, assertion_error, validation_error, decode_error, unicode_error,
  value_error, policy_error, recursion_error,
}
use tinyray.Value.{Value, null, text, list, dict, other, to_list}

abbrev pub Bytes : Type 0
Bytes = List ℕ

abbrev pub Error : Type 0
Error = Exn Value

-- RPC_OUTCOME_*
pub data Kind : Type 0 where
  reply not_sent unknown cancelled : Kind

-- RPC_STATUS_*; `unlisted` is any number that is none of them
pub data Status : Type 0 where
  success method_not_found fenced caller_fault concurrency_refused remote_error : Status
  malformed_protocol internal : Status
  unlisted : ℕ → Status

pub record Outcome : Type 0 where
  pub kind : Kind
  pub status : Status
  pub error_type : Text
  pub message : Text
  pub trace : Text
  pub batch_index : Option ℕ
  pub completed : Option ℕ
  pub payload : Bytes

abbrev pub is_none {ℓ} : {A : Type ℓ} → Option A → Bool
is_none none = true
is_none (some a) = false

abbrev pub is_reply : Kind → Bool
is_reply Kind.reply = true
is_reply _ = false

abbrev pub is_success : Status → Bool
is_success Status.success = true
is_success _ = false

-- _transport_error
pub transport_error : Outcome → Error
transport_error outcome = elim outcome.kind [ Kind.not_sent ↦ not_delivered | _ ↦ outcome_unknown ]

-- `error_type or "Exception"`
abbrev pub or_exception : Text → Text
or_exception name = if is_empty name then codes "Exception" else name

unfoldable pub error_of_status : Status → Outcome → Error
error_of_status Status.method_not_found outcome = attribute_error
error_of_status Status.fenced outcome = Exn.fenced
error_of_status Status.caller_fault outcome = type_error
error_of_status Status.concurrency_refused outcome = not_delivered
error_of_status Status.remote_error outcome =
    Exn.remote_error (or_exception outcome.error_type) outcome.message outcome.trace
error_of_status Status.malformed_protocol outcome = not_delivered
error_of_status Status.internal outcome = outcome_unknown
error_of_status Status.success outcome = outcome_unknown
error_of_status (Status.unlisted n) outcome = outcome_unknown

-- _raise_reply: what it raises, on every path
unfoldable pub raise_reply : Outcome → Error
unfolding error_of_status
raise_reply outcome = error_of_status outcome.status outcome

unfoldable pub reply_payload : Outcome → Bytes → Result Error Bytes
reply_payload outcome raw = do
  raise_if (not (is_reply outcome.kind)) assertion_error
  raise_if (not (is_success outcome.status)) (raise_reply outcome)
  ok raw

-- except (msgspec.DecodeError, UnicodeError, ValueError, RecursionError)
abbrev pub is_malformed : Error → Bool
is_malformed decode_error = true
is_malformed validation_error = true
is_malformed unicode_error = true
is_malformed value_error = true
is_malformed policy_error = true
is_malformed recursion_error = true
is_malformed _ = false

-- try: return r; except (malformed …): raise OutcomeUnknown
abbrev pub or_unknown {ℓ} : {A : Type ℓ} → Result Error A → Result Error A
or_unknown (ok a) = ok a
or_unknown (err e) = if is_malformed e then err outcome_unknown else err e

-- the handlers of _decode_typed, in their order
abbrev pub or_mismatch : Result Error Value → Result Error Value
or_mismatch (ok v) = ok v
or_mismatch (err validation_error) = err type_error
or_mismatch (err type_error) = err type_error
or_mismatch (err e) = if is_malformed e then err outcome_unknown else err e

-- not isinstance(results, list) or len(results) != n: raise OutcomeUnknown
unfoldable pub results_of : ℕ → Value → Result Error (List Value)
results_of n (list items) =
    if length (to_list items) == n then ok (to_list items) else err outcome_unknown
results_of n null = err outcome_unknown
results_of n (text t) = err outcome_unknown
results_of n (dict es) = err outcome_unknown
results_of n (other o) = err outcome_unknown

-- the last `try` of _decode_batch: what is raised when the reply itself raises `cause`
unfoldable pub batch_failure : ℕ → List Value → Error → Error
batch_failure index results attribute_error = batch_error index results attribute_error
batch_failure index results type_error = batch_error index results type_error
batch_failure index results Exn.fenced = batch_error index results Exn.fenced
batch_failure index results (Exn.remote_error n m t) =
    batch_error index results (Exn.remote_error n m t)
batch_failure index results cause = cause

-- index is not None and index == completed and 0 <= index < expected
unfoldable pub failed_index : Option ℕ → Option ℕ → ℕ → Option ℕ
failed_index none completed expected = none
failed_index (some index) none expected = none
failed_index (some index) (some completed) expected =
    if index == completed && ltb index expected then some index else none

module _ (loads : Bytes → Result Error Value) where
  unfoldable pub decode : Outcome → Bytes → Result Error Value
  unfolding reply_payload
  decode outcome raw = do body ← reply_payload outcome raw; or_unknown (loads body)

  unfoldable pub decode_typed : (Bytes → Result Error Value) → Outcome → Bytes → Result Error Value
  unfolding reply_payload
  decode_typed convert_msgpack outcome raw = do
    body ← reply_payload outcome raw
    or_mismatch (convert_msgpack body)

  -- the part of _decode_batch for a batch that failed at an item
  unfoldable pub decode_failed_item : Outcome → Bytes → Option ℕ → Result Error (List Value)
  decode_failed_item outcome raw none = err outcome_unknown
  decode_failed_item outcome raw (some index) = do
    value ← or_unknown (loads raw)
    results ← results_of index value
    err (batch_failure index results (raise_reply outcome))

  unfoldable pub decode_batch : Outcome → ℕ → Bytes → Result Error (List Value)
  unfolding decode_failed_item
  decode_batch outcome expected raw =
      let whole = (do value ← or_unknown (loads raw); results_of expected value) in
      let item =
        decode_failed_item outcome raw
          (failed_index outcome.batch_index outcome.completed expected) in
      if not (is_reply outcome.kind)
      then err assertion_error
      else if is_success outcome.status
      then whole
      else if is_none outcome.batch_index && is_none outcome.completed
      then err (raise_reply outcome)
      else item
