-- ===== src/Serve.antt =====
-- python/tinyray/_serve.py: `_reply`, the envelope that `_coerce` unpacks, and `_Dispatch`, which
-- runs one call or one batch. `W` is whatever the served methods read and change, and `still_ours`
-- reads it too. Parameters: the codec and what Python says of an exception (`Runtime`), and for
-- each served method its signature's binding and its body (`Method`).
pub mod Envelope
pub mod Call
pub mod Batch
pub mod Refusals
pub mod Contract
use tinyray.Common.{ℕ, List, [], ◌++◌, Option, none, some, Bool, if◌then◌else◌, ◌∷◌}
use tinyray.Common.Text.{Text, codes, text_eq}
use tinyray.Errors.{Result, ok, err, Exn}
use tinyray.Value.{Value}
use tinyray.Rpc.{Bytes, Error, Status}

pub record Reply : Type 0 where
  pub status : Status
  pub payload : Bytes
  pub error_type : Text
  pub message : Text
  pub trace : Text
  pub batch_index : Option ℕ
  pub completed : Option ℕ
  pub blob_owners : List ℕ

-- _reply(status, error_type=…, message=…, traceback_text=…)
abbrev pub failure : Status → Text → Text → Text → Reply
failure status error_type message trace = record {
  status = status;
  payload = [];
  error_type = error_type;
  message = message;
  trace = trace;
  batch_index = none;
  completed = none;
  blob_owners = [];
}

-- _reply(RPC_STATUS_SUCCESS, payload, blob_owners=…)
abbrev pub success_reply : Bytes → List ℕ → Reply
success_reply payload owners = record (failure Status.success [] [] []) {
  payload = payload;
  blob_owners = owners;
}

-- An argument as it stands in a request: a decoded value, or the bytes of one that a typed
-- parameter decodes.
pub data Arg : Type 0 where
  raw : Bytes → Arg
  plain : Value → Arg

-- _RawCall
pub record RawCall : Type 0 where
  pub args : Option (List Bytes)
  pub kwargs : Option (List (Text × Bytes))

pub data Payload : Type 0 where
  raw_call : RawCall → Payload
  value : Value → Payload

-- What the dispatcher uses of the codec, of Python's exceptions and of `hashlib`.
pub record Runtime : Type 0 where
  pub loads : Bytes → Result Error Value
  pub dumps : Value → Result Error (Bytes × List ℕ)
  pub dumps_raws : List Bytes → Bytes
  pub decode_raw_call : Bytes → Result Error RawCall
  pub type_name : Error → Text
  pub text_of : Error → Text
  pub trace_of : Error → Text
  pub repr : Text → Text
  pub sha256_hex : Text → Text

-- A served method: `bind` checks and converts the arguments against its signature, given also the
-- caller and the request id for an injected `CallContext`; `run` is its body.
pub record Method (W Arguments : Type 0) : Type 0 where
  pub takes_model : Bool
  pub bind : List Arg → List (Value × Arg) → Text → Text → Result Error Arguments
  pub run : Arguments → W → Result Error Value × W

-- _Dispatch
pub record Dispatch (W Arguments : Type 0) : Type 0 where
  pub methods : List (Text × Method W Arguments)
  pub identity : Text
  pub still_ours : W → Bool

-- self.dispatch.get(name)
unfoldable pub lookup {ℓ} : {A : Type ℓ} → Text → List (Text × A) → Option A
lookup name [] = none
lookup name ((key, a) ∷ rest) = if text_eq key name then some a else lookup name rest
