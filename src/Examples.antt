-- ===== src/Examples.antt =====
-- Concrete runs: the theorems at the data of one engine pool, and the test data they share. The
-- codec of these runs knows `None`, numbers, lists of those, and one request.
pub mod Names
pub mod Replies
pub mod Serving
pub mod Streaming
pub mod Publishing
pub mod Counting
pub mod Batching
pub mod Lifecycle
pub mod Walking
pub mod Waiting
pub mod Calling
pub mod Ringing
pub mod Listening
pub mod Encoding
pub mod Awaiting
use tinyray.Common.{
  arith, ℕ, zero, suc, ◌+◌, List, [], ◌∷◌, ◌++◌, map, Option, none, some, Bool, true, false, ltb,
  ◌≡◌, refl, ap, length,
}
use tinyray.Common.Text.{Text, codes}
use tinyray.Errors.{Exn, Result, ok, err, decode_error, type_error}
use tinyray.Value.{
  Value, null, text, list, dict, other, Items, nil, cons, Entries, end, entry, of_list,
}
use tinyray.Rpc.{Bytes, Error, Kind, Status, Outcome}
use tinyray.Serve.{Reply, RawCall, Runtime, Arg, raw, plain, Method, Dispatch}
use tinyray.Serve.Contract.{Encoded, IsFaithful}
use tinyray.Serve.Refusals.{Carries}
use tinyray.Rpc.Verdicts.{IsCodec}

-- 64 characters for any text
abbrev pub zeros : ℕ → Text
zeros zero = []
zeros (suc n) = b'0' ∷ zeros n

abbrev pub toy_sha256 : Text → Text
toy_sha256 s = zeros 64

-- {"method": name, "args": [n], "kwargs": {}}
abbrev pub request_item : Text → ℕ → Value
request_item name n = dict (
    entry (text (codes "method")) (text name) (
      entry (text (codes "args")) (list (cons (other n) nil))
        (entry (text (codes "kwargs")) (dict end) end)))

-- two calls of `add`, and one of a method that is not served
abbrev pub request : Value
request = dict (
    entry (text (codes "calls"))
      (list (
        cons (request_item (codes "add") 3)
          (cons (request_item (codes "add") 4) (cons (request_item (codes "drop") 5) nil))))
      end)

abbrev pub number : ℕ → Value
number zero = null
number (suc n) = other n

abbrev pub toy_loads : Bytes → Result Error Value
toy_loads [] = ok null
toy_loads (n ∷ []) = ok (other n)
toy_loads (zero ∷ b ∷ rest) = ok (list (of_list (map number rest)))
toy_loads (suc zero ∷ b ∷ rest) = ok request
toy_loads (suc (suc n) ∷ b ∷ rest) = err decode_error

abbrev pub toy_dumps : Value → Result Error (Bytes × List ℕ)
toy_dumps null = ok ([], [])
toy_dumps (other n) = ok (n ∷ [], [])
toy_dumps _ = err type_error

abbrev code_of : Bytes → ℕ
code_of [] = 0
code_of (n ∷ b) = suc n

abbrev pub toy_dumps_raws : List Bytes → Bytes
toy_dumps_raws bs = 0 ∷ 0 ∷ map code_of bs

abbrev pub toy : Runtime
toy = record {
  loads = toy_loads;
  dumps = toy_dumps;
  dumps_raws = toy_dumps_raws;
  decode_raw_call = λ b. err decode_error;
  type_name = λ e. codes "Error";
  text_of = λ e. [];
  trace_of = λ e. [];
  repr = λ s. s;
  sha256_hex = toy_sha256;
}

abbrev pub toy_decoded : Value → Value
toy_decoded (other n) = other n
toy_decoded _ = null

toy_raw :
    (v : Value) (b : Bytes) → toy_loads b ≡ ok (toy_decoded v) → number (code_of b) ≡ toy_decoded v
toy_raw v [] h = ground arith
toy_raw v (n ∷ []) h = ground arith
toy_raw v (zero ∷ b ∷ rest) h = ground arith
toy_raw v (suc zero ∷ b ∷ rest) h = ground arith
toy_raw v (suc (suc n) ∷ b ∷ rest) h = ground arith

toy_raws :
    (vs : List Value) (bs : List Bytes)
    → Encoded toy_loads toy_decoded vs bs
    → map number (map code_of bs) ≡ map toy_decoded vs
toy_raws [] [] h = refl
toy_raws (v ∷ vs) [] h = absurd h
toy_raws [] (b ∷ bs) h = absurd h
toy_raws (v ∷ vs) (b ∷ bs) (hb, h) = ground (arith, toy_raw v b hb, toy_raws vs bs h)

pub toy-IsFaithful : IsFaithful toy toy_decoded
toy-IsFaithful = record {
  one = λ v b owners h. ground arith;
  many = λ vs bs h. ap (λ r. ok (list (of_list r))) (toy_raws vs bs h);
}

pub toy-IsCodec : IsCodec toy_loads
toy-IsCodec b e h = ground arith

-- a transport that loses nothing
abbrev pub toy_wire : Reply → Outcome
toy_wire r = record {
  kind = Kind.reply;
  status = r.status;
  error_type = r.error_type;
  message = r.message;
  trace = r.trace;
  batch_index = r.batch_index;
  completed = r.completed;
  payload = r.payload;
}

pub toy-Carries : (r : Reply) → Carries r (toy_wire r)
toy-Carries r = record {
  kind = refl;
  status = refl;
  error_type = refl;
  message = refl;
  trace = refl;
  batch_index = refl;
  completed = refl;
  payload = refl;
}

-- the number that a call is given
abbrev given : List Arg → Result Error ℕ
given (plain (other n) ∷ []) = ok n
given _ = err type_error

-- `add` adds its argument to a counter and returns what the counter then holds
abbrev pub add : Method ℕ ℕ
add = record {
  takes_model = false;
  bind = λ args kwargs caller request_id. given args;
  run = λ n counter. (ok (other (counter + n)), counter + n);
}

-- a server whose seat is lost once the counter is above 10
abbrev pub server : Dispatch ℕ ℕ
server = record {
  methods = (codes "add", add) ∷ [];
  identity = codes "engine/3#17";
  still_ours = λ counter. ltb counter 11;
}
