-- ===== src/Serve/Envelope.antt =====
-- The first part of `_coerce`: the arguments that a payload stands for.
use tinyray.Common.{List, [], ◌∷◌, map, Option, none, some, if◌then◌else◌}
use tinyray.Common.Text.{Text, codes}
use tinyray.Errors.{Result, ok, err, ◌>>=◌, validation_error}
use tinyray.Value.{
  Value, null, text, list, dict, other, Entries, to_list, to_pairs, get, keys_among,
}
use tinyray.Rpc.{Bytes, Error}
use tinyray.Serve.{Arg, raw, plain, Payload, raw_call, value}

abbrev pub Arguments : Type 0
Arguments = List Arg × List (Value × Arg)

plain_pairs : List (Value × Value) → List (Value × Arg)
plain_pairs [] = []
plain_pairs ((k, v) ∷ rest) = (k, plain v) ∷ plain_pairs rest

raw_pairs : List (Text × Bytes) → List (Value × Arg)
raw_pairs [] = []
raw_pairs ((k, v) ∷ rest) = (text k, raw v) ∷ raw_pairs rest

-- `list(given_args or [])`, for None or a list
args_of : Option Value → Result Error (List Arg)
args_of none = ok []
args_of (some null) = ok []
args_of (some (list items)) = ok (map plain (to_list items))
args_of (some (text t)) = err validation_error
args_of (some (dict es)) = err validation_error
args_of (some (other n)) = err validation_error

-- `dict(given_kwargs or {})`, for None or a dict
kwargs_of : Option Value → Result Error (List (Value × Arg))
unfolding plain_pairs
kwargs_of none = ok []
kwargs_of (some null) = ok []
kwargs_of (some (dict es)) = ok (plain_pairs (to_pairs es))
kwargs_of (some (text t)) = err validation_error
kwargs_of (some (list items)) = err validation_error
kwargs_of (some (other n)) = err validation_error

envelope : Entries → Result Error Arguments
unfolding args_of kwargs_of
envelope es = do
  args ← args_of (get (codes "args") es)
  kwargs ← kwargs_of (get (codes "kwargs") es)
  ok (args, kwargs)

or_empty {ℓ} : {A : Type ℓ} → Option (List A) → List A
or_empty none = []
or_empty (some xs) = xs

unfoldable pub unpack : Payload → Result Error Arguments
unfolding envelope raw_pairs or_empty
unpack (raw_call call) = ok (map raw (or_empty call.args), raw_pairs (or_empty call.kwargs))
unpack (value (dict es)) =
    if keys_among (codes "args" ∷ codes "kwargs" ∷ []) es
    then envelope es
    else ok ([], plain_pairs (to_pairs es))
unpack (value (list items)) = ok (map plain (to_list items), [])
unpack (value null) = ok (plain null ∷ [], [])
unpack (value (text t)) = ok (plain (text t) ∷ [], [])
unpack (value (other n)) = ok (plain (other n) ∷ [], [])
