-- ===== src/Calls.antt =====
-- python/tinyray/_rpc.py: the payload of a batch (`Call`, `_call_payload`, `_batch_payload`). A call
-- holds Python values; a tuple or list of arguments is `sequence`, anything else is not one.
pub mod Accepted
use tinyray.Common.{
  ℕ, suc, ◌+◌, List, [], ◌∷◌, Option, none, some, Bool, true, false, not, if◌then◌else◌, leb,
}
use tinyray.Common.Text.{Text, codes}
use tinyray.Errors.{Result, ok, err, ◌>>=◌, ◌>>◌, raise_if, type_error, value_error}
use tinyray.Value.{
  Value, null, text, list, dict, other, Items, nil, cons, Entries, end, entry, of_list,
}
use tinyray.Rpc.{Error}
use tinyray.Serve.Batch.{max_batch, is_method_name, has_text_keys}

pub data Args : Type 0 where
  sequence : List Value → Args
  not_sequence : Args

-- Call
pub record Call : Type 0 where
  pub method : Value
  pub args : Args
  pub kwargs : Value

-- {"method": name, "args": list(args), "kwargs": kwargs}
abbrev pub call_dict : Text → List Value → Entries → Value
call_dict name args kwargs = dict (
    entry (text (codes "method")) (text name) (
      entry (text (codes "args")) (list (of_list args))
        (entry (text (codes "kwargs")) (dict kwargs) end)))

unfoldable pub method_text : Value → Result Error Text
method_text (text name) = if is_method_name name then ok name else err value_error
method_text _ = err type_error

unfoldable pub args_list : Args → Result Error (List Value)
args_list (sequence args) = ok args
args_list not_sequence = err type_error

-- dict(call.kwargs or {})
unfoldable pub kwargs_dict : Value → Result Error Entries
kwargs_dict null = ok end
kwargs_dict (dict kwargs) = if has_text_keys kwargs then ok kwargs else err type_error
kwargs_dict _ = err type_error

unfoldable pub call_payload : Call → Result Error Value
unfolding method_text args_list kwargs_dict
call_payload call = do
  name ← method_text call.method
  args ← args_list call.args
  kwargs ← kwargs_dict call.kwargs
  ok (call_dict name args kwargs)

-- an item of the iterable: a Call, or anything else
pub data Given : Type 0 where
  a_call : Call → Given
  no_call : Given

unfoldable pub given_payload : Given → Result Error Value
given_payload (a_call call) = call_payload call
given_payload no_call = err type_error

-- the loop of _batch_payload, from `index` on
unfoldable pub payloads_from : ℕ → List Given → Result Error (List Value)
payloads_from index [] = ok []
payloads_from index (given ∷ rest) = do
  raise_if (leb max_batch index) value_error
  item ← given_payload given
  items ← payloads_from (index + 1) rest
  ok (item ∷ items)

unfoldable pub batch_payload : List Given → Result Error (List Value)
unfolding payloads_from
batch_payload calls = payloads_from 0 calls

-- {"calls": items}
abbrev pub batch_dict : List Value → Value
batch_dict items = dict (entry (text (codes "calls")) (list (of_list items)) end)
