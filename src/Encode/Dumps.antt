-- ===== src/Encode/Dumps.antt =====
-- python/tinyray/_msgpack.py: `_enc_hook_fast`, `_encode_with_blob_scope`, `_encode_prepared`, `dumps`
-- and `dumps_with_blob_refs`.
use tinyray.Common.{ℕ, ◌+◌, List, [], none, some, Bool, length}
use tinyray.Errors.{Result, ok, err, overflow_error}
use tinyray.Rpc.{Bytes}
use tinyray.Codec.{done, raised, out_of_fuel as walk_out_of_fuel, reject_pydantic_values}
use tinyray.Encode.{
  bigints, PyObject, blob, shapes, item_at, Prepared, same, Encoder, raises, scope_required,
  out_of_fuel, Stop, Local, no_owners,
}
use tinyray.Encode.Actions.{Act, ◌>>=◌, ◌>>◌, pure, stop}
use tinyray.Encode.Prepare.{enc_hook, run_encoder, encode, prepare}

unfoldable pub enc_hook_fast : List PyObject → ℕ → Act Prepared
enc_hook_fast heap k = elim (item_at heap k) [
  | blob closed descriptor ↦ stop scope_required
  | _ ↦ enc_hook heap k
]

-- `except OverflowError`, and `except (_BlobScopeRequired, OverflowError)`
unfoldable pub on_overflow : {A : Type 0} → Act A → Result Stop A × Local → Result Stop A × Local
on_overflow retry (err (raises overflow_error), s) = retry s
on_overflow retry r = r

unfoldable pub on_scope_or_overflow :
    {A : Type 0} → Act A → Result Stop A × Local → Result Stop A × Local
on_scope_or_overflow retry (err (raises overflow_error), s) = retry s
on_scope_or_overflow retry (err scope_required, s) = retry s
on_scope_or_overflow retry r = r

unfoldable pub owners_of : Local → List ℕ
owners_of none = []
owners_of (some s) = s.owners

-- the encoding with tuple(current["owners"])
unfoldable pub with_owners : Result Stop Bytes × Local → Result Stop (Bytes × List ℕ) × Local
with_owners (ok raw, s) = (ok (raw, owners_of s), s)
with_owners (err e, s) = (err e, s)

-- an encoding in the scope that the thread has, or in its own, which is deleted at the end
unfoldable pub in_scope : Act Bytes → Act (Bytes × List ℕ)
in_scope m none = ((with_owners (m (some no_owners))).0, none)
in_scope m (some s) = with_owners (m (some s))

module _ (E : Encoder) (heap : List PyObject) where
  -- more nested calls than there are objects are never entered
  abbrev pub depth_bound : ℕ
  depth_bound = 2 + length heap

  -- _encoder.encode(_prepare_bigints(value, set()))
  unfoldable pub encode_bigints : ℕ → Act Bytes
  encode_bigints value = do p ← prepare E heap depth_bound bigints [] value; encode E heap p

  unfoldable pub encode_with_blob_scope : ℕ → Act (Bytes × List ℕ)
  encode_with_blob_scope value =
      in_scope (λ s. on_overflow (encode_bigints value) (encode E heap (same value) s))

  -- _fast_encoder.encode(value), ()
  unfoldable pub encode_fast : ℕ → Act (Bytes × List ℕ)
  encode_fast value = do
    raw ← run_encoder (enc_hook_fast heap) (E.encode (same value)).0 (E.encode (same value)).1
    pure (raw, [])

  unfoldable pub encode_prepared : ℕ → Act (Bytes × List ℕ)
  encode_prepared value s =
      on_scope_or_overflow (encode_with_blob_scope value) (encode_fast value s)

  -- `_reject_pydantic_values`, as a step
  unfoldable pub reject_models : Bool → ℕ → Act (Unit {0})
  reject_models imported value = elim (reject_pydantic_values imported (shapes heap) value) [
    | done u ↦ pure u
    | raised e ↦ stop (raises e)
    | walk_out_of_fuel ↦ stop out_of_fuel
  ]

  unfoldable pub dumps_with_blob_refs : Bool → ℕ → Act (Bytes × List ℕ)
  dumps_with_blob_refs imported value = do reject_models imported value; encode_prepared value

  unfoldable pub dumps : Bool → ℕ → Act Bytes
  dumps imported value = do
    reject_models imported value
    encoded ← encode_prepared value
    pure encoded.0
