-- ===== src/Examples/Encoding.antt =====
-- Values that msgspec's encoder refuses at first: a list of a big integer and a BlobRef, and a list
-- that holds itself.
use tinyray.Common.{ltb, ℕ, ◌^◌, List, [], ◌∷◌, none, false, true, ◌≡◌, refl, length}
use tinyray.Common.Int.{pos, negsuc}
use tinyray.Errors.{Result, ok, err, overflow_error, value_error}
use tinyray.Rpc.{Bytes, Error}
use tinyray.Encode.{
  bigints, list, PyObject, int, sequence, dict, blob, other, Prepared, same, ext, seq, nil, item,
  Encoder, raises,
}
use tinyray.Encode.Actions.{Gives}
use tinyray.Encode.Prepare.{prepare, str}
use tinyray.Encode.Dumps.{encode_prepared, encode_with_blob_scope}
use tinyray.Encode.Fast.{encode_prepared_same}
use tinyray.Encode.Owners.{IsOwnedAnswer, encode_prepared_owners}
use tinyray.Encode.Words.{Fits, prepare-Fits}

-- the list of a big integer, a BlobRef (twice) and a small integer; and a list that holds itself
abbrev heap : List PyObject
heap =
    sequence list (1 ∷ 2 ∷ 2 ∷ 3 ∷ [])
    ∷ int (pos (2 ^ 70))
    ∷ blob false (7 ∷ [])
    ∷ int (negsuc 4)
    ∷ sequence list (4 ∷ 3 ∷ [])
    ∷ []

-- an encoder that refuses the first object, and meets the BlobRef in any list
abbrev encodes : Prepared → List ℕ × (List Prepared → Result Error Bytes)
encodes (same k) = (2 ∷ [], λ answers. err overflow_error)
encodes (seq kind items) = (2 ∷ 2 ∷ [], λ answers. ok (1 ∷ []))
encodes _ = ([], λ answers. ok [])

abbrev encoder : Encoder
encoder = record {
  encode = encodes;
  pack_items = λ items. ok [];
  pack_pairs = λ pairs. ok [];
  hashes = λ p. true;
  max_digits = 4300;
  too_deep = λ how active k. ltb 900 (length active);
}

abbrev prepared_list : Prepared
prepared_list =
    seq list
      (item (ext 121 (str (pos (2 ^ 70)))) (item (same 2) (item (same 2) (item (same 3) nil))))

prepares : (prepare encoder heap 7 bigints [] 0 none).0 ≡ ok prepared_list
unfolding prepare tinyray.Encode.Prepare.prepare_bigints tinyray.Encode.item_at
    tinyray.Encode.Prepare.guarded tinyray.Encode.Prepare.convert_sequence
    tinyray.Encode.Actions.◌>>=◌ tinyray.Encode.Actions.each tinyray.Encode.Prepare.is_big
    tinyray.Encode.Prepare.sequence_or_big tinyray.Encode.Prepare.entered
    tinyray.Encode.Prepare.big_int tinyray.Encode.Prepare.is_too_long tinyray.Common.Decimal.decimal
prepares = refl

raises_on_cycle : (prepare encoder heap 7 bigints [] 4 none).0 ≡ err (raises value_error)
unfolding prepare tinyray.Encode.Prepare.prepare_bigints tinyray.Encode.item_at
    tinyray.Encode.Prepare.guarded tinyray.Encode.Prepare.convert_sequence
    tinyray.Encode.Actions.◌>>=◌ tinyray.Encode.Actions.each tinyray.Encode.Prepare.is_big
    tinyray.Encode.Prepare.sequence_or_big tinyray.Encode.Prepare.entered
    tinyray.Encode.Prepare.big_int tinyray.Encode.Prepare.is_too_long tinyray.Common.Decimal.decimal
raises_on_cycle = refl

encodes_owners : encode_prepared encoder heap 0 none ≡ (ok (1 ∷ [], 2 ∷ []), none)
unfolding prepare tinyray.Encode.Prepare.prepare_bigints tinyray.Encode.item_at
    tinyray.Encode.Prepare.guarded tinyray.Encode.Prepare.convert_sequence
    tinyray.Encode.Actions.◌>>=◌ tinyray.Encode.Actions.each tinyray.Encode.Prepare.is_big
    tinyray.Encode.Prepare.sequence_or_big tinyray.Encode.Prepare.entered
    tinyray.Encode.Prepare.big_int tinyray.Encode.Prepare.is_too_long tinyray.Common.Decimal.decimal
    encode_prepared encode_with_blob_scope tinyray.Encode.Dumps.on_scope_or_overflow
    tinyray.Encode.Dumps.encode_fast tinyray.Encode.Prepare.run_encoder
    tinyray.Encode.Dumps.enc_hook_fast tinyray.Encode.Dumps.in_scope
    tinyray.Encode.Dumps.with_owners tinyray.Encode.Dumps.on_overflow tinyray.Encode.Prepare.encode
    tinyray.Encode.Prepare.enc_hook tinyray.Encode.Prepare.note_owner
    tinyray.Encode.Dumps.encode_bigints tinyray.Encode.Dumps.owners_of tinyray.Encode.note
encodes_owners = refl

prepare-Fits_example : Fits heap prepared_list
unfolding Gives prepare tinyray.Encode.Prepare.prepare_bigints tinyray.Encode.item_at
    tinyray.Encode.Prepare.guarded tinyray.Encode.Prepare.convert_sequence
    tinyray.Encode.Actions.◌>>=◌ tinyray.Encode.Actions.each tinyray.Encode.Prepare.is_big
    tinyray.Encode.Prepare.sequence_or_big tinyray.Encode.Prepare.entered
    tinyray.Encode.Prepare.big_int tinyray.Encode.Prepare.is_too_long tinyray.Common.Decimal.decimal
prepare-Fits_example = prepare-Fits encoder heap 7 [] 0 prepared_list (none, refl)

encode_prepared_same_example :
    encode_prepared encoder heap 0 none ≡ encode_with_blob_scope encoder heap 0 none
encode_prepared_same_example = encode_prepared_same encoder heap 0

encode_prepared_owners_example :
    ((encode_prepared encoder heap 0 none).1 ≡ none)
    × IsOwnedAnswer encoder heap 0 (encode_prepared encoder heap 0 none).0
encode_prepared_owners_example = encode_prepared_owners encoder heap 0
