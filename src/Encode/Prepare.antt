-- ===== src/Encode/Prepare.antt =====
-- python/tinyray/_msgpack.py: `_prepare_bigints` and `_prepare_hashable` with `_big_dict`, `_big_set`
-- and `_encoded_item`, which rewrite a value that msgspec refuses for an `int` out of its range. The
-- ids that are being converted (`active`) are handed down: a call takes its own id out when it
-- ends, so that its caller has what it had.
use tinyray.Common.{
  ℕ, zero, suc, ◌^◌, List, ◌∷◌, Bool, not, ◌&&◌, length, any, all, ltb, ◌==◌, if◌then◌else◌,
}
use tinyray.Common.Decimal.{decimal}
use tinyray.Common.Int.{ℤ, pos, negsuc}
use tinyray.Common.Text.{Text}
use tinyray.Errors.{Result, blob_error, type_error, value_error, recursion_error}
use tinyray.Rpc.{Bytes, Error}
use tinyray.Encode.{
  Call, bigints, hashable, Kind, tuple, list, set, frozenset, PyObject, int, sequence, dict,
  dataclass, subclass, blob, model, other, item_at, Prepared, same, ext, seq, assoc, struct,
  items_of, pairs_of, fields_of, Encoder, raises, out_of_fuel, note_local,
}
use tinyray.Encode.Actions.{Act, ◌>>=◌, pure, stop, lift, each}

abbrev pub ext_big_int : ℕ
ext_big_int = 121

abbrev pub ext_big_dict : ℕ
ext_big_dict = 122

abbrev pub ext_big_set : ℕ
ext_big_set = 123

abbrev pub ext_blob_ref : ℕ
ext_blob_ref = 124

abbrev pub ext_tuple_key : ℕ
ext_tuple_key = 125

abbrev pub ext_frozenset_key : ℕ
ext_frozenset_key = 126

-- not -(1 << 63) <= value < (1 << 64)
unfoldable pub is_big : ℤ → Bool
is_big (pos n) = not (ltb n (2 ^ 64))
is_big (negsuc n) = not (ltb n (2 ^ 63))

-- str(value)
unfoldable pub str : ℤ → Text
str (pos n) = decimal n
str (negsuc n) = b'-' ∷ decimal (suc n)

-- str(value) raises ValueError: more decimal digits than the interpreter's limit, where 0 is no limit
unfoldable pub is_too_long : ℕ → ℤ → Bool
is_too_long limit (pos n) = not (limit == 0) && ltb limit (length (decimal n))
is_too_long limit (negsuc n) = not (limit == 0) && ltb limit (length (decimal (suc n)))

-- `_enc_hook` on a BlobRef
unfoldable pub note_owner : ℕ → Bool → Bytes → Act Prepared
note_owner k closed descriptor = if closed then stop (raises blob_error) else λ s.
    pure (ext ext_blob_ref descriptor) (note_local k s)

unfoldable pub enc_hook : List PyObject → ℕ → Act Prepared
enc_hook heap k = elim (item_at heap k) [
  | blob closed descriptor ↦ note_owner k closed descriptor
  | _ ↦ stop (raises type_error)
]

-- encoder.encode(value), with a hook, for what the value makes the encoder offer to the hook
unfoldable pub run_encoder :
    (ℕ → Act Prepared) → List ℕ → (List Prepared → Result Error Bytes) → Act Bytes
run_encoder hook offered finish = do answers ← each hook offered; lift (finish answers)

module _ (E : Encoder) (heap : List PyObject) where
  -- _encoder.encode(value), and `_encoded_item`
  unfoldable pub encode : Prepared → Act Bytes
  encode p = run_encoder (enc_hook heap) (E.encode p).0 (E.encode p).1

  -- the Ext of an integer out of range
  unfoldable pub big_int : ℤ → Act Prepared
  big_int z =
      if is_too_long E.max_digits z
      then stop (raises value_error)
      else pure (ext ext_big_int (str z))

  -- a call that the recursion limit of the interpreter leaves room for
  unfoldable pub entered : Call → List ℕ → ℕ → Act Prepared → Act Prepared
  entered how active k run = if E.too_deep how active k then stop (raises recursion_error) else run

  module _ (call : Call → List ℕ → ℕ → Act Prepared) where
    unfoldable pub hashable_item : List ℕ → ℕ → Act Bytes
    hashable_item active k = do p ← call hashable active k; encode p

    unfoldable pub big_pair : List ℕ → ℕ × ℕ → Act (Bytes × Bytes)
    big_pair active (key, value) = do
      k ← hashable_item active key
      p ← call bigints active value
      v ← encode p
      pure (k, v)

    unfoldable pub big_dict : List ℕ → List (ℕ × ℕ) → Act Prepared
    big_dict active pairs = do
      packed ← each (big_pair active) pairs
      raw ← lift (E.pack_pairs packed)
      pure (ext ext_big_dict raw)

    unfoldable pub big_set : List ℕ → List ℕ → Act Prepared
    big_set active items = do
      packed ← each (hashable_item active) items
      raw ← lift (E.pack_items packed)
      pure (ext ext_big_set raw)

    unfoldable pub converted_pair : List ℕ → ℕ × ℕ → Act (Prepared × Prepared)
    converted_pair active (key, value) = do
      k ← call bigints active key
      v ← call bigints active value
      pure (k, v)

    unfoldable pub converted_field : List ℕ → Text × ℕ → Act (Text × Prepared)
    converted_field active (name, value) = do v ← call bigints active value; pure (name, v)

    -- dict(converted), or `_big_dict` on its TypeError
    unfoldable pub dict_or_big : List ℕ → List (ℕ × ℕ) → List (Prepared × Prepared) → Act Prepared
    dict_or_big active pairs converted =
        if all (λ p. E.hashes p.0) converted
        then pure (assoc (pairs_of converted))
        else big_dict active pairs

    -- kind(converted): a set's items have to be hashable
    unfoldable pub sequence_or_big : Kind → List ℕ → List ℕ → List Prepared → Act Prepared
    sequence_or_big list active items converted = pure (seq list (items_of converted))
    sequence_or_big tuple active items converted = pure (seq tuple (items_of converted))
    sequence_or_big set active items converted =
        if all E.hashes converted then pure (seq set (items_of converted)) else big_set active items
    sequence_or_big frozenset active items converted =
        if all E.hashes converted
        then pure (seq frozenset (items_of converted))
        else big_set active items

    -- the conversions of a container's items, within it
    unfoldable pub convert_sequence : Kind → List ℕ → List ℕ → Act Prepared
    convert_sequence kind items inner = do
      converted ← each (call bigints inner) items
      sequence_or_big kind inner items converted

    unfoldable pub convert_dict : List (ℕ × ℕ) → List ℕ → Act Prepared
    convert_dict pairs inner = do
      converted ← each (converted_pair inner) pairs
      dict_or_big inner pairs converted

    unfoldable pub convert_dataclass : List (Text × ℕ) → List ℕ → Act Prepared
    convert_dataclass fields inner = do
      converted ← each (converted_field inner) fields
      pure (struct (fields_of converted))

    unfoldable pub convert_key : ℕ → List ℕ → List ℕ → Act Prepared
    convert_key code items inner = do
      converted ← each (call hashable inner) items
      raw ← encode (seq list (items_of converted))
      pure (ext code raw)

    -- `if marker in active: raise`, then the conversion with `marker` added
    unfoldable pub guarded : List ℕ → ℕ → (List ℕ → Act Prepared) → Act Prepared
    guarded active k convert =
        if any (λ s. s == k) active then stop (raises value_error) else convert (k ∷ active)

    unfoldable pub prepare_bigints : List ℕ → ℕ → PyObject → Act Prepared
    prepare_bigints active k (int z) = if is_big z then big_int z else pure (same k)
    prepare_bigints active k (sequence kind items) = guarded active k (convert_sequence kind items)
    prepare_bigints active k (dict pairs) = guarded active k (convert_dict pairs)
    prepare_bigints active k (dataclass fields) = guarded active k (convert_dataclass fields)
    prepare_bigints active k (subclass items) = pure (same k)
    prepare_bigints active k (blob closed descriptor) = pure (same k)
    prepare_bigints active k model = pure (same k)
    prepare_bigints active k other = pure (same k)

    unfoldable pub prepare_hashable : List ℕ → ℕ → PyObject → Act Prepared
    prepare_hashable active k (sequence tuple items) =
        guarded active k (convert_key ext_tuple_key items)
    prepare_hashable active k (sequence frozenset items) =
        guarded active k (convert_key ext_frozenset_key items)
    prepare_hashable active k value = prepare_bigints active k value

  -- the recursion of the two, on fuel
  unfoldable pub prepare : ℕ → Call → List ℕ → ℕ → Act Prepared
  prepare zero call active k = stop out_of_fuel
  prepare (suc n) bigints active k =
      entered bigints active k (prepare_bigints (prepare n) active k (item_at heap k))
  prepare (suc n) hashable active k =
      entered hashable active k (prepare_hashable (prepare n) active k (item_at heap k))
