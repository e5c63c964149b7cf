-- ===== src/Encode/Decode.antt =====
-- python/tinyray/_msgpack.py, `_decode_ext` behind its branch for BlobRefs (Codec/Scope has that one):
-- the extensions that `_prepare_bigints` and `_prepare_hashable` write, on their way in. The text of
-- an integer is taken for one that `str` wrote, within the interpreter's limit of digits.
use tinyray.Common.{ℕ, List, [], ◌∷◌, if◌then◌else◌, ◌==◌, ◌≡◌, ap}
use tinyray.Common.Int.{ℤ}
use tinyray.Errors.{Result, ok, ◌>>=◌}
use tinyray.Rpc.{Bytes, Error}
use tinyray.Encode.Integers.{read_int, read_int-str}
use tinyray.Encode.Prepare.{
  str, ext_big_int, ext_big_dict, ext_big_set, ext_tuple_key, ext_frozenset_key,
}

-- msgspec's decoders, and Python's constructors on decoded values `V`: `dict` and `set` of a
-- comprehension, `tuple` and `frozenset` of a value, and an extension that the package does not know.
pub record Decoder (V : Type 0) : Type 0 where
  pub decode : Bytes → Result Error V
  pub unpack_items : Bytes → Result Error (List Bytes)
  pub unpack_pairs : Bytes → Result Error (List (Bytes × Bytes))
  pub integer : ℤ → V
  pub dict : List (V × V) → Result Error V
  pub set : List V → Result Error V
  pub tuple : V → Result Error V
  pub frozenset : V → Result Error V
  pub unknown : ℕ → Bytes → V

-- the comprehensions, up to the first item that raises
unfoldable pub all_decoded : {A V : Type 0} → (A → Result Error V) → List A → Result Error (List V)
all_decoded f [] = ok []
all_decoded f (x ∷ xs) = do v ← f x; vs ← all_decoded f xs; ok (v ∷ vs)

module _ {V : Type 0} (D : Decoder V) where
  unfoldable pub decoded_pair : Bytes × Bytes → Result Error (V × V)
  decoded_pair (key, value) = do k ← D.decode key; v ← D.decode value; ok (k, v)

  unfoldable pub decode_ext : ℕ → Bytes → Result Error V
  unfolding all_decoded decoded_pair
  decode_ext code raw =
      if code == ext_big_int
      then ok (D.integer (read_int raw))
      else if code == ext_big_dict
      then D.unpack_pairs raw >>= (λ pairs. all_decoded decoded_pair pairs >>= D.dict)
      else if code == ext_big_set
      then D.unpack_items raw >>= (λ items. all_decoded D.decode items >>= D.set)
      else if code == ext_tuple_key
      then D.decode raw >>= D.tuple
      else if code == ext_frozenset_key
      then D.decode raw >>= D.frozenset
      else ok (D.unknown code raw)

  -- An integer out of msgspec's range comes back as itself.
  pub decode_ext-str : (z : ℤ) → decode_ext ext_big_int (str z) ≡ ok (D.integer z)
  unfolding decode_ext
  decode_ext-str z = ap (λ x. ok (D.integer x)) (read_int-str z)
