-- ===== src/Codec/Scope.antt =====
-- python/tinyray/_msgpack.py, `_decode_ext` on a BlobRef, `_descriptor_size`, `blob_decode_scope` and
-- the two ways to decode within it. The native module opens and clones blobs (`Blobs`, on its state
-- `W`); msgspec decodes descriptors. `B` is the type of open blobs.
use tinyray.Common.{ℕ, ◌+◌, List, [], ◌∷◌, Option, none, some, length, ltb, if◌then◌else◌}
use tinyray.Common.Int.{ℤ, pos, negsuc}
use tinyray.Errors.{Result, ok, err, blob_error}
use tinyray.Rpc.{Bytes, Error}
use tinyray.Serve.{lookup}

-- What msgspec makes of a descriptor: nothing (DecodeError), a value that is no dict, or a dict with
-- what its `size` is.
pub data Size : Type 0 where
  no_size : Size
  integer : ℤ → Size
  not_integer : Size

pub data Descriptor : Type 0 where
  undecodable : Descriptor
  not_dict : Descriptor
  with_size : Size → Descriptor

unfoldable pub descriptor_size : Descriptor → Option ℕ
descriptor_size undecodable = none
descriptor_size not_dict = none
descriptor_size (with_size no_size) = none
descriptor_size (with_size not_integer) = none
descriptor_size (with_size (integer (pos n))) = some n
descriptor_size (with_size (integer (negsuc n))) = none

abbrev pub max_descriptor : ℕ
max_descriptor = 4096

abbrev pub header_bytes : ℕ
header_bytes = 32

-- What the package takes from the native module and from msgspec.
pub record Blobs (B W : Type 0) : Type 0 where
  pub max_refs : ℕ
  pub max_mapped : ℕ
  pub loads : Bytes → Descriptor
  pub from_descriptor : Bytes → W → Result Error B × W
  pub clone : B → W → Result Error B × W

-- _codec_local.decode
pub record Scope (B : Type 0) : Type 0 where
  pub refs : ℕ
  pub mapped_bytes : ℕ
  pub cache : List (Bytes × B)

abbrev pub fresh : {B : Type 0} → Scope B
fresh = record { refs = 0; mapped_bytes = 0; cache = [] }

module _ {B W : Type 0} (blobs : Blobs B W) where
  -- the mapped bytes behind a descriptor, or `none` where they exceed the limit
  unfoldable pub charge : Option ℕ → ℕ → Option ℕ
  charge none mapped = some mapped
  charge (some size) mapped =
      if ltb blobs.max_mapped (mapped + header_bytes + size)
      then none
      else some (mapped + header_bytes + size)

  -- state["cache"][raw] = blob, where the key is new, if a blob was opened
  unfoldable pub remember : Bytes → Scope B → Result Error B × W → Result Error B × Scope B × W
  remember raw s (ok blob, w) = (ok blob, record s { cache = (raw, blob) ∷ s.cache }, w)
  remember raw s (err e, w) = (err e, s, w)

  unfoldable pub open_charged : Option ℕ → Bytes → Scope B → W → Result Error B × Scope B × W
  unfolding remember
  open_charged none raw s w = (err blob_error, s, w)
  open_charged (some mapped) raw s w =
      remember raw (record s { mapped_bytes = mapped }) (blobs.from_descriptor raw w)

  -- the part of _decode_ext behind the look into the cache
  unfoldable pub open_cached : Option B → Bytes → Scope B → W → Result Error B × Scope B × W
  unfolding open_charged
  open_cached (some blob) raw s w = let (result, w') = blobs.clone blob w in (result, s, w')
  open_cached none raw s w =
      open_charged (charge (descriptor_size (blobs.loads raw)) s.mapped_bytes) raw s w

  -- _decode_ext on a BlobRef, in a scope
  unfoldable pub decode_ref : Bytes → Scope B → W → Result Error B × Scope B × W
  unfolding open_cached
  decode_ref raw s w =
      let counted : Scope B = record s { refs = s.refs + 1 } in
      if ltb max_descriptor (length raw)
      then (err blob_error, s, w)
      else if ltb blobs.max_refs (s.refs + 1)
      then (err blob_error, counted, w)
      else open_cached (lookup raw s.cache) raw counted w

  -- _decode_ext on a BlobRef where there is no scope
  unfoldable pub decode_alone : Bytes → W → Result Error B × W
  decode_alone raw w =
      if ltb max_descriptor (length raw) then (err blob_error, w) else blobs.from_descriptor raw w

  -- the BlobRefs that the decoder meets in one message, up to the first that raises
  unfoldable pub decode_refs : List Bytes → Scope B → W → Result Error (List B) × Scope B × W
  decode_refs [] s w = (ok [], s, w)
  decode_refs (raw ∷ rest) s w =
      let (first, s', w') = decode_ref raw s w in
      let (later, s'', w'') = decode_refs rest s' w' in
      elim first [
        | err e ↦ (err e, s', w')
        | ok blob ↦ elim later [
          | err e ↦ (err e, s'', w'')
          | ok blobs ↦ (ok (blob ∷ blobs), s'', w'')
        ]
      ]

  -- several messages decoded within one `blob_decode_scope`, whatever of them raises
  unfoldable pub decode_all : List (List Bytes) → Scope B → W → Scope B × W
  decode_all [] s w = (s, w)
  decode_all (message ∷ rest) s w =
      let (result, s', w') = decode_refs message s w in decode_all rest s' w'

-- `blob_decode_scope` around a body: an inner scope is the outer one, and the outermost scope is
-- deleted behind it.
unfoldable pub blob_decode_scope :
    {A B W : Type 0}
    → (Scope B → W → A × Scope B × W)
    → Option (Scope B)
    → W
    → A × Option (Scope B) × W
blob_decode_scope body (some s) w = let (a, s', w') = body s w in (a, some s', w')
blob_decode_scope body none w = let (a, s', w') = body fresh w in (a, none, w')

-- A message for `_decode_maybe_scoped`: `some` of the BlobRefs in it, or no BlobRef at all.
-- The fast decoder gives up at the first BlobRef, and the message is decoded again in a scope.
unfoldable pub decode_maybe_scoped :
    {B W : Type 0}
    → Blobs B W
    → List Bytes
    → Option (Scope B)
    → W
    → Result Error (List B) × Option (Scope B) × W
unfolding blob_decode_scope
decode_maybe_scoped blobs [] current w = (ok [], current, w)
decode_maybe_scoped blobs (raw ∷ rest) current w =
    blob_decode_scope (decode_refs blobs (raw ∷ rest)) current w
