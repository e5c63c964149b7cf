-- ===== src/Encode.antt =====
-- python/tinyray/_msgpack.py, the encoding side: the values that are encoded, the thread's record of
-- the BlobRefs that an encoding meets (`_codec_local.encode`) and `_enc_hook`. msgspec's encoder is a
-- parameter (`Encoder`).
pub mod Actions
pub mod Prepare
pub mod Dumps
pub mod Limits
pub mod Stops
pub mod Trails
pub mod Ends
pub mod Cycles
pub mod Integers
pub mod Decode
pub mod Words
pub mod Fast
pub mod Keeping
pub mod Owners
use tinyray.Common.{
  ℕ, List, [], ◌∷◌, ◌++◌, Option, none, some, Bool, true, false, any, get_elem?, map, ◌==◌,
  if◌then◌else◌,
}
use tinyray.Common.Int.{ℤ}
use tinyray.Common.Text.{Text}
use tinyray.Errors.{Result, ok, err, blob_error, type_error}
use tinyray.Rpc.{Bytes, Error}
use tinyray.Codec.{Object, blob_ref, pydantic, container, plain, Heap}

pub data Kind : Type 0 where
  list tuple set frozenset : Kind

-- A Python object, as far as encoding looks into it. A reference is the number of an object. An
-- instance of a subclass of a container (`subclass`) is left to msgspec.
pub data PyObject : Type 0 where
  int : ℤ → PyObject
  sequence : Kind → List ℕ → PyObject
  dict : List (ℕ × ℕ) → PyObject
  dataclass : List (Text × ℕ) → PyObject
  subclass : List ℕ → PyObject
  blob : Bool → Bytes → PyObject
  model : PyObject
  other : PyObject

abbrev pub keys_of : List (ℕ × ℕ) → List ℕ
keys_of pairs = map (λ p. p.0) pairs

abbrev pub values_of {ℓ} : {A : Type ℓ} → List (A × ℕ) → List ℕ
values_of pairs = map (λ p. p.1) pairs

-- what `_reject_pydantic_values` sees of an object
abbrev pub shape : PyObject → Object
shape (int z) = plain
shape (sequence kind items) = container items
shape (dict pairs) = container (keys_of pairs ++ values_of pairs)
shape (dataclass fields) = container (values_of fields)
shape (subclass items) = plain
shape (blob closed descriptor) = blob_ref closed
shape model = pydantic
shape other = plain

unfoldable pub item_at : List PyObject → ℕ → PyObject
item_at heap k = elim (get_elem? heap k) [ some o ↦ o | none ↦ other ]

abbrev pub shapes : List PyObject → Heap
shapes heap = map shape heap

-- What is given to the encoder: an object as it is, an extension, or a new container.
mutual
  pub data Prepared : Type 0 where
    same : ℕ → Prepared
    ext : ℕ → Bytes → Prepared
    seq : Kind → Items → Prepared
    assoc : Pairs → Prepared
    struct : Fields → Prepared

  pub data Items : Type 0 where
    nil : Items
    item : Prepared → Items → Items

  pub data Pairs : Type 0 where
    no_pairs : Pairs
    pair : Prepared → Prepared → Pairs → Pairs

  pub data Fields : Type 0 where
    no_fields : Fields
    field : Text → Prepared → Fields → Fields

abbrev pub items_of : List Prepared → Items
items_of [] = nil
items_of (p ∷ ps) = item p (items_of ps)

abbrev pub pairs_of : List (Prepared × Prepared) → Pairs
pairs_of [] = no_pairs
pairs_of ((k, v) ∷ ps) = pair k v (pairs_of ps)

abbrev pub fields_of : List (Text × Prepared) → Fields
fields_of [] = no_fields
fields_of ((name, v) ∷ ps) = field name v (fields_of ps)

-- The two ways in which an object is prepared.
pub data Call : Type 0 where
  bigints hashable : Call

-- msgspec: what `Encoder.encode` hands to its `enc_hook`, in order, and how it ends on the hook's
-- answers; `msgspec.msgpack.encode` of a list of bytes and of pairs of bytes; and whether the `hash`
-- of a value passes (where it does not, it raises `TypeError`). Of the interpreter: its limit of digits
-- for `str` of an integer, and whether its recursion limit is exceeded by a call for an object within
-- the calls for others.
pub record Encoder : Type 0 where
  pub encode : Prepared → List ℕ × (List Prepared → Result Error Bytes)
  pub pack_items : List Bytes → Result Error Bytes
  pub pack_pairs : List (Bytes × Bytes) → Result Error Bytes
  pub hashes : Prepared → Bool
  pub max_digits : ℕ
  pub too_deep : Call → List ℕ → ℕ → Bool

-- Why a step of the encoding does not return: an exception, the module's own `_BlobScopeRequired`,
-- or the model's fuel.
pub data Stop : Type 0 where
  raises : Error → Stop
  scope_required : Stop
  out_of_fuel : Stop

-- _codec_local.encode, where it is set: the ids in `seen` are those in `owners`
pub record EncodeScope : Type 0 where
  pub owners : List ℕ
  pub seen : List ℕ

abbrev pub Local : Type 0
Local = Option EncodeScope

abbrev pub no_owners : EncodeScope
no_owners = record { owners = []; seen = [] }

unfoldable pub note : ℕ → EncodeScope → EncodeScope
note k s =
    if any (λ x. x == k) s.seen
    then s
    else record { owners = s.owners ++ k ∷ []; seen = k ∷ s.seen }

abbrev pub note_local : ℕ → Local → Local
note_local k none = none
note_local k (some s) = some (note k s)
