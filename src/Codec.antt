-- ===== src/Codec.antt =====
-- python/tinyray/_msgpack.py: the walks over an outgoing value (`_reject_pydantic_values`,
-- `blob_refs`) and the budget of a decoding scope. An object holds what its fields are set to: a
-- dataclass with a field that is not set, where `getattr` raises `AttributeError`, is left out. The
-- encoder and the decoder themselves are msgspec's, and stay a parameter where they are used.
pub mod Walk
pub mod Scope
pub mod Budget
pub mod Opened
pub mod Reachable
pub mod Outgoing
pub mod Blobs
use tinyray.Common.{
  ℕ, zero, suc, List, [], ◌∷◌, Bool, true, false, any, ◌==◌, get_elem?, length, ◌+◌, ◌++◌,
  if◌then◌else◌, Option, none, some,
}
use tinyray.Errors.{Result, ok, err, blob_error, type_error}
use tinyray.Rpc.{Error}

-- A Python object, as far as a walk looks into it: a BlobRef, a Pydantic model, a container or
-- dataclass with the objects in it, in the order in which they are pushed, or anything else. An
-- instance of a subclass of a container is a container to `blob_refs`, which asks `isinstance`, and
-- anything else to `_reject_pydantic_values`, which asks for the exact type.
pub data Object : Type 0 where
  blob_ref : Bool → Object
  pydantic : Object
  container : List ℕ → Object
  plain : Object

-- The objects by their `id`; a value is the number of an object.
abbrev pub Heap : Type 0
Heap = List Object

unfoldable pub object_at : Heap → ℕ → Object
object_at heap k = elim (get_elem? heap k) [ some o ↦ o | none ↦ plain ]

-- How a walk ends.
pub data Walked (A : Type 0) : Type 0 where
  done : A → Walked A
  raised : Error → Walked A
  out_of_fuel : Walked A

-- pending.extend(children), where the list's end is the stack's top
unfoldable pub push : List ℕ → List ℕ → List ℕ
push [] pending = pending
push (k ∷ children) pending = push children (k ∷ pending)

-- What is pending and seen behind an object that was popped: a container is entered once.
unfoldable pub enter : Object → ℕ → List ℕ → List ℕ → List ℕ × List ℕ
unfolding push
enter (container children) k pending seen =
    if any (λ s. s == k) seen then (pending, seen) else (push children pending, k ∷ seen)
enter (blob_ref closed) k pending seen = (pending, seen)
enter pydantic k pending seen = (pending, seen)
enter plain k pending seen = (pending, seen)

module _ {A : Type 0} (heap : Heap) (act : Object → ℕ → A → Result Error A) where
  -- the loop of a walk, on fuel: `act` is what it does with an object that it has popped
  unfoldable pub walk : ℕ → List ℕ → List ℕ → A → Walked A
  walk zero pending seen acc = out_of_fuel
  walk (suc n) [] seen acc = done acc
  walk (suc n) (k ∷ pending) seen acc =
      let o = object_at heap k in
      let entered = enter o k pending seen in
      elim (act o k acc) [ err e ↦ raised e | ok acc' ↦ walk n entered.0 entered.1 acc' ]

abbrev pub degree : Object → ℕ
degree (container children) = length children
degree (blob_ref closed) = 0
degree pydantic = 0
degree plain = 0

-- all entries of all containers
unfoldable pub entries : Heap → ℕ
entries [] = 0
entries (o ∷ heap) = degree o + entries heap

-- _reject_pydantic_values, where Pydantic has been imported
unfoldable pub no_pydantic : Object → ℕ → Unit {0} → Result Error (Unit {0})
no_pydantic (blob_ref closed) k acc = ok acc
no_pydantic pydantic k acc = err type_error
no_pydantic (container children) k acc = ok acc
no_pydantic plain k acc = ok acc

unfoldable pub reject_pydantic_values : Bool → Heap → ℕ → Walked (Unit {0})
reject_pydantic_values false heap value = done tt
reject_pydantic_values true heap value = walk heap no_pydantic (2 + entries heap) (value ∷ []) [] tt

-- blob_refs
unfoldable pub collect : Object → ℕ → List ℕ → Result Error (List ℕ)
collect (blob_ref true) k found = err blob_error
collect (blob_ref false) k found = ok (found ++ k ∷ [])
collect pydantic k found = ok found
collect (container children) k found = ok found
collect plain k found = ok found

unfoldable pub blob_refs : Heap → ℕ → Walked (List ℕ)
blob_refs heap value = walk heap collect (2 + entries heap) (value ∷ []) [] []
