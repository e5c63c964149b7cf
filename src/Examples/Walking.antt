-- ===== src/Examples/Walking.antt =====
-- Values on their way out, and messages with BlobRefs on their way in.
use tinyray.Common.{ℕ, suc, List, [], ◌∷◌, true, false, ◌≡◌, ◌≢◌, ◌⊎◌, ◌↔◌, refl}
use tinyray.Common.Int.{pos}
use tinyray.Errors.{ok, blob_error}
use tinyray.Rpc.{Bytes}
use tinyray.Codec.{
  Heap, blob_ref, pydantic, container, plain, object_at, Walked, done, raised, out_of_fuel, walk,
  entries, collect, blob_refs,
}
use tinyray.Codec.Reachable.{In, Reach}
use tinyray.Codec.Blobs.{blob_refs_lem}
use tinyray.Codec.Scope.{Blobs, fresh, with_size, integer, decode_all}
use tinyray.Codec.Opened.{logged, IsWithin, scope_bounds}

-- a list that holds itself, two BlobRefs and a tuple with one of them again
abbrev heap : Heap
heap =
    container (0 ∷ 1 ∷ 3 ∷ [])
    ∷ blob_ref false
    ∷ blob_ref false
    ∷ container (1 ∷ 2 ∷ 4 ∷ [])
    ∷ plain
    ∷ pydantic
    ∷ []

finds : blob_refs heap 0 ≡ done (2 ∷ 1 ∷ 1 ∷ [])
unfolding blob_refs walk entries collect object_at tinyray.Codec.enter
finds = refl

blob_refs_lem_example :
    ((found : List ℕ) × (blob_refs heap 0 ≡ done found)
      × ((v : ℕ) → In v found ↔ (Reach heap 0 v × (object_at heap v ≡ blob_ref false)))
      × ((v : ℕ) → Reach heap 0 v → object_at heap v ≢ blob_ref true))
    ⊎ ((blob_refs heap 0 ≡ raised blob_error)
        × (v : ℕ) × Reach heap 0 v
        × (object_at heap v ≡ blob_ref true))
blob_refs_lem_example = blob_refs_lem heap 0

-- Blobs by the number of their descriptor, at most three in a scope, of 100 bytes together; the
-- state counts what was opened.
abbrev size_in : Bytes → ℕ
size_in [] = 0
size_in (n ∷ raw) = n

abbrev blobs : Blobs ℕ ℕ
blobs = record {
  max_refs = 3;
  max_mapped = 100;
  loads = λ raw. with_size (integer (pos (size_in raw)));
  from_descriptor = λ raw opened. (ok (size_in raw), suc opened);
  clone = λ blob opened. (ok blob, opened);
}

-- the third message exceeds the bytes, the fourth the count
abbrev messages : List (List Bytes)
messages = ((5 ∷ []) ∷ []) ∷ ((5 ∷ []) ∷ []) ∷ ((90 ∷ []) ∷ (6 ∷ []) ∷ []) ∷ ((6 ∷ []) ∷ []) ∷ []

scope_bounds_example :
    let (s, (_, opened)) = decode_all (logged blobs) messages fresh (0, []) in
    IsWithin blobs s opened
scope_bounds_example = scope_bounds blobs messages 0
