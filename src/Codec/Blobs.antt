-- ===== src/Codec/Blobs.antt =====
-- What `blob_refs` finds.
use mathlib.Core.Path.{subst}
use tinyray.Common.{
  ℕ, ◌+◌, List, [], ◌∷◌, ◌++◌, true, false, ◌≡◌, ◌≢◌, ◌↔◌, ◌⊎◌, inl, inr, sym, ap, ◌∙◌, arith,
}
use tinyray.Errors.{ok, err, blob_error}
use tinyray.Rpc.{Error}
use tinyray.Codec.{
  Object, blob_ref, pydantic, container, plain, Heap, object_at, done, raised, entries, collect,
  blob_refs,
}
use tinyray.Codec.Walk.{walk_terminates}
use tinyray.Codec.Reachable.{In, Reach, here, walk_notes}
use tinyray.Codec.Outgoing.{Means, Walked-cases, walk-Means, walk_raises}

-- what has been found, and that it is to be found
IsFound : Heap → ℕ → List ℕ → Type 0
IsFound heap value found =
    (v : ℕ) → In v found → Reach heap value v × (object_at heap v ≡ blob_ref false)

In-append : (v k : ℕ) (found : List ℕ) → In v (found ++ k ∷ []) ↔ (In v found ⊎ (v ≡ k))
In-append v k [] = ground arith
In-append v k (x ∷ found) = ground (arith, In-append v k found)

IsNoted : Heap → ℕ → List ℕ → Type 0
IsNoted heap v found =
    (object_at heap v ≢ blob_ref true) × (object_at heap v ≡ blob_ref false → In v found)

collect-notes :
    (o : Object) (k : ℕ) (found found' : List ℕ)
    → collect o k found ≡ ok found'
    → (o ≢ blob_ref true) × (o ≡ blob_ref false → In k found')
unfolding collect
collect-notes (blob_ref true) k found found' h = absurd (ground arith)
collect-notes (blob_ref false) k found found' h = ground (arith, In-append k k found)
collect-notes pydantic k found found' h = ground arith
collect-notes (container children) k found found' h = ground arith
collect-notes plain k found found' h = ground arith

collect-keeps :
    (o : Object) (k v : ℕ) (found found' : List ℕ)
    → collect o k found ≡ ok found'
    → In v found
    → In v found'
unfolding collect
collect-keeps (blob_ref true) k v found found' h i = absurd (ground arith)
collect-keeps (blob_ref false) k v found found' h i = ground (arith, In-append v k found)
collect-keeps pydantic k v found found' h i = ground arith
collect-keeps (container children) k v found found' h i = ground arith
collect-keeps plain k v found found' h i = ground arith

collect-new :
    (o : Object) (k v : ℕ) (found found' : List ℕ)
    → collect o k found ≡ ok found'
    → In v found'
    → In v found ⊎ ((v ≡ k) × (o ≡ blob_ref false))
unfolding collect
collect-new (blob_ref true) k v found found' h i = absurd (ground arith)
collect-new (blob_ref false) k v found found' h i = ground (arith, In-append v k found)
collect-new pydantic k v found found' h i = ground arith
collect-new (container children) k v found found' h i = ground arith
collect-new plain k v found found' h i = ground arith

collect-raises :
    (o : Object) (k : ℕ) (found : List ℕ) (e : Error)
    → collect o k found ≡ err e
    → (o ≡ blob_ref true) × (e ≡ blob_error)
unfolding collect
collect-raises (blob_ref true) k found e h = ground arith
collect-raises (blob_ref false) k found e h = absurd (ground arith)
collect-raises pydantic k found e h = absurd (ground arith)
collect-raises (container children) k found e h = absurd (ground arith)
collect-raises plain k found e h = absurd (ground arith)

collect-finds :
    (heap : Heap) (value k : ℕ) (found found' : List ℕ)
    → Reach heap value k
    → collect (object_at heap k) k found ≡ ok found'
    → IsFound heap value found
    → IsFound heap value found'
unfolding IsFound
collect-finds heap value k found found' reach h before v i =
    elim (collect-new (object_at heap k) k v found found' h i) [
      | inl j ↦ before v j
      | inr (same, at) ↦
          subst (λ x. Reach heap value x × (object_at heap x ≡ blob_ref false)) (sym same)
            (reach, at)
    ]

blobs-IsFound :
    (heap : Heap) (value : ℕ) (found : List ℕ)
    → blob_refs heap value ≡ done found
    → IsFound heap value found
unfolding blob_refs IsFound
blobs-IsFound heap value found h =
    subst (Means heap collect value (IsFound heap value) (collect-finds heap value)) h (
      walk-Means heap collect value (IsFound heap value) (collect-finds heap value)
        (2 + entries heap) (value ∷ []) [] []
        (λ v i. elim i [ inl e ↦ subst (Reach heap value) (sym e) here | inr j ↦ absurd j ])
        (λ v i. absurd i))

blobs-IsNoted :
    (heap : Heap) (value v : ℕ) (found : List ℕ)
    → blob_refs heap value ≡ done found
    → Reach heap value v
    → IsNoted heap v found
unfolding blob_refs IsNoted
blobs-IsNoted heap value v found h reach =
    walk_notes heap collect (IsNoted heap)
      (λ k acc acc' passes. collect-notes (object_at heap k) k acc acc' passes)
      (λ k u acc acc' passes noted.
        (noted.0, λ at. collect-keeps (object_at heap k) k u acc acc' passes (noted.1 at)))
      (2 + entries heap) value v [] found h reach

blob_refs-rejected :
    (heap : Heap) (value : ℕ) (x : Error)
    → blob_refs heap value ≡ raised x
    → (blob_refs heap value ≡ raised blob_error)
      × (v : ℕ) × Reach heap value v
      × (object_at heap v ≡ blob_ref true)
unfolding blob_refs
blob_refs-rejected heap value x h =
    let (v, found, reach, raises) = walk_raises heap collect value (2 + entries heap) [] x h in
    let (closed, same) = collect-raises (object_at heap v) v found x raises in
    (h ∙ ap raised same, v, reach, closed)

-- `blob_refs` always ends. It returns the open BlobRefs that the value refers to, directly or through
-- containers, all of them and nothing else, and then no closed one is among what the value refers
-- to; or it raises `BlobError`, and then the value refers to a closed BlobRef.
pub blob_refs_lem :
    (heap : Heap) (value : ℕ)
    → ((found : List ℕ) × (blob_refs heap value ≡ done found)
        × ((v : ℕ) → In v found ↔ (Reach heap value v × (object_at heap v ≡ blob_ref false)))
        × ((v : ℕ) → Reach heap value v → object_at heap v ≢ blob_ref true))
      ⊎ ((blob_refs heap value ≡ raised blob_error)
          × (v : ℕ) × Reach heap value v
          × (object_at heap v ≡ blob_ref true))
unfolding blob_refs IsFound IsNoted
blob_refs_lem heap value =
    elim (Walked-cases (blob_refs heap value) (walk_terminates heap collect value [])) [
      | inl (found, e) ↦ inl (
        found,
        e,
        (λ v. (
          blobs-IsFound heap value found e v,
          (λ wanted. (blobs-IsNoted heap value v found e wanted.0).1 wanted.1),
        )),
        (λ v reach. (blobs-IsNoted heap value v found e reach).0),
      )
      | inr (x, e) ↦ inr (blob_refs-rejected heap value x e)
    ]
