-- ===== src/Codec/Budget.antt =====
-- The budget of a scope of decoding: its counters against the blobs that it keeps.
use tinyray.Common.{
  ℕ, ◌+◌, ◌≤◌, ◌<◌, List, [], ◌∷◌, Option, none, some, false, length, ltb, ◌≡◌, inl, inr, refl,
  arith, Bool-cases,
}
use tinyray.Common.Text.{text_eq_refl}
use tinyray.Errors.{Result, ok, err, Result-cases}
use tinyray.Rpc.{Bytes, Error}
use tinyray.Serve.{lookup}
use tinyray.Codec.Scope.{
  Blobs, Scope, fresh, descriptor_size, max_descriptor, header_bytes, charge, remember,
  open_charged, open_cached, decode_ref, decode_refs, decode_all,
}

-- the bytes that a descriptor costs
unfoldable pub price : Option ℕ → ℕ
price none = 0
price (some size) = header_bytes + size

module _ {B W : Type 0} (blobs : Blobs B W) where
  -- what the blobs of a cache cost
  unfoldable pub charged : List (Bytes × B) → ℕ
  unfolding price
  charged [] = 0
  charged ((raw, blob) ∷ cache) = price (descriptor_size (blobs.loads raw)) + charged cache

  -- every descriptor is in the cache at most once, and none is longer than the limit
  unfoldable pub IsKeyed : List (Bytes × B) → Type 0
  IsKeyed [] = Unit
  IsKeyed ((raw, blob) ∷ cache) =
      (lookup raw cache ≡ none) × (length raw ≤ max_descriptor) × IsKeyed cache

  unfoldable pub IsBounded : Scope B → Type 0
  unfolding charged IsKeyed
  IsBounded s =
      (length s.cache ≤ s.refs)
      × (length s.cache ≤ blobs.max_refs)
      × (charged s.cache ≤ s.mapped_bytes)
      × (s.mapped_bytes ≤ blobs.max_mapped)
      × IsKeyed s.cache

  remember-IsBounded :
      (raw : Bytes) (s : Scope B) (mapped : ℕ) (opened : Result Error B × W)
      → IsBounded s
      → lookup raw s.cache ≡ none
      → length raw ≤ max_descriptor
      → length s.cache < s.refs
      → s.refs ≤ blobs.max_refs
      → s.mapped_bytes + price (descriptor_size (blobs.loads raw)) ≤ mapped
      → mapped ≤ blobs.max_mapped
      → IsBounded (remember blobs raw (record s { mapped_bytes = mapped }) opened).1
  unfolding remember IsBounded charged IsKeyed
  remember-IsBounded raw s mapped (ok blob, w) (a, b, c, d, keyed) new short room some_left paid
        within =
      (omega arith, omega arith, omega arith, within, (new, short, keyed))
  remember-IsBounded raw s mapped (err e, w) (a, b, c, d, keyed) new short room some_left paid
        within =
      (a, b, omega arith, within, keyed)

  charge-pays :
      (size : Option ℕ) (before mapped : ℕ)
      → charge blobs size before ≡ some mapped
      → before ≤ blobs.max_mapped
      → (before + price size ≤ mapped) × (mapped ≤ blobs.max_mapped)
  unfolding charge price
  charge-pays none before mapped h within = ground arith
  charge-pays (some size) before mapped h within = ground arith

  open_charged-IsBounded :
      (m : Option ℕ) (raw : Bytes) (s : Scope B) (w : W)
      → charge blobs (descriptor_size (blobs.loads raw)) s.mapped_bytes ≡ m
      → IsBounded s
      → lookup raw s.cache ≡ none
      → length raw ≤ max_descriptor
      → length s.cache < s.refs
      → s.refs ≤ blobs.max_refs
      → IsBounded (open_charged blobs m raw s w).1
  unfolding open_charged IsBounded
  open_charged-IsBounded none raw s w e bounded new short room some_left = bounded
  open_charged-IsBounded (some mapped) raw s w e bounded new short room some_left =
      let (paid, within) =
        charge-pays (descriptor_size (blobs.loads raw)) s.mapped_bytes mapped e bounded.3 in
      remember-IsBounded raw s mapped (blobs.from_descriptor raw w) bounded new short room some_left
        paid within

  open_cached-IsBounded :
      (cached : Option B) (raw : Bytes) (s : Scope B) (w : W)
      → lookup raw s.cache ≡ cached
      → IsBounded s
      → length raw ≤ max_descriptor
      → length s.cache < s.refs
      → s.refs ≤ blobs.max_refs
      → IsBounded (open_cached blobs cached raw s w).1
  unfolding open_cached
  open_cached-IsBounded (some blob) raw s w e bounded short room some_left = bounded
  open_cached-IsBounded none raw s w e bounded short room some_left =
      open_charged-IsBounded (charge blobs (descriptor_size (blobs.loads raw)) s.mapped_bytes) raw s
        w refl bounded e short room some_left

  decode_ref-IsBounded :
      (raw : Bytes) (s : Scope B) (w : W) → IsBounded s → IsBounded (decode_ref blobs raw s w).1
  unfolding decode_ref IsBounded
  decode_ref-IsBounded raw s w bounded =
      let counted : Scope B = record s { refs = s.refs + 1 } in
      let (a, b, c, d, keyed) = bounded in
      let counts : IsBounded counted = (omega arith, b, c, d, keyed) in
      elim (Bool-cases (ltb max_descriptor (length raw))) [
        | inl long ↦ rw (long, decode_ref) bounded
        | inr short ↦ elim (Bool-cases (ltb blobs.max_refs (s.refs + 1))) [
          | inl over ↦ rw (short, over, decode_ref) counts
          | inr within ↦
              rw (short, within, decode_ref)
                (open_cached-IsBounded (lookup raw s.cache) raw counted w refl counts (ground arith)
                  (omega arith) (ground arith))
        ]
      ]

  decode_refs-IsBounded :
      (message : List Bytes) (s : Scope B) (w : W)
      → IsBounded s
      → IsBounded (decode_refs blobs message s w).1
  unfolding decode_refs
  decode_refs-IsBounded [] s w bounded = bounded
  decode_refs-IsBounded (raw ∷ rest) s w bounded =
      let (first, s', w') = decode_ref blobs raw s w in
      let once : IsBounded s' = decode_ref-IsBounded raw s w bounded in
      let (later, s'', w'') = decode_refs blobs rest s' w' in
      let both : IsBounded s'' = decode_refs-IsBounded rest s' w' once in
      elim (Result-cases first) [
        | inr (e, p) ↦ rw (p, decode_refs) once
        | inl (blob, p) ↦ elim (Result-cases later) [
          | inr (e, q) ↦ rw (p, q, decode_refs) both
          | inl (found, q) ↦ rw (p, q, decode_refs) both
        ]
      ]

  decode_all-IsBounded :
      (messages : List (List Bytes)) (s : Scope B) (w : W)
      → IsBounded s
      → IsBounded (decode_all blobs messages s w).0
  unfolding decode_all
  decode_all-IsBounded [] s w bounded = bounded
  decode_all-IsBounded (message ∷ rest) s w bounded =
      decode_all-IsBounded rest _ _ (decode_refs-IsBounded message s w bounded)

  -- whatever of the messages of a scope raises, its counters stay within the limits
  pub scope-IsBounded :
      (messages : List (List Bytes)) (w : W) → IsBounded (decode_all blobs messages fresh w).0
  unfolding IsBounded charged IsKeyed
  scope-IsBounded messages w =
      decode_all-IsBounded messages fresh w (omega arith, omega arith, omega arith, omega arith, tt)

  -- what a cache holds behind a BlobRef that was decoded
  IsCached : Bytes → Scope B → Type 0
  IsCached raw s = (known : B) × (lookup raw s.cache ≡ some known)

  remember-IsCached :
      (raw : Bytes) (s : Scope B) (opened : Result Error B × W) (blob : B)
      → (remember blobs raw s opened).0 ≡ ok blob
      → IsCached raw (remember blobs raw s opened).1
  unfolding remember IsCached lookup
  remember-IsCached raw s (ok opened, w) blob h = (opened, rw (text_eq_refl raw) refl)
  remember-IsCached raw s (err e, w) blob h = absurd (ground arith)

  open_charged-IsCached :
      (m : Option ℕ) (raw : Bytes) (s : Scope B) (w : W) (blob : B)
      → (open_charged blobs m raw s w).0 ≡ ok blob
      → IsCached raw (open_charged blobs m raw s w).1
  unfolding open_charged
  open_charged-IsCached none raw s w blob h = absurd (ground arith)
  open_charged-IsCached (some mapped) raw s w blob h =
      remember-IsCached raw (record s { mapped_bytes = mapped }) (blobs.from_descriptor raw w) blob
        h

  open_cached-IsCached :
      (cached : Option B) (raw : Bytes) (s : Scope B) (w : W) (blob : B)
      → lookup raw s.cache ≡ cached
      → (open_cached blobs cached raw s w).0 ≡ ok blob
      → IsCached raw (open_cached blobs cached raw s w).1
  unfolding open_cached IsCached
  open_cached-IsCached (some known) raw s w blob e h = (known, e)
  open_cached-IsCached none raw s w blob e h =
      open_charged-IsCached (charge blobs (descriptor_size (blobs.loads raw)) s.mapped_bytes) raw s
        w blob h

  decode_ref-IsCached :
      (raw : Bytes) (s : Scope B) (w : W) (blob : B)
      → (decode_ref blobs raw s w).0 ≡ ok blob
      → IsCached raw (decode_ref blobs raw s w).1 × (length raw ≤ max_descriptor)
  unfolding decode_ref
  decode_ref-IsCached raw s w blob h = elim (Bool-cases (ltb max_descriptor (length raw))) [
    | inl long ↦ absurd (ground arith)
    | inr short ↦ elim (Bool-cases (ltb blobs.max_refs (s.refs + 1))) [
      | inl over ↦ absurd (ground arith)
      | inr within ↦ (
        rw (short, within, decode_ref)
            (open_cached-IsCached (lookup raw s.cache) raw (record s { refs = s.refs + 1 }) w blob
              refl (rw (short, within, decode_ref) at h)),
        ground arith,
      )
    ]
  ]

  cached-clones :
      (raw : Bytes) (s : Scope B) (known : B) (later : W)
      → length raw ≤ max_descriptor
      → s.refs < blobs.max_refs
      → lookup raw s.cache ≡ some known
      → decode_ref blobs raw s later
        ≡ ((blobs.clone known later).0, record s { refs = s.refs + 1 }, (blobs.clone known later).1)
  unfolding decode_ref open_cached
  cached-clones raw s known later short room found =
      let fits : ltb max_descriptor (length raw) ≡ false = ground arith in
      let within : ltb blobs.max_refs (s.refs + 1) ≡ false = ground arith in
      rw (fits, within, found, decode_ref) refl

  -- A BlobRef that the scope has decoded is cloned the next time that its descriptor comes: nothing
  -- is opened and nothing charged, while the count of BlobRefs is below the limit.
  pub decode_ref_again :
      (raw : Bytes) (s : Scope B) (w later : W) (blob : B)
      → (decode_ref blobs raw s w).0 ≡ ok blob
      → let s' = (decode_ref blobs raw s w).1 in
        s'.refs < blobs.max_refs
        → (known : B) × (lookup raw s'.cache ≡ some known)
          × (decode_ref blobs raw s' later ≡ (
            (blobs.clone known later).0,
            record s' { refs = s'.refs + 1 },
            (blobs.clone known later).1,
          ))
  unfolding IsCached
  decode_ref_again raw s w later blob h room =
      let ((known, found), short) = decode_ref-IsCached raw s w blob h in
      (known, found, cached-clones raw _ known later short room found)
