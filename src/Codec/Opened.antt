-- ===== src/Codec/Opened.antt =====
-- python/tinyray/_msgpack.py, `blob_decode_scope`: the blobs that a scope of decoding opens. The native
-- module is watched (`logged`): each descriptor that it opens a blob for is written down.
use mathlib.Core.Path.{subst}
use tinyray.Common.{
  ℕ, suc, ◌+◌, ◌≤◌, List, [], ◌∷◌, Option, none, some, false, any, map, length, ◌≡◌, inl, inr, refl,
  arith, Bool-cases, sym, ap, ltb,
}
use tinyray.Common.Text.{text_eq}
use tinyray.Errors.{Result, ok, err, Result-cases}
use tinyray.Rpc.{Bytes, Error}
use tinyray.Serve.{lookup}
use tinyray.Codec.Scope.{
  Blobs, Scope, fresh, descriptor_size, max_descriptor, charge, remember, open_charged, open_cached,
  decode_ref, decode_refs, decode_all,
}
use tinyray.Codec.Budget.{price, charged, IsKeyed, IsBounded, scope-IsBounded}

-- the outcome of an opening, with what was opened so far
abbrev pub log_opened :
    {B W : Type 0} → Bytes → List Bytes → Result Error B × W → Result Error B × (W × List Bytes)
log_opened raw opened (ok blob, w) = (ok blob, (w, raw ∷ opened))
log_opened raw opened (err e, w) = (err e, (w, opened))

abbrev pub logged : {B W : Type 0} → Blobs B W → Blobs B (W × List Bytes)
logged blobs = record {
  max_refs = blobs.max_refs;
  max_mapped = blobs.max_mapped;
  loads = blobs.loads;
  from_descriptor = λ raw w. log_opened raw w.1 (blobs.from_descriptor raw w.0);
  clone = λ blob w. let (result, w') = blobs.clone blob w.0 in (result, (w', w.1));
}

-- each of the descriptors once, and within the limit of a descriptor
abbrev pub IsOnce : List Bytes → Type 0
IsOnce [] = Unit
IsOnce (raw ∷ opened) =
    (any (λ r. text_eq r raw) opened ≡ false) × (length raw ≤ max_descriptor) × IsOnce opened

module _ {B W : Type 0} (blobs : Blobs B W) where
  -- what the blobs of these descriptors cost
  abbrev pub cost : List Bytes → ℕ
  cost [] = 0
  cost (raw ∷ opened) = price (descriptor_size (blobs.loads raw)) + cost opened

  -- the cache has just the descriptors that were opened
  IsLogged : Scope B → W × List Bytes → Type 0
  IsLogged s w = map (λ p. p.0) s.cache ≡ w.1

  remember-IsLogged :
      (raw : Bytes) (s : Scope B) (w : W) (opened : List Bytes) (r : Result Error B × W)
      → IsLogged s (w, opened)
      → let after = remember (logged blobs) raw s (log_opened raw opened r) in
        IsLogged after.1 after.2
  unfolding remember IsLogged
  remember-IsLogged raw s w opened (ok blob, w') h = ap (λ l. raw ∷ l) h
  remember-IsLogged raw s w opened (err e, w') h = h

  open_charged-IsLogged :
      (m : Option ℕ) (raw : Bytes) (s : Scope B) (w : W × List Bytes)
      → IsLogged s w
      → let after = open_charged (logged blobs) m raw s w in IsLogged after.1 after.2
  unfolding open_charged IsLogged
  open_charged-IsLogged none raw s w h = h
  open_charged-IsLogged (some mapped) raw s w h =
      remember-IsLogged raw (record s { mapped_bytes = mapped }) w.0 w.1
        (blobs.from_descriptor raw w.0) h

  open_cached-IsLogged :
      (cached : Option B) (raw : Bytes) (s : Scope B) (w : W × List Bytes)
      → IsLogged s w
      → let after = open_cached (logged blobs) cached raw s w in IsLogged after.1 after.2
  unfolding open_cached IsLogged
  open_cached-IsLogged (some blob) raw s w h = h
  open_cached-IsLogged none raw s w h =
      open_charged-IsLogged
        (charge (logged blobs) (descriptor_size (blobs.loads raw)) s.mapped_bytes) raw s w h

  decode_ref-IsLogged :
      (raw : Bytes) (s : Scope B) (w : W × List Bytes)
      → IsLogged s w
      → let after = decode_ref (logged blobs) raw s w in IsLogged after.1 after.2
  unfolding decode_ref IsLogged
  decode_ref-IsLogged raw s w h = elim (Bool-cases (ltb max_descriptor (length raw))) [
    | inl long ↦ rw (long, decode_ref) h
    | inr short ↦ elim (Bool-cases (ltb blobs.max_refs (s.refs + 1))) [
      | inl over ↦ rw (short, over, decode_ref) h
      | inr within ↦
          rw (short, within, decode_ref)
            (open_cached-IsLogged (lookup raw s.cache) raw (record s { refs = s.refs + 1 }) w h)
    ]
  ]

  decode_refs-IsLogged :
      (message : List Bytes) (s : Scope B) (w : W × List Bytes)
      → IsLogged s w
      → let after = decode_refs (logged blobs) message s w in IsLogged after.1 after.2
  unfolding decode_refs
  decode_refs-IsLogged [] s w h = h
  decode_refs-IsLogged (raw ∷ rest) s w h =
      let (first, s', w') = decode_ref (logged blobs) raw s w in
      let once : IsLogged s' w' = decode_ref-IsLogged raw s w h in
      let (later, s'', w'') = decode_refs (logged blobs) rest s' w' in
      let both : IsLogged s'' w'' = decode_refs-IsLogged rest s' w' once in
      elim (Result-cases first) [
        | inr (e, p) ↦ rw (p, decode_refs) once
        | inl (blob, p) ↦ elim (Result-cases later) [
          | inr (e, q) ↦ rw (p, q, decode_refs) both
          | inl (found, q) ↦ rw (p, q, decode_refs) both
        ]
      ]

  decode_all-IsLogged :
      (messages : List (List Bytes)) (s : Scope B) (w : W × List Bytes)
      → IsLogged s w
      → let after = decode_all (logged blobs) messages s w in IsLogged after.0 after.1
  unfolding decode_all
  decode_all-IsLogged [] s w h = h
  decode_all-IsLogged (message ∷ rest) s w h =
      decode_all-IsLogged rest _ _ (decode_refs-IsLogged message s w h)

  cost-charged :
      (cache : List (Bytes × B)) → cost (map (λ p. p.0) cache) ≡ charged (logged blobs) cache
  unfolding charged
  cost-charged [] = refl
  cost-charged ((raw, blob) ∷ cache) =
      ap (λ n. price (descriptor_size (blobs.loads raw)) + n) (cost-charged cache)

  lookup-keys :
      (raw : Bytes) (cache : List (Bytes × B))
      → lookup raw cache ≡ none
      → any (λ r. text_eq r raw) (map (λ p. p.0) cache) ≡ false
  unfolding lookup
  lookup-keys raw [] h = refl
  lookup-keys raw ((key, blob) ∷ cache) h = ground (arith, lookup-keys raw cache)

  keyed-IsOnce :
      (cache : List (Bytes × B)) → IsKeyed (logged blobs) cache → IsOnce (map (λ p. p.0) cache)
  unfolding IsKeyed
  keyed-IsOnce [] keyed = tt
  keyed-IsOnce ((raw, blob) ∷ cache) (new, short, keyed) =
      (lookup-keys raw cache new, short, keyed-IsOnce cache keyed)

  length-keys : (cache : List (Bytes × B)) → length (map (λ p. p.0) cache) ≡ length cache
  length-keys [] = refl
  length-keys (x ∷ cache) = ap suc (length-keys cache)

  -- what a scope has opened, against its counters
  abbrev pub IsWithin : Scope B → List Bytes → Type 0
  IsWithin s opened =
      (length opened ≤ s.refs)
      × (length opened ≤ blobs.max_refs)
      × (cost opened ≤ s.mapped_bytes)
      × (s.mapped_bytes ≤ blobs.max_mapped)
      × IsOnce opened

  bounded-IsWithin :
      (s : Scope B) → IsBounded (logged blobs) s → IsWithin s (map (λ p. p.0) s.cache)
  unfolding IsBounded
  bounded-IsWithin s (a, b, c, d, keyed) = (
    subst (λ n. n ≤ s.refs) (sym (length-keys s.cache)) a,
    subst (λ n. n ≤ blobs.max_refs) (sym (length-keys s.cache)) b,
    subst (λ n. n ≤ s.mapped_bytes) (sym (cost-charged s.cache)) c,
    d,
    keyed-IsOnce s.cache keyed,
  )

  -- However many messages are decoded within one scope, and whatever of them raises: the native module
  -- has opened at most one blob for each BlobRef that the scope met and at most `max_refs` blobs,
  -- never two for the same descriptor and none for one of more than 4096 bytes; what they cost is
  -- within `mapped_bytes`, and that is within `max_mapped`.
  pub scope_bounds :
      (messages : List (List Bytes)) (w : W)
      → let (s, (_, opened)) = decode_all (logged blobs) messages fresh (w, []) in IsWithin s opened
  unfolding IsLogged
  scope_bounds messages w =
      let after = decode_all (logged blobs) messages fresh (w, []) in
      subst (IsWithin after.0) (decode_all-IsLogged messages fresh (w, []) refl)
        (bounded-IsWithin after.0 (scope-IsBounded (logged blobs) messages (w, [])))
