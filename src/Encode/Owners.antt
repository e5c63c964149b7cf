-- ===== src/Encode/Owners.antt =====
-- The BlobRefs that an encoding returns with its bytes.
use mathlib.Core.Path.{subst}
use tinyray.Common.{
  ℕ, List, [], ◌∷◌, none, some, Bool, true, false, ◌≡◌, ◌⊎◌, inl, inr, refl, sym, arith, All, ap,
  ◌∙◌, Bool-cases,
}
use tinyray.Common.Distinct.{is_in, append-is_in, IsDistinct}
use tinyray.Errors.{Result, ok, err, Result-cases, overflow_error}
use tinyray.Rpc.{Bytes, Error}
use tinyray.Encode.{
  bigints, PyObject, blob, item_at, Prepared, same, Encoder, Stop, raises, Local, EncodeScope,
  no_owners, note,
}
use tinyray.Encode.Actions.{Act, lift, each, Gives, bind-split, bind-run, bind-stop}
use tinyray.Encode.Prepare.{enc_hook, note_owner, run_encoder, encode, prepare}
use tinyray.Encode.Dumps.{
  on_overflow, owners_of, with_owners, in_scope, depth_bound, encode_bigints,
  encode_with_blob_scope, encode_prepared,
}
use tinyray.Encode.Fast.{encode_prepared_same}
use tinyray.Encode.Keeping.{IsOpen, IsTracked, IsSound, hook-Keeps, encode-Keeps, prepare-Keeps}

-- what a record holds, and whether it goes on to hold it
abbrev pub Holds : Local → ℕ → Type 0
Holds s k = is_in k (owners_of s) ≡ true

module _ (heap : List PyObject) where
  note-Holds :
      (j k : ℕ) (s : EncodeScope)
      → IsTracked heap s
      → Holds (some (note k s)) k × (Holds (some s) j → Holds (some (note k s)) j)
  unfolding note owners_of IsTracked
  note-Holds j k s (distinct, all_open, same_set) = elim (Bool-cases (is_in k s.seen)) [
    | inl b ↦ rw (b, note) (sym (same_set k) ∙ b, λ h. h)
    | inr b ↦
        rw (b, note)
          (ground (arith, append-is_in k k s.owners), ground (arith, append-is_in j k s.owners))
  ]

  -- what a step that returned did: it noted the objects, and forgot none
  Noted : List ℕ → Local → Local → Type 0
  Noted offered before after =
      All (Holds after) offered × ((j : ℕ) → Holds before j → Holds after j)

  note_owner-Noted :
      (k : ℕ) (closed : Bool) (descriptor : Bytes) (s : Local) (a : Prepared)
      → IsSound heap s
      → (note_owner k closed descriptor s).0 ≡ ok a
      → Noted (k ∷ []) s (note_owner k closed descriptor s).1
  unfolding note_owner IsSound Noted
  note_owner-Noted k true descriptor s a sound h = absurd (ground arith)
  note_owner-Noted k false descriptor none a sound h = absurd sound
  note_owner-Noted k false descriptor (some s) a sound h =
      (((note-Holds k k s sound).0, tt), λ j. (note-Holds j k s sound).1)

  hook-Noted :
      (k : ℕ) (s : Local) (a : Prepared) (o : PyObject)
      → item_at heap k ≡ o
      → IsSound heap s
      → (enc_hook heap k s).0 ≡ ok a
      → Noted (k ∷ []) s (enc_hook heap k s).1
  unfolding enc_hook
  hook-Noted k s a (blob closed descriptor) at sound h =
      rw (at, enc_hook) (note_owner-Noted k closed descriptor s a sound (rw (at, enc_hook) at h))
  hook-Noted k s a o at sound h = absurd (ground (arith, rw (at, enc_hook) at h))

  each-Noted :
      (offered : List ℕ) (s : Local) (answers : List Prepared)
      → IsSound heap s
      → (each (enc_hook heap) offered s).0 ≡ ok answers
      → Noted offered s (each (enc_hook heap) offered s).1
  unfolding each Noted
  each-Noted [] s answers sound h = (tt, λ j i. i)
  each-Noted (k ∷ offered) s answers sound h =
      let (a, first, e) = bind-split (enc_hook heap k) _ s answers h in
      let middle = (enc_hook heap k s).1 in
      let (rest, others, e') =
        bind-split (each (enc_hook heap) offered) _ middle answers
          (subst (λ r. r.0 ≡ ok answers) e h) in
      let ((mine, _), kept) = hook-Noted k s a (item_at heap k) refl sound first in
      let (noted, keeps) = each-Noted offered middle rest (hook-Keeps heap k s sound) others in
      subst (λ r. Noted (k ∷ offered) s r.1) (sym (e ∙ e'))
        ((keeps k mine, noted), λ j i. keeps j (kept j i))

  encode-Noted :
      (E : Encoder) (p : Prepared) (s : Local) (raw : Bytes)
      → IsSound heap s
      → (encode E heap p s).0 ≡ ok raw
      → All (Holds (encode E heap p s).1) (E.encode p).0
  unfolding encode run_encoder Noted
  encode-Noted E p s raw sound h =
      let (answers, first, e) = bind-split (each (enc_hook heap) (E.encode p).0) _ s raw h in
      let (noted, _) = each-Noted (E.encode p).0 s answers sound first in
      subst (λ r. All (Holds r.1) (E.encode p).0)
        (sym (e ∙ lift_leaves ((E.encode p).1 answers) (each (enc_hook heap) (E.encode p).0 s).1))
        noted
    where
      lift_leaves : (r : Result Error Bytes) (s : Local) → lift r s ≡ ((lift r s).0, s)
      lift_leaves (ok a) s = refl
      lift_leaves (err e) s = refl

-- What is encoded for a value: the value itself, or what `_prepare_msgpack` made of it, with the
-- integers that are too wide for msgpack as extension values.
abbrev pub IsEncodedFor : Encoder → List PyObject → ℕ → Prepared → Type 0
IsEncodedFor E heap value p =
    (p ≡ same value) ⊎ Gives (prepare E heap (depth_bound E heap) bigints [] value) (ok p)

-- The owners are open BlobRefs, each of them once, and among them is every one that msgspec handed to
-- the hook in the encoding that the bytes are.
abbrev pub IsOwned : Encoder → List PyObject → ℕ → Bytes → List ℕ → Type 0
IsOwned E heap value raw owners =
    IsDistinct owners
    × All (λ k. IsOpen (item_at heap k)) owners
    × (p : Prepared) × IsEncodedFor E heap value p
    × Gives (encode E heap p) (ok raw)
    × All (λ k. is_in k owners ≡ true) (E.encode p).0

module _ (E : Encoder) (heap : List PyObject) (value : ℕ) where
  -- how the encoding of a value ends: the BlobRefs that msgspec met in what it encoded are on record
  Encoded : Result Stop Bytes × Local → Type 0
  Encoded r =
      IsSound heap r.1
      × ((raw : Bytes)
          → r.0 ≡ ok raw
          → (p : Prepared) × IsEncodedFor E heap value p
            × Gives (encode E heap p) (ok raw)
            × All (Holds r.1) (E.encode p).0)

  encode-Encoded :
      (p : Prepared) (s : Local)
      → IsEncodedFor E heap value p
      → IsSound heap s
      → Encoded (encode E heap p s)
  unfolding Encoded Gives
  encode-Encoded p s made sound = (
    encode-Keeps heap E p s sound,
    λ raw h. (p, made, (s, h), encode-Noted heap E p s raw sound h),
  )

  retry-Encoded : (s : Local) → IsSound heap s → Encoded (encode_bigints E heap value s)
  unfolding Encoded encode_bigints Gives
  retry-Encoded s sound =
      let work : Act Prepared = prepare E heap (depth_bound E heap) bigints [] value in
      let sound' = prepare-Keeps heap E (depth_bound E heap) bigints [] value s sound in
      elim (Result-cases (work s).0) [
        | inl (p, h) ↦
            subst Encoded (sym (bind-run work (encode E heap) s p h))
              (encode-Encoded p (work s).1 (inr (s, h)) sound')
        | inr (e, h) ↦
            subst Encoded (sym (bind-stop work (encode E heap) s e h))
              (sound', λ raw g. absurd (ground arith))
      ]

  overflow-Encoded :
      (r : Result Stop Bytes × Local)
      → Encoded r
      → Encoded (on_overflow (encode_bigints E heap value) r)
  unfolding on_overflow Encoded
  overflow-Encoded (ok a, s) encoded = encoded
  overflow-Encoded (err (raises overflow_error), s) encoded = retry-Encoded s encoded.0
  overflow-Encoded (err e, s) encoded = encoded

  owners-Encoded :
      (r : Result Stop Bytes × Local) (raw : Bytes) (owners : List ℕ)
      → Encoded r
      → (with_owners r).0 ≡ ok (raw, owners)
      → IsOwned E heap value raw owners
  unfolding Encoded with_owners IsSound IsTracked owners_of
  owners-Encoded (err e, s) raw owners encoded h = absurd (ground arith)
  owners-Encoded (ok a, none) raw owners (sound, says) h = absurd sound
  owners-Encoded (ok a, some s) raw owners ((distinct, all_open, _), says) h =
      let e : ◌≡◌ {A = Bytes × List ℕ} (a, s.owners) (raw, owners) =
        ap (λ r. elim r [ ok q ↦ q | err e ↦ (a, s.owners) ]) h in
      let (p, made, given, noted) = says a refl in
      subst (λ q. IsOwned E heap value q.0 q.1) e (distinct, all_open, p, made, given, noted)

  scope-IsOwned :
      (raw : Bytes) (owners : List ℕ)
      → (encode_with_blob_scope E heap value none).0 ≡ ok (raw, owners)
      → IsOwned E heap value raw owners
  unfolding encode_with_blob_scope in_scope IsSound IsTracked
  scope-IsOwned raw owners h =
      owners-Encoded _ raw owners
        (overflow-Encoded (encode E heap (same value) (some no_owners))
          (encode-Encoded (same value) (some no_owners) (inl refl) (tt, tt, λ k. refl)))
        h

-- what is returned is owned
abbrev pub IsOwnedAnswer : Encoder → List PyObject → ℕ → Result Stop (Bytes × List ℕ) → Type 0
IsOwnedAnswer E heap value (ok (raw, owners)) = IsOwned E heap value raw owners
IsOwnedAnswer E heap value (err e) = Unit

answer-IsOwned :
    (E : Encoder) (heap : List PyObject) (value : ℕ) (r : Result Stop (Bytes × List ℕ))
    → ((raw : Bytes) (owners : List ℕ) → r ≡ ok (raw, owners) → IsOwned E heap value raw owners)
    → IsOwnedAnswer E heap value r
answer-IsOwned E heap value (ok (raw, owners)) h = h raw owners refl
answer-IsOwned E heap value (err e) h = tt

scope_left :
    (E : Encoder) (heap : List PyObject) (value : ℕ)
    → (encode_with_blob_scope E heap value none).1 ≡ none
unfolding encode_with_blob_scope in_scope
scope_left E heap value = refl

-- Where no encoding is running on the thread, `_encode_prepared` leaves none behind, whether it returns
-- or raises; and where it returns, the BlobRefs that it returns with the bytes are open, each of
-- them stands there once, and every BlobRef that msgspec handed to the hook in the encoding that the
-- bytes are, of the value or of what it was prepared to, is among them.
pub encode_prepared_owners :
    (E : Encoder) (heap : List PyObject) (value : ℕ)
    → ((encode_prepared E heap value none).1 ≡ none)
      × IsOwnedAnswer E heap value (encode_prepared E heap value none).0
encode_prepared_owners E heap value =
    subst (λ r. (r.1 ≡ none) × IsOwnedAnswer E heap value r.0)
      (sym (encode_prepared_same E heap value))
      (
        scope_left E heap value,
        answer-IsOwned E heap value (encode_with_blob_scope E heap value none).0
            (scope-IsOwned E heap value),
      )
