-- ===== src/Encode/Stops.antt =====
-- What it says of the calls that a preparation made, where it stopped.
use tinyray.Common.{
  ℕ, List, ◌∷◌, true, false, ◌≡◌, ◌⊎◌, inl, inr, refl, sym, arith, any, ◌==◌, Bool-cases, all,
}
use tinyray.Common.Text.{Text}
use tinyray.Errors.{Result, ok, err, blob_error, type_error, value_error}
use tinyray.Rpc.{Bytes, Error}
use tinyray.Encode.{
  Call, bigints, hashable, Kind, list, tuple, set, frozenset, PyObject, int, sequence, dict,
  dataclass, subclass, blob, model, other, item_at, Prepared, seq, items_of, Encoder, Stop, raises,
}
use tinyray.Encode.Actions.{Act, lift, each, Gives, stop_err, Among, pure_err, bind_err, each_err}
use tinyray.Encode.Prepare.{
  enc_hook, note_owner, encode, run_encoder, hashable_item, big_pair, big_dict, big_set,
  converted_pair, converted_field, dict_or_big, sequence_or_big, guarded, convert_key,
}

-- `v` is directly in the object
abbrev pub Part : PyObject → ℕ → Type 0
Part (sequence kind items) v = Among v items
Part (dict pairs) v = (p : ℕ × ℕ) × Among p pairs × ((v ≡ p.0) ⊎ (v ≡ p.1))
Part (dataclass fields) v = (f : Text × ℕ) × Among f fields × (v ≡ f.1)
Part (int z) v = ⊥
Part (subclass items) v = ⊥
Part (blob closed descriptor) v = ⊥
Part model v = ⊥
Part other v = ⊥

module _ (E : Encoder) (heap : List PyObject) where
  lift_raises :
      {A : Type 0} (r : Result Error A) (e : Stop)
      → Gives (lift r) (err e)
      → (x : Error) × (e ≡ raises x)
  unfolding Gives
  lift_raises (ok a) e (s, h) = absurd (ground arith)
  lift_raises (err x) e h = (x, sym (stop_err _ (raises x) e h))

  note_owner_raises :
      (k : ℕ) (closed : _) (descriptor : Bytes) (e : Stop)
      → Gives (note_owner k closed descriptor) (err e)
      → (x : Error) × (e ≡ raises x)
  unfolding note_owner Gives
  note_owner_raises k true descriptor e h = (blob_error, sym (stop_err _ (raises blob_error) e h))
  note_owner_raises k false descriptor e (s, h) = absurd (ground arith)

  hook_raises :
      (k : ℕ) (e : Stop) (o : PyObject)
      → item_at heap k ≡ o
      → Gives (enc_hook heap k) (err e)
      → (x : Error) × (e ≡ raises x)
  unfolding enc_hook
  hook_raises k e (blob closed descriptor) at g =
      note_owner_raises k closed descriptor e (rw (at, enc_hook) at g)
  hook_raises k e o at g =
      (type_error, sym (stop_err _ (raises type_error) e (rw (at, enc_hook) at g)))

  encode_raises :
      (p : Prepared) (e : Stop) → Gives (encode E heap p) (err e) → (x : Error) × (e ≡ raises x)
  unfolding encode run_encoder
  encode_raises p e g = elim (bind_err (each (enc_hook heap) (E.encode p).0) _ e g) [
    | inl h ↦
        let (k, _, f) = each_err (enc_hook heap) (E.encode p).0 e h in
        hook_raises k e (item_at heap k) refl f
    | inr (answers, _, h) ↦ lift_raises ((E.encode p).1 answers) e h
  ]

  module _ (call : Call → List ℕ → ℕ → Act Prepared) where
    abbrev pub Stopped : List ℕ → ℕ → Stop → Type 0
    Stopped inner v e = (how : Call) × Gives (call how inner v) (err e)

    -- what was made of an object could not be encoded
    abbrev pub Unencodable : List ℕ → ℕ → Stop → Type 0
    Unencodable inner v e =
        (how : Call) × (p : Prepared) × Gives (call how inner v) (ok p)
        × Gives (encode E heap p) (err e)

    -- msgspec, or a hook that it called, stopped with `e` on what was made of the parts of the object:
    -- of one of them, or of the list of all
    abbrev pub Refused : List ℕ → PyObject → Stop → Type 0
    Refused inner o e =
        ((v : ℕ) × Part o v × Unencodable inner v e)
        ⊎ ((kind : Kind) × (items : List ℕ) × (converted : List Prepared) × (o
              ≡ sequence kind items)
            × Gives (each (call hashable inner) items) (ok converted)
            × Gives (encode E heap (seq list (items_of converted))) (err e))
        ⊎ ((kind : Kind) × (items : List ℕ) × (packed : List Bytes) × (o ≡ sequence kind items)
            × Gives (each (hashable_item E heap call inner) items) (ok packed)
            × Gives (lift (E.pack_items packed)) (err e))
        ⊎ ((pairs : List (ℕ × ℕ)) × (packed : List (Bytes × Bytes)) × (o ≡ dict pairs)
            × Gives (each (big_pair E heap call inner) pairs) (ok packed)
            × Gives (lift (E.pack_pairs packed)) (err e))

    pub turned_down_by :
        (inner : List ℕ) (o : PyObject) (e : Stop)
        → Refused inner o e
        → (x : Error) × (e ≡ raises x)
    turned_down_by inner o e (inl (v, i, (how, p, _, g))) = encode_raises p e g
    turned_down_by inner o e (inr (inl (kind, items, converted, _, _, g))) =
        encode_raises (seq list (items_of converted)) e g
    turned_down_by inner o e (inr (inr (inl (kind, items, packed, _, _, g)))) =
        lift_raises (E.pack_items packed) e g
    turned_down_by inner o e (inr (inr (inr (pairs, packed, _, _, g)))) =
        lift_raises (E.pack_pairs packed) e g

    hashable_item_err :
        (inner : List ℕ) (v : ℕ) (e : Stop)
        → Gives (hashable_item E heap call inner v) (err e)
        → Stopped inner v e ⊎ Unencodable inner v e
    unfolding hashable_item
    hashable_item_err inner v e h = elim (bind_err (call hashable inner v) _ e h) [
      | inl g ↦ inl (hashable, g)
      | inr (p, f, g) ↦ inr (hashable, p, f, g)
    ]

    big_pair_err :
        (inner : List ℕ) (k v : ℕ) (e : Stop)
        → Gives (big_pair E heap call inner (k, v)) (err e)
        → (Stopped inner k e ⊎ Unencodable inner k e) ⊎ (Stopped inner v e ⊎ Unencodable inner v e)
    unfolding big_pair
    big_pair_err inner k v e h = elim (bind_err (hashable_item E heap call inner k) _ e h) [
      | inl g ↦ inl (hashable_item_err inner k e g)
      | inr (a, _, g) ↦ elim (bind_err (call bigints inner v) _ e g) [
        | inl s ↦ inr (inl (bigints, s))
        | inr (p, made, f) ↦ elim (bind_err (encode E heap p) _ e f) [
          | inl r ↦ inr (inr (bigints, p, made, r))
          | inr (b, _, l) ↦ absurd (pure_err _ e l)
        ]
      ]
    ]

    pub converted_pair_err :
        (inner : List ℕ) (k v : ℕ) (e : Stop)
        → Gives (converted_pair E heap call inner (k, v)) (err e)
        → Stopped inner k e ⊎ Stopped inner v e
    unfolding converted_pair
    converted_pair_err inner k v e h = elim (bind_err (call bigints inner k) _ e h) [
      | inl g ↦ inl (bigints, g)
      | inr (a, _, g) ↦ elim (bind_err (call bigints inner v) _ e g) [
        | inl s ↦ inr (bigints, s)
        | inr (p, _, l) ↦ absurd (pure_err _ e l)
      ]
    ]

    pub converted_field_err :
        (inner : List ℕ) (name : Text) (v : ℕ) (e : Stop)
        → Gives (converted_field E heap call inner (name, v)) (err e)
        → Stopped inner v e
    unfolding converted_field
    converted_field_err inner name v e h = elim (bind_err (call bigints inner v) _ e h) [
      | inl g ↦ (bigints, g)
      | inr (a, _, l) ↦ absurd (pure_err _ e l)
    ]

    -- a part of the object stopped with `e`, or msgspec did
    abbrev pub Below : List ℕ → PyObject → Stop → Type 0
    Below inner o e = ((v : ℕ) × Part o v × Stopped inner v e) ⊎ Refused inner o e

    big_dict_err :
        (inner : List ℕ) (pairs : List (ℕ × ℕ)) (e : Stop)
        → Gives (big_dict E heap call inner pairs) (err e)
        → Below inner (dict pairs) e
    unfolding big_dict
    big_dict_err inner pairs e h = elim (bind_err (each (big_pair E heap call inner) pairs) _ e h) [
      | inl g ↦
          let ((k, v), i, f) = each_err (big_pair E heap call inner) pairs e g in
          elim (big_pair_err inner k v e f) [
            | inl (inl s) ↦ inl (k, ((k, v), i, inl refl), s)
            | inl (inr r) ↦ inr (inl (k, ((k, v), i, inl refl), r))
            | inr (inl s) ↦ inl (v, ((k, v), i, inr refl), s)
            | inr (inr r) ↦ inr (inl (v, ((k, v), i, inr refl), r))
          ]
      | inr (packed, made, g) ↦ elim (bind_err (lift (E.pack_pairs packed)) _ e g) [
        | inl r ↦ inr (inr (inr (inr (pairs, packed, refl, made, r))))
        | inr (raw, _, l) ↦ absurd (pure_err _ e l)
      ]
    ]

    big_set_err :
        (kind : Kind) (inner items : List ℕ) (e : Stop)
        → Gives (big_set E heap call inner items) (err e)
        → Below inner (sequence kind items) e
    unfolding big_set
    big_set_err kind inner items e h =
        elim (bind_err (each (hashable_item E heap call inner) items) _ e h) [
          | inl g ↦
              let (v, i, f) = each_err (hashable_item E heap call inner) items e g in
              elim (hashable_item_err inner v e f) [
                | inl s ↦ inl (v, i, s)
                | inr r ↦ inr (inl (v, i, r))
              ]
          | inr (packed, made, g) ↦ elim (bind_err (lift (E.pack_items packed)) _ e g) [
            | inl r ↦ inr (inr (inr (inl (kind, items, packed, refl, made, r))))
            | inr (raw, _, l) ↦ absurd (pure_err _ e l)
          ]
        ]

    pub sequence_err :
        (kind : Kind) (inner items : List ℕ) (e : Stop) (converted : List Prepared)
        → Gives (sequence_or_big E heap call kind inner items converted) (err e)
        → Below inner (sequence kind items) e
    unfolding sequence_or_big
    sequence_err list inner items e converted h = absurd (pure_err _ e h)
    sequence_err tuple inner items e converted h = absurd (pure_err _ e h)
    sequence_err set inner items e converted h = elim (Bool-cases (all E.hashes converted)) [
      | inl b ↦ absurd (pure_err _ e (rw b at h))
      | inr b ↦ big_set_err set inner items e (rw b at h)
    ]
    sequence_err frozenset inner items e converted h = elim (Bool-cases (all E.hashes converted)) [
      | inl b ↦ absurd (pure_err _ e (rw b at h))
      | inr b ↦ big_set_err frozenset inner items e (rw b at h)
    ]

    pub dict_err :
        (inner : List ℕ) (pairs : List (ℕ × ℕ)) (e : Stop) (converted : List (Prepared × Prepared))
        → Gives (dict_or_big E heap call inner pairs converted) (err e)
        → Below inner (dict pairs) e
    unfolding dict_or_big
    dict_err inner pairs e converted h = elim (Bool-cases (all (λ p. E.hashes p.0) converted)) [
      | inl b ↦ absurd (pure_err _ e (rw b at h))
      | inr b ↦ big_dict_err inner pairs e (rw b at h)
    ]

    -- why a call stopped: the object is being converted already, or something below stopped
    abbrev pub Why : List ℕ → ℕ → PyObject → Stop → Type 0
    Why active k o e =
        ((any (λ s. s == k) active ≡ true) × (e ≡ raises value_error))
        ⊎ ((any (λ s. s == k) active ≡ false) × Below (k ∷ active) o e)

    pub guarded_err :
        (active : List ℕ) (k : ℕ) (convert : List ℕ → Act Prepared) (e : Stop) (o : PyObject)
        → (Gives (convert (k ∷ active)) (err e) → Below (k ∷ active) o e)
        → Gives (guarded E heap call active k convert) (err e)
        → Why active k o e
    unfolding guarded
    guarded_err active k convert e o inside h = elim (Bool-cases (any (λ s. s == k) active)) [
      | inl b ↦ inl (b, sym (stop_err _ (raises value_error) e (rw b at h)))
      | inr b ↦ inr (b, inside (rw b at h))
    ]

    pub convert_key_err :
        (kind : Kind) (code : ℕ) (inner items : List ℕ) (e : Stop)
        → Gives (convert_key E heap call code items inner) (err e)
        → Below inner (sequence kind items) e
    unfolding convert_key
    convert_key_err kind code inner items e h =
        elim (bind_err (each (call hashable inner) items) _ e h) [
          | inl g ↦
              let (v, i, f) = each_err (call hashable inner) items e g in inl (v, i, (hashable, f))
          | inr (converted, made, g) ↦ elim (bind_err (encode E heap _) _ e g) [
            | inl r ↦ inr (inr (inl (kind, items, converted, refl, made, r)))
            | inr (raw, _, l) ↦ absurd (pure_err _ e l)
          ]
        ]
