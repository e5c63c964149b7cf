-- ===== src/Encode/Keeping.antt =====
-- What every step of an encoding keeps true of the thread's record of BlobRefs.
use mathlib.Core.Path.{subst}
use tinyray.Common.{
  ℕ, zero, suc, List, [], ◌∷◌, none, some, Bool, true, false, ◌≡◌, inl, inr, refl, sym, arith, all,
  any, ◌==◌, All, All-append, ◌∙◌, Bool-cases,
}
use tinyray.Common.Distinct.{is_in, append-is_in, IsDistinct, append-IsDistinct}
use tinyray.Common.Text.{Text}
use tinyray.Rpc.{Bytes}
use tinyray.Common.Int.{ℤ}
use tinyray.Encode.{
  Call, bigints, hashable, Kind, list, tuple, set, frozenset, PyObject, int, sequence, dict,
  dataclass, subclass, blob, model, other, item_at, Prepared, seq, items_of, Encoder, Local,
  EncodeScope, note, note_local,
}
use tinyray.Encode.Actions.{Act, lift, each, Keeps, bind-Keeps, each-Keeps, lift-Keeps}
use tinyray.Encode.Prepare.{
  entered, big_int, enc_hook, note_owner, run_encoder, encode, hashable_item, big_pair, big_dict,
  big_set, converted_pair, converted_field, dict_or_big, sequence_or_big, convert_sequence,
  convert_dict, convert_dataclass, convert_key, guarded, prepare_bigints, prepare_hashable, prepare,
  ext_tuple_key, ext_frozenset_key,
}

abbrev pub IsOpen : PyObject → Type 0
IsOpen (blob false descriptor) = Unit
IsOpen _ = ⊥

module _ (heap : List PyObject) where
  -- each BlobRef once, and open; `seen` is the set of them
  unfoldable pub IsTracked : EncodeScope → Type 0
  IsTracked s =
      IsDistinct s.owners
      × All (λ k. IsOpen (item_at heap k)) s.owners
      × ((k : ℕ) → is_in k s.seen ≡ is_in k s.owners)

  unfoldable pub IsSound : Local → Type 0
  IsSound none = ⊥
  IsSound (some s) = IsTracked s

  note-IsTracked :
      (k : ℕ) (s : EncodeScope) → IsOpen (item_at heap k) → IsTracked s → IsTracked (note k s)
  unfolding IsTracked note
  note-IsTracked k s h (distinct, all_open, same_set) = elim (Bool-cases (is_in k s.seen)) [
    | inl b ↦ rw (b, note) (distinct, all_open, same_set)
    | inr b ↦
        rw (b, note)
          (
            append-IsDistinct k s.owners distinct (sym (same_set k) ∙ b),
            All-append (λ k. IsOpen (item_at heap k)) s.owners (k ∷ []) all_open (h, tt),
            (λ j. ground (arith, append-is_in j k s.owners, same_set j)),
          )
  ]

  note_local-IsSound :
      (k : ℕ) (s : Local) → IsOpen (item_at heap k) → IsSound s → IsSound (note_local k s)
  unfolding IsSound
  note_local-IsSound k none h sound = sound
  note_local-IsSound k (some s) h tracked = note-IsTracked k s h tracked

  note_owner-Keeps :
      (k : ℕ) (closed : Bool) (descriptor : Bytes)
      → item_at heap k ≡ blob closed descriptor
      → Keeps IsSound (note_owner k closed descriptor)
  unfolding note_owner
  note_owner-Keeps k true descriptor at s sound = sound
  note_owner-Keeps k false descriptor at s sound =
      note_local-IsSound k s (subst IsOpen (sym at) tt) sound

  hook_at-Keeps : (k : ℕ) (o : PyObject) → item_at heap k ≡ o → Keeps IsSound (enc_hook heap k)
  unfolding enc_hook
  hook_at-Keeps k (blob closed descriptor) at s sound =
      rw (at, enc_hook) (note_owner-Keeps k closed descriptor at s sound)
  hook_at-Keeps k o at s sound = rw (at, enc_hook) sound

  pub hook-Keeps : (k : ℕ) → Keeps IsSound (enc_hook heap k)
  hook-Keeps k = hook_at-Keeps k (item_at heap k) refl

  module _ (E : Encoder) where
    pub encode-Keeps : (p : Prepared) → Keeps IsSound (encode E heap p)
    unfolding encode run_encoder
    encode-Keeps p =
        bind-Keeps IsSound (each (enc_hook heap) (E.encode p).0) _
          (each-Keeps IsSound (enc_hook heap) (E.encode p).0 hook-Keeps)
          (λ answers. lift-Keeps IsSound ((E.encode p).1 answers))

    AllKeep : (Call → List ℕ → ℕ → Act Prepared) → Type 0
    AllKeep call = (how : Call) (active : List ℕ) (k : ℕ) → Keeps IsSound (call how active k)

    module _ (call : Call → List ℕ → ℕ → Act Prepared) (keeps : AllKeep call) where
      hashable_item-Keeps :
          (inner : List ℕ) (v : ℕ) → Keeps IsSound (hashable_item E heap call inner v)
      unfolding hashable_item AllKeep
      hashable_item-Keeps inner v =
          bind-Keeps IsSound (call hashable inner v) _ (keeps hashable inner v) encode-Keeps

      big_pair-Keeps : (inner : List ℕ) (p : ℕ × ℕ) → Keeps IsSound (big_pair E heap call inner p)
      unfolding big_pair AllKeep
      big_pair-Keeps inner (k, v) =
          bind-Keeps IsSound (hashable_item E heap call inner k) _ (hashable_item-Keeps inner k)
            (λ a.
              bind-Keeps IsSound (call bigints inner v) _ (keeps bigints inner v)
                (λ p. bind-Keeps IsSound (encode E heap p) _ (encode-Keeps p) (λ b s h. h)))

      big_dict-Keeps :
          (inner : List ℕ) (pairs : List (ℕ × ℕ)) → Keeps IsSound (big_dict E heap call inner pairs)
      unfolding big_dict
      big_dict-Keeps inner pairs =
          bind-Keeps IsSound (each (big_pair E heap call inner) pairs) _
            (each-Keeps IsSound (big_pair E heap call inner) pairs (big_pair-Keeps inner))
            (λ packed.
              bind-Keeps IsSound (lift (E.pack_pairs packed)) _
                (lift-Keeps IsSound (E.pack_pairs packed)) (λ raw s h. h))

      big_set-Keeps : (inner items : List ℕ) → Keeps IsSound (big_set E heap call inner items)
      unfolding big_set
      big_set-Keeps inner items =
          bind-Keeps IsSound (each (hashable_item E heap call inner) items) _
            (each-Keeps IsSound (hashable_item E heap call inner) items (hashable_item-Keeps inner))
            (λ packed.
              bind-Keeps IsSound (lift (E.pack_items packed)) _
                (lift-Keeps IsSound (E.pack_items packed)) (λ raw s h. h))

      sequence_or_big-Keeps :
          (kind : Kind) (inner items : List ℕ) (ps : List Prepared)
          → Keeps IsSound (sequence_or_big E heap call kind inner items ps)
      unfolding sequence_or_big
      sequence_or_big-Keeps list inner items ps s h = h
      sequence_or_big-Keeps tuple inner items ps s h = h
      sequence_or_big-Keeps set inner items ps s h = elim (Bool-cases (all E.hashes ps)) [
        | inl b ↦ rw b h
        | inr b ↦ rw b (big_set-Keeps inner items s h)
      ]
      sequence_or_big-Keeps frozenset inner items ps s h = elim (Bool-cases (all E.hashes ps)) [
        | inl b ↦ rw b h
        | inr b ↦ rw b (big_set-Keeps inner items s h)
      ]

      dict_or_big-Keeps :
          (inner : List ℕ) (pairs : List (ℕ × ℕ)) (ps : List (Prepared × Prepared))
          → Keeps IsSound (dict_or_big E heap call inner pairs ps)
      unfolding dict_or_big
      dict_or_big-Keeps inner pairs ps s h = elim (Bool-cases (all (λ p. E.hashes p.0) ps)) [
        | inl b ↦ rw b h
        | inr b ↦ rw b (big_dict-Keeps inner pairs s h)
      ]

      converted_pair-Keeps :
          (inner : List ℕ) (p : ℕ × ℕ) → Keeps IsSound (converted_pair E heap call inner p)
      unfolding converted_pair AllKeep
      converted_pair-Keeps inner (k, v) =
          bind-Keeps IsSound (call bigints inner k) _ (keeps bigints inner k)
            (λ a. bind-Keeps IsSound (call bigints inner v) _ (keeps bigints inner v) (λ b s h. h))

      converted_field-Keeps :
          (inner : List ℕ) (f : Text × ℕ) → Keeps IsSound (converted_field E heap call inner f)
      unfolding converted_field AllKeep
      converted_field-Keeps inner (name, v) =
          bind-Keeps IsSound (call bigints inner v) _ (keeps bigints inner v) (λ b s h. h)

      guarded-Keeps :
          (active : List ℕ) (k : ℕ) (convert : List ℕ → Act Prepared)
          → Keeps IsSound (convert (k ∷ active))
          → Keeps IsSound (guarded E heap call active k convert)
      unfolding guarded
      guarded-Keeps active k convert inside s h = elim (Bool-cases (any (λ x. x == k) active)) [
        | inl b ↦ rw b h
        | inr b ↦ rw b (inside s h)
      ]

      big_int-Keeps : (z : ℤ) → Keeps IsSound (big_int E heap z)
      unfolding big_int
      big_int-Keeps z s h = ground arith

      bigints-Keeps :
          (active : List ℕ) (k : ℕ) (o : PyObject)
          → Keeps IsSound (prepare_bigints E heap call active k o)
      unfolding prepare_bigints convert_sequence convert_dict convert_dataclass AllKeep
      bigints-Keeps active k (int z) = λ s h. ground (arith, big_int-Keeps z s h)
      bigints-Keeps active k (sequence kind items) =
          guarded-Keeps active k (convert_sequence E heap call kind items) (
            bind-Keeps IsSound (each (call bigints (k ∷ active)) items) _
              (each-Keeps IsSound (call bigints (k ∷ active)) items (keeps bigints (k ∷ active)))
              (sequence_or_big-Keeps kind (k ∷ active) items))
      bigints-Keeps active k (dict pairs) =
          guarded-Keeps active k (convert_dict E heap call pairs) (
            bind-Keeps IsSound (each (converted_pair E heap call (k ∷ active)) pairs) _
              (each-Keeps IsSound (converted_pair E heap call (k ∷ active)) pairs
                (converted_pair-Keeps (k ∷ active)))
              (dict_or_big-Keeps (k ∷ active) pairs))
      bigints-Keeps active k (dataclass fields) =
          guarded-Keeps active k (convert_dataclass E heap call fields) (
            bind-Keeps IsSound (each (converted_field E heap call (k ∷ active)) fields) _
              (each-Keeps IsSound (converted_field E heap call (k ∷ active)) fields
                (converted_field-Keeps (k ∷ active)))
              (λ ps s h. h))
      bigints-Keeps active k (subclass items) = λ s h. h
      bigints-Keeps active k (blob closed descriptor) = λ s h. h
      bigints-Keeps active k model = λ s h. h
      bigints-Keeps active k other = λ s h. h

      key-Keeps :
          (active : List ℕ) (k code : ℕ) (items : List ℕ)
          → Keeps IsSound (guarded E heap call active k (convert_key E heap call code items))
      unfolding convert_key AllKeep
      key-Keeps active k code items = guarded-Keeps active k (convert_key E heap call code items) (
          bind-Keeps IsSound (each (call hashable (k ∷ active)) items) _
            (each-Keeps IsSound (call hashable (k ∷ active)) items (keeps hashable (k ∷ active)))
            (λ ps.
              bind-Keeps IsSound (encode E heap (seq list (items_of ps))) _
                (encode-Keeps (seq list (items_of ps))) (λ raw s h. h)))

      hashable-Keeps :
          (active : List ℕ) (k : ℕ) (o : PyObject)
          → Keeps IsSound (prepare_hashable E heap call active k o)
      unfolding prepare_hashable
      hashable-Keeps active k (sequence tuple items) = key-Keeps active k ext_tuple_key items
      hashable-Keeps active k (sequence frozenset items) =
          key-Keeps active k ext_frozenset_key items
      hashable-Keeps active k o = bigints-Keeps active k o

    entered-Keeps :
        (how : Call) (active : List ℕ) (k : ℕ) (run : Act Prepared)
        → Keeps IsSound run
        → Keeps IsSound (entered E heap how active k run)
    unfolding entered
    entered-Keeps how active k run inside s h = elim (Bool-cases (E.too_deep how active k)) [
      | inl b ↦ rw b h
      | inr b ↦ rw b (inside s h)
    ]

    prepare-AllKeep : (n : ℕ) → AllKeep (prepare E heap n)
    unfolding prepare AllKeep
    prepare-AllKeep zero how active k = λ s h. h
    prepare-AllKeep (suc n) bigints active k =
        entered-Keeps bigints active k _
          (bigints-Keeps (prepare E heap n) (prepare-AllKeep n) active k (item_at heap k))
    prepare-AllKeep (suc n) hashable active k =
        entered-Keeps hashable active k _
          (hashable-Keeps (prepare E heap n) (prepare-AllKeep n) active k (item_at heap k))

    pub prepare-Keeps :
        (n : ℕ) (how : Call) (active : List ℕ) (k : ℕ)
        → Keeps IsSound (prepare E heap n how active k)
    unfolding AllKeep
    prepare-Keeps n = prepare-AllKeep n
