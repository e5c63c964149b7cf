-- ===== src/Encode/Words.antt =====
-- What `_prepare_bigints` leaves to msgspec.
use mathlib.Core.Path.{subst}
use tinyray.Common.{
  ℕ, zero, suc, List, [], ◌∷◌, true, false, ◌≡◌, ◌≢◌, inl, inr, refl, sym, arith, all, Bool-cases,
  ap, ◌∙◌,
}
use tinyray.Common.Int.{ℤ}
use tinyray.Common.Text.{Text}
use tinyray.Errors.{ok}
use tinyray.Encode.{
  Call, bigints, hashable, Kind, list, tuple, set, frozenset, PyObject, int, sequence, dict,
  dataclass, subclass, blob, model, other, item_at, Prepared, same, ext, seq, assoc, struct, Items,
  nil, item, Pairs, no_pairs, pair, Fields, no_fields, field, items_of, pairs_of, fields_of,
  Encoder, out_of_fuel,
}
use tinyray.Encode.Actions.{
  Act, Gives, each, pure, pure_ok, stop_ok, bind_ok, Made, each-Made, ◌>>=◌, lift,
}
use tinyray.Encode.Prepare.{
  is_big, prepare, prepare_bigints, prepare_hashable, guarded, ext_big_int, ext_big_dict,
  ext_big_set, ext_tuple_key, ext_frozenset_key, convert_sequence, convert_dict, convert_dataclass,
  convert_key, converted_pair, converted_field, sequence_or_big, dict_or_big, big_set, big_dict,
}
use tinyray.Encode.Limits.{entered_ok, big_int_ok}
use tinyray.Encode.Integers.{read_int, read_int-str}
use tinyray.Encode.Trails.{guarded_ok}

-- An object that msgspec encodes by itself, and that is no integer out of its range.
abbrev pub IsLeaf : PyObject → Type 0
IsLeaf (int z) = is_big z ≡ false
IsLeaf (sequence kind items) = ⊥
IsLeaf (dict pairs) = ⊥
IsLeaf (dataclass fields) = ⊥
IsLeaf (subclass items) = Unit
IsLeaf (blob closed descriptor) = Unit
IsLeaf model = Unit
IsLeaf other = Unit

module _ (heap : List PyObject) where
  unfoldable mutual
    pub Fits : Prepared → Type 0
    Fits (same k) = IsLeaf (item_at heap k)
    Fits (ext code raw) = code ≡ ext_big_int → is_big (read_int raw) ≡ true
    Fits (seq kind items) = FitsItems items
    Fits (assoc pairs) = FitsPairs pairs
    Fits (struct fields) = FitsFields fields

    pub FitsItems : Items → Type 0
    FitsItems nil = Unit
    FitsItems (item p items) = Fits p × FitsItems items

    pub FitsPairs : Pairs → Type 0
    FitsPairs no_pairs = Unit
    FitsPairs (pair k v pairs) = Fits k × Fits v × FitsPairs pairs

    pub FitsFields : Fields → Type 0
    FitsFields no_fields = Unit
    FitsFields (field name v fields) = Fits v × FitsFields fields

  module _ (E : Encoder) where
    -- what a call returns fits, if what it is asked for in the end does
    IsFit : (Call → List ℕ → ℕ → Act Prepared) → Type 0
    IsFit call =
        (how : Call) (active : List ℕ) (k : ℕ) (p : Prepared)
        → Gives (call how active k) (ok p)
        → Fits p

    module _ (call : Call → List ℕ → ℕ → Act Prepared) (fits : IsFit call) (inner : List ℕ) where
      ext_Fits :
          (code : ℕ) (m : Act (List ℕ)) (p : Prepared)
          → code ≢ ext_big_int
          → Gives (m >>= λ raw. pure (ext code raw)) (ok p)
          → Fits p
      unfolding Fits
      ext_Fits code m p h g =
          let (raw, _, last) = bind_ok m _ p g in
          subst Fits (pure_ok (ext code raw) p last) (λ e. absurd (h e))

      items_Fits :
          (how : Call) (xs : List ℕ) (ps : List Prepared)
          → Made (call how inner) xs ps
          → FitsItems (items_of ps)
      unfolding Fits IsFit
      items_Fits how [] [] made = tt
      items_Fits how [] (p ∷ ps) made = absurd made
      items_Fits how (x ∷ xs) [] made = absurd made
      items_Fits how (x ∷ xs) (p ∷ ps) (g, made) = (fits how inner x p g, items_Fits how xs ps made)

      pairs_Fits :
          (xs : List (ℕ × ℕ)) (ps : List (Prepared × Prepared))
          → Made (converted_pair E heap call inner) xs ps
          → FitsPairs (pairs_of ps)
      unfolding Fits IsFit converted_pair
      pairs_Fits [] [] made = tt
      pairs_Fits [] (p ∷ ps) made = absurd made
      pairs_Fits (x ∷ xs) [] made = absurd made
      pairs_Fits ((x, y) ∷ xs) ((p, q) ∷ ps) (g, made) =
          let (k, first, after) = bind_ok (call bigints inner x) _ (p, q) g in
          let (v, second, last) = bind_ok (call bigints inner y) _ (p, q) after in
          let e = pure_ok (k, v) (p, q) last in
          (
            subst Fits (ap (λ r. r.0) e) (fits bigints inner x k first),
            subst Fits (ap (λ r. r.1) e) (fits bigints inner y v second),
            pairs_Fits xs ps made,
          )

      fields_Fits :
          (xs : List (Text × ℕ)) (ps : List (Text × Prepared))
          → Made (converted_field E heap call inner) xs ps
          → FitsFields (fields_of ps)
      unfolding Fits IsFit converted_field
      fields_Fits [] [] made = tt
      fields_Fits [] (p ∷ ps) made = absurd made
      fields_Fits (x ∷ xs) [] made = absurd made
      fields_Fits ((name, y) ∷ xs) ((label, q) ∷ ps) (g, made) =
          let (v, first, last) = bind_ok (call bigints inner y) _ (label, q) g in
          (
            subst Fits (ap (λ r. r.1) (pure_ok (name, v) (label, q) last))
                (fits bigints inner y v first),
            fields_Fits xs ps made,
          )

      set_Fits :
          (items : List ℕ) (p : Prepared) → Gives (big_set E heap call inner items) (ok p) → Fits p
      unfolding big_set
      set_Fits items p g =
          let (packed, _, after) = bind_ok (each _ items) _ p g in
          ext_Fits ext_big_set (lift (E.pack_items packed)) p (λ e. ground arith) after

      dict_Fits :
          (pairs : List (ℕ × ℕ)) (ps : List (Prepared × Prepared)) (p : Prepared)
          → FitsPairs (pairs_of ps)
          → Gives (dict_or_big E heap call inner pairs ps) (ok p)
          → Fits p
      unfolding dict_or_big big_dict Fits
      dict_Fits pairs ps p converted g = elim (Bool-cases (all (λ r. E.hashes r.0) ps)) [
        | inl b ↦ subst Fits (pure_ok (assoc (pairs_of ps)) p (rw b at g)) converted
        | inr b ↦
            let (packed, _, after) = bind_ok (each _ pairs) _ p (rw b at g) in
            ext_Fits ext_big_dict (lift (E.pack_pairs packed)) p (λ e. ground arith) after
      ]

      sequence_Fits :
          (kind : Kind) (xs : List ℕ) (ps : List Prepared) (p : Prepared)
          → FitsItems (items_of ps)
          → Gives (sequence_or_big E heap call kind inner xs ps) (ok p)
          → Fits p
      unfolding sequence_or_big Fits
      sequence_Fits list xs ps p h g = subst Fits (pure_ok (seq list (items_of ps)) p g) h
      sequence_Fits tuple xs ps p h g = subst Fits (pure_ok (seq tuple (items_of ps)) p g) h
      sequence_Fits set xs ps p h g = elim (Bool-cases (all E.hashes ps)) [
        | inl b ↦ subst Fits (pure_ok (seq set (items_of ps)) p (rw b at g)) h
        | inr b ↦ set_Fits xs p (rw b at g)
      ]
      sequence_Fits frozenset xs ps p h g = elim (Bool-cases (all E.hashes ps)) [
        | inl b ↦ subst Fits (pure_ok (seq frozenset (items_of ps)) p (rw b at g)) h
        | inr b ↦ set_Fits xs p (rw b at g)
      ]

    module _ (call : Call → List ℕ → ℕ → Act Prepared) (fits : IsFit call) (active : List ℕ)
        (k : ℕ) where
      integer_Fits :
          (z : ℤ) (p : Prepared)
          → item_at heap k ≡ int z
          → Gives (prepare_bigints E heap call active k (int z)) (ok p)
          → Fits p
      unfolding prepare_bigints Fits
      integer_Fits z p at g = elim (Bool-cases (is_big z)) [
        | inl b ↦
            subst Fits (big_int_ok E heap z p (rw b at g)).1 (λ e. ap is_big (read_int-str z) ∙ b)
        | inr b ↦ subst Fits (pure_ok (same k) p (rw b at g)) (rw at b)
      ]

      same_Fits :
          (o : PyObject) (p : Prepared)
          → item_at heap k ≡ o
          → IsLeaf o
          → Gives (pure (same k)) (ok p)
          → Fits p
      unfolding Fits
      same_Fits o p at leaf g = subst Fits (pure_ok (same k) p g) (subst IsLeaf (sym at) leaf)

      bigints_Fits :
          (o : PyObject) (p : Prepared)
          → item_at heap k ≡ o
          → Gives (prepare_bigints E heap call active k o) (ok p)
          → Fits p
      unfolding prepare_bigints convert_sequence convert_dict convert_dataclass Fits
      bigints_Fits (int z) p at g = integer_Fits z p at g
      bigints_Fits (sequence kind items) p at g =
          let (_, h) =
            guarded_ok E heap call active k (convert_sequence E heap call kind items) p g in
          let (ps, made, last) = bind_ok (each (call bigints (k ∷ active)) items) _ p h in
          sequence_Fits call fits (k ∷ active) kind items ps p
            (items_Fits call fits (k ∷ active) bigints items ps
              (each-Made (call bigints (k ∷ active)) items ps made))
            last
      bigints_Fits (dict pairs) p at g =
          let (_, h) = guarded_ok E heap call active k (convert_dict E heap call pairs) p g in
          let (ps, made, last) =
            bind_ok (each (converted_pair E heap call (k ∷ active)) pairs) _ p h in
          dict_Fits call fits (k ∷ active) pairs ps p
            (pairs_Fits call fits (k ∷ active) pairs ps
              (each-Made (converted_pair E heap call (k ∷ active)) pairs ps made))
            last
      bigints_Fits (dataclass fields) p at g =
          let (_, h) = guarded_ok E heap call active k (convert_dataclass E heap call fields) p g in
          let (ps, made, last) =
            bind_ok (each (converted_field E heap call (k ∷ active)) fields) _ p h in
          subst Fits (pure_ok (struct (fields_of ps)) p last) (
            fields_Fits call fits (k ∷ active) fields ps
              (each-Made (converted_field E heap call (k ∷ active)) fields ps made))
      bigints_Fits (subclass items) p at g = same_Fits (subclass items) p at tt g
      bigints_Fits (blob closed descriptor) p at g = same_Fits (blob closed descriptor) p at tt g
      bigints_Fits model p at g = same_Fits model p at tt g
      bigints_Fits other p at g = same_Fits other p at tt g

      key_Fits :
          (code : ℕ) (items : List ℕ) (p : Prepared)
          → code ≢ ext_big_int
          → Gives (guarded E heap call active k (convert_key E heap call code items)) (ok p)
          → Fits p
      unfolding convert_key
      key_Fits code items p h g =
          let (_, f) = guarded_ok E heap call active k (convert_key E heap call code items) p g in
          let (ps, _, last) = bind_ok (each (call hashable (k ∷ active)) items) _ p f in
          ext_Fits call fits (k ∷ active) code _ p h last

      hashable_Fits :
          (o : PyObject) (p : Prepared)
          → item_at heap k ≡ o
          → Gives (prepare_hashable E heap call active k o) (ok p)
          → Fits p
      unfolding prepare_hashable
      hashable_Fits (sequence tuple items) p at g =
          key_Fits ext_tuple_key items p (λ e. ground arith) g
      hashable_Fits (sequence frozenset items) p at g =
          key_Fits ext_frozenset_key items p (λ e. ground arith) g
      hashable_Fits o p at g = bigints_Fits o p at g

    prepare-IsFit : (n : ℕ) → IsFit (prepare E heap n)
    unfolding prepare IsFit
    prepare-IsFit zero how active k p g = absurd (stop_ok out_of_fuel p g)
    prepare-IsFit (suc n) bigints active k p g =
        bigints_Fits (prepare E heap n) (prepare-IsFit n) active k (item_at heap k) p refl
          (entered_ok E heap bigints active k _ p g)
    prepare-IsFit (suc n) hashable active k p g =
        hashable_Fits (prepare E heap n) (prepare-IsFit n) active k (item_at heap k) p refl
          (entered_ok E heap hashable active k _ p g)

-- What `_prepare_bigints` returns holds no integer out of msgspec's range, at any depth: an object of
-- the value that it takes over as it is, is no such integer and no list, tuple, set, frozenset, dict
-- (of exactly these types) or dataclass, and every extension with the code for integers reads back as
-- an integer out of the range.
pub prepare-Fits :
    (E : Encoder) (heap : List PyObject) (n : ℕ) (active : List ℕ) (value : ℕ) (p : Prepared)
    → Gives (prepare E heap n bigints active value) (ok p)
    → Fits heap p
unfolding IsFit
prepare-Fits E heap n active value p g = prepare-IsFit heap E n bigints active value p g
