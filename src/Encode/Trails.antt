-- ===== src/Encode/Trails.antt =====
-- How the preparation goes from an object to the objects in it: what a call that stopped, and one that
-- returned, says of the calls that it made.
use tinyray.Common.{ℕ, suc, List, ◌∷◌, true, false, ◌≡◌, ◌⊎◌, inl, inr, refl, any, ◌==◌, Bool-cases}
use tinyray.Common.Text.{Text}
use tinyray.Common.Int.{ℤ}
use tinyray.Errors.{ok, err, value_error, recursion_error}
use tinyray.Encode.{
  Call, bigints, hashable, Kind, tuple, frozenset, PyObject, int, sequence, dict, dataclass,
  subclass, blob, model, other, item_at, Prepared, Encoder, Stop, raises,
}
use tinyray.Encode.Actions.{
  Act, each, Gives, Among, pure_err, stop_ok, bind_ok, bind_err, each-Made, each_err, Made-Among,
}
use tinyray.Encode.Prepare.{
  is_too_long, converted_pair, converted_field, guarded, prepare_bigints, convert_key,
  convert_sequence, convert_dict, convert_dataclass, ext_tuple_key, ext_frozenset_key,
  prepare_hashable, prepare, is_big,
}
use tinyray.Encode.Limits.{entered_ok, entered_err, big_int_err}
use tinyray.Encode.Stops.{
  Part, Below, Why, guarded_err, convert_key_err, dict_err, sequence_err, converted_pair_err,
  converted_field_err,
}

module _ (E : Encoder) (heap : List PyObject) (call : Call → List ℕ → ℕ → Act Prepared)
    (active : List ℕ) (k : ℕ) where
  StopBelow : (List ℕ → Act Prepared) → PyObject → Stop → Type 0
  StopBelow convert o e = Gives (convert (k ∷ active)) (err e) → Below E heap call (k ∷ active) o e

  sequence_below :
      (kind : Kind) (items : List ℕ) (e : Stop)
      → StopBelow (convert_sequence E heap call kind items) (sequence kind items) e
  unfolding convert_sequence StopBelow
  sequence_below kind items e g = elim (bind_err (each (call bigints (k ∷ active)) items) _ e g) [
    | inl f ↦
        let (v, i, s) = each_err (call bigints (k ∷ active)) items e f in inl (v, i, (bigints, s))
    | inr (converted, _, f) ↦ sequence_err E heap call kind (k ∷ active) items e converted f
  ]

  dict_below :
      (pairs : List (ℕ × ℕ)) (e : Stop) → StopBelow (convert_dict E heap call pairs) (dict pairs) e
  unfolding convert_dict StopBelow
  dict_below pairs e g =
      elim (bind_err (each (converted_pair E heap call (k ∷ active)) pairs) _ e g) [
        | inl f ↦
            let ((a, b), i, s) = each_err (converted_pair E heap call (k ∷ active)) pairs e f in
            elim (converted_pair_err E heap call (k ∷ active) a b e s) [
              | inl t ↦ inl (a, ((a, b), i, inl refl), t)
              | inr t ↦ inl (b, ((a, b), i, inr refl), t)
            ]
        | inr (converted, _, f) ↦ dict_err E heap call (k ∷ active) pairs e converted f
      ]

  dataclass_below :
      (fields : List (Text × ℕ)) (e : Stop)
      → StopBelow (convert_dataclass E heap call fields) (dataclass fields) e
  unfolding convert_dataclass StopBelow
  dataclass_below fields e g =
      elim (bind_err (each (converted_field E heap call (k ∷ active)) fields) _ e g) [
        | inl f ↦
            let ((a, b), i, s) = each_err (converted_field E heap call (k ∷ active)) fields e f in
            inl (b, ((a, b), i, refl), converted_field_err E heap call (k ∷ active) a b e s)
        | inr (converted, _, f) ↦ absurd (pure_err _ e f)
      ]

  -- the object is an integer out of range, with more digits than `str` writes
  abbrev pub IsOverlong : PyObject → Stop → Type 0
  IsOverlong o e =
      (z : ℤ) × (o ≡ int z)
      × (is_big z ≡ true)
      × (is_too_long E.max_digits z ≡ true)
      × (e ≡ raises value_error)

  bigints_err :
      (o : PyObject) (e : Stop)
      → Gives (prepare_bigints E heap call active k o) (err e)
      → IsOverlong o e ⊎ Why E heap call active k o e
  unfolding prepare_bigints StopBelow
  bigints_err (int z) e h = elim (Bool-cases (is_big z)) [
    | inl b ↦ let (long, same) = big_int_err E heap z e (rw b at h) in inl (z, refl, b, long, same)
    | inr b ↦ absurd (pure_err _ e (rw b at h))
  ]
  bigints_err (sequence kind items) e h = inr (
      guarded_err E heap call active k (convert_sequence E heap call kind items) e
        (sequence kind items) (sequence_below kind items e) h)
  bigints_err (dict pairs) e h = inr (
      guarded_err E heap call active k (convert_dict E heap call pairs) e (dict pairs)
        (dict_below pairs e) h)
  bigints_err (dataclass fields) e h = inr (
      guarded_err E heap call active k (convert_dataclass E heap call fields) e (dataclass fields)
        (dataclass_below fields e) h)
  bigints_err (subclass items) e h = absurd (pure_err _ e h)
  bigints_err (blob closed descriptor) e h = absurd (pure_err _ e h)
  bigints_err model e h = absurd (pure_err _ e h)
  bigints_err other e h = absurd (pure_err _ e h)

  hashable_err :
      (o : PyObject) (e : Stop)
      → Gives (prepare_hashable E heap call active k o) (err e)
      → IsOverlong o e ⊎ Why E heap call active k o e
  unfolding prepare_hashable
  hashable_err (sequence tuple items) e h = inr (
      guarded_err E heap call active k (convert_key E heap call ext_tuple_key items) e
        (sequence tuple items)
        (convert_key_err E heap call tuple ext_tuple_key (k ∷ active) items e) h)
  hashable_err (sequence frozenset items) e h = inr (
      guarded_err E heap call active k (convert_key E heap call ext_frozenset_key items) e
        (sequence frozenset items)
        (convert_key_err E heap call frozenset ext_frozenset_key (k ∷ active) items e) h)
  hashable_err o e h = bigints_err o e h

  -- a call for a part of the object that returned
  abbrev pub Returned : ℕ → Type 0
  Returned v = (how : Call) × (p : Prepared) × Gives (call how (k ∷ active) v) (ok p)

  pub guarded_ok :
      (convert : List ℕ → Act Prepared) (p : Prepared)
      → Gives (guarded E heap call active k convert) (ok p)
      → (any (λ s. s == k) active ≡ false) × Gives (convert (k ∷ active)) (ok p)
  unfolding guarded
  guarded_ok convert p h = elim (Bool-cases (any (λ s. s == k) active)) [
    | inl b ↦ absurd (stop_ok (raises value_error) p (rw b at h))
    | inr b ↦ (b, rw b at h)
  ]

  pair_ok :
      (a b v : ℕ) (c : Prepared × Prepared)
      → Gives (converted_pair E heap call (k ∷ active) (a, b)) (ok c)
      → (v ≡ a) ⊎ (v ≡ b)
      → Returned v
  unfolding converted_pair
  pair_ok a b v c h (inl e) =
      let (p, g, _) = bind_ok (call bigints (k ∷ active) a) _ c h in (bigints, p, rw e g)
  pair_ok a b v c h (inr e) =
      let (p, _, f) = bind_ok (call bigints (k ∷ active) a) _ c h in
      let (q, g, _) = bind_ok (call bigints (k ∷ active) b) _ c f in (bigints, q, rw e g)

  field_ok :
      (f : Text × ℕ) (c : Text × Prepared)
      → Gives (converted_field E heap call (k ∷ active) f) (ok c)
      → Returned f.1
  unfolding converted_field
  field_ok (name, v) c h =
      let (p, g, _) = bind_ok (call bigints (k ∷ active) v) _ c h in (bigints, p, g)

  bigints-Returned :
      (o : PyObject) (p : Prepared) (v : ℕ)
      → Gives (prepare_bigints E heap call active k o) (ok p)
      → Part o v
      → (any (λ s. s == k) active ≡ false) × Returned v
  unfolding prepare_bigints convert_sequence convert_dict convert_dataclass
  bigints-Returned (sequence kind items) p v h i =
      let (b, g) = guarded_ok (convert_sequence E heap call kind items) p h in
      let (converted, f, _) = bind_ok (each (call bigints (k ∷ active)) items) _ p g in
      let (q, d) =
        Made-Among (call bigints (k ∷ active)) items converted v
          (each-Made (call bigints (k ∷ active)) items converted f) i in
      (b, (bigints, q, d))
  bigints-Returned (dict pairs) p v h ((x, y), i, side) =
      let (b, g) = guarded_ok (convert_dict E heap call pairs) p h in
      let (converted, f, _) =
        bind_ok (each (converted_pair E heap call (k ∷ active)) pairs) _ p g in
      let (q, d) =
        Made-Among (converted_pair E heap call (k ∷ active)) pairs converted (x, y)
          (each-Made (converted_pair E heap call (k ∷ active)) pairs converted f) i in
      (b, pair_ok x y v q d side)
  bigints-Returned (dataclass fields) p v h (x, i, e) =
      let (b, g) = guarded_ok (convert_dataclass E heap call fields) p h in
      let (converted, f, _) =
        bind_ok (each (converted_field E heap call (k ∷ active)) fields) _ p g in
      let (q, d) =
        Made-Among (converted_field E heap call (k ∷ active)) fields converted x
          (each-Made (converted_field E heap call (k ∷ active)) fields converted f) i in
      (b, rw e (field_ok x q d))
  bigints-Returned (int z) p v h i = absurd i
  bigints-Returned (subclass items) p v h i = absurd i
  bigints-Returned (blob closed descriptor) p v h i = absurd i
  bigints-Returned model p v h i = absurd i
  bigints-Returned other p v h i = absurd i

  key-Returned :
      (code : ℕ) (items : List ℕ) (p : Prepared) (v : ℕ)
      → Gives (guarded E heap call active k (convert_key E heap call code items)) (ok p)
      → Among v items
      → (any (λ s. s == k) active ≡ false) × Returned v
  unfolding convert_key
  key-Returned code items p v h i =
      let (b, g) = guarded_ok (convert_key E heap call code items) p h in
      let (converted, f, _) = bind_ok (each (call hashable (k ∷ active)) items) _ p g in
      let (q, d) =
        Made-Among (call hashable (k ∷ active)) items converted v
          (each-Made (call hashable (k ∷ active)) items converted f) i in
      (b, (hashable, q, d))

  hashable-Returned :
      (o : PyObject) (p : Prepared) (v : ℕ)
      → Gives (prepare_hashable E heap call active k o) (ok p)
      → Part o v
      → (any (λ s. s == k) active ≡ false) × Returned v
  unfolding prepare_hashable
  hashable-Returned (sequence tuple items) p v h i = key-Returned ext_tuple_key items p v h i
  hashable-Returned (sequence frozenset items) p v h i =
      key-Returned ext_frozenset_key items p v h i
  hashable-Returned o p v h i = bigints-Returned o p v h i

module _ (E : Encoder) (heap : List PyObject) (n : ℕ) (active : List ℕ) (k : ℕ) where
  -- why a call stopped: a limit of the interpreter, or the object or something below it
  abbrev pub Halted : Call → Stop → Type 0
  Halted how e =
      ((E.too_deep how active k ≡ true) × (e ≡ raises recursion_error))
      ⊎ IsOverlong E heap (prepare E heap n) active k (item_at heap k) e
      ⊎ Why E heap (prepare E heap n) active k (item_at heap k) e

  pub prepare_stopped :
      (how : Call) (e : Stop) → Gives (prepare E heap (suc n) how active k) (err e) → Halted how e
  unfolding prepare
  prepare_stopped bigints e h = elim (entered_err E heap bigints active k _ e h) [
    | inl deep ↦ inl deep
    | inr g ↦ inr (bigints_err E heap (prepare E heap n) active k (item_at heap k) e g)
  ]
  prepare_stopped hashable e h = elim (entered_err E heap hashable active k _ e h) [
    | inl deep ↦ inl deep
    | inr g ↦ inr (hashable_err E heap (prepare E heap n) active k (item_at heap k) e g)
  ]

  pub prepare-Returned :
      (how : Call) (p : Prepared) (v : ℕ)
      → Gives (prepare E heap (suc n) how active k) (ok p)
      → Part (item_at heap k) v
      → (any (λ s. s == k) active ≡ false) × Returned E heap (prepare E heap n) active k v
  unfolding prepare
  prepare-Returned bigints p v h i =
      bigints-Returned E heap (prepare E heap n) active k (item_at heap k) p v
        (entered_ok E heap bigints active k _ p h) i
  prepare-Returned hashable p v h i =
      hashable-Returned E heap (prepare E heap n) active k (item_at heap k) p v
        (entered_ok E heap hashable active k _ p h) i
