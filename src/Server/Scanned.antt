-- ===== src/Server/Scanned.antt =====
-- What a scan serves.
use mathlib.Core.Path.{subst}
use tinyray.Common.{
  List, [], ◌∷◌, none, some, true, false, ◌&&◌, ◌≡◌, ◌≢◌, ◌⊎◌, ◌↔◌, inl, inr, refl, arith,
  Bool-cases, ap, sym, ◌∙◌,
}
use tinyray.Common.Text.{Text, codes, starts_with, is_ascii, is_identifier}
use tinyray.Errors.{ok, err, value_error, attribute_error, Result-cases}
use tinyray.Rpc.{Error}
use tinyray.Serve.Batch.{is_method_name}
use tinyray.Server.{
  Static, absent, invocable, inert, Got, callable, class_object, not_callable, get_raises,
  Attribute, callable_of, bound, served_by, scan, is_private,
}

is_method_name-public :
    (name : Text)
    → starts_with (codes "_") name ≡ false
    → is_method_name name ≡ (is_ascii name && is_identifier name)
unfolding is_method_name
is_method_name-public name public = ground arith

module _ {F : Type 0} where
  -- The attribute has a public name, and it is the callable `f`, not a class: `getattr_static` finds a
  -- callable or a classmethod there, or it finds nothing, and `getattr` gives `f`.
  abbrev pub IsCallable : Text → F → Attribute F → Type 0
  IsCallable name f a =
      (a.name ≡ name)
      × (starts_with (codes "_") name ≡ false)
      × ((a.static ≡ absent) ⊎ (a.static ≡ invocable))
      × (a.got ≡ callable f)

  -- The attribute has a public name and raises `e` when it is read: one that `getattr_static` does
  -- not find may raise anything but `AttributeError`.
  abbrev pub IsRaising : Error → Attribute F → Type 0
  IsRaising e a =
      (starts_with (codes "_") a.name ≡ false)
      × (((a.static ≡ absent) × (e ≢ attribute_error)) ⊎ (a.static ≡ invocable))
      × (a.got ≡ get_raises e)

  -- one of the attributes is public and callable, under this name
  abbrev pub Offered : Text → F → List (Attribute F) → Type 0
  Offered name f [] = ⊥
  Offered name f (a ∷ attributes) = IsCallable name f a ⊎ Offered name f attributes

  abbrev pub SomeRaising : Error → List (Attribute F) → Type 0
  SomeRaising e [] = ⊥
  SomeRaising e (a ∷ attributes) = IsRaising e a ⊎ SomeRaising e attributes

  abbrev pub Served : Text → F → List (Text × F) → Type 0
  Served name f [] = ⊥
  Served name f ((n, g) ∷ out) = ((n ≡ name) × (g ≡ f)) ⊎ Served name f out

  callable_of_gives : (got : Got F) (f : F) → callable_of got ≡ ok (some f) → got ≡ callable f
  unfolding callable_of
  callable_of_gives (callable g) f h = ground arith
  callable_of_gives class_object f h = absurd (ground arith)
  callable_of_gives not_callable f h = absurd (ground arith)
  callable_of_gives (get_raises e) f h = absurd (ground arith)

  bound_gives :
      (static : Static) (got : Got F) (f : F)
      → bound static got ≡ ok (some f)
      → ((static ≡ absent) ⊎ (static ≡ invocable)) × (got ≡ callable f)
  unfolding bound
  bound_gives absent (callable g) f h = (inl refl, callable_of_gives (callable g) f h)
  bound_gives absent class_object f h = (inl refl, callable_of_gives class_object f h)
  bound_gives absent not_callable f h = (inl refl, callable_of_gives not_callable f h)
  bound_gives absent (get_raises attribute_error) f h = absurd (ground arith)
  bound_gives absent (get_raises e) f h = (inl refl, callable_of_gives (get_raises e) f h)
  bound_gives invocable got f h = (inr refl, callable_of_gives got f h)
  bound_gives inert got f h = absurd (ground arith)

  bound_callable :
      (static : Static) (f : F)
      → (static ≡ absent) ⊎ (static ≡ invocable)
      → bound static (callable f) ≡ ok (some f)
  unfolding bound callable_of
  bound_callable absent f h = refl
  bound_callable invocable f h = refl
  bound_callable inert f h = absurd (ground arith)

  callable_of_raises : (got : Got F) (e : Error) → callable_of got ≡ err e → got ≡ get_raises e
  unfolding callable_of
  callable_of_raises (callable g) e h = absurd (ground arith)
  callable_of_raises class_object e h = absurd (ground arith)
  callable_of_raises not_callable e h = absurd (ground arith)
  callable_of_raises (get_raises x) e h = ground arith

  bound_raises :
      (static : Static) (got : Got F) (e : Error)
      → bound static got ≡ err e
      → (((static ≡ absent) × (e ≢ attribute_error)) ⊎ (static ≡ invocable)) × (got ≡ get_raises e)
  unfolding bound callable_of
  bound_raises absent (callable f) e h = absurd (ground arith)
  bound_raises absent class_object e h = absurd (ground arith)
  bound_raises absent not_callable e h = absurd (ground arith)
  bound_raises absent (get_raises x) e h = ground arith
  bound_raises invocable got e h = (inr refl, callable_of_raises got e h)
  bound_raises inert got e h = absurd (ground arith)

  served_by-IsCallable :
      (a : Attribute F) (f : F) → served_by a ≡ ok (some f) → IsCallable a.name f a
  unfolding served_by
  served_by-IsCallable a f h = elim (Bool-cases (is_private a.name)) [
    | inl private ↦ absurd (ground arith)
    | inr public ↦
        let (found, gets) = bound_gives a.static a.got f (rw (public) at h) in
        (refl, public, found, gets)
  ]

  IsCallable-served_by :
      (name : Text) (a : Attribute F) (f : F) → IsCallable name f a → served_by a ≡ ok (some f)
  unfolding served_by
  IsCallable-served_by name a f (named, public, found, gets) =
      let mine : is_private a.name ≡ false = ap is_private named ∙ public in
      rw (mine, gets) (bound_callable a.static f found)

  served_by-IsRaising : (a : Attribute F) (e : Error) → served_by a ≡ err e → IsRaising e a
  unfolding served_by
  served_by-IsRaising a e h = elim (Bool-cases (is_private a.name)) [
    | inl private ↦ absurd (ground arith)
    | inr public ↦
        let (found, gets) = bound_raises a.static a.got e (rw (public) at h) in
        (public, found, gets)
  ]

  -- how a scan that returns treats its first attribute
  scan_step :
      (a : Attribute F) (attributes : List (Attribute F)) (out : List (Text × F))
      → scan (a ∷ attributes) ≡ ok out
      → ((served_by a ≡ ok none) × (scan attributes ≡ ok out))
        ⊎ ((f : F) × (rest : List (Text × F)) × (served_by a ≡ ok (some f))
            × (scan attributes ≡ ok rest)
            × (out ≡ (a.name, f) ∷ rest)
            × (is_method_name a.name ≡ true))
  unfolding scan
  scan_step a attributes out h = elim (Result-cases (served_by a)) [
    | inr (e, fails) ↦ absurd (ground arith)
    | inl (none, skipped) ↦ inl (skipped, rw (skipped, scan) at h)
    | inl (some f, served) ↦ elim (Result-cases (scan attributes)) [
      | inr (e, fails) ↦ absurd (ground arith)
      | inl (rest, found) ↦ inr (
        f,
        rest,
        served,
        found,
        ground arith,
        ground (arith, is_method_name-public a.name (served_by-IsCallable a f served).1),
      )
    ]
  ]

  -- an attribute that is skipped is not callable, and one that is served is so by its own callable
  skipped_lem :
      (a : Attribute F) (name : Text) (f : F) → served_by a ≡ ok none → IsCallable name f a → ⊥
  skipped_lem a name f skipped offered =
      let served = IsCallable-served_by name a f offered in ground arith

  served_lem :
      (a : Attribute F) (g : F) (name : Text) (f : F)
      → served_by a ≡ ok (some g)
      → ((a.name ≡ name) × (g ≡ f)) ↔ IsCallable name f a
  served_lem a g name f served = (
    (λ (named, same).
        subst (λ n. IsCallable n f a) named
          (subst (λ c. IsCallable a.name c a) same (served_by-IsCallable a g served))),
    (λ offered. (offered.0, (let again = IsCallable-served_by name a f offered in ground arith))),
  )

  scan-Served :
      (attributes : List (Attribute F)) (out : List (Text × F)) (name : Text) (f : F)
      → scan attributes ≡ ok out
      → (Served name f out ↔ Offered name f attributes)
        × (Served name f out → is_method_name name ≡ true)
  unfolding scan
  scan-Served [] out name f h =
      let same : [] ≡ out = ground arith in
      subst (λ o. (Served name f o ↔ ⊥) × (Served name f o → is_method_name name ≡ true)) same
        (((λ i. i), (λ i. i)), (λ i. absurd i))
  scan-Served (a ∷ attributes) out name f h = elim (scan_step a attributes out h) [
    | inl (skipped, found) ↦
        let (iff, named) = scan-Served attributes out name f found in
        (
          (
            (λ i. inr (iff.0 i)),
            (λ i. elim i [
              | inl offered ↦ absurd (skipped_lem a name f skipped offered)
              | inr later ↦ iff.1 later
            ]),
          ),
          named,
        )
    | inr (g, rest, served, found, same, fits) ↦
        let (iff, named) = scan-Served attributes rest name f found in
        let here = served_lem a g name f served in
        subst
          (λ o.
            (Served name f o ↔ Offered name f (a ∷ attributes))
            × (Served name f o → is_method_name name ≡ true))
          (sym same)
          (
            (
              (λ i. elim i [ inl q ↦ inl (here.0 q) | inr later ↦ inr (iff.0 later) ]),
              (λ i. elim i [ inl q ↦ inl (here.1 q) | inr later ↦ inr (iff.1 later) ]),
            ),
            (λ i. elim i [
              | inl q ↦ subst (λ n. is_method_name n ≡ true) q.0 fits
              | inr later ↦ named later
            ]),
          )
  ]

  -- a public callable under a name that cannot travel
  abbrev pub SomeUnnameable : List (Attribute F) → Type 0
  SomeUnnameable attributes =
      (name : Text) × (f : F) × Offered name f attributes × (is_method_name name ≡ false)

  -- why a scan raises
  abbrev Blamed : Error → List (Attribute F) → Type 0
  Blamed e attributes = ((e ≡ value_error) × SomeUnnameable attributes) ⊎ SomeRaising e attributes

  later_Blamed :
      (e : Error) (a : Attribute F) (attributes : List (Attribute F))
      → Blamed e attributes
      → Blamed e (a ∷ attributes)
  later_Blamed e a attributes (inl (same, (name, f, offered, bad))) =
      inl (same, (name, f, inr offered, bad))
  later_Blamed e a attributes (inr raising) = inr (inr raising)

  scan_raises :
      (attributes : List (Attribute F)) (e : Error) → scan attributes ≡ err e → Blamed e attributes
  unfolding scan
  scan_raises [] e h = absurd (ground arith)
  scan_raises (a ∷ attributes) e h = elim (Result-cases (served_by a)) [
    | inr (x, fails) ↦
        let same : x ≡ e = ground arith in inr (inl (served_by-IsRaising a e (fails ∙ ap err same)))
    | inl (none, skipped) ↦
        later_Blamed e a attributes (scan_raises attributes e (rw (skipped, scan) at h))
    | inl (some f, served) ↦
        let mine = served_by-IsCallable a f served in
        elim (Bool-cases (is_ascii a.name && is_identifier a.name)) [
          | inr bad ↦
              inl (ground arith, (a.name, f, inl mine, is_method_name-public a.name mine.1 ∙ bad))
          | inl good ↦ elim (Result-cases (scan attributes)) [
            | inl (rest, found) ↦ absurd (ground arith)
            | inr (x, fails) ↦
                let same : x ≡ e = ground arith in
                later_Blamed e a attributes (scan_raises attributes e (fails ∙ ap err same))
          ]
        ]
  ]

  -- A scan serves just the public callables of the object that are no classes and that
  -- `getattr_static` finds to be callable or a classmethod, or does not find, each under a name that
  -- a batch accepts. Or it raises `ValueError`, and then one of them has a name that no batch accepts;
  -- or it raises what one of the public attributes that it reads raised, which is not the
  -- `AttributeError` of an attribute that `getattr_static` does not find.
  pub scan_lem :
      (attributes : List (Attribute F))
      → ((out : List (Text × F)) × (scan attributes ≡ ok out)
          × ((name : Text) (f : F)
              → (Served name f out ↔ Offered name f attributes)
                × (Served name f out → is_method_name name ≡ true)))
        ⊎ ((scan attributes ≡ err value_error) × SomeUnnameable attributes)
        ⊎ ((e : Error) × (scan attributes ≡ err e) × SomeRaising e attributes)
  scan_lem attributes = elim (Result-cases (scan attributes)) [
    | inl (out, e) ↦ inl (out, e, (λ name f. scan-Served attributes out name f e))
    | inr (x, e) ↦ elim (scan_raises attributes x e) [
      | inl (same, bad) ↦ inr (inl (e ∙ ap err same, bad))
      | inr raising ↦ inr (inr (x, e, raising))
    ]
  ]
