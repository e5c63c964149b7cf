-- ===== src/Watch/Silence.antt =====
-- What a stream with `fields=` keeps quiet about. The registry's history is a parameter: the
-- version and the digest of the fields that the cache would answer at each moment.
use tinyray.Common.{ℕ, ◌≤◌, List, [], ◌∷◌, Option, none, some, true, ◌≡◌, ◌⊎◌, arith}
use tinyray.Errors.{ok}
use tinyray.Value.{Value}
use tinyray.Watch.{Watching, Look, known, step, give, moved, compare_version}

-- Between two moments of the same version the fields stay the same.
abbrev pub IsVersioned : (ℕ → Option ℕ) → (ℕ → Option ℕ) → Type 0
IsVersioned version digest =
    (s m t v : ℕ) → s ≤ m → m ≤ t → version s ≡ some v → version t ≡ some v → digest m ≡ digest t

module _ (version digest : ℕ → Option ℕ) where
  -- The stream knows the fields as of the moment `at`, and a version from before it.
  abbrev pub Knows : Watching → ℕ → ℕ → Type 0
  Knows w before at =
      (w.has_fields ≡ true)
      × (version before ≡ some w.seen)
      × (w.digest ≡ known (digest at))
      × (before ≤ at)

  -- The looks, each with the moments at which it read the version and the fields, in order from a
  -- moment on.
  abbrev pub InOrder : {S : Type 0} → ℕ → List (Look S × ℕ × ℕ) → Type 0
  InOrder from [] = Unit
  InOrder from ((look, a, b) ∷ looks) =
      (look.version ≡ version a) × (look.fields ≡ digest b) × (from ≤ a) × (a ≤ b) × InOrder b looks

  -- What a stream hands over renews what it knows: the fields as it read them for this very
  -- snapshot, and the version from before that.
  pub give-Knows :
      {S : Type 0} (w w' : Watching) (look : Look S) (a b : ℕ) (s : S)
      → w.has_fields ≡ true
      → look.version ≡ version a
      → look.fields ≡ digest b
      → a ≤ b
      → step look w ≡ (ok (give s), w')
      → Knows w' a b
  unfolding step compare_version moved
  give-Knows w w' look a b s hf hv hd hab h = ground arith

  abbrev IsAsKnown : {S : Type 0} → Option ℕ → Look S × ℕ × ℕ → Type 0
  IsAsKnown known_fields (look, a, b) =
      (look.version ≡ none) ⊎ (known_fields ≡ digest a) ⊎ (known_fields ≡ digest b)
