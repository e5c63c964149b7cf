-- ===== src/Registry.antt =====
-- python/tinyray/__init__.py, `RegistryInfo`: what a registry of a protocol number can do.
use tinyray.Common.{none, some, ℕ, List, [], ◌∷◌, Bool, if◌then◌else◌, leb}
use tinyray.Common.Text.{Text, codes}
use tinyray.Errors.{Result, ok, err, value_error}
use tinyray.Rpc.{Error}
use tinyray.Serve.{lookup}

-- RegistryInfo.FEATURES
abbrev pub features : List (Text × ℕ)
features =
    (codes "long_poll", 1) ∷ (codes "publication_ordering", 2) ∷ (codes "native_registry", 3) ∷ []

-- RegistryInfo.supports
unfoldable pub supports : Text → ℕ → Result Error Bool
supports feature protocol = elim (lookup feature features) [
  | none ↦ err value_error
  | some want ↦ ok (leb want protocol)
]

-- [feature for feature in FEATURES if not supports(feature)]
abbrev missing_from : ℕ → List (Text × ℕ) → List Text
missing_from protocol [] = []
missing_from protocol ((name, want) ∷ rest) =
    if leb want protocol then missing_from protocol rest else name ∷ missing_from protocol rest

unfoldable pub missing : ℕ → List Text
missing protocol = missing_from protocol features
