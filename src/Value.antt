-- ===== src/Value.antt =====
-- The Python values that travel as MessagePack, as far as the package looks into them: None, text,
-- lists and dicts. Any other value (numbers, bytes, tuples, sets, dataclasses, BlobRefs) is `other`.
use tinyray.Common.{
  ℕ, List, [], ◌∷◌, Option, none, some, Bool, true, false, ◌≡◌, refl, ap, all, ◌&&◌, any,
  if◌then◌else◌,
}
use tinyray.Common.Text.{Text, text_eq}

mutual
  pub data Value : Type 0 where
    null : Value
    text : Text → Value
    list : Items → Value
    dict : Entries → Value
    other : ℕ → Value

  pub data Items : Type 0 where
    nil : Items
    cons : Value → Items → Items

  pub data Entries : Type 0 where
    end : Entries
    entry : Value → Value → Entries → Entries

abbrev pub to_list : Items → List Value
to_list nil = []
to_list (cons x xs) = x ∷ to_list xs

abbrev pub of_list : List Value → Items
of_list [] = nil
of_list (x ∷ xs) = cons x (of_list xs)

abbrev pub to_pairs : Entries → List (Value × Value)
to_pairs end = []
to_pairs (entry k v es) = (k, v) ∷ to_pairs es

pub to_list-of_list : (xs : List Value) → to_list (of_list xs) ≡ xs
to_list-of_list [] = refl
to_list-of_list (x ∷ xs) = ap (λ r. x ∷ r) (to_list-of_list xs)

abbrev pub is_text : Value → Bool
is_text (text t) = true
is_text _ = false

-- k == "…", for a key of a dict
abbrev pub is_key : Text → Value → Bool
is_key name (text t) = text_eq t name
is_key name _ = false

-- payload.get("…")
unfoldable pub get : Text → Entries → Option Value
get name end = none
get name (entry k v es) = if is_key name k then some v else get name es

-- "…" in payload
unfoldable pub has_key : Text → Entries → Bool
has_key name end = false
has_key name (entry k v es) = if is_key name k then true else has_key name es

-- set(payload) <= {…}
unfoldable pub keys_among : List Text → Entries → Bool
keys_among names end = true
keys_among names (entry k v es) = any (λ name. is_key name k) names && keys_among names es

-- set(payload) == {…}
unfoldable pub keys_are : List Text → Entries → Bool
unfolding keys_among has_key
keys_are names es = keys_among names es && all (λ name. has_key name es) names
