-- ===== src/Roster/Methods.antt =====
-- python/tinyray/__init__.py: `Handle.__init__`, `Handle.__getattr__` and `Handle.label`. What a name
-- of a handle means; the properties (`pool`, `slot` and the others) never get here.
use tinyray.Common.{
  ℕ, zero, suc, ◌+◌, ◌-◌, ◌/◌, ◌%◌, ◌^◌, List, [], ◌∷◌, ◌++◌, none, some, Bool, true, false,
  if◌then◌else◌, ltb, ◌==◌, any, ◌≡◌, ◌⊎◌, arith,
}
use tinyray.Common.Decimal.{decimal}
use tinyray.Common.Text.{Text, codes, text_eq}
use tinyray.Errors.{Result, ok, err, attribute_error}
use tinyray.Rpc.{Error}
use tinyray.Roster.{NativeMember, Handle, pool_of, id_of, slot_of, incarnation_of}

-- what an attribute of a handle is
pub data Meaning : Type 0 where
  the_state : Meaning
  method : Text → Meaning

-- name.startswith("_")
abbrev pub begins_private : Text → Bool
begins_private [] = false
begins_private (c ∷ s) = c == b'_'

abbrev pub in_methods : Text → List Text → Bool
in_methods name methods = any (λ served. text_eq served name) methods

-- Handle.__getattr__, for a handle with the methods of its pool
unfoldable pub attribute : List Text → Text → Result Error Meaning
attribute methods name =
    if text_eq name (codes "state")
    then ok the_state
    else if begins_private name
    then err attribute_error
    else if in_methods name methods
    then ok (method name)
    else err attribute_error

-- Handle.__init__: every field is written; the state is left out
unfoldable pub handle_of : NativeMember → Handle
handle_of raw = record {
  native = raw;
  overrides = some (record {
    pool = some raw.pool;
    id = some raw.id;
    slot = some raw.slot;
    incarnation = some raw.incarnation;
    ready = some raw.ready;
  });
}

hex_digit : ℕ → ℕ
hex_digit d = if ltb d 10 then b'0' + d else b'a' + d - 10

-- f"{n:0kx}", for n below 16 ** k
unfoldable pub hex : ℕ → ℕ → Text
unfolding hex_digit
hex zero n = []
hex (suc k) n = hex k (n / 16) ++ hex_digit (n % 16) ∷ []

-- the label that Python makes
unfoldable pub own_label : Handle → Text
own_label h =
    let seat : Text = elim (slot_of h) [ some k ↦ decimal k | none ↦ hex 4 (id_of h % 2 ^ 16) ] in
    pool_of h ++ (b'/' ∷ seat ++ (b'#' ∷ hex 3 (incarnation_of h % 2 ^ 12)))

-- Handle.label, with the label of the native member
unfoldable pub label : Text → Handle → Text
label native h = elim h.overrides [ none ↦ native | some o ↦ own_label h ]

-- A handle has a method of a name only if the pool serves the name, which is not private; every other
-- name but `state` raises `AttributeError`.
pub attribute_lem :
    (methods : List Text) (name : Text)
    → ((text_eq name (codes "state") ≡ true) × (attribute methods name ≡ ok the_state))
      ⊎ ((in_methods name methods ≡ true)
          × (begins_private name ≡ false)
          × (attribute methods name ≡ ok (method name)))
      ⊎ (((in_methods name methods ≡ false) ⊎ (begins_private name ≡ true))
          × (attribute methods name ≡ err attribute_error))
unfolding attribute
attribute_lem methods name = ground arith
