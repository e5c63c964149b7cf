-- ===== src/Encode/Cycles.antt =====
-- What makes `_prepare_bigints` call a value recursive.
use tinyray.Common.{ℕ, List, true, ◌≡◌, ◌⊎◌, any, ◌==◌}
use tinyray.Common.Int.{ℤ}
use tinyray.Errors.{ok}
use tinyray.Encode.{int, Call, PyObject, item_at, Prepared, Encoder, Stop}
use tinyray.Encode.Actions.{Gives}
use tinyray.Encode.Prepare.{is_big, is_too_long, prepare}
use tinyray.Encode.Stops.{Part, Refused}

-- `v` is in `u`, directly or through containers
pub data Leads (heap : List PyObject) (u : ℕ) : ℕ → Type 0 where
  direct : {v : ℕ} → Part (item_at heap u) v → Leads heap u v
  onward : {v w : ℕ} → Leads heap u v → Part (item_at heap v) w → Leads heap u w

-- the value, and what is in it
abbrev pub Inside : List PyObject → ℕ → ℕ → Type 0
Inside heap value v = (value ≡ v) ⊎ Leads heap value v

-- an object of the value that contains itself
abbrev pub Cycle : List PyObject → ℕ → Type 0
Cycle heap value = (v : ℕ) × Inside heap value v × Leads heap v v

-- an integer of the value that is out of range, with more digits than `str` writes
abbrev pub Overlong : Encoder → List PyObject → ℕ → Type 0
Overlong E heap value =
    (v : ℕ) × (z : ℤ) × Inside heap value v
    × (item_at heap v ≡ int z)
    × (is_big z ≡ true)
    × (is_too_long E.max_digits z ≡ true)

-- an object of the value for which the interpreter has no frame left, within some calls
abbrev pub TooDeep : Encoder → List PyObject → ℕ → Type 0
TooDeep E heap value =
    (v : ℕ) × (how : Call) × (active : List ℕ) × Inside heap value v
    × (E.too_deep how active v ≡ true)

-- an object of the value for the parts of which msgspec, or a hook that it called, stopped with `e`
abbrev pub RefusedInside : Encoder → List PyObject → ℕ → Stop → Type 0
RefusedInside E heap value e =
    (v : ℕ) × (n : ℕ) × (inner : List ℕ) × Inside heap value v
    × Refused E heap (prepare E heap n) inner (item_at heap v) e

module _ (E : Encoder) (heap : List PyObject) where
  -- a call for `k`, within `active`, that returned
  Passed : List ℕ → ℕ → Type 0
  Passed active k =
      (n : ℕ) × (how : Call) × (p : Prepared) × Gives (prepare E heap n how active k) (ok p)

  module _ (value : ℕ) where
    Trail : List ℕ → ℕ → Type 0
    Trail active k = (u : ℕ) → any (λ s. s == u) active ≡ true → Leads heap u k
