-- ===== src/Process/Checks.antt =====
-- The checks that `join` makes of its arguments, before it opens anything.
use tinyray.Common.{
  ℕ, List, [], ◌∷◌, Option, none, some, Bool, true, false, not, ◌||◌, ◌&&◌, if◌then◌else◌, any, leb,
}
use tinyray.Common.Int.{ℤ, pos, negsuc, is_between, or_zero}
use tinyray.Common.Text.{Text, codes, text_eq}
use tinyray.Errors.{
  Result, ok, err, ◌>>=◌, ◌>>◌, raise_if, runtime_error, value_error, policy_error,
}
use tinyray.Rpc.{Error}
use tinyray.Endpoint.{checked_pool_name, from_env, max_seat, registry_endpoint}

-- The arguments of `join`: `coalesce_ms` is none where it is no int, and `serves` says whether there
-- is an object to serve.
pub record Request : Type 0 where
  pub pool : Text
  pub policy : Text
  pub slot : Option ℤ
  pub size : Option ℤ
  pub url : Option Text
  pub serves : Bool
  pub coalesce_ms : Option ℤ
  pub registry_url : Option Text

-- POLICIES
abbrev pub policies : List Text
policies = codes "churn" ∷ codes "serving" ∷ codes "stateful" ∷ codes "collective" ∷ []

-- policy in ("stateful", "collective")
abbrev pub slotted : Text → Bool
slotted policy = text_eq policy (codes "stateful") || text_eq policy (codes "collective")

-- _RANK_VARS and _SIZE_VARS
abbrev pub rank_vars : List Text
rank_vars =
    codes "TINYRAY_SLOT" ∷ codes "RANK" ∷ codes "SLURM_PROCID" ∷ codes "OMPI_COMM_WORLD_RANK" ∷ []

abbrev pub size_vars : List Text
size_vars =
    codes "TINYRAY_SIZE"
    ∷ codes "WORLD_SIZE"
    ∷ codes "SLURM_NTASKS"
    ∷ codes "OMPI_COMM_WORLD_SIZE"
    ∷ []

-- a number of the launcher's, where the caller passed none and the policy wants one
unfoldable pub or_launched :
    Bool → Option ℤ → (Text → Option Text) → List Text → Result Error (Option ℤ)
or_launched false given environ names = ok given
or_launched true (some z) environ names = ok (some z)
or_launched true none environ names = do
  got ← from_env environ names
  ok (elim got [ none ↦ none | some n ↦ some (pos n) ])

abbrev pub is_none {ℓ} : {A : Type ℓ} → Option A → Bool
is_none none = true
is_none (some a) = false

-- lo <= z <= _MAX_SEAT, for a number or None
unfoldable pub checked_number : ℕ → Option ℤ → Result Error (Option ℕ)
checked_number lo none = ok none
checked_number lo (some z) =
    if is_between lo max_seat z then ok (some (or_zero z)) else err policy_error

abbrev pub is_outside : Option ℕ → Option ℕ → Bool
is_outside (some slot) (some size) = leb size slot
is_outside _ _ = false

unfoldable pub checked_seats :
    Text → Option ℤ → Option ℤ → (Text → Option Text) → Result Error (Option ℕ × Option ℕ)
unfolding or_launched checked_number
checked_seats policy given_slot given_size environ = do
  launched ← or_launched (slotted policy) given_slot environ rank_vars
  raise_if (slotted policy && is_none launched) policy_error
  launched_size ← or_launched (slotted policy) given_size environ size_vars
  slot ← checked_number 0 launched
  size ← checked_number 1 launched_size
  raise_if (is_outside slot size) policy_error
  ok (slot, size)

abbrev pub is_nonnegative : Option ℤ → Bool
is_nonnegative none = false
is_nonnegative (some (pos n)) = true
is_nonnegative (some (negsuc n)) = false

-- What the checks leave: the pool, the seat, the size and the registry's endpoint.
pub record Checked : Type 0 where
  pub pool : Text
  pub slot : Option ℕ
  pub size : Option ℕ
  pub endpoint : Text

unfoldable pub check_join : Request → (Text → Option Text) → Option ℕ → Result Error Checked
check_join r environ client = do
  raise_if (not (is_none client)) runtime_error
  raise_if (not (is_nonnegative r.coalesce_ms)) value_error
  name ← checked_pool_name r.pool
  raise_if (not (any (λ known. text_eq known r.policy) policies)) policy_error
  seats ← checked_seats r.policy r.slot r.size environ
  endpoint ← registry_endpoint r.registry_url (environ (codes "TINYRAY_REGISTRY"))
  ok (record { pool = name; slot = seats.0; size = seats.1; endpoint = endpoint })
