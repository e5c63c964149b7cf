-- ===== src/Endpoint/Env.antt =====
-- Seats from the launcher's environment, and pool names.
use tinyray.Common.{
  ℕ, ◌≤◌, List, [], ◌∷◌, Option, some, ◌≡◌, ◌↔◌, arith, length, Option-cases, Bool-cases, inl, inr,
}
use tinyray.Common.Text.{Text, strip, is_digit, is_ascii}
use tinyray.Errors.{ok}
use tinyray.RequestId.Pinning.{IsPrintable, printable→tests, tests→printable}
use tinyray.Endpoint.{from_env, seat_of_digits, without_dashes, max_seat, checked_pool_name}

seat_of_digits-le : (s : Text) (n : ℕ) → seat_of_digits s ≡ ok n → n ≤ max_seat
unfolding seat_of_digits
seat_of_digits-le [] n h = cc
seat_of_digits-le (c ∷ s) n h = ground arith

-- A seat or a world size taken from the environment fits the wire's unsigned 63 bits, whatever the
-- variables hold.
pub from_env-le :
    (environ : Text → Option Text) (names : List Text) (n : ℕ)
    → from_env environ names ≡ ok (some n)
    → n ≤ max_seat
unfolding from_env
from_env-le environ [] n h = ground arith
from_env-le environ (name ∷ names) n h = elim (Option-cases (environ name)) [
  | inl e ↦ from_env-le environ names n (ground arith)
  | inr (v, e) ↦ elim (Bool-cases (is_digit (without_dashes (strip v)))) [
    | inl d ↦ ground (arith, seat_of_digits-le (strip v) n)
    | inr d ↦ from_env-le environ names n (ground arith)
  ]
]

-- A pool name is accepted, unchanged, exactly when it is not empty and is printable ASCII.
pub checked_pool_name_iff :
    (name given : Text)
    → (checked_pool_name given ≡ ok name)
      ↔ ((name ≡ given) × (1 ≤ length given) × IsPrintable given)
unfolding checked_pool_name is_ascii
checked_pool_name_iff name [] = ground arith
checked_pool_name_iff name (c ∷ s) = (
  λ h. (ground arith, omega arith, tests→printable (c ∷ s) (ground arith) (ground arith)),
  λ h. ground (arith, printable→tests (c ∷ s) h.2),
)
