-- ===== src/Identity.antt =====
-- python/tinyray/__init__.py, `_identity` and `_seat_of`, and python/tinyray/_serve.py,
-- `CallContext`: the fencing token `pool/seat#tenure`, its print and the two places that read it.
pub mod Injective
pub mod Seats
use tinyray.Common.{ℕ, ◌++◌, ◌∷◌, [], Option, none, some, true, false, if◌then◌else◌, ◌≡◌, refl}
use tinyray.Common.Text.{Text, codes, before, after, is_digit}
use tinyray.Common.Decimal.{decimal, int_of}
use tinyray.Errors.{Exn, value_error, Result, ok, err}

-- slot if slot is not None else ident
abbrev pub seat_key : Option ℕ → ℕ → ℕ
seat_key none ident = ident
seat_key (some slot) ident = slot

-- f"{pool}/{slot if slot is not None else ident}#{incarnation}"
unfoldable pub identity : Text → Option ℕ → ℕ → ℕ → Text
identity pool slot ident incarnation =
    pool ++ (b'/' ∷ decimal (seat_key slot ident) ++ (b'#' ∷ decimal incarnation))

unfoldable pub seat_of : {V : Type 0} → Text → Result (Exn V) ℕ
seat_of token =
    let seat = before b'#' (after b'/' token) in
    if is_digit seat then ok (int_of seat) else err value_error

pub record CallContext : Type 0 where
  pub identity : Text
  pub pool : Text
  pub slot : Option ℕ
  pub incarnation : ℕ
  pub request_id : Text

-- CallContext.__init__
unfoldable pub call_context : Text → Text → CallContext
call_context token request_id =
    let seat = before b'#' (after b'/' token) in
    let tenure = after b'#' (after b'/' token) in
    record {
      identity = token;
      pool = before b'/' token;
      slot = if is_digit seat then some (int_of seat) else none;
      incarnation = if is_digit tenure then int_of tenure else 0;
      request_id = request_id;
    }
