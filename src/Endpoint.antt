-- ===== src/Endpoint.antt =====
-- The addresses, names and seat numbers that the package accepts: python/tinyray/__init__.py,
-- `_endpoint`, `_advertise`, `_checked_pool_name`, `_checked_method_endpoint` and `_from_env`, and
-- python/tinyray/_rpc.py, `_endpoint`. The environment is a function from a variable's name to its
-- value, and the routing-table probe of `_advertise` is a parameter.
pub mod Agreement
pub mod Env
use tinyray.Common.{
  ℕ, ◌-◌, ◌^◌, List, [], ◌∷◌, ◌++◌, Option, none, some, Bool, true, false, not, ◌||◌, ◌&&◌,
  if◌then◌else◌, any, ltb, ◌==◌,
}
use tinyray.Common.Text.{Text, codes, strip, has, contains, is_empty, is_ascii, is_digit, text_eq}
use tinyray.Common.Decimal.{decimal, int_of}
use tinyray.Errors.{
  Exn, Result, ok, err, ◌>>=◌, ◌>>◌, raise_if, value_error, not_delivered, runtime_error,
}
use tinyray.RequestId.{is_control}
use tinyray.Value.{Value}

abbrev Error : Type 0
Error = Exn Value

abbrev or_else {ℓ} : {A : Type ℓ} → Option A → A → A
or_else none d = d
or_else (some a) d = a

-- _endpoint(explicit), with the value of TINYRAY_REGISTRY
unfoldable pub registry_endpoint : Option Text → Option Text → Result (Exn Value) Text
registry_endpoint explicit variable = do
  let raw = strip (or_else explicit (or_else variable (codes "127.0.0.1:8760")))
  raise_if (is_empty raw) value_error
  raise_if (has b',' raw) value_error
  raise_if (contains (codes "://") raw) value_error
  ok raw

-- any(c in host for c in "/: ")
abbrev pub is_bare_break : ℕ → Bool
is_bare_break c = c == b'/' || c == b':' || c == 32

unfoldable bare_host : Text → Result (Exn Value) Text
bare_host explicit = do
  let host = strip explicit
  raise_if (is_empty host || any is_bare_break host) value_error
  ok host

-- _advertise(), with the value of TINYRAY_ADVERTISE and what the probe finds
unfoldable pub advertise : Option Text → Result (Exn Value) Text → Result (Exn Value) Text
unfolding bare_host
advertise none probe = probe
advertise (some []) probe = probe
advertise (some (c ∷ explicit)) probe = bare_host (c ∷ explicit)

unfoldable pub checked_pool_name : Text → Result (Exn Value) Text
unfolding is_ascii
checked_pool_name name = do
  raise_if (is_empty name) value_error
  raise_if (not (is_ascii name) || any is_control name) value_error
  ok name

unfoldable pub checked_method_endpoint : Text → Result (Exn Value) Text
checked_method_endpoint given = do
  let endpoint = strip given
  raise_if (is_empty endpoint) value_error
  raise_if (contains (codes "://") endpoint) value_error
  raise_if (has b',' endpoint || not (has b':' endpoint)) value_error
  ok endpoint

-- MethodServer.url(advertise), without the tracking
unfoldable pub served_url : Text → ℕ → Text
served_url host port = host ++ b':' ∷ decimal port

-- _rpc._endpoint: the address that a call dials, from the `url` of a handle
unfoldable pub dialled : Option Text → Result (Exn Value) Text
dialled none = err not_delivered
dialled (some endpoint) = do
  raise_if (contains (codes "://") endpoint) not_delivered
  raise_if (is_empty endpoint || not (text_eq (strip endpoint) endpoint) || not (has b':' endpoint))
      not_delivered
  ok endpoint

-- _MAX_SEAT
abbrev pub max_seat : ℕ
max_seat = 2 ^ 63 - 1

-- raw.lstrip("-")
abbrev without_dashes : Text → Text
without_dashes [] = []
without_dashes (c ∷ s) = if c == b'-' then without_dashes s else c ∷ s

-- int(raw) and the range test, where raw.lstrip("-") is all digits: a number with one sign is 0 or
-- below the range, and one with more signs is refused by `int` with the same exception
seat_of_digits : Text → Result (Exn Value) ℕ
seat_of_digits [] = err value_error
seat_of_digits (c ∷ s) =
    if c == b'-'
    then (if is_digit s && int_of s == 0 then ok 0 else err value_error)
    else if ltb max_seat (int_of (c ∷ s))
    then err value_error
    else ok (int_of (c ∷ s))

unfoldable pub from_env : (Text → Option Text) → List Text → Result (Exn Value) (Option ℕ)
unfolding seat_of_digits
from_env environ [] = ok none
from_env environ (n ∷ names) =
    let rest = from_env environ names in
    elim (environ n) [
      | none ↦ rest
      | some v ↦
          let raw = strip v in
          if is_digit (without_dashes raw)
          then (do got ← seat_of_digits raw; ok (some got))
          else rest
    ]
