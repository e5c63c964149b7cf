-- ===== src/Command.antt =====
-- python/tinyray/registry.py: the command `tinyray`. Argument parsing is argparse's, and the registry
-- runs in the native module: what `serve_registry` ends with is a parameter.
use tinyray.Common.{ℕ, zero, suc, [], ◌∷◌, true, ◌||◌, if◌then◌else◌, ◌==◌, ◌≡◌, refl, arith}
use tinyray.Common.Decimal.{decimal, int_of, int_of-decimal, is_digit-decimal, decimal-Lacks}
use tinyray.Common.Int.{ℤ, pos, negsuc}
use tinyray.Common.Text.{Text, codes, is_digit, is_digit_code, Lacks}
use tinyray.Errors.{Exn, Result, ok, err, ◌>>=◌, value_error, other_error}
use tinyray.Rpc.{Error}

-- text.lstrip("+-")
unfoldable pub without_signs : Text → Text
without_signs [] = []
without_signs (c ∷ s) = if c == b'-' || c == b'+' then without_signs s else c ∷ s

abbrev pub negative : ℕ → ℤ
negative zero = pos zero
negative (suc n) = negsuc n

abbrev pub digits_or_error : (ℕ → ℤ) → Text → Result Error ℤ
digits_or_error sign s = if is_digit s then ok (sign (int_of s)) else err value_error

-- int(text), for a text of signs and digits: one sign at most
unfoldable pub int_text : Text → Result Error ℤ
int_text [] = err value_error
int_text (c ∷ s) =
    if c == b'-'
    then digits_or_error negative s
    else if c == b'+'
    then digits_or_error pos s
    else digits_or_error pos (c ∷ s)

-- _not_a_length
abbrev pub argument_error : Error
argument_error = other_error (codes "ArgumentTypeError")

unfoldable pub lease_of : ℤ → Result Error ℕ
lease_of (pos ms) = ok ms
lease_of (negsuc n) = err argument_error

-- _lease_ms
unfoldable pub lease_ms : Text → Result Error ℕ
lease_ms text =
    if is_digit (without_signs text) then int_text text >>= lease_of else err argument_error

-- How the native registry ends, as `main` sees it.
pub data RegistryEnd : Type 0 where
  returned : RegistryEnd
  interrupted : RegistryEnd
  os_error : RegistryEnd
  raised : Error → RegistryEnd

-- the exit code of `main`, or what it raises: it handles OSError, ValueError and RuntimeError
unfoldable pub exit_code : RegistryEnd → Result Error ℕ
exit_code returned = ok 0
exit_code interrupted = ok 0
exit_code os_error = ok 2
exit_code (raised Exn.value_error) = ok 2
exit_code (raised Exn.runtime_error) = ok 2
exit_code (raised e) = err e

without_signs_same : (s : Text) → Lacks b'-' s → Lacks b'+' s → without_signs s ≡ s
unfolding without_signs
without_signs_same [] h k = refl
without_signs_same (c ∷ s) (h, _) (k, _) = ground arith

without_signs-decimal : (n : ℕ) → without_signs (decimal n) ≡ decimal n
unfolding is_digit_code
without_signs-decimal n =
    without_signs_same (decimal n) (decimal-Lacks b'-' n refl) (decimal-Lacks b'+' n refl)

int_text_same :
    (s : Text) → Lacks b'-' s → Lacks b'+' s → is_digit s ≡ true → int_text s ≡ ok (pos (int_of s))
unfolding int_text is_digit
int_text_same [] h k d = absurd (ground arith)
int_text_same (c ∷ s) (h, _) (k, _) d = ground arith

-- The command takes a lease of any length that is written in digits, and refuses a negative one as
-- an argument that is no length of time.
pub lease_ms-decimal :
    (n : ℕ)
    → (lease_ms (decimal n) ≡ ok n) × (lease_ms (b'-' ∷ decimal (suc n)) ≡ err argument_error)
unfolding lease_ms lease_of is_digit_code int_text without_signs
lease_ms-decimal n =
    let plain =
      int_text_same (decimal n) (decimal-Lacks b'-' n refl) (decimal-Lacks b'+' n refl)
        (is_digit-decimal n) in
    (
      rw (without_signs-decimal n, is_digit-decimal n, plain, int_of-decimal n) refl,
      rw (without_signs-decimal (suc n), is_digit-decimal (suc n), int_of-decimal (suc n)) refl,
    )
