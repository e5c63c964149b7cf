-- ===== src/Encode/Limits.antt =====
-- The limits of the interpreter: what a call and a big integer say where they are met or not.
use tinyray.Common.{ℕ, List, true, false, ◌≡◌, ◌⊎◌, inl, inr, sym, Bool-cases}
use tinyray.Common.Int.{ℤ}
use tinyray.Errors.{ok, err, value_error, recursion_error}
use tinyray.Encode.{Call, PyObject, Prepared, ext, Encoder, Stop, raises}
use tinyray.Encode.Actions.{Act, Gives, stop_ok, stop_err, pure_ok, pure_err}
use tinyray.Encode.Prepare.{entered, big_int, str, is_too_long, ext_big_int}

module _ (E : Encoder) (heap : List PyObject) where
  pub entered_ok :
      (how : Call) (active : List ℕ) (k : ℕ) (run : Act Prepared) (p : Prepared)
      → Gives (entered E heap how active k run) (ok p)
      → Gives run (ok p)
  unfolding entered
  entered_ok how active k run p g = elim (Bool-cases (E.too_deep how active k)) [
    | inl b ↦ absurd (stop_ok (raises recursion_error) p (rw b at g))
    | inr b ↦ rw b at g
  ]

  pub entered_err :
      (how : Call) (active : List ℕ) (k : ℕ) (run : Act Prepared) (e : Stop)
      → Gives (entered E heap how active k run) (err e)
      → ((E.too_deep how active k ≡ true) × (e ≡ raises recursion_error)) ⊎ Gives run (err e)
  unfolding entered
  entered_err how active k run e g = elim (Bool-cases (E.too_deep how active k)) [
    | inl b ↦ inl (b, sym (stop_err _ (raises recursion_error) e (rw b at g)))
    | inr b ↦ inr (rw b at g)
  ]

  pub big_int_ok :
      (z : ℤ) (p : Prepared)
      → Gives (big_int E heap z) (ok p)
      → (is_too_long E.max_digits z ≡ false) × (ext ext_big_int (str z) ≡ p)
  unfolding big_int
  big_int_ok z p g = elim (Bool-cases (is_too_long E.max_digits z)) [
    | inl b ↦ absurd (stop_ok (raises value_error) p (rw b at g))
    | inr b ↦ (b, pure_ok (ext ext_big_int (str z)) p (rw b at g))
  ]

  pub big_int_err :
      (z : ℤ) (e : Stop)
      → Gives (big_int E heap z) (err e)
      → (is_too_long E.max_digits z ≡ true) × (e ≡ raises value_error)
  unfolding big_int
  big_int_err z e g = elim (Bool-cases (is_too_long E.max_digits z)) [
    | inl b ↦ (b, sym (stop_err _ (raises value_error) e (rw b at g)))
    | inr b ↦ absurd (pure_err (ext ext_big_int (str z)) e (rw b at g))
  ]
