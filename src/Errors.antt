-- ===== src/Errors.antt =====
-- python/tinyray/_errors.py: the exceptions that the package raises, as values, with the built-in
-- ones that it raises or handles. An exception carries the fields that a handler can read; the
-- wording of its message is not modelled, but where the message is a field (`RemoteError`).
use tinyray.Common.{◌≡◌, refl, ◌⊎◌, inl, inr, Bool, true, false, ℕ, List}
use tinyray.Common.Text.{Text}

-- `V` is the type of decoded application values, which `BatchError` holds.
pub data Exn (V : Type 0) : Type 0 where
  unreachable not_delivered outcome_unknown fenced stale seat_taken not_found policy_error : Exn V
  remote_error : Text → Text → Text → Exn V
  batch_error : ℕ → List V → Exn V → Exn V
  value_error type_error attribute_error timeout_error runtime_error assertion_error : Exn V
  unicode_error blob_error decode_error validation_error overflow_error recursion_error : Exn V
  other_error : Text → Exn V

module _ {V : Type 0} where
  -- isinstance(e, Unreachable)
  abbrev pub is_unreachable : Exn V → Bool
  is_unreachable unreachable = true
  is_unreachable not_delivered = true
  is_unreachable outcome_unknown = true
  is_unreachable _ = false

  -- isinstance(e, TinyrayError)
  abbrev pub is_tinyray_error : Exn V → Bool
  is_tinyray_error unreachable = true
  is_tinyray_error not_delivered = true
  is_tinyray_error outcome_unknown = true
  is_tinyray_error fenced = true
  is_tinyray_error stale = true
  is_tinyray_error seat_taken = true
  is_tinyray_error (remote_error type_name message trace) = true
  is_tinyray_error (batch_error index results cause) = true
  is_tinyray_error _ = false

-- What a call returns or raises.
pub data Result {ℓ κ} (E : Type ℓ) (A : Type κ) : Type (ℓ ⊔ κ) where
  ok : A → Result E A
  err : E → Result E A

infixl 5 ◌>>=◌ ◌>>◌
abbrev pub ◌>>=◌ {ℓ κ μ} :
    {E : Type ℓ} {A : Type κ} {B : Type μ} → Result E A → (A → Result E B) → Result E B
ok a >>= f = f a
err e >>= f = err e

abbrev pub ◌>>◌ {ℓ κ μ} :
    {E : Type ℓ} {A : Type κ} {B : Type μ} → Result E A → Result E B → Result E B
m >> k = m >>= λ _. k

-- `if b: raise e`
abbrev pub raise_if {ℓ} : {E : Type ℓ} → Bool → E → Result E (Unit {0})
raise_if true e = err e
raise_if false e = ok tt

pub Result-cases {ℓ κ} :
    {E : Type ℓ} {A : Type κ} (r : Result E A) → ((a : A) × (r ≡ ok a)) ⊎ ((e : E) × (r ≡ err e))
Result-cases (ok a) = inl (a, refl)
Result-cases (err e) = inr (e, refl)
