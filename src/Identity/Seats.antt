-- ===== src/Identity/Seats.antt =====
-- What the readers of a token recover from it.
use tinyray.Common.{
  ℕ, ◌++◌, ◌∷◌, [], Option, some, ◌≡◌, refl, ap, ◌∙◌, sym, arith, append_assoc, false, All-append,
  all-append,
}
use tinyray.Common.Text.{
  Text, Lacks, is_digit_code, is_digit, before, after, before-append, after-append,
}
use tinyray.Common.Decimal.{decimal, int_of-decimal, decimal-Lacks, is_digit-decimal}
use tinyray.Errors.{ok, err, value_error}
use tinyray.Identity.{identity, seat_of, seat_key, call_context}

module _ (pool : Text) (slot : Option ℕ) (ident incarnation : ℕ) (no_slash : Lacks b'/' pool) where
  after-identity :
      after b'/' (identity pool slot ident incarnation)
      ≡ decimal (seat_key slot ident) ++ b'#' ∷ decimal incarnation
  unfolding identity
  after-identity = after-append b'/' pool _ no_slash

  seat-identity :
      before b'#' (after b'/' (identity pool slot ident incarnation))
      ≡ decimal (seat_key slot ident)
  unfolding is_digit_code
  seat-identity =
      ap (before b'#') after-identity
      ∙ before-append b'#' _ _ (decimal-Lacks b'#' (seat_key slot ident) refl)

  tenure-identity :
      after b'#' (after b'/' (identity pool slot ident incarnation)) ≡ decimal incarnation
  unfolding is_digit_code
  tenure-identity =
      ap (after b'#') after-identity
      ∙ after-append b'#' _ _ (decimal-Lacks b'#' (seat_key slot ident) refl)

  pool-identity : before b'/' (identity pool slot ident incarnation) ≡ pool
  unfolding identity
  pool-identity = before-append b'/' pool _ no_slash

  -- The seat is read back from the token of a member whose pool name has no slash. For a member
  -- without a seat the number read is its id.
  pub seat_of-identity :
      {V : Type 0}
      → seat_of {V = V} (identity pool slot ident incarnation) ≡ ok (seat_key slot ident)
  unfolding seat_of
  seat_of-identity = rw (seat-identity, is_digit-decimal) (rw int_of-decimal)

  -- A served method sees the pool, the tenure and the seat of its caller, if the caller's pool name
  -- has no slash. For a caller without a seat the `slot` is its id, and never `None`.
  pub call_context-identity :
      (request_id : Text)
      → call_context (identity pool slot ident incarnation) request_id ≡ record {
        identity = identity pool slot ident incarnation;
        pool = pool;
        slot = some (seat_key slot ident);
        incarnation = incarnation;
        request_id = request_id;
      }
  unfolding call_context
  call_context-identity request_id =
      rw (seat-identity, tenure-identity, pool-identity, is_digit-decimal (seat_key slot ident))
        (rw (is_digit-decimal incarnation, int_of-decimal (seat_key slot ident))
          (rw (int_of-decimal incarnation)))

not-is_digit-slash : (q d : Text) → is_digit (q ++ b'/' ∷ d) ≡ false
unfolding is_digit is_digit_code
not-is_digit-slash [] d = refl
not-is_digit-slash (c ∷ q) d = ground (arith, all-append is_digit_code q (b'/' ∷ d))

-- A pool whose name has a slash, and no `#` behind the first one, has tokens that name no seat.
pub seat_of-slash :
    {V : Type 0} (p q : Text) (slot : Option ℕ) (ident incarnation : ℕ)
    → Lacks b'/' p
    → Lacks b'#' q
    → seat_of {V = V} (identity (p ++ b'/' ∷ q) slot ident incarnation) ≡ err value_error
unfolding seat_of identity
seat_of-slash p q slot ident incarnation hp hq =
    let key = decimal (seat_key slot ident) in
    let tail = b'#' ∷ decimal incarnation in
    let rest = b'/' ∷ key ++ tail in
    let lacks =
      All-append _ q (b'/' ∷ key) hq
        (unfold is_digit_code in (omega arith, decimal-Lacks b'#' (seat_key slot ident) refl)) in
    let seat_eq =
      ap (λ t. before b'#' (after b'/' t)) (append_assoc p (b'/' ∷ q) rest)
      ∙ ap (before b'#') (after-append b'/' p (q ++ rest) hp)
      ∙ ap (before b'#') (sym (append_assoc q (b'/' ∷ key) tail))
      ∙ before-append b'#' (q ++ b'/' ∷ key) (decimal incarnation) lacks in
    rw (seat_eq, not-is_digit-slash q key)
