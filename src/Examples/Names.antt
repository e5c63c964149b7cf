-- ===== src/Examples/Names.antt =====
-- Tokens, request ids, addresses and seats of one engine pool.
use tinyray.Common.{
  ℕ, zero, suc, ◌+◌, ◌∷◌, [], ◌≤◌, ◌<◌, ◌++◌, Option, none, some, true, false, ◌≡◌, refl, arith,
  length, ◌↔◌,
}
use tinyray.Common.Text.{Text, codes, has→Lacks}
use tinyray.Errors.{ok, err, value_error}
use tinyray.Value.{Value}
use tinyray.Identity.{identity, seat_of, call_context}
use tinyray.Identity.Injective.{identity_injective}
use tinyray.Identity.Seats.{call_context-identity, seat_of-slash}
use tinyray.RequestId.{Ids, generated_request_id}
use tinyray.RequestId.Unique.{generated_request_id_distinct, batch_request_id_distinct}
use tinyray.Examples.{toy_sha256}

-- a member in seat 3 and one without a seat whose id is 3
identity_injective_example :
    (codes "engine" ≡ codes "engine") × (◌≡◌ {A = ℕ} 3 3) × (◌≡◌ {A = ℕ} 17 17)
unfolding identity
identity_injective_example =
    identity_injective (codes "engine") (codes "engine") (some 3) none 99 3 17 17 refl

call_context-identity_example :
    call_context (identity (codes "engine") none 99 17) (codes "r-1") ≡ record {
      identity = identity (codes "engine") none 99 17;
      pool = codes "engine";
      slot = some 99;
      incarnation = 17;
      request_id = codes "r-1";
    }
call_context-identity_example =
    call_context-identity (codes "engine") none 99 17 (has→Lacks b'/' (codes "engine") refl)
      (codes "r-1")

seat_of-slash_example :
    seat_of {V = Value} (identity (codes "a/b") (some 3) 99 17) ≡ err value_error
seat_of-slash_example =
    seat_of-slash (codes "a") (codes "b") (some 3) 99 17 (has→Lacks b'/' (codes "a") refl)
      (has→Lacks b'#' (codes "b") refl)

batch_request_id_distinct_example : ◌≡◌ {A = ℕ} 5 5
batch_request_id_distinct_example =
    batch_request_id_distinct toy_sha256 (codes "engine/3#17-12") 5 5 refl

generated_request_id_distinct_example : ◌≡◌ {A = ℕ} 12 12
unfolding generated_request_id tinyray.Common.Decimal.decimal
generated_request_id_distinct_example =
    generated_request_id_distinct toy_sha256 (λ s. refl) {V = Value} (codes "engine/3#17") 12 12
      (codes "engine/3#17-12") (omega arith) (omega arith) refl refl

abbrev ids : Ids
ids = record { pinned = some (codes "outer"); next = 4; who = codes "engine/3#17" }

abbrev launched : Text → Option Text
launched name = some (codes " 5 ")

engine : identity (codes "engine") (some 3) 99 17 ≡ codes "engine/3#17"
unfolding identity tinyray.Common.Decimal.decimal
engine = refl

engine_seat : seat_of {V = ℕ} (codes "engine/3#17") ≡ ok 3
unfolding seat_of tinyray.Common.Text.before tinyray.Common.Text.after tinyray.Common.Text.is_digit
    tinyray.Common.Decimal.int_of
engine_seat = refl
