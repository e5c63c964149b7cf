-- ===== src/RequestId/Pinning.antt =====
-- What `request_id` accepts, and what it pins and gives back.
use tinyray.Common.{
  ◌≤◌, ◌<◌, ◌∷◌, [], ◌≡◌, ◌↔◌, refl, arith, length, All, any, all, ltb, true, false,
}
use tinyray.Common.Text.{Text}
use tinyray.Errors.{Exn, Result, ok}
use tinyray.RequestId.{
  Ids, check_request_id, is_control, with_request_id, next_request_id, max_request_id,
}

abbrev pub IsPrintable : Text → Type 0
IsPrintable = All (λ c. (32 ≤ c) × (c < 127))

pub printable→tests :
    (s : Text) → IsPrintable s → (all (λ c. ltb c 128) s ≡ true) × (any is_control s ≡ false)
printable→tests [] h = (refl, refl)
printable→tests (c ∷ s) h = ground (arith, printable→tests s h.1)

pub tests→printable :
    (s : Text) → all (λ c. ltb c 128) s ≡ true → any is_control s ≡ false → IsPrintable s
tests→printable [] h k = tt
tests→printable (c ∷ s) h k = (ground arith, tests→printable s (ground arith) (ground arith))

-- `request_id` accepts a text exactly when it has 1 to 200 characters, all printable ASCII.
pub check_request_id_iff :
    {V : Type 0} (value : Text)
    → (check_request_id {V = V} value ≡ ok tt)
      ↔ ((1 ≤ length value) × (length value ≤ max_request_id) × IsPrintable value)
unfolding check_request_id
check_request_id_iff [] = ground arith
check_request_id_iff (c ∷ s) = (
  λ h. (omega arith, ground arith, tests→printable (c ∷ s) (ground arith) (ground arith)),
  λ h. ground (arith, printable→tests (c ∷ s) h.2),
)

-- Whatever the body does, and whether it raises, the pin that stood before stands after.
pub with_request_id_restores :
    {V A : Type 0} (value : Text) (body : Ids → Result (Exn V) A × Ids) (ids : Ids)
    → (with_request_id value body ids).1.pinned ≡ ids.pinned
unfolding with_request_id
with_request_id_restores value body ids = ground arith

-- A call inside the block goes out under the pinned id, and uses up no generated one.
pub next_request_id_pinned :
    {V : Type 0} (sha256_hex : Text → Text) (value : Text) (ids : Ids)
    → check_request_id {V = V} value ≡ ok tt
    → with_request_id value (next_request_id sha256_hex {V = V}) ids ≡ (ok value, ids)
unfolding with_request_id next_request_id
next_request_id_pinned sha256_hex value ids h = ground arith
