-- ===== src/RequestId/Bounds.antt =====
-- The length of the ids of `_generated_request_id` and `_batch_request_id`.
use tinyray.Common.{
  ℕ, ◌+◌, ◌-◌, ◌≤◌, ◌<◌, ◌++◌, ◌∷◌, ◌≡◌, arith, length, length-append, length-take,
}
use tinyray.Common.Text.{Text}
use tinyray.Common.Decimal.{decimal, length-decimal_le}
use tinyray.Errors.{ok}
use tinyray.RequestId.{generated_request_id, batch_request_id, max_request_id, slice_to}

length-slice_to : (a b : ℕ) (s : Text) → b ≤ a → length (slice_to a b s) ≤ a - b
unfolding slice_to
length-slice_to a b s h = ground (arith, length-take (a - b) s)

module _ (sha256_hex : Text → Text) (hex_length : (s : Text) → length (sha256_hex s) ≡ 64) where
  -- A generated id has at most 200 characters, whatever the identity and the sequence number.
  pub generated_request_id_bound :
      {V : Type 0} (identity : Text) (sequence : ℕ) (id : Text)
      → generated_request_id sha256_hex {V = V} identity sequence ≡ ok id
      → length id ≤ max_request_id
  unfolding generated_request_id
  generated_request_id_bound identity sequence id h =
      let suffix = b'-' ∷ decimal sequence in
      let fixed = b'~' ∷ sha256_hex identity ++ suffix in
      let cut = slice_to max_request_id (length fixed) identity in
      ground (
        arith,
        hex_length (identity ++ 0 ∷ decimal sequence),
        length-append cut fixed,
        length-slice_to max_request_id (length fixed) identity,
      )

  -- The id of an item of a batch has at most 200 characters, whatever the id of the batch, at the
  -- indices that a batch can have.
  pub batch_request_id_bound :
      (root : Text) (index : ℕ)
      → index < 128
      → length (batch_request_id sha256_hex root index) ≤ max_request_id
  unfolding batch_request_id
  batch_request_id_bound root index h =
      let suffix = b':' ∷ decimal index in
      let digest = sha256_hex root in
      let size = length digest + length suffix + 1 in
      let prefix = slice_to max_request_id size root in
      ground (
        arith,
        hex_length root,
        length-decimal_le 2 index,
        length-append root suffix,
        length-append digest suffix,
        length-append prefix (b'~' ∷ digest ++ suffix),
        length-slice_to max_request_id size root,
      )
