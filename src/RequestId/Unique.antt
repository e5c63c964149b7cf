-- ===== src/RequestId/Unique.antt =====
-- When two ids of `_generated_request_id` or `_batch_request_id` are the same.
use tinyray.Common.{
  ℕ, Bool-cases, inl, inr, ◌^◌, ◌+◌, ◌≤◌, ◌<◌, ◌++◌, ◌∷◌, ◌≡◌, refl, arith, length, append_assoc,
  length-append, ◌∙◌, sym, leb, true, Bool,
}
use tinyray.Common.Text.{Text, is_digit_code}
use tinyray.Common.Decimal.{decimal, decimal-injective, decimal-Lacks, length-decimal_le}
use tinyray.Errors.{ok}
use tinyray.Identity.Injective.{last_separator}
use tinyray.RequestId.{generated_request_id, batch_request_id, max_request_id, slice_to}

-- Numbers printed behind a separator that is no digit are told apart, with what stands before it.
numbered :
    (c : ℕ) (s s' : Text) (m n : ℕ)
    → is_digit_code c ≡ Bool.false
    → s ++ c ∷ decimal m ≡ s' ++ c ∷ decimal n
    → (s ≡ s') × (m ≡ n)
numbered c s s' m n h e =
    let (before, number) =
      last_separator c s s' _ _ (decimal-Lacks c m h) (decimal-Lacks c n h) e in
    (before, decimal-injective m n number)

module _ (sha256_hex : Text → Text) where
  batch_prefix :
      (root : Text) (index : ℕ)
      → (p : Text) × (batch_request_id sha256_hex root index ≡ p ++ b':' ∷ decimal index)
  unfolding batch_request_id
  batch_prefix root index =
      let suffix = b':' ∷ decimal index in
      let digest = sha256_hex root in
      let prefix = slice_to max_request_id (length digest + length suffix + 1) root in
      elim (Bool-cases (leb (length root + length suffix) max_request_id)) [
        | inl short ↦ (root, rw short)
        | inr long ↦
            (prefix ++ b'~' ∷ digest, rw long (sym (append_assoc prefix (b'~' ∷ digest) suffix)))
      ]

  -- The items of one batch have different ids, also where the id of the batch is too long to be
  -- written out.
  pub batch_request_id_distinct :
      (root : Text) (i j : ℕ)
      → batch_request_id sha256_hex root i ≡ batch_request_id sha256_hex root j
      → i ≡ j
  batch_request_id_distinct root i j e =
      let (p, at_i) = batch_prefix root i in
      let (q, at_j) = batch_prefix root j in
      (numbered b':' p q i j (unfold is_digit_code in refl) (sym at_i ∙ e ∙ at_j)).1

module _ (sha256_hex : Text → Text) (hex_length : (s : Text) → length (sha256_hex s) ≡ 64) where
  generated_prefix :
      {V : Type 0} (who : Text) (n : ℕ) (id : Text)
      → n < 10 ^ 134
      → generated_request_id sha256_hex {V = V} who n ≡ ok id
      → (p : Text) × (id ≡ p ++ b'-' ∷ decimal n)
  unfolding generated_request_id
  generated_prefix who n id h e =
      let suffix = b'-' ∷ decimal n in
      let fixed = b'~' ∷ sha256_hex who ++ suffix in
      let cut = slice_to max_request_id (length fixed) who in
      let room : length (decimal n) ≤ 134 = length-decimal_le 133 n h in
      let fits : leb (length fixed) max_request_id ≡ true =
        ground (arith, hex_length who, length-append (sha256_hex who) suffix) in
      elim (Bool-cases (leb (length (who ++ suffix)) max_request_id)) [
        | inl short ↦ (who, ground arith)
        | inr long ↦ (
          cut ++ b'~' ∷ sha256_hex who,
          ground (arith, append_assoc cut (b'~' ∷ sha256_hex who) suffix),
        )
      ]

  -- One process generates different ids for different sequence numbers below 10 ^ 134, also where
  -- its identity is too long to be written out.
  pub generated_request_id_distinct :
      {V : Type 0} (who : Text) (m n : ℕ) (id : Text)
      → m < 10 ^ 134
      → n < 10 ^ 134
      → generated_request_id sha256_hex {V = V} who m ≡ ok id
      → generated_request_id sha256_hex {V = V} who n ≡ ok id
      → m ≡ n
  generated_request_id_distinct who m n id hm hn em en =
      let (p, at_m) = generated_prefix who m id hm em in
      let (q, at_n) = generated_prefix who n id hn en in
      (numbered b'-' p q m n (unfold is_digit_code in refl) (sym at_m ∙ at_n)).1
