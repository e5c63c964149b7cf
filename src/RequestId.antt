-- ===== src/RequestId.antt =====
-- python/tinyray/_rpc.py: request ids. `_generated_request_id`, `_batch_request_id`, `request_id`
-- and `_request_id`, with the module's `_seq`, `_pinned` and `_identity` as one explicit state.
-- SHA-256 is a parameter: a text, as the bytes of its `.encode()`, to its hex digest.
pub mod Bounds
pub mod Unique
pub mod Pinning
use tinyray.Common.{
  ℕ, ◌+◌, ◌-◌, ◌++◌, ◌∷◌, [], Option, none, some, true, false, Bool, not, ◌||◌, if◌then◌else◌,
  length, take, leb, ltb, any, ◌==◌,
}
use tinyray.Common.Text.{Text, codes, is_ascii, is_empty}
use tinyray.Common.Decimal.{decimal}
use tinyray.Errors.{Exn, unicode_error, value_error, Result, ok, err, ◌>>=◌, ◌>>◌, raise_if}

-- _MAX_REQUEST_ID
abbrev pub max_request_id : ℕ
max_request_id = 200

-- s[: a - b], which counts from the end where a < b
unfoldable pub slice_to : ℕ → ℕ → Text → Text
slice_to a b s = if leb b a then take (a - b) s else take (length s - (b - a)) s

-- `_pinned`, `_seq` (the number that comes next) and `_identity`
pub record Ids : Type 0 where
  pub pinned : Option Text
  pub next : ℕ
  pub who : Text

module _ (sha256_hex : Text → Text) where
  unfoldable pub generated_request_id : {V : Type 0} → Text → ℕ → Result (Exn V) Text
  generated_request_id identity sequence =
      let suffix = b'-' ∷ decimal sequence in
      let direct = identity ++ suffix in
      let fixed = b'~' ∷ sha256_hex identity ++ suffix in
      if leb (length direct) max_request_id
      then ok direct
      else if not (is_ascii identity)
      then err unicode_error
      else if leb (length fixed) max_request_id
      then ok (slice_to max_request_id (length fixed) identity ++ fixed)
      else ok (sha256_hex (identity ++ 0 ∷ decimal sequence))

  unfoldable pub batch_request_id : Text → ℕ → Text
  batch_request_id root index =
      let suffix = b':' ∷ decimal index in
      let digest = sha256_hex root in
      let prefix = slice_to max_request_id (length digest + length suffix + 1) root in
      if leb (length root + length suffix) max_request_id
      then root ++ suffix
      else prefix ++ (b'~' ∷ digest ++ suffix)

  -- _request_id(): the pinned id, or the next generated one
  unfoldable pub next_request_id : {V : Type 0} → Ids → Result (Exn V) Text × Ids
  unfolding generated_request_id
  next_request_id ids =
      let who = if is_empty ids.who then codes "anon" else ids.who in
      elim ids.pinned [
        | some fixed ↦ (ok fixed, ids)
        | none ↦ (generated_request_id who ids.next, record ids { next = ids.next + 1 })
      ]

-- any(c < " " or c == "\x7f" for c in value)
abbrev pub is_control : ℕ → Bool
is_control c = ltb c 32 || c == 127

-- the three refusals of request_id()
unfoldable pub check_request_id : {V : Type 0} → Text → Result (Exn V) (Unit {0})
unfolding is_ascii
check_request_id value = do
  raise_if (is_empty value) value_error
  raise_if (not (is_ascii value) || any is_control value) value_error
  raise_if (ltb max_request_id (length value)) value_error

-- `with request_id(value): body`; the `finally` resets the variable whatever the body does
unfoldable pub with_request_id :
    {V A : Type 0} → Text → (Ids → Result (Exn V) A × Ids) → Ids → Result (Exn V) A × Ids
with_request_id value body ids = elim (check_request_id value) [
  | err e ↦ (err e, ids)
  | ok _ ↦
      let (result, after) = body (record ids { pinned = some value }) in
      (result, record after { pinned = ids.pinned })
]
