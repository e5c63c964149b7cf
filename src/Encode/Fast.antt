-- ===== src/Encode/Fast.antt =====
-- `_encode_prepared`, which first tries an encoder that takes no BlobRef.
use tinyray.Common.{ℕ, List, [], ◌∷◌, none, ◌≡◌, refl, arith}
use tinyray.Errors.{Result, ok, err}
use tinyray.Rpc.{Bytes, Error}
use tinyray.Encode.{PyObject, blob, item_at, Prepared, same, Encoder}
use tinyray.Encode.Actions.{Act, ◌>>=◌, pure, each}
use tinyray.Encode.Prepare.{enc_hook, run_encoder, encode}
use tinyray.Encode.Dumps.{
  enc_hook_fast, on_overflow, on_scope_or_overflow, owners_of, with_owners, in_scope,
  encode_bigints, encode_with_blob_scope, encode_fast, encode_prepared,
}

module _ (heap : List PyObject) (finish : List Prepared → Result Error Bytes)
    (retry : Act Bytes) where
  fast_attempt : List ℕ → Act (Bytes × List ℕ)
  fast_attempt offered = run_encoder (enc_hook_fast heap) offered finish >>= λ raw. pure (raw, [])

  scoped : List ℕ → Act (Bytes × List ℕ)
  scoped offered = in_scope (λ s. on_overflow retry (run_encoder (enc_hook heap) offered finish s))

  nothing_offered :
      (r : Result Error Bytes)
      → finish [] ≡ r
      → on_scope_or_overflow (scoped []) (fast_attempt [] none) ≡ scoped [] none
  unfolding fast_attempt scoped in_scope on_overflow on_scope_or_overflow with_owners owners_of
      run_encoder each ◌>>=◌
  nothing_offered (ok raw) h = ground (arith)
  nothing_offered (err e) h = ground (arith)

  something_offered :
      (k : ℕ) (offered : List ℕ) (o : PyObject)
      → item_at heap k ≡ o
      → on_scope_or_overflow (scoped (k ∷ offered)) (fast_attempt (k ∷ offered) none)
        ≡ scoped (k ∷ offered) none
  unfolding fast_attempt scoped in_scope on_overflow on_scope_or_overflow with_owners owners_of
      run_encoder each ◌>>=◌ enc_hook enc_hook_fast
  something_offered k offered (blob closed descriptor) h = ground (arith)
  something_offered k offered o h = ground (arith)

  fast-scoped :
      (offered : List ℕ)
      → on_scope_or_overflow (scoped offered) (fast_attempt offered none) ≡ scoped offered none
  fast-scoped [] = nothing_offered (finish []) refl
  fast-scoped (k ∷ offered) = something_offered k offered (item_at heap k) refl

-- Where no encoding is running on the thread, `_encode_prepared` returns, raises and leaves what
-- `_encode_with_blob_scope` does: trying the encoder without BlobRefs first saves time and
-- changes nothing.
pub encode_prepared_same :
    (E : Encoder) (heap : List PyObject) (value : ℕ)
    → encode_prepared E heap value none ≡ encode_with_blob_scope E heap value none
unfolding encode_prepared encode_with_blob_scope encode_fast encode fast_attempt scoped
encode_prepared_same E heap value =
    fast-scoped heap (E.encode (same value)).1 (encode_bigints E heap value)
      (E.encode (same value)).0
