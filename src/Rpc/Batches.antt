-- ===== src/Rpc/Batches.antt =====
-- What a caller of a batch learns.
use tinyray.Common.{ℕ, ◌<◌, List, Option, none, some, ◌≡◌, ◌≢◌, inl, inr, arith, length}
use tinyray.Errors.{
  ◌>>=◌, Result, ok, err, batch_error, not_delivered, outcome_unknown, Result-cases,
}
use tinyray.Value.{Value, Items, list, to_list}
use tinyray.Rpc.{
  Bytes, Error, Kind, Status, Outcome, raise_reply, decode_batch, results_of, failed_index,
  batch_failure, decode_failed_item, or_unknown,
}
use tinyray.Rpc.Verdicts.{IsCodec, IsRefusal}

-- The answers that end a batch at one of its items.
abbrev pub IsItemFailure : Status → Type 0
IsItemFailure Status.method_not_found = Unit
IsItemFailure Status.fenced = Unit
IsItemFailure Status.caller_fault = Unit
IsItemFailure Status.remote_error = Unit
IsItemFailure _ = ⊥

results_of-ok : (n : ℕ) (v : Value) (rs : List Value) → results_of n v ≡ ok rs → length rs ≡ n
unfolding results_of
results_of-ok n v rs h = ground arith

results_of-err : (n : ℕ) (v : Value) (e : Error) → results_of n v ≡ err e → e ≡ outcome_unknown
unfolding results_of
results_of-err n v e h = ground arith

failed_index-some :
    (a b : Option ℕ) (n i : ℕ) → failed_index a b n ≡ some i → (a ≡ some i) × (b ≡ some i) × (i < n)
unfolding failed_index
failed_index-some a b n i h = ground arith

raise_reply-ne-batch_error :
    (o : Outcome) (i : ℕ) (rs : List Value) (c : Error) → raise_reply o ≢ batch_error i rs c
unfolding raise_reply
raise_reply-ne-batch_error o i rs c h = ground arith

batch_failure-raise_reply :
    (o : Outcome) (k i : ℕ) (ks rs : List Value) (c : Error)
    → batch_failure k ks (raise_reply o) ≡ batch_error i rs c
    → (k ≡ i) × (ks ≡ rs) × (c ≡ raise_reply o) × IsItemFailure o.status
unfolding batch_failure raise_reply
batch_failure-raise_reply o k i ks rs c h = ground arith

batch_failure-not_delivered :
    (o : Outcome) (k : ℕ) (ks : List Value)
    → batch_failure k ks (raise_reply o) ≡ not_delivered
    → IsRefusal o.status
unfolding batch_failure raise_reply
batch_failure-not_delivered o k ks h = ground arith

raise_reply-not_delivered : (o : Outcome) → raise_reply o ≡ not_delivered → IsRefusal o.status
unfolding raise_reply
raise_reply-not_delivered o h = ground arith

batch_failure-item :
    (o : Outcome) (k : ℕ) (ks : List Value)
    → IsItemFailure o.status
    → batch_failure k ks (raise_reply o) ≡ batch_error k ks (raise_reply o)
unfolding batch_failure raise_reply
batch_failure-item o k ks h = ground arith

module _ (loads : Bytes → Result Error Value) (codec : IsCodec loads) where
  failed_item-ne-ok :
      (o : Outcome) (raw : Bytes) (slot : Option ℕ) (rs : List Value)
      → decode_failed_item loads o raw slot ≢ ok rs
  unfolding decode_failed_item
  failed_item-ne-ok o raw none rs h = ground arith
  failed_item-ne-ok o raw (some k) rs h = elim (Result-cases (loads raw)) [
    | inl (v, e) ↦ elim (Result-cases (results_of k v)) [
      | inl (ks, e') ↦ ground arith
      | inr (x, e') ↦ ground arith
    ]
    | inr (x, e) ↦ ground arith
  ]

  -- A batch returns as many results as it has calls, and only from an answer of success.
  pub decode_batch-ok :
      (o : Outcome) (expected : ℕ) (raw : Bytes) (results : List Value)
      → decode_batch loads o expected raw ≡ ok results
      → (o.status ≡ Status.success) × (length results ≡ expected)
  unfolding decode_batch
  decode_batch-ok o expected raw results h =
      let slot = failed_index o.batch_index o.completed expected in
      elim (Result-cases (loads raw)) [
        | inl (v, e) ↦
            ground (arith, results_of-ok expected v results, failed_item-ne-ok o raw slot results)
        | inr (x, e) ↦ ground (arith, failed_item-ne-ok o raw slot results)
      ]

  failed_item-error :
      (o : Outcome) (raw : Bytes) (slot : Option ℕ) (i : ℕ) (rs : List Value) (c : Error)
      → decode_failed_item loads o raw slot ≡ err (batch_error i rs c)
      → (slot ≡ some i) × (length rs ≡ i) × (c ≡ raise_reply o) × IsItemFailure o.status
  unfolding decode_failed_item
  failed_item-error o raw none i rs c h = ground arith
  failed_item-error o raw (some k) i rs c h = elim (Result-cases (loads raw)) [
    | inl (v, e) ↦ elim (Result-cases (results_of k v)) [
      | inl (ks, e') ↦ ground (arith, batch_failure-raise_reply o k i ks rs c, results_of-ok k v ks)
      | inr (x, e') ↦ ground (arith, results_of-err k v x)
    ]
    | inr (x, e) ↦ ground (arith, codec raw (batch_error i rs c))
  ]

  whole-ne-error :
      (raw : Bytes) (n i : ℕ) (rs : List Value) (c : Error)
      → (or_unknown (loads raw) >>= λ v. results_of n v) ≢ err (batch_error i rs c)
  whole-ne-error raw n i rs c h = elim (Result-cases (loads raw)) [
    | inl (v, e) ↦ ground (arith, results_of-err n v (batch_error i rs c))
    | inr (x, e) ↦ ground (arith, codec raw (batch_error i rs c))
  ]

  -- A `BatchError` names an item of the batch, holds one result for each item before it, and its
  -- cause is what the answer for that item alone would raise.
  pub decode_batch-error :
      (o : Outcome) (expected : ℕ) (raw : Bytes) (index : ℕ) (results : List Value) (cause : Error)
      → decode_batch loads o expected raw ≡ err (batch_error index results cause)
      → (index < expected)
        × (length results ≡ index)
        × (cause ≡ raise_reply o)
        × IsItemFailure o.status
        × (o.batch_index ≡ some index)
        × (o.completed ≡ some index)
  unfolding decode_batch
  decode_batch-error o expected raw index results cause h =
      let slot = failed_index o.batch_index o.completed expected in
      ground (
        arith,
        whole-ne-error raw expected index results cause,
        raise_reply-ne-batch_error o index results cause,
        failed_item-error o raw slot index results cause,
        failed_index-some o.batch_index o.completed expected index,
      )

  failed_item-not_delivered :
      (o : Outcome) (raw : Bytes) (slot : Option ℕ)
      → decode_failed_item loads o raw slot ≡ err not_delivered
      → IsRefusal o.status
  unfolding decode_failed_item
  failed_item-not_delivered o raw none h = ground arith
  failed_item-not_delivered o raw (some k) h = elim (Result-cases (loads raw)) [
    | inl (v, e) ↦ elim (Result-cases (results_of k v)) [
      | inl (ks, e') ↦ ground (arith, batch_failure-not_delivered o k ks)
      | inr (x, e') ↦ ground (arith, results_of-err k v x)
    ]
    | inr (x, e) ↦ ground (arith, codec raw not_delivered)
  ]

  whole-ne-not_delivered :
      (raw : Bytes) (n : ℕ) → (or_unknown (loads raw) >>= λ v. results_of n v) ≢ err not_delivered
  whole-ne-not_delivered raw n h = elim (Result-cases (loads raw)) [
    | inl (v, e) ↦ ground (arith, results_of-err n v not_delivered)
    | inr (x, e) ↦ ground (arith, codec raw not_delivered)
  ]

  pub decode_batch-not_delivered :
      (o : Outcome) (expected : ℕ) (raw : Bytes)
      → decode_batch loads o expected raw ≡ err not_delivered
      → IsRefusal o.status
  unfolding decode_batch
  decode_batch-not_delivered o expected raw h = ground (
    arith,
    whole-ne-not_delivered raw expected,
    raise_reply-not_delivered o,
    failed_item-not_delivered o raw (failed_index o.batch_index o.completed expected),
  )

module _ (loads : Bytes → Result Error Value) where
  pub decode_batch_complete :
      (o : Outcome) (raw : Bytes) (items : Items)
      → o.kind ≡ Kind.reply
      → o.status ≡ Status.success
      → loads raw ≡ ok (list items)
      → decode_batch loads o (length (to_list items)) raw ≡ ok (to_list items)
  unfolding decode_batch results_of
  decode_batch_complete o raw items k s e = ground arith

  pub decode_batch_stopped :
      (o : Outcome) (expected : ℕ) (raw : Bytes) (items : Items)
      → o.kind ≡ Kind.reply
      → IsItemFailure o.status
      → o.batch_index ≡ some (length (to_list items))
      → o.completed ≡ some (length (to_list items))
      → length (to_list items) < expected
      → loads raw ≡ ok (list items)
      → decode_batch loads o expected raw
        ≡ err (batch_error (length (to_list items)) (to_list items) (raise_reply o))
  unfolding decode_batch decode_failed_item failed_index results_of
  decode_batch_stopped o expected raw items k s i c fits e =
      ground (arith, batch_failure-item o (length (to_list items)) (to_list items))
