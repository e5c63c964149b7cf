-- ===== src/Rpc/Verdicts.antt =====
-- What the exception that a caller sees says about the reply.
use tinyray.Common.{false, ◌≡◌, ◌↔◌, ◌⊎◌, arith}
use tinyray.Errors.{Result, ok, err, not_delivered, is_tinyray_error}
use tinyray.Value.{Value}
use tinyray.Rpc.{Bytes, Error, Kind, Status, Outcome, raise_reply, reply_payload, decode}

-- The codec raises no exception of the package's own.
abbrev pub IsCodec : (Bytes → Result Error Value) → Type 0
IsCodec loads = (raw : Bytes) (e : Error) → loads raw ≡ err e → is_tinyray_error e ≡ false

-- The two answers that the caller takes for a refusal.
abbrev pub IsRefusal : Status → Type 0
IsRefusal status = (status ≡ Status.concurrency_refused) ⊎ (status ≡ Status.malformed_protocol)

raise_reply-IsRefusal : (o : Outcome) → (raise_reply o ≡ not_delivered) ↔ IsRefusal o.status
unfolding raise_reply
raise_reply-IsRefusal o = ground arith

module _ (loads : Bytes → Result Error Value) (codec : IsCodec loads) where
  -- Of a call that was answered, `NotDelivered` is raised exactly when the answer was that the
  -- server is full or that the request was malformed.
  pub decode-not_delivered :
      (o : Outcome) (raw : Bytes)
      → o.kind ≡ Kind.reply
      → (decode loads o raw ≡ err not_delivered) ↔ IsRefusal o.status
  unfolding decode reply_payload
  decode-not_delivered o raw h = ground (arith, raise_reply-IsRefusal o, codec raw not_delivered)

  -- A value is returned exactly when the answer is a success and its payload decodes to it.
  pub decode-ok :
      (o : Outcome) (raw : Bytes) (v : Value)
      → (decode loads o raw ≡ ok v)
        ↔ ((o.kind ≡ Kind.reply) × (o.status ≡ Status.success) × (loads raw ≡ ok v))
  unfolding decode reply_payload
  decode-ok o raw v = ground arith
