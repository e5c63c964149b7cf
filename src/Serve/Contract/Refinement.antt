-- ===== src/Serve/Contract/Refinement.antt =====
-- The server's loop, with the caller's reader behind it, does what `perform` says.
use mathlib.Core.Path.{subst, subst₂}
use tinyray.Common.{
  ℕ, ◌+◌, ◌<◌, List, [], ◌∷◌, ◌++◌, map, Option, none, some, Bool, true, false, not, ◌≡◌, refl, ap,
  ◌∙◌, sym, arith, length, length-append, length-map, if◌then◌else◌, inl, inr,
}
use tinyray.Common.Text.{Text, codes}
use tinyray.Errors.{Exn, Result, ok, err, type_error, remote_error}
use tinyray.Value.{Value, list, to_list, of_list, to_list-of_list}
use tinyray.RequestId.{batch_request_id}
use tinyray.Rpc.{Bytes, Error, Status, Kind, Outcome, is_success, raise_reply, decode_batch}
use tinyray.Rpc.Batches.{IsItemFailure, decode_batch_complete, decode_batch_stopped}
use tinyray.Serve.{Reply, success_reply, Runtime, Method, Dispatch, lookup}
use tinyray.Serve.Call.{
  answer_of, cannot_send, unsendable, argument_fault, raised, finish, run_bound, coerce, invoke,
  is_argument_fault, is_return_fault,
}
use tinyray.Serve.Batch.{
  Item, item_payload, fenced_reply, no_method, Round, next, stop, crash, Round-cases, settle,
  round_with, round, run_items, at_item, read_batch, run_request, batch,
}
use tinyray.Serve.Refusals.{Carries}
use tinyray.Serve.Contract.{
  Attempt, Attempt-cases, returned, failed, crashed, complete, cut, sent_back, of_body,
  attempt_bound, attempt_with, attempt, perform, told, meant, Encoded, IsFaithful,
}

Encoded-snoc :
    (loads : Bytes → Result Error Value) (decoded : Value → Value) (vs : List Value)
    (bs : List Bytes) (v : Value) (b : Bytes)
    → Encoded loads decoded vs bs
    → loads b ≡ ok (decoded v)
    → Encoded loads decoded (vs ++ v ∷ []) (bs ++ b ∷ [])
Encoded-snoc loads decoded [] [] v b h e = (e, tt)
Encoded-snoc loads decoded [] (c ∷ bs) v b h e = absurd h
Encoded-snoc loads decoded (u ∷ vs) [] v b h e = absurd h
Encoded-snoc loads decoded (u ∷ vs) (c ∷ bs) v b h e =
    (h.0, Encoded-snoc loads decoded vs bs v b h.1 e)

-- the exception that a reply stands for
cause : Reply → Error
cause r = raise_reply (record {
  kind = Kind.reply;
  status = r.status;
  error_type = r.error_type;
  message = r.message;
  trace = r.trace;
  batch_index = r.batch_index;
  completed = r.completed;
  payload = r.payload;
})

raise_reply-cause :
    (r : Reply) (index : ℕ) (completed : Bytes) (owners : List ℕ) (o : Outcome)
    → Carries (at_item index completed owners r) o
    → raise_reply o ≡ cause r
unfolding cause raise_reply
raise_reply-cause r index completed owners o h = ground arith

item_failure-is_success : (s : Status) → IsItemFailure s → is_success s ≡ false
item_failure-is_success s h = ground arith

module _ (rt : Runtime) (decoded : Value → Value) where
  -- the round of the loop that an attempt at its item stands for
  abbrev RoundOf : Attempt → Round → Type 0
  RoundOf (returned v) (next reply) = rt.loads reply.payload ≡ ok (decoded v)
  RoundOf (failed e) (stop reply) = IsItemFailure reply.status × (cause reply ≡ e)
  RoundOf (crashed e) (crash e') = e ≡ e'
  RoundOf _ _ = ⊥

  if-RoundOf :
      (b : Bool) (e x : Error) (reply : Reply)
      → IsItemFailure reply.status
      → cause reply ≡ e
      → RoundOf (if b then failed e else crashed x) (settle (if b then ok reply else err x))
  unfolding settle
  if-RoundOf true e x reply h k = rw (item_failure-is_success reply.status h) (h, k)
  if-RoundOf false e x reply h k = refl

  module _ (faithful : IsFaithful rt decoded) where
    answer-RoundOf :
        (v : Value) (sent : Result Error (Bytes × List ℕ))
        → rt.dumps v ≡ sent
        → RoundOf (sent_back rt v sent) (settle (answer_of rt sent))
    unfolding sent_back answer_of cause raise_reply
    answer-RoundOf v (ok (b, owners)) e = unfold settle in faithful.one v b owners e
    answer-RoundOf v (err x) e =
        if-RoundOf (is_return_fault x) (remote_error (codes "TypeError") (cannot_send rt x) []) x
          (unsendable rt x) tt refl

    module _ {W : Type 0} where
      finish-RoundOf :
          (outcome : Result Error Value × W)
          → RoundOf (of_body rt outcome).0 (settle (finish rt outcome).0)
            × ((of_body rt outcome).1 ≡ (finish rt outcome).1)
      unfolding of_body finish
      finish-RoundOf (ok v, w) = (answer-RoundOf v (rt.dumps v) refl, refl)
      finish-RoundOf (err e, w) = (unfold settle raised cause raise_reply in (tt, refl), refl)

    module _ {W Arguments : Type 0} where
      bound-RoundOf :
          (fn : Method W Arguments) (name : Text) (bound : Result Error Arguments) (w : W)
          → RoundOf (attempt_bound rt fn bound w).0 (settle (run_bound rt fn name bound w).0)
            × ((attempt_bound rt fn bound w).1 ≡ (run_bound rt fn name bound w).1)
      unfolding attempt_bound run_bound
      bound-RoundOf fn name (ok arguments) w = finish-RoundOf (fn.run arguments w)
      bound-RoundOf fn name (err e) w = (
        unfold cause raise_reply in
            if-RoundOf (is_argument_fault e) type_error e (argument_fault rt name e) tt refl,
        refl,
      )

      with-RoundOf :
          (d : Dispatch W Arguments) (found : Option (Method W Arguments))
          (caller request_id : Text) (index : ℕ) (item : Item) (w : W)
          → RoundOf
              (attempt_with rt found caller request_id index item w).0
              (round_with rt d found caller request_id index item w).0
            × ((attempt_with rt found caller request_id index item w).1
                ≡ (round_with rt d found caller request_id index item w).1)
      unfolding attempt_with round_with invoke
      with-RoundOf d none caller request_id index item w =
          (unfold no_method cause raise_reply in (tt, refl), refl)
      with-RoundOf d (some fn) caller request_id index item w =
          bound-RoundOf fn item.method
            (coerce fn (item_payload item) caller (batch_request_id rt.sha256_hex request_id index))
            w

      round-RoundOf :
          (d : Dispatch W Arguments) (caller request_id : Text) (index : ℕ) (item : Item) (w : W)
          → RoundOf
              (attempt rt d caller request_id index item w).0
              (round rt d caller request_id index item w).0
            × ((attempt rt d caller request_id index item w).1
                ≡ (round rt d caller request_id index item w).1)
      unfolding attempt round
      round-RoundOf d caller request_id index item w =
          elim (d.still_ours w)
            as (λ b.
              RoundOf
                (if not b
                  then (failed Exn.fenced, w)
                  else attempt_with rt (lookup item.method d.methods) caller request_id index item
                      w).0
                (if not b
                  then (stop (fenced_reply rt d), w)
                  else round_with rt d (lookup item.method d.methods) caller request_id index item
                      w).0
              × ((if not b
                    then (failed Exn.fenced, w)
                    else attempt_with rt (lookup item.method d.methods) caller request_id index item
                        w).1
                  ≡ (if not b
                      then (stop (fenced_reply rt d), w)
                      else round_with rt d (lookup item.method d.methods) caller request_id index
                          item w).1)) [
                            | true ↦
                                with-RoundOf d (lookup item.method d.methods) caller request_id
                                  index item w
                            | false ↦ (unfold fenced_reply cause raise_reply in (tt, refl), refl)
                          ]

module _ (rt : Runtime) (decoded : Value → Value) (wire : Reply → Outcome) where
  complete-told :
      (vs : List Value) (reply : Reply)
      → Carries reply (wire reply)
      → reply.status ≡ Status.success
      → rt.loads reply.payload ≡ ok (list (of_list (map decoded vs)))
      → told rt.loads wire (length vs) (ok reply) ≡ meant decoded vs complete
  complete-told vs reply sent s e =
      let items = of_list (map decoded vs) in
      let whole = decode_batch_complete rt.loads (wire reply) reply.payload items in
      let same : to_list items ≡ map decoded vs = to_list-of_list (map decoded vs) in
      let size : length (to_list items) ≡ length vs = ap length same ∙ length-map decoded vs in
      ap some (
        subst (λ n. decode_batch rt.loads (wire reply) n reply.payload ≡ ok (to_list items)) size
          (whole sent.kind (sent.status ∙ s) e)
        ∙ ap ok same)

  stopped-told :
      (vs : List Value) (n : ℕ) (r : Reply) (completed : Bytes) (owners : List ℕ)
      → Carries
          (at_item (length vs) completed owners r)
          (wire (at_item (length vs) completed owners r))
      → IsItemFailure r.status
      → length vs < n
      → rt.loads completed ≡ ok (list (of_list (map decoded vs)))
      → told rt.loads wire n (ok (at_item (length vs) completed owners r))
        ≡ meant decoded vs (cut (cause r))
  stopped-told vs n r completed owners sent s fits e =
      let reply = at_item (length vs) completed owners r in
      let items = of_list (map decoded vs) in
      let stopped = decode_batch_stopped rt.loads (wire reply) n completed items in
      let same : to_list items ≡ map decoded vs = to_list-of_list (map decoded vs) in
      let size : length (to_list items) ≡ length vs = ap length same ∙ length-map decoded vs in
      let caused = raise_reply-cause r (length vs) completed owners (wire reply) sent in
      let got =
        stopped sent.kind (subst IsItemFailure (sym sent.status) s)
          (sent.batch_index ∙ ap some (sym size)) (sent.completed ∙ ap some (sym size))
          (omega (arith, size)) e in
      cc (got, size, same, caused)

  module _ {W Arguments : Type 0} (d : Dispatch W Arguments)
      (carries : (r : Reply) → Carries r (wire r)) (faithful : IsFaithful rt decoded)
      (caller request_id : Text) where
    run_items-perform :
        (items : List Item) (done : List Value) (completed : List Bytes) (owners : List ℕ) (w : W)
        (n : ℕ)
        → Encoded rt.loads decoded done completed
        → length done + length items ≡ n
        → (told rt.loads wire n
              (run_items rt d caller request_id (length done) items completed owners w).0
            ≡ meant decoded
                (perform rt d caller request_id items done w).0
                (perform rt d caller request_id items done w).1)
          × ((run_items rt d caller request_id (length done) items completed owners w).1
              ≡ (perform rt d caller request_id items done w).2)
    unfolding run_items perform
    run_items-perform [] done completed owners w n encoded size =
        let all_done : length done ≡ n = omega arith in
        let reply = success_reply (rt.dumps_raws completed) owners in
        (
          subst (λ k. told rt.loads wire k (ok reply) ≡ meant decoded done complete) all_done
              (complete-told done reply (carries reply) refl
                (faithful.many done completed encoded)),
          refl,
        )
    run_items-perform (item ∷ items) done completed owners w n encoded size =
        let index = length done in
        let (related, worlds) =
          round-RoundOf rt decoded faithful d caller request_id index item w in
        let (a, w1) = attempt rt d caller request_id index item w in
        let (r, w2) = round rt d caller request_id index item w in
        let body = rt.dumps_raws completed in
        elim (Attempt-cases a) [
          | inl (v, ea) ↦ elim (Round-cases r) [
            | inl (reply, er) ↦
                let snoc : length (done ++ v ∷ []) ≡ index + 1 =
                  omega (arith, length-append done (v ∷ [])) in
                let sent : rt.loads reply.payload ≡ ok (decoded v) =
                  subst₂ (RoundOf rt decoded) ea er related in
                let rest =
                  run_items-perform items (done ++ v ∷ []) (completed ++ reply.payload ∷ [])
                    (owners ++ reply.blob_owners) w2 n
                    (Encoded-snoc rt.loads decoded done completed v reply.payload encoded sent)
                    (omega (arith, snoc)) in
                ground (arith, snoc, rest)
            | inr (inl (reply, er)) ↦ absurd (subst₂ (RoundOf rt decoded) ea er related)
            | inr (inr (x, er)) ↦ absurd (subst₂ (RoundOf rt decoded) ea er related)
          ]
          | inr (inl (e, ea)) ↦ elim (Round-cases r) [
            | inl (reply, er) ↦ absurd (subst₂ (RoundOf rt decoded) ea er related)
            | inr (inl (reply, er)) ↦
                let stopped : IsItemFailure reply.status × (cause reply ≡ e) =
                  subst₂ (RoundOf rt decoded) ea er related in
                let said =
                  stopped-told done n reply body owners (carries (at_item index body owners reply))
                    stopped.0 (omega arith) (faithful.many done completed encoded) in
                ground (arith, said)
            | inr (inr (x, er)) ↦ absurd (subst₂ (RoundOf rt decoded) ea er related)
          ]
          | inr (inr (e, ea)) ↦ elim (Round-cases r) [
            | inl (reply, er) ↦ absurd (subst₂ (RoundOf rt decoded) ea er related)
            | inr (inl (reply, er)) ↦ absurd (subst₂ (RoundOf rt decoded) ea er related)
            | inr (inr (x, er)) ↦ ground arith
          ]
        ]

    -- A batch that passes the server's checks is carried out as `perform` says: the methods of its
    -- items run in order up to the first that fails, the caller is told every result or a
    -- `BatchError` with the results of the items before the failing one and its exception as the
    -- cause, and what the methods read and change is what those runs made of it. Where a handler
    -- of the server itself raised, there is no reply.
    pub batch-perform :
        (body : Bytes) (batch_len : Option ℕ) (items : List Item) (w : W)
        → read_batch rt d body batch_len ≡ ok (ok items)
        → (told rt.loads wire (length items) (batch rt d body caller request_id batch_len w).0
            ≡ meant decoded
                (perform rt d caller request_id items [] w).0
                (perform rt d caller request_id items [] w).1)
          × ((batch rt d body caller request_id batch_len w).1
              ≡ (perform rt d caller request_id items [] w).2)
    unfolding batch
    batch-perform body batch_len items w h =
        subst
          (λ request.
            (told rt.loads wire (length items) (run_request rt d caller request_id request w).0
              ≡ meant decoded (perform rt d caller request_id items [] w).0
                  (perform rt d caller request_id items [] w).1)
            × ((run_request rt d caller request_id request w).1
                ≡ (perform rt d caller request_id items [] w).2))
          (sym h) (run_items-perform items [] [] [] w (length items) tt (omega arith))
