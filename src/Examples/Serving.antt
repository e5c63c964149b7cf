-- ===== src/Examples/Serving.antt =====
-- A server with one method and the caller of a batch of three.
use tinyray.Common.{ℕ, ◌∷◌, [], List, Option, none, some, ◌≡◌, inl, inr, refl, length}
use tinyray.Common.Text.{Text, codes}
use tinyray.Errors.{err, batch_error, attribute_error}
use tinyray.Value.{Value, other, Items, nil, cons, Entries, end}
use tinyray.Rpc.{Bytes, Error, Status, Outcome}
use tinyray.Serve.{Reply, failure}
use tinyray.Serve.Batch.{Item, dispatch, batch, read_batch}
use tinyray.Serve.Refusals.{dispatch-nothing_ran, dispatch-not_delivered}
use tinyray.Serve.Contract.{perform, told, meant}
use tinyray.Serve.Contract.Refinement.{batch-perform}
use tinyray.Examples.{
  toy, toy_loads, toy-IsCodec, toy_wire, toy-Carries, toy_decoded, toy-IsFaithful, server,
}

abbrev items : List Item
items =
    record { method = codes "add"; args = cons (other 3) nil; kwargs = end }
    ∷ record { method = codes "add"; args = cons (other 4) nil; kwargs = end }
    ∷ record { method = codes "drop"; args = cons (other 5) nil; kwargs = end }
    ∷ []

-- two calls of `add` run, and the third item has no method
batch-perform_example :
    (told toy_loads toy_wire 3
        (batch toy server (1 ∷ 0 ∷ []) (codes "trainer/0#2") (codes "r-1") (some 3) 0).0
      ≡ some (err (batch_error 2 (other 3 ∷ other 7 ∷ []) attribute_error)))
    × ((batch toy server (1 ∷ 0 ∷ []) (codes "trainer/0#2") (codes "r-1") (some 3) 0).1 ≡ 7)
unfolding perform read_batch tinyray.Serve.Call.load_request tinyray.Serve.Batch.check_batch
    tinyray.Serve.Batch.calls_of tinyray.Value.keys_are tinyray.Common.Text.text_eq
    tinyray.Value.get tinyray.Serve.Batch.check_items tinyray.Serve.Batch.is_method_name
    tinyray.Serve.Batch.has_text_keys tinyray.Serve.Contract.attempt
    tinyray.Serve.Contract.attempt_with tinyray.Serve.lookup tinyray.Serve.Contract.attempt_bound
    tinyray.Serve.Call.coerce tinyray.Serve.Contract.of_body tinyray.Serve.Contract.sent_back
batch-perform_example =
    batch-perform toy toy_decoded toy_wire server toy-Carries toy-IsFaithful (codes "trainer/0#2")
      (codes "r-1") (1 ∷ 0 ∷ []) (some 3) items 0 refl

dispatch-nothing_ran_example : ◌≡◌ {A = ℕ} 7 7
unfolding dispatch tinyray.Common.Text.text_eq tinyray.Serve.lookup tinyray.Serve.Batch.no_method
dispatch-nothing_ran_example =
    dispatch-nothing_ran toy server (codes "call") (some (codes "drop")) [] (codes "trainer/0#2")
      (codes "r-1") none 7 7
      (failure Status.method_not_found (codes "AttributeError") (codes "no method drop") []) refl
      (λ h. h) refl

dispatch-not_delivered_example : ◌≡◌ {A = ℕ} 7 7
unfolding dispatch tinyray.Common.Text.text_eq tinyray.Rpc.decode tinyray.Rpc.raise_reply
dispatch-not_delivered_example =
    dispatch-not_delivered toy server toy_wire toy-Carries toy-IsCodec (codes "ask") none []
      (codes "trainer/0#2") (codes "r-1") none 3 7 7
      (failure Status.malformed_protocol (codes "ProtocolError") (codes "invalid call metadata") [])
      refl (inl refl)
