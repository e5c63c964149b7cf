-- ===== src/Examples/Batching.antt =====
-- A batch of one call, as its caller builds it.
use tinyray.Common.{◌≤◌, ◌∷◌, [], List, some, ◌≡◌, refl, length}
use tinyray.Common.Text.{codes}
use tinyray.Errors.{ok}
use tinyray.Value.{null, text, other, end}
use tinyray.Serve.Batch.{Item, check_batch, max_batch}
use tinyray.Calls.{Call, Given, a_call, sequence, call_dict, batch_payload, batch_dict}
use tinyray.Calls.Accepted.{batch_payload-check_batch}

abbrev calls : List Given
calls =
    a_call (record { method = text (codes "add"); args = sequence (other 3 ∷ []); kwargs = null })
    ∷ []

batch_payload-check_batch_example :
    (items : List Item) × (check_batch
        (batch_dict (call_dict (codes "add") (other 3 ∷ []) end ∷ []))
        (some 1)
      ≡ ok items)
    × (length items ≡ 1)
    × (1 ≤ max_batch)
unfolding batch_payload tinyray.Calls.given_payload tinyray.Calls.call_payload
    tinyray.Serve.Batch.is_method_name
batch_payload-check_batch_example =
    batch_payload-check_batch calls (call_dict (codes "add") (other 3 ∷ []) end ∷ []) refl
