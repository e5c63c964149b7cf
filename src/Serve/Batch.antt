-- ===== src/Serve/Batch.antt =====
-- `_Dispatch._batch` and `_Dispatch.__call__`.
use tinyray.Common.{
  ◌≡◌, refl, ◌⊎◌, inl, inr, not, ◌&&◌, ℕ, ◌+◌, List, [], ◌∷◌, ◌++◌, Option, none, some, Bool, true,
  false, if◌then◌else◌, length, ltb, ◌==◌,
}
use tinyray.Common.Text.{Text, codes, is_ascii, is_identifier, starts_with, text_eq}
use tinyray.Errors.{Result, ok, err, ◌>>=◌, ◌>>◌, raise_if}
use tinyray.Value.{
  Value, text, list, dict, Items, Entries, end, entry, to_list, get, keys_are, is_text,
}
use tinyray.Rpc.{Bytes, Error, Status, is_success}
use tinyray.RequestId.{batch_request_id}
use tinyray.Serve.{Reply, failure, success_reply, Payload, value, Runtime, Method, Dispatch, lookup}
use tinyray.Serve.Call.{load_request, invoke, call}

-- MAX_BATCH
abbrev pub max_batch : ℕ
max_batch = 128

-- What a checked item of a batch holds.
pub record Item : Type 0 where
  pub method : Text
  pub args : Items
  pub kwargs : Entries

unfoldable pub invalid_item : Reply
invalid_item =
    failure Status.caller_fault (codes "ValidationError")
      (codes "invalid batch method or argument envelope") []

unfoldable pub unshaped_item : Reply
unshaped_item =
    failure Status.caller_fault (codes "ValidationError")
      (codes "each batch item needs method, args and kwargs") []

unfoldable pub no_calls : Reply
no_calls =
    failure Status.caller_fault (codes "ValidationError") (codes "a batch needs one 'calls' array")
      []

unfoldable pub mismatched : Reply
mismatched =
    failure Status.malformed_protocol (codes "ProtocolError")
      (codes "batch metadata does not match the application payload") []

unfoldable pub too_many : Reply
too_many =
    failure Status.caller_fault (codes "ValueError") (codes "a batch can contain at most 128 calls")
      []

unfoldable pub invalid_metadata : Reply
invalid_metadata =
    failure Status.malformed_protocol (codes "ProtocolError") (codes "invalid call metadata") []

-- a public ASCII identifier
unfoldable pub is_method_name : Text → Bool
unfolding is_ascii is_identifier starts_with
is_method_name name = is_ascii name && is_identifier name && not (starts_with (codes "_") name)

-- all keys are texts
unfoldable pub has_text_keys : Entries → Bool
has_text_keys end = true
has_text_keys (entry k v es) = is_text k && has_text_keys es

unfoldable pub item_of : Option Value → Option Value → Option Value → Option Item
item_of (some (text name)) (some (list args)) (some (dict kwargs)) =
    if is_method_name name && has_text_keys kwargs
    then some (record { method = name; args = args; kwargs = kwargs })
    else none
item_of _ _ _ = none

-- one round of the loop that checks the items
unfoldable pub check_item : Value → Result Reply Item
unfolding item_of invalid_item unshaped_item
check_item (dict es) =
    if keys_are (codes "method" ∷ codes "args" ∷ codes "kwargs" ∷ []) es
    then elim (item_of (get (codes "method") es) (get (codes "args") es)
        (get (codes "kwargs") es)) [ some item ↦ ok item | none ↦ err invalid_item ]
    else err unshaped_item
check_item _ = err unshaped_item

unfoldable pub check_items : List Value → Result Reply (List Item)
unfolding check_item
check_items [] = ok []
check_items (v ∷ vs) = do item ← check_item v; items ← check_items vs; ok (item ∷ items)

unfoldable pub calls_of : Value → Result Reply (List Value)
unfolding no_calls
calls_of (dict es) =
    if keys_are (codes "calls" ∷ []) es
    then elim (get (codes "calls") es) [ some (list items) ↦ ok (to_list items) | _ ↦ err no_calls ]
    else err no_calls
calls_of _ = err no_calls

-- batch_len == n
abbrev pub is_length : Option ℕ → ℕ → Bool
is_length none n = false
is_length (some m) n = m == n

-- all that `_batch` checks before it runs anything
unfoldable pub check_batch : Value → Option ℕ → Result Reply (List Item)
unfolding mismatched too_many
check_batch payload batch_len = do
  calls ← calls_of payload
  raise_if (not (is_length batch_len (length calls))) mismatched
  raise_if (ltb max_batch (length calls)) too_many
  check_items calls

-- {"args": item["args"], "kwargs": item["kwargs"]}
abbrev pub item_payload : Item → Payload
item_payload item = value (
    dict (
      entry (text (codes "args")) (list item.args)
        (entry (text (codes "kwargs")) (dict item.kwargs) end)))

-- the fields of a reply that ends a batch at an item
abbrev pub at_item : ℕ → Bytes → List ℕ → Reply → Reply
at_item index completed owners reply = record reply {
  payload = completed;
  batch_index = some index;
  completed = some index;
  blob_owners = owners;
}

-- How a round ends: with a result, with the reply that ends the batch, or by an exception that
-- nothing catches.
pub data Round : Type 0 where
  next stop : Reply → Round
  crash : Error → Round

-- result[0] != RPC_STATUS_SUCCESS
unfoldable pub settle : Result Error Reply → Round
settle (ok reply) = if is_success reply.status then next reply else stop reply
settle (err e) = crash e

pub Round-cases :
    (r : Round)
    → ((reply : Reply) × (r ≡ next reply))
      ⊎ ((reply : Reply) × (r ≡ stop reply))
      ⊎ ((e : Error) × (r ≡ crash e))
Round-cases (next reply) = inl (reply, refl)
Round-cases (stop reply) = inr (inl (reply, refl))
Round-cases (crash e) = inr (inr (e, refl))

module _ {W Arguments : Type 0} (rt : Runtime) (d : Dispatch W Arguments) where
  unfoldable pub fenced_reply : Reply
  fenced_reply =
      failure Status.fenced (codes "Fenced") (d.identity ++ codes " is held by a later tenure") []

  unfoldable pub no_method : Text → Reply
  no_method name =
      failure Status.method_not_found (codes "AttributeError") (codes "no method " ++ rt.repr name)
        []

  -- one round of the loop that runs the items, behind the check of the seat and the lookup
  unfoldable pub round_with : Option (Method W Arguments) → Text → Text → ℕ → Item → W → Round × W
  round_with none caller request_id index item w = (stop (no_method item.method), w)
  round_with (some fn) caller request_id index item w =
      let (result, w') =
        invoke rt fn item.method (item_payload item) caller
          (batch_request_id rt.sha256_hex request_id index) w in
      (settle result, w')

  unfoldable pub round : Text → Text → ℕ → Item → W → Round × W
  round caller request_id index item w =
      if not (d.still_ours w)
      then (stop fenced_reply, w)
      else round_with (lookup item.method d.methods) caller request_id index item w

  -- the loop, from `index` on
  unfoldable pub run_items :
      Text → Text → ℕ → List Item → List Bytes → List ℕ → W → Result Error Reply × W
  run_items caller request_id index [] completed owners w =
      (ok (success_reply (rt.dumps_raws completed) owners), w)
  run_items caller request_id index (item ∷ items) completed owners w =
      let (r, w') = round caller request_id index item w in
      elim r [
        | next reply ↦
            run_items caller request_id (index + 1) items (completed ++ reply.payload ∷ [])
              (owners ++ reply.blob_owners) w'
        | stop reply ↦ (ok (at_item index (rt.dumps_raws completed) owners reply), w')
        | crash e ↦ (err e, w')
      ]

  -- what `_batch` does before the loop: the checked items, or the reply that refuses them
  unfoldable pub read_batch : Bytes → Option ℕ → Result Error (Result Reply (List Item))
  read_batch body batch_len = do
    loaded ← load_request rt (codes "malformed batch MessagePack: ") body
    ok (do payload ← loaded; check_batch payload batch_len)

  unfoldable pub run_request :
      Text → Text → Result Error (Result Reply (List Item)) → W → Result Error Reply × W
  run_request caller request_id (ok (ok items)) w = run_items caller request_id 0 items [] [] w
  run_request caller request_id (ok (err reply)) w = (ok reply, w)
  run_request caller request_id (err e) w = (err e, w)

  unfoldable pub batch : Bytes → Text → Text → Option ℕ → W → Result Error Reply × W
  unfolding run_request
  batch body caller request_id batch_len w =
      run_request caller request_id (read_batch body batch_len) w

  -- `__call__`
  unfoldable pub dispatch :
      Text → Option Text → Bytes → Text → Text → Option ℕ → W → Result Error Reply × W
  unfolding invalid_metadata
  dispatch operation method body caller request_id batch_len w =
      if text_eq operation (codes "batch")
      then batch body caller request_id batch_len w
      else if not (text_eq operation (codes "call"))
      then (ok invalid_metadata, w)
      else elim method [
        | none ↦ (ok invalid_metadata, w)
        | some name ↦ elim (lookup name d.methods) [
          | none ↦ (ok (no_method name), w)
          | some fn ↦ call rt fn name body caller request_id w
        ]
      ]
