-- ===== src/Examples/Replies.antt =====
-- Replies as a caller reads them.
use tinyray.Common.{ℕ, ◌∷◌, [], ◌<◌, Option, some, ◌≡◌, refl, length}
use tinyray.Common.Text.{codes}
use tinyray.Errors.{attribute_error}
use tinyray.Value.{other}
use tinyray.Rpc.{Bytes, Error, Kind, Status, Outcome, decode, decode_batch, raise_reply, results_of}
use tinyray.Rpc.Batches.{IsItemFailure, decode_batch-error}
use tinyray.Examples.{toy_loads, toy-IsCodec}

abbrev answered : Status → Outcome
answered status = record {
  kind = Kind.reply;
  status = status;
  error_type = [];
  message = codes "no method";
  trace = [];
  batch_index = some 2;
  completed = some 2;
  payload = 0 ∷ 0 ∷ 4 ∷ 8 ∷ [];
}

-- the third of three calls is of a method that is not served
decode_batch-error_example :
    (2 < 3)
    × (length (other 3 ∷ other 7 ∷ []) ≡ 2)
    × (attribute_error ≡ raise_reply (answered Status.method_not_found))
    × IsItemFailure Status.method_not_found
    × (◌≡◌ {A = Option ℕ} (some 2) (some 2))
    × (◌≡◌ {A = Option ℕ} (some 2) (some 2))
unfolding decode_batch results_of raise_reply tinyray.Rpc.failed_index tinyray.Rpc.batch_failure
decode_batch-error_example =
    decode_batch-error toy_loads toy-IsCodec (answered Status.method_not_found) 3
      (0 ∷ 0 ∷ 4 ∷ 8 ∷ []) 2 (other 3 ∷ other 7 ∷ []) attribute_error refl
