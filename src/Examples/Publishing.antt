-- ===== src/Examples/Publishing.antt =====
-- A member that publishes through a client that never fails.
use tinyray.Common.{List, ◌∷◌, [], none, Bool}
use tinyray.Common.Text.{Text, codes}
use tinyray.Errors.{ok}
use tinyray.Value.{other}
use tinyray.Rpc.{Bytes}
use tinyray.Member.{Codec, Client, Member, Publish, ready, update, replace, unready, Dict}

-- the keys, one after the other
abbrev keys_of : Dict → Text
keys_of [] = []
keys_of ((k, v) ∷ d) = 32 ∷ keys_of d

abbrev codec : Codec
codec = record { json_dumps = λ d. ok (keys_of d); repacked = λ t. ok t }

abbrev client : Client (Bytes × Bool)
client = record {
  set_state = λ body r c. (ok tt, (body, r));
  set_state_only = λ body c. (ok tt, (body, c.1));
}

abbrev member : Member
member = record { pid = 7; state = [] }

abbrev step_one : Dict
step_one = (codes "step", other 1) ∷ []

abbrev calls : List Publish
calls = ready step_one ∷ unready ∷ update ((codes "loss", other 3) ∷ []) ∷ replace none ∷ []
