-- ===== src/Member.antt =====
-- python/tinyray/__init__.py: what a `Member` publishes (`ready`, `update`, `replace`, `set_ready`,
-- `unready` and `_encode_state`), `flush` and `wait_fenced`. The native client is a parameter with
-- the two calls that publish; JSON and MessagePack are parameters. A dict is an association list
-- with each key once. The lock makes each operation one step.
pub mod Publishing
pub mod Waits
pub mod Reads
use tinyray.Common.{
  ℕ, List, [], ◌∷◌, Option, none, some, Bool, true, false, not, if◌then◌else◌, length, leb, ltb,
  ◌==◌,
}
use tinyray.Common.Text.{Text, text_eq}
use tinyray.Errors.{
  Result, ok, err, ◌>>=◌, ◌>>◌, raise_if, value_error, runtime_error, seat_taken, timeout_error,
}
use tinyray.Value.{Value}
use tinyray.Rpc.{Bytes, Error}
use tinyray.Watch.{left_ms}

abbrev pub Dict : Type 0
Dict = List (Text × Value)

-- d[key] = v
unfoldable pub put : Text → Value → Dict → Dict
put key v [] = (key, v) ∷ []
put key v ((k, old) ∷ rest) = if text_eq k key then (k, v) ∷ rest else (k, old) ∷ put key v rest

-- {**old, **new}
unfoldable pub merge : Dict → Dict → Dict
merge old [] = old
merge old ((k, v) ∷ new) = merge (put k v old) new

-- The codecs of `_encode_state`: `json.dumps` to the characters that it counts, and `json.loads`
-- with the MessagePack encoder behind it.
pub record Codec : Type 0 where
  pub json_dumps : Dict → Result Error Text
  pub repacked : Text → Result Error Bytes

-- What the native client does for a publisher, on its state `C`.
pub record Client (C : Type 0) : Type 0 where
  pub set_state : Bytes → Bool → C → Result Error (Unit {0}) × C
  pub set_state_only : Bytes → C → Result Error (Unit {0}) × C

pub record Member : Type 0 where
  pub pid : ℕ
  pub state : Dict

-- `state or {}`
abbrev pub or_none : Option Dict → Dict
or_none none = []
or_none (some d) = d

-- The calls that publish.
pub data Publish : Type 0 where
  ready update : Dict → Publish
  replace set_ready : Option Dict → Publish
  unready : Publish

-- what a call publishes
unfoldable pub wanted : Publish → Dict → Dict
wanted (ready new) old = merge old new
wanted (update new) old = merge old new
wanted (replace new) old = or_none new
wanted (set_ready new) old = or_none new
wanted unready old = old

module _ (codec : Codec) (max_state : ℕ) where
  unfoldable pub encode_state : Dict → Result Error Bytes
  encode_state state = do
    text ← codec.json_dumps state
    raise_if (ltb max_state (length text)) value_error
    codec.repacked text

module _ {C : Type 0} (client : Client C) where
  -- the call of the client that each operation makes
  unfoldable pub send : Publish → Bytes → C → Result Error (Unit {0}) × C
  send (ready new) body c = client.set_state body true c
  send (update new) body c = client.set_state_only body c
  send (replace new) body c = client.set_state_only body c
  send (set_ready new) body c = client.set_state body true c
  send unready body c = client.set_state body false c

-- `self._state = …`, which is not reached if the client raised
unfoldable pub stored :
    {C : Type 0}
    → Dict
    → Member
    → Result Error (Unit {0}) × C
    → Result Error (Unit {0}) × Member × C
stored state m (ok _, c) = (ok tt, record m { state = state }, c)
stored state m (err e, c) = (err e, m, c)

module _ {C : Type 0} (codec : Codec) (max_state : ℕ) (client : Client C) where
  unfoldable pub publish_encoded :
      Publish → Result Error Bytes → Member → C → Result Error (Unit {0}) × Member × C
  publish_encoded call (err e) m c = (err e, m, c)
  publish_encoded call (ok body) m c = stored (wanted call m.state) m (send client call body c)

  -- Member.ready, update, replace, set_ready and unready, in the process `pid`
  unfoldable pub publish : ℕ → Publish → Member → C → Result Error (Unit {0}) × Member × C
  publish pid call m c =
      if not (pid == m.pid)
      then (err runtime_error, m, c)
      else publish_encoded call (encode_state codec max_state (wanted call m.state)) m c

  -- several calls one after the other, by a caller that catches what they raise
  unfoldable pub publish_all : ℕ → List Publish → Member → C → Member × C
  publish_all pid [] m c = (m, c)
  publish_all pid (call ∷ calls) m c =
      let (result, m', c') = publish pid call m c in publish_all pid calls m' c'

-- Member.flush behind the wait: the version published, the version confirmed and `accepted`
unfoldable pub flush : ℕ → ℕ → Bool → Result Error (Unit {0})
flush mine confirmed accepted =
    if leb mine confirmed then ok tt else if not accepted then err seat_taken else err timeout_error

-- Member.wait_fenced over what its rounds read, `accepted` and the clock: `none` where they are used
-- up
unfoldable pub wait_fenced : Option ℕ → List (Bool × ℕ) → Option Bool
wait_fenced deadline [] = none
wait_fenced deadline ((accepted, now) ∷ rounds) =
    let later = wait_fenced deadline rounds in
    if not accepted
    then some true
    else elim (left_ms deadline now) [ none ↦ some false | some ms ↦ later ]
