-- ===== src/Process/Join.antt =====
-- `join` behind its checks: the server, the client, the first beats and what they answered, and the
-- hand-over of what was opened.
use tinyray.Common.{
  ℕ, List, [], ◌∷◌, Option, none, some, Bool, true, false, not, ◌&&◌, if◌then◌else◌, ◌==◌,
}
use tinyray.Common.Text.{Text}
use tinyray.Errors.{Result, ok, err, raise_if, unreachable, policy_error, seat_taken}
use tinyray.Rpc.{Error}
use tinyray.Identity.{identity, seat_key}
use tinyray.Endpoint.{advertise, checked_method_endpoint, served_url}
use tinyray.Registry.{missing}
use tinyray.Process.{Process, Membership}
use tinyray.Process.Checks.{Request, Checked, check_join}
use tinyray.Process.Building.{
  Building, Act, ◌>>=◌, ◌>>◌, lift, pure, open_server, open_client, unwind,
}

-- What the outside answers to one call of `join`, whenever it is asked: the environment, the random
-- id and the clock, the routing table, the constructors of the native server and client, and the
-- native client's first beats. A constructor or call that raises is an `err`.
pub record Outside : Type 0 where
  pub environ : Text → Option Text
  pub advertise_variable : Option Text
  pub probe : Result Error Text
  pub random_id : ℕ
  pub incarnation : ℕ
  pub new_server : Result Error ℕ
  pub port : ℕ
  pub new_client : Result Error ℕ
  pub watch : Result Error (Unit {0})
  pub start : Result Error Bool
  pub beats_ok : ℕ
  pub accepted : Bool
  pub refused : Bool
  pub protocol : ℕ
  pub warn : Result Error (Unit {0})

-- the address that peers are to dial
unfoldable pub own_url : Option Text → Outside → Result Error Text
own_url (some given) o = checked_method_endpoint given
own_url none o = elim (advertise o.advertise_variable o.probe) [
  | ok host ↦ ok (served_url host o.port)
  | err e ↦ err e
]

-- `if serves is not None: … elif url is not None: …`
unfoldable pub serve : Bool → Option Text → Outside → Act (Option ℕ × Option Text)
serve true given o = do
  k ← lift o.new_server
  open_server k
  url ← lift (own_url given o)
  pure (some k, some url)
serve false none o = pure (none, none)
serve false (some given) o = do url ← lift (checked_method_endpoint given); pure (none, some url)

-- `if not c.start(…): …`
unfoldable pub answered : Bool → ℕ → Result Error (Unit {0})
answered started beats_ok = raise_if (not started && beats_ok == 0) unreachable

-- `if not c.accepted: …`
unfoldable pub admitted : Bool → Bool → Result Error (Unit {0})
admitted accepted refused = raise_if (not accepted) (if refused then policy_error else seat_taken)

-- the warning about an old registry, which a filter may turn into an exception
unfoldable pub greeted : List Text → Result Error (Unit {0}) → Result Error (Unit {0})
greeted [] warn = ok tt
greeted (feature ∷ rest) warn = warn

unfoldable pub register : Outside → Act ℕ
unfolding answered admitted greeted
register o = do
  k ← lift o.new_client
  open_client k
  lift o.watch
  started ← lift o.start
  lift (answered started o.beats_ok)
  lift (admitted o.accepted o.refused)
  lift (greeted (missing o.protocol) o.warn)
  pure k

-- the body of the `with`
unfoldable pub build : Request → Outside → ℕ → Text → Act Membership
unfolding serve register
build r o pid who = do
  served ← serve r.serves r.url o
  k ← register o
  pure (record { pid = pid; client = k; server = served.0; identity = who })

-- the assignments behind the construction of the Member
unfoldable pub commit : Membership → Process → Process
commit m p = record p {
  client = some m.client;
  server = m.server;
  owner_pid = p.pid;
  identity = m.identity;
  hooks = m ∷ p.hooks;
}

unfoldable pub settle_join : Result Error Membership × Building → Result Error Membership × Process
settle_join (ok m, b) = (ok m, commit m b.process)
settle_join (err e, b) = (err e, unwind b.cleanup b.process)

-- _identity(pool, slot, ident, incarnation)
unfoldable pub own_identity : Checked → Outside → Text
own_identity c o = identity c.pool c.slot (seat_key c.slot o.random_id) o.incarnation

unfoldable pub join_checked :
    Request → Outside → Result Error Checked → Process → Result Error Membership × Process
join_checked r o (err e) p = (err e, p)
join_checked r o (ok c) p =
    settle_join (build r o p.pid (own_identity c o) (record { process = p; cleanup = [] }))

unfoldable pub join : Request → Outside → Process → Result Error Membership × Process
join r o p =
    let rejoining = record p { left = false } in
    join_checked r o (check_join r o.environ p.client) rejoining
