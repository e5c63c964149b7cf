-- ===== src/Process.antt =====
-- python/tinyray/__init__.py: the process-wide state of the module (`_client`, `_method_server`,
-- `_left`, `_owner_pid`, the live watches and waits), with the identity of python/tinyray/_rpc.py,
-- and what changes it: `join`, `Member.leave`, `_after_fork` and the exit hooks. Of the native
-- resources the process has those that run in it: `beating` are the clients whose heartbeat it has
-- started and not stopped, `listening` the servers that listen. The native heartbeat of a member that
-- was superseded or refused ends by itself, which `beating` does not show.
pub mod Checks
pub mod Building
pub mod Join
pub mod Cleanup
pub mod Steps
pub mod Reach
pub mod Exit
use tinyray.Common.{
  ℕ, List, [], ◌∷◌, Option, none, some, Bool, true, false, not, if◌then◌else◌, any, ◌==◌, keep,
}
use tinyray.Common.Text.{Text}
use tinyray.Errors.{Result, ok, err, runtime_error}
use tinyray.Rpc.{Error}

-- A Member, by what its `leave` uses. Clients and servers are numbered.
pub record Membership : Type 0 where
  pub pid : ℕ
  pub client : ℕ
  pub server : Option ℕ
  pub identity : Text

pub record Process : Type 0 where
  pub pid : ℕ
  pub client : Option ℕ
  pub server : Option ℕ
  pub left : Bool
  pub owner_pid : ℕ
  pub identity : Text
  -- the members whose `_left` is set
  pub gone : List ℕ
  -- what atexit is to call
  pub hooks : List Membership
  pub watches : List ℕ
  pub waits : List ℕ  -- the live native waits that were not closed
  pub bells : List ℕ
  pub beating : List ℕ
  pub listening : List ℕ

unfoldable pub remove : ℕ → List ℕ → List ℕ
remove k [] = []
remove k (x ∷ xs) = if x == k then xs else x ∷ remove k xs

-- server.close(), for a server or None
unfoldable pub close_server : Option ℕ → Process → Process
close_server none p = p
close_server (some k) p = record p { listening = remove k p.listening }

-- client.leave()
unfoldable pub leave_client : ℕ → Process → Process
leave_client k p = record p { beating = remove k p.beating }

abbrev pub is_client : Option ℕ → ℕ → Bool
is_client none k = false
is_client (some c) k = c == k

-- if _client is self._c: …
unfoldable pub forget_client : ℕ → Process → Process
forget_client k p =
    if is_client p.client k then record p { client = none; server = none; left = true } else p

-- Member.leave behind its two tests
unfoldable pub leave_now : Membership → Process → Process
unfolding close_server leave_client forget_client
leave_now m p =
    let marked = record p {
      gone = m.client ∷ p.gone;
      hooks = keep (λ h. not (h.client == m.client)) p.hooks;
      watches = [];
      waits = [];
    } in
    close_server m.server (leave_client m.client (forget_client m.client marked))

-- Member.leave
unfoldable pub leave : Membership → Process → Result Error (Unit {0}) × Process
leave m p =
    if not (p.pid == m.pid)
    then (err runtime_error, p)
    else if any (λ k. k == m.client) p.gone
    then (ok tt, p)
    else (ok tt, leave_now m p)

-- Member._leave_at_exit, whose result nobody sees
unfoldable pub leave_at_exit : Membership → Process → Process
leave_at_exit m p = if p.pid == m.pid then (leave m p).1 else p

-- the exit hooks, run at a normal exit
unfoldable pub run_hooks : List Membership → Process → Process
run_hooks [] p = p
run_hooks (m ∷ hooks) p = run_hooks hooks (leave_at_exit m p)

unfoldable pub exit : Process → Process
exit p = run_hooks p.hooks p

-- fork() as the child sees it, whose pid is `pid`: no thread of the parent runs in it
unfoldable pub forked : ℕ → Process → Process
forked pid p = record p { pid = pid; beating = []; listening = [] }

-- _after_fork, in the child
unfoldable pub after_fork : Process → Process
after_fork p = record p {
  client = none;
  server = none;
  left = false;
  watches = [];
  waits = [];
  bells = [];
}

-- _require_client
unfoldable pub require_client : Process → Result Error ℕ
require_client p = elim p.client [
  | some c ↦ if not (p.pid == p.owner_pid) then err runtime_error else ok c
  | none ↦ err runtime_error
]
