-- ===== src/Process/Steps.antt =====
-- What can happen to a process: `join`, `leave` and forks, and what it then holds.
use tinyray.Common.{
  ℕ, List, [], ◌∷◌, Option, none, some, Bool, true, false, ◌≡◌, ◌⊎◌, any, All, ◌==◌,
}
use tinyray.Errors.{ok}
use tinyray.Process.{Process, Membership, leave, forked, after_fork}
use tinyray.Process.Checks.{Request}
use tinyray.Process.Join.{Outside, join}
use tinyray.Process.Cleanup.{listening_with}

-- The module as it is imported, in the process `pid`.
abbrev pub imported : ℕ → Process
imported pid = record {
  pid = pid;
  client = none;
  server = none;
  left = false;
  owner_pid = pid;
  identity = [];
  gone = [];
  hooks = [];
  watches = [];
  waits = [];
  bells = [];
  beating = [];
  listening = [];
}

abbrev pub In : Membership → List Membership → Type 0
In m [] = ⊥
In m (h ∷ hooks) = (m ≡ h) ⊎ In m hooks

abbrev pub has_left : ℕ → Process → Bool
has_left k p = any (λ g. g == k) p.gone

-- A member that the program can hold: its exit hook stands, or it has left.
abbrev pub IsHeld : Process → Membership → Type 0
IsHeld p m = In m p.hooks ⊎ (has_left m.client p ≡ true)

-- One thing that happens to a process. `joins` and `leaves` may raise; a new client has a number
-- that no other had. `forks` is the child of a fork, behind the hook of register_at_fork; its pid is
-- not that of a process whose members it inherits.
pub data Step (p : Process) : Process → Type 0 where
  joins :
      (r : Request) (o : Outside)
      → ((k : ℕ) → o.new_client ≡ ok k → has_left k p ≡ false)
      → Step p (join r o p).1
  leaves : (m : Membership) → IsHeld p m → Step p (leave m p).1
  forks : (pid : ℕ) → All (λ h. (h.pid ≡ pid) → ⊥) p.hooks → Step p (after_fork (forked pid p))

pub data Reach (pid : ℕ) : Process → Type 0 where
  start : Reach pid (imported pid)
  later : {p q : Process} → Reach pid p → Step p q → Reach pid q

-- The process holds no membership: nothing is left to stop, and no exit hook is this process's own.
abbrev pub IsIdle : Process → Type 0
IsIdle p =
    (p.beating ≡ [])
    × (p.listening ≡ [])
    × (p.server ≡ none)
    × All (λ h. (h.pid ≡ p.pid) → ⊥) p.hooks

-- The process holds the membership `m`: the heartbeat of its client is started and not
-- stopped and its server listens, and nothing else is left to stop; its exit hook stands, and no other is this process's own.
abbrev pub IsHolding : Process → Membership → Type 0
IsHolding p m =
    (p.beating ≡ m.client ∷ [])
    × (p.listening ≡ listening_with m.server (imported 0))
    × (p.server ≡ m.server)
    × (p.owner_pid ≡ p.pid)
    × (m.pid ≡ p.pid)
    × (has_left m.client p ≡ false)
    × In m p.hooks
    × All (λ h. h.pid ≡ p.pid → h ≡ m) p.hooks

abbrev pub IsSound : Process → Option ℕ → Type 0
IsSound p none = IsIdle p
IsSound p (some c) = (m : Membership) × (m.client ≡ c) × IsHolding p m
