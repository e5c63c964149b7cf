-- ===== src/Bells.antt =====
-- python/tinyray/__init__.py, `_LoopBell` and `_loop_bell`, and python/tinyray/_rpc.py, `per_loop`:
-- the pipe that wakes the waits of one event loop. A bell is the futures of its waits; a loop runs
-- one thing at a time, so each callback and each part of a coroutine between two awaits is one step.
pub mod Wakeups
pub mod Loops
use tinyray.Common.{
  ℕ, zero, suc, ◌+◌, List, [], ◌∷◌, ◌++◌, Option, none, some, Bool, true, false, not, if◌then◌else◌,
  any, ◌==◌, keep, map,
}
use tinyray.Common.Distinct.{is_in}
use tinyray.Errors.{Result, ok, err, runtime_error}
use tinyray.Rpc.{Error}

-- `waiters` is the list of the source; `active` are the futures whose `wait` has not returned, and
-- `done` those with a result. A new future has the number `next`.
pub record Bell : Type 0 where
  pub client : ℕ
  pub next : ℕ
  pub waiters : List ℕ
  pub active : List ℕ
  pub done : List ℕ
  pub is_open : Bool

-- _LoopBell.__init__
unfoldable pub new_bell : ℕ → Bell
new_bell client = record {
  client = client;
  next = 0;
  waiters = [];
  active = [];
  done = [];
  is_open = true;
}

-- if not fut.done(): fut.set_result(None)
unfoldable pub resolve : ℕ → List ℕ → List ℕ
resolve k done = if is_in k done then done else k ∷ done

unfoldable pub resolve_all : List ℕ → List ℕ → List ℕ
unfolding resolve
resolve_all [] done = done
resolve_all (k ∷ waiters) done = resolve_all waiters (resolve k done)

-- _LoopBell._fire
unfoldable pub fire : Bell → Bell
unfolding resolve_all
fire b = record b { waiters = []; done = resolve_all b.waiters b.done }

-- _LoopBell.wait, up to its await
unfoldable pub begin : Bell → Bell
begin b = record b {
  next = b.next + 1;
  waiters = b.waiters ++ b.next ∷ [];
  active = b.next ∷ b.active;
}

-- _LoopBell._expire
unfoldable pub expire : ℕ → Bell → Bell
unfolding resolve
expire k b = record b { done = resolve k b.done }

-- self._waiters.remove(fut), where a ValueError is passed over
unfoldable pub take_out : ℕ → List ℕ → List ℕ
take_out k [] = []
take_out k (x ∷ xs) = if x == k then xs else x ∷ take_out k xs

-- the `finally` of _LoopBell.wait, behind a result or a cancellation
unfoldable pub finish : ℕ → Bell → Bell
unfolding take_out
finish k b = record b { waiters = take_out k b.waiters; active = keep (λ x. not (x == k)) b.active }

-- _LoopBell.close, for a loop that is closed or not
unfoldable pub close : Bool → Bell → Bell
unfolding fire
close loop_closed b =
    let fired = fire b in
    if loop_closed
    then record b { waiters = []; is_open = false }
    else record fired { waiters = []; is_open = false }

-- what happens on the loop of a bell
pub data Event : Type 0 where
  begins : Event
  rings : Event
  expires : ℕ → Event
  finishes : ℕ → Event

unfoldable pub happen : Event → Bell → Bell
unfolding begin fire expire finish
happen begins b = begin b
happen rings b = fire b
happen (expires k) b = expire k b
happen (finishes k) b = finish k b

unfoldable pub happen_all : List Event → Bell → Bell
happen_all [] b = b
happen_all (e ∷ events) b = happen_all events (happen e b)

-- per_loop over the loops by number: the value, the cache behind the call, and what was dropped
-- before it, in order
unfoldable pub sweep : {T : Type 0} → (ℕ → Bool) → List (ℕ × T) → List (ℕ × T) × List T
sweep is_gone [] = ([], [])
sweep is_gone ((loop, held) ∷ cache) =
    let (left, dropped) = sweep is_gone cache in
    if is_gone loop then (left, held ∷ dropped) else ((loop, held) ∷ left, dropped)

-- cache.get(key)
unfoldable pub entry_of : {T : Type 0} → ℕ → List (ℕ × T) → Option T
entry_of loop [] = none
entry_of loop ((k, held) ∷ cache) = if k == loop then some held else entry_of loop cache

-- cache.pop(key)
unfoldable pub pop : {T : Type 0} → ℕ → List (ℕ × T) → List (ℕ × T)
pop loop [] = []
pop loop ((k, held) ∷ cache) =
    let left = pop loop cache in if k == loop then left else (k, held) ∷ left

unfoldable pub use_entry :
    {T : Type 0} → ℕ → T → (T → Bool) → Option T → List (ℕ × T) → List T → T × List (ℕ × T) × List T
unfolding pop
use_entry loop made reuse none cache dropped = (made, (loop, made) ∷ cache, dropped)
use_entry loop made reuse (some held) cache dropped =
    if reuse held
    then (held, cache, dropped)
    else (made, (loop, made) ∷ pop loop cache, dropped ++ held ∷ [])

unfoldable pub per_loop :
    {T : Type 0} → (ℕ → Bool) → ℕ → T → (T → Bool) → List (ℕ × T) → T × List (ℕ × T) × List T
unfolding sweep use_entry entry_of
per_loop is_gone loop made reuse cache =
    let (left, dropped) = sweep is_gone cache in
    use_entry loop made reuse (entry_of loop left) left dropped

-- _loop_bell, for the module's client and the one that the wait is of
unfoldable pub loop_bell :
    Option ℕ
    → ℕ
    → (ℕ → Bool)
    → ℕ
    → List (ℕ × Bell)
    → Result Error (Bell × List (ℕ × Bell) × List Bell)
unfolding per_loop
loop_bell none client is_gone loop bells = err runtime_error
loop_bell (some current) client is_gone loop bells =
    if not (client == current)
    then err runtime_error
    else ok (per_loop is_gone loop (new_bell client) (λ b. b.client == client) bells)
