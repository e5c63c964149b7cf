-- ===== src/Member/Reads.antt =====
-- python/tinyray/__init__.py: `Member.await_fenced`, beside `wait_fenced`.
use tinyray.Common.{
  ℕ, List, [], ◌∷◌, Option, none, some, Bool, true, false, not, if◌then◌else◌, ◌==◌, ◌≡◌, refl,
  arith, map,
}
use tinyray.Errors.{Result, ok, err, runtime_error}
use tinyray.Rpc.{Error}
use tinyray.Watch.{left_ms}
use tinyray.Member.{Member, wait_fenced}

-- What one round reads, in order: the bell of the loop, `accepted`, the clock, and how the wait for
-- the bell ends (a cancellation raises).
pub record FenceRound : Type 0 where
  pub bell : Result Error (Unit {0})
  pub accepted : Bool
  pub clock : ℕ
  pub woken : Result Error (Unit {0})

-- `_mine`, in the process `pid`
unfoldable pub mine : ℕ → Member → Result Error (Unit {0})
mine pid m = if not (pid == m.pid) then err runtime_error else ok tt

unfoldable pub fence_round :
    Option ℕ → FenceRound → Option (Result Error Bool) → Option (Result Error Bool)
fence_round deadline r later = elim r.bell [
  | err e ↦ some (err e)
  | ok _ ↦ if not r.accepted then some (ok true) else elim (left_ms deadline r.clock) [
    | none ↦ some (ok false)
    | some ms ↦ elim r.woken [ err e ↦ some (err e) | ok _ ↦ later ]
  ]
]

-- the loop of await_fenced: `none` where the rounds are used up
unfoldable pub fence_loop : Option ℕ → List FenceRound → Option (Result Error Bool)
unfolding fence_round
fence_loop deadline [] = none
fence_loop deadline (r ∷ rounds) =
    let later = fence_loop deadline rounds in fence_round deadline r later

unfoldable pub await_fenced : ℕ → Member → Option ℕ → List FenceRound → Option (Result Error Bool)
await_fenced pid m deadline rounds = elim (mine pid m) [
  | err e ↦ some (err e)
  | ok _ ↦ fence_loop deadline rounds
]

-- rounds in which nothing is raised
abbrev pub IsQuiet : List FenceRound → Type 0
IsQuiet [] = Unit
IsQuiet (r ∷ rounds) = (r.bell ≡ ok tt) × (r.woken ≡ ok tt) × IsQuiet rounds

abbrev pub answer_as : Option Bool → Option (Result Error Bool)
answer_as none = none
answer_as (some fenced) = some (ok fenced)

abbrev pub seen_by : List FenceRound → List (Bool × ℕ)
seen_by rounds = map (λ r. (r.accepted, r.clock)) rounds

-- Where nothing is raised, the wait on an event loop says what the wait that blocks does, of the same
-- observations.
pub fence_loop_same :
    (deadline : Option ℕ) (rounds : List FenceRound)
    → IsQuiet rounds
    → fence_loop deadline rounds ≡ answer_as (wait_fenced deadline (seen_by rounds))
unfolding fence_loop fence_round wait_fenced
fence_loop_same deadline [] quiet = refl
fence_loop_same deadline (r ∷ rounds) (bell, woken, quiet) =
    ground (arith, bell, woken, fence_loop_same deadline rounds quiet)
