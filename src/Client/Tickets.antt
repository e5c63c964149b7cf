-- ===== src/Client/Tickets.antt =====
-- What an awaited call tells the native transport: each completion is taken or turned down, and the
-- ticket is cancelled.
use tinyray.Common.{
  ℕ, suc, ◌+◌, ◌≤◌, List, [], ◌∷◌, ◌++◌, Bool, true, false, if◌then◌else◌, length, ◌≡◌, refl, ap,
  ◌∙◌, arith, length-append,
}
use tinyray.Errors.{Result, ok, err}
use tinyray.Rpc.{Error, Outcome}
use tinyray.Client.Await.{
  Future, pending, with_result, with_exception, is_cancelled, End, waiting, answered, cancelled,
  Event, completes, cancels, wakes, Awaiting, just_asked, complete, cancel, cancelled_future, wake,
  resume, happens, await_all,
}

abbrev pub completions : List Event → ℕ
completions [] = 0
completions (completes r ∷ events) = suc (completions events)
completions (cancels ∷ events) = completions events
completions (wakes ∷ events) = completions events

abbrev pub count_true : List Bool → ℕ
count_true [] = 0
count_true (b ∷ bs) = (if b then 1 else 0) + count_true bs

abbrev pub holds_outcome : Future → ℕ
holds_outcome pending = 0
holds_outcome is_cancelled = 0
holds_outcome (with_result outcome) = 1
holds_outcome (with_exception e) = 1

abbrev pub ended_cancelled : End Outcome → Bool
ended_cancelled cancelled = true
ended_cancelled _ = false

count_true-append :
    (bs : List Bool) (b : Bool) → count_true (bs ++ b ∷ []) ≡ count_true bs + (if b then 1 else 0)
count_true-append [] b = ground arith
count_true-append (c ∷ bs) b = omega (arith, count_true-append bs b)

abbrev IsKept : Awaiting → Type 0
IsKept s =
    (count_true s.resolved ≡ holds_outcome s.future) × (s.ticket_cancelled ≡ ended_cancelled s.end)

complete-IsKept :
    (r : Result Error Outcome) (s : Awaiting)
    → IsKept s
    → IsKept (complete r s) × (length (complete r s).resolved ≡ suc (length s.resolved))
unfolding complete
complete-IsKept (ok outcome) s h = ground (
  arith,
  count_true-append s.resolved true,
  count_true-append s.resolved false,
  length-append s.resolved (true ∷ []),
  length-append s.resolved (false ∷ []),
)
complete-IsKept (err e) s h = ground (
  arith,
  count_true-append s.resolved true,
  count_true-append s.resolved false,
  length-append s.resolved (true ∷ []),
  length-append s.resolved (false ∷ []),
)

cancelled_future-IsKept :
    (f : Future) (s : Awaiting)
    → s.future ≡ f
    → IsKept s
    → IsKept (cancelled_future f s) × ((cancelled_future f s).resolved ≡ s.resolved)
cancelled_future-IsKept pending s h k = ground arith
cancelled_future-IsKept (with_result outcome) s h k = ground arith
cancelled_future-IsKept (with_exception e) s h k = ground arith
cancelled_future-IsKept is_cancelled s h k = ground arith

cancel-IsKept :
    (e : End Outcome) (s : Awaiting)
    → s.end ≡ e
    → IsKept s
    → IsKept (cancel s) × ((cancel s).resolved ≡ s.resolved)
unfolding cancel
cancel-IsKept waiting s h k = rw (h, cancel) (cancelled_future-IsKept s.future s refl k)
cancel-IsKept (answered r) s h k = rw (h, cancel) (k, refl)
cancel-IsKept cancelled s h k = rw (h, cancel) (k, refl)

resume-IsKept :
    (f : Future) (s : Awaiting)
    → s.future ≡ f
    → s.end ≡ waiting
    → IsKept s
    → IsKept (resume f s) × ((resume f s).resolved ≡ s.resolved)
resume-IsKept pending s h w k = (k, refl)
resume-IsKept (with_result outcome) s h w k = ground arith
resume-IsKept (with_exception e) s h w k = ground arith
resume-IsKept is_cancelled s h w k = ground arith

wake-IsKept :
    (e : End Outcome) (s : Awaiting)
    → s.end ≡ e
    → IsKept s
    → IsKept (wake s) × ((wake s).resolved ≡ s.resolved)
unfolding wake
wake-IsKept waiting s h k = rw (h, wake) (resume-IsKept s.future s refl h k)
wake-IsKept (answered r) s h k = rw (h, wake) (k, refl)
wake-IsKept cancelled s h k = rw (h, wake) (k, refl)

run-IsKept :
    (events : List Event) (s : Awaiting)
    → IsKept s
    → IsKept (await_all events s)
      × (length (await_all events s).resolved ≡ completions events + length s.resolved)
unfolding await_all happens
run-IsKept [] s k = (k, omega arith)
run-IsKept (completes r ∷ events) s k =
    let (kept, one) = complete-IsKept r s k in
    let (after, all) = run-IsKept events (complete r s) kept in (after, omega (arith, all, one))
run-IsKept (cancels ∷ events) s k =
    let (kept, same) = cancel-IsKept s.end s refl k in
    let (after, all) = run-IsKept events (cancel s) kept in
    (after, all ∙ ap (λ r. completions events + length r) same)
run-IsKept (wakes ∷ events) s k =
    let (kept, same) = wake-IsKept s.end s refl k in
    let (after, all) = run-IsKept events (wake s) kept in
    (after, all ∙ ap (λ r. completions events + length r) same)

holds_outcome_le : (f : Future) → holds_outcome f ≤ 1
holds_outcome_le pending = omega arith
holds_outcome_le (with_result outcome) = omega arith
holds_outcome_le (with_exception e) = omega arith
holds_outcome_le is_cancelled = omega arith

-- Whatever happens to an awaited call, in whatever order: `complete` resolves every completion exactly
-- once, at most one of them by `resolve(True)`; and the ticket is cancelled if and only if the
-- call has ended with `CancelledError`.
pub await_all-resolves :
    (events : List Event)
    → let s = await_all events just_asked in
      (length s.resolved ≡ completions events)
      × (count_true s.resolved ≤ 1)
      × (s.ticket_cancelled ≡ ended_cancelled s.end)
await_all-resolves events =
    let (kept, all) = run-IsKept events just_asked (refl, refl) in
    (
      omega (arith, all),
      omega (arith, kept.0, holds_outcome_le (await_all events just_asked).future),
      kept.1,
    )
