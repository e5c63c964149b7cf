-- ===== src/Client/Awaited.antt =====
-- What an awaited call comes to under any sequence of events, and awaited calls beside calls that
-- block.
use tinyray.Common.{List, [], ◌∷◌, true, false, ◌≡◌, ◌≢◌, ◌⊎◌, refl, ap, arith, ◌∙◌}
use tinyray.Errors.{Result, ok, err}
use tinyray.Rpc.{Error, Outcome}
use tinyray.Client.Await.{
  Future, pending, with_result, with_exception, is_cancelled, End, waiting, answered, cancelled,
  Event, completes, cancels, wakes, Awaiting, just_asked, future_of, complete, cancel,
  reply_or_raise, wake, happens, await_all, is_done, cancelled_future, resume,
}

-- The reference: the first completion or cancellation decides, and a cancellation also overrules a
-- completion that the coroutine has not seen yet.
abbrev pub once_woken : List Event → End Outcome → End Outcome
once_woken [] e = waiting
once_woken (wakes ∷ events) e = e
once_woken (completes r ∷ events) e = once_woken events e
once_woken (cancels ∷ events) e = once_woken events e

abbrev pub end_of : Result Error Outcome → End Outcome
end_of (ok outcome) = answered (reply_or_raise outcome)
end_of (err e) = answered (err e)

abbrev pub completed : Result Error Outcome → List Event → End Outcome
completed r [] = waiting
completed r (wakes ∷ events) = end_of r
completed r (completes r' ∷ events) = completed r events
completed r (cancels ∷ events) = once_woken events cancelled

abbrev pub decided : List Event → End Outcome
decided [] = waiting
decided (wakes ∷ events) = decided events
decided (cancels ∷ events) = once_woken events cancelled
decided (completes r ∷ events) = completed r events

finished_stays :
    (events : List Event) (s : Awaiting) (e : End Outcome)
    → s.end ≡ e
    → e ≢ waiting
    → (await_all events s).end ≡ e
unfolding await_all happens complete cancel wake
finished_stays [] s e h k = h
finished_stays (completes r ∷ events) s e h k =
    finished_stays events (complete r s) e (ground arith) k
finished_stays (cancels ∷ events) s e h k = finished_stays events (cancel s) e (ground arith) k
finished_stays (wakes ∷ events) s e h k = finished_stays events (wake s) e (ground arith) k

-- a call that is to end as cancelled when its coroutine is resumed
abbrev IsMarked : Awaiting → Type 0
IsMarked s =
    (s.end ≡ waiting)
    × ((s.future ≡ is_cancelled) ⊎ ((is_done s.future ≡ true) × (s.must_cancel ≡ true)))

complete-IsMarked : (r : Result Error Outcome) (s : Awaiting) → IsMarked s → IsMarked (complete r s)
unfolding complete
complete-IsMarked r s h = ground arith

cancelled_future-IsMarked :
    (f : Future) (s : Awaiting) → s.future ≡ f → s.end ≡ waiting → IsMarked (cancelled_future f s)
cancelled_future-IsMarked pending s h k = ground arith
cancelled_future-IsMarked (with_result outcome) s h k = ground arith
cancelled_future-IsMarked (with_exception e) s h k = ground arith
cancelled_future-IsMarked is_cancelled s h k = ground arith

cancel-IsMarked : (s : Awaiting) → s.end ≡ waiting → IsMarked (cancel s)
unfolding cancel
cancel-IsMarked s h = rw (h, cancel) (cancelled_future-IsMarked s.future s refl h)

resume_marked :
    (f : Future) (s : Awaiting) → s.future ≡ f → IsMarked s → (resume f s).end ≡ cancelled
resume_marked pending s h k = ground arith
resume_marked (with_result outcome) s h k = ground arith
resume_marked (with_exception e) s h k = ground arith
resume_marked is_cancelled s h k = refl

wake_marked : (s : Awaiting) → IsMarked s → (wake s).end ≡ cancelled
unfolding wake
wake_marked s h = rw (h.0, wake) (resume_marked s.future s refl h)

run_marked :
    (events : List Event) (s : Awaiting)
    → IsMarked s
    → (await_all events s).end ≡ once_woken events cancelled
unfolding await_all happens
run_marked [] s h = h.0
run_marked (completes r ∷ events) s h = run_marked events (complete r s) (complete-IsMarked r s h)
run_marked (cancels ∷ events) s h = run_marked events (cancel s) (cancel-IsMarked s h.0)
run_marked (wakes ∷ events) s h =
    finished_stays events (wake s) cancelled (wake_marked s h) (λ e. ground arith)

-- a call with an answer that its coroutine has not seen
abbrev IsComplete : Result Error Outcome → Awaiting → Type 0
IsComplete r s = (s.end ≡ waiting) × (s.future ≡ future_of r) × (s.must_cancel ≡ false)

wake_complete : (r : Result Error Outcome) (s : Awaiting) → IsComplete r s → (wake s).end ≡ end_of r
unfolding wake
wake_complete (ok outcome) s h = ground arith
wake_complete (err e) s h = ground arith

end_of-waiting : (r : Result Error Outcome) → end_of r ≢ waiting
end_of-waiting (ok outcome) h = ground arith
end_of-waiting (err e) h = ground arith

complete-IsComplete :
    (r r' : Result Error Outcome) (s : Awaiting) → IsComplete r s → IsComplete r (complete r' s)
unfolding complete
complete-IsComplete (ok outcome) r' s h = ground arith
complete-IsComplete (err e) r' s h = ground arith

run_complete :
    (events : List Event) (r : Result Error Outcome) (s : Awaiting)
    → IsComplete r s
    → (await_all events s).end ≡ completed r events
unfolding await_all happens
run_complete [] r s h = h.0
run_complete (completes r' ∷ events) r s h =
    run_complete events r (complete r' s) (complete-IsComplete r r' s h)
run_complete (cancels ∷ events) r s h = run_marked events (cancel s) (cancel-IsMarked s h.0)
run_complete (wakes ∷ events) r s h =
    finished_stays events (wake s) (end_of r) (wake_complete r s h) (end_of-waiting r)

complete-pending : (r : Result Error Outcome) → IsComplete r (complete r just_asked)
unfolding complete
complete-pending r = (refl, refl, refl)

wake-just_asked : wake just_asked ≡ just_asked
unfolding wake
wake-just_asked = refl

-- Whatever happens to an awaited call, in whatever order, it ends as the first completion or
-- cancellation says, once its coroutine is resumed after it; a cancellation that comes after the
-- completion, but before the coroutine is resumed, overrules it; and until then the call waits.
pub await_all-decided : (events : List Event) → (await_all events just_asked).end ≡ decided events
unfolding await_all happens
await_all-decided [] = refl
await_all-decided (completes r ∷ events) =
    run_complete events r (complete r just_asked) (complete-pending r)
await_all-decided (cancels ∷ events) =
    run_marked events (cancel just_asked) (cancel-IsMarked just_asked refl)
await_all-decided (wakes ∷ events) =
    ap (λ s. (await_all events s).end) wake-just_asked ∙ await_all-decided events
