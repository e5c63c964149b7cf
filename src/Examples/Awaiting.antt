-- ===== src/Examples/Awaiting.antt =====
-- Awaited calls: one that is cancelled after it was completed, and calls over a transport that
-- completes them once its loop has turned.
use tinyray.Common.{ℕ, ◌≤◌, List, [], ◌∷◌, none, ◌≡◌, refl, length}
use tinyray.Common.Text.{codes}
use tinyray.Errors.{err, ok, timeout_error}
use tinyray.Value.{null}
use tinyray.Client.{micros, invoke, batch}
use tinyray.Client.Await.{
  Event, completes, cancels, wakes, cancelled, AsyncWire, await_all, just_asked, ainvoke, abatch,
}
use tinyray.Client.Awaited.{decided, await_all-decided}
use tinyray.Client.Tickets.{completions, count_true, ended_cancelled, await_all-resolves}
use tinyray.Client.Agreement.{Delivers, end_at_once, awaited_same}
use tinyray.Examples.Calling.{link, peer, ids, calls}

abbrev late : List Event
late = wakes ∷ completes (err timeout_error) ∷ cancels ∷ wakes ∷ completes (err timeout_error) ∷ []

is_overruled : decided late ≡ cancelled
is_overruled = refl

await_all-decided_example : (await_all late just_asked).end ≡ decided late
await_all-decided_example = await_all-decided late

await_all-resolves_example :
    let s = await_all late just_asked in
    (length s.resolved ≡ completions late)
    × (count_true s.resolved ≤ 1)
    × (s.ticket_cancelled ≡ ended_cancelled s.end)
await_all-resolves_example = await_all-resolves late

abbrev turning : AsyncWire ℕ
turning = record {
  wire = link;
  rpc_call_async = λ p w.
      let (result, w') = link.rpc_call p w in (ok (wakes ∷ completes result ∷ wakes ∷ []), w');
}

turning-Delivers : Delivers turning
turning-Delivers p w = (wakes ∷ completes (link.rpc_call p w).0 ∷ wakes ∷ [], refl, refl)

awaited_same_example :
    (ainvoke turning peer (codes "add") null (micros 5000) none ids 0
      ≡ end_at_once (invoke link peer (codes "add") null (micros 5000) none ids 0))
    × (abatch turning peer calls (micros 5000) ids 0
        ≡ end_at_once (batch link peer calls (micros 5000) ids 0))
awaited_same_example =
    awaited_same turning turning-Delivers peer (codes "add") null calls (micros 5000) none ids 0
