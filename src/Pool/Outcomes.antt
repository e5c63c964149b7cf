-- ===== src/Pool/Outcomes.antt =====
-- What the waits of a pool return or raise for what the native wait answered.
use tinyray.Common.{ℕ, List, Option, some, Bool, true, false, ◌≡◌, ◌≢◌, ◌⊎◌, ◌↔◌, arith}
use tinyray.Errors.{ok, err, fenced, stale, policy_error, timeout_error}
use tinyray.Rpc.{Error}
use tinyray.Pool.{
  Status, wait_ready, wait_fenced, wait_stale, wait_no_size, Verdict, members_of, has_departed,
  replaced_by, EpochVerdict, check_fenced, epoch_behind, epoch_of,
}

module _ {S H : Type 0} (materialize : S → List H) (slot : ℕ → S → Option H) where
  members_of-fenced :
      (v : Verdict S) → (members_of materialize v ≡ err fenced) ↔ (v.status ≡ wait_fenced)
  unfolding members_of
  members_of-fenced v = ground arith

  has_departed-fenced : (v : Verdict S) → (has_departed v ≡ err fenced) ↔ (v.status ≡ wait_fenced)
  unfolding has_departed
  has_departed-fenced v = ground arith

  replaced_by-fenced :
      (seat : ℕ) (v : Verdict S) → (replaced_by slot seat v ≡ err fenced) ↔ (v.status ≡ wait_fenced)
  unfolding replaced_by
  replaced_by-fenced seat v = ground arith

  members_of-ready :
      (v : Verdict S) (found : List H)
      → (members_of materialize v ≡ ok found)
        ↔ ((v.status ≡ wait_ready) × (s : S) × (v.view ≡ some s) × (materialize s ≡ found))
  unfolding members_of
  members_of-ready v found = ground arith

  has_departed-ready : (v : Verdict S) → (has_departed v ≡ ok true) ↔ (v.status ≡ wait_ready)
  unfolding has_departed
  has_departed-ready v = ground arith

  replaced_by-ready :
      (seat : ℕ) (v : Verdict S) (h : H)
      → (replaced_by slot seat v ≡ ok (some h))
        ↔ ((v.status ≡ wait_ready) × (s : S) × (v.view ≡ some s) × (slot seat s ≡ some h))
  unfolding replaced_by
  replaced_by-ready seat v h = ground arith

  -- The waits for members, a departure and a replacement answer exactly where the native wait is
  -- ready: with the members of the view, with True, and with whoever the view holds at the seat. All
  -- three raise `Fenced` exactly where it says that the seat is lost: a lost seat is never taken for
  -- an empty pool, a timeout or a departure.
  pub waits_lem :
      (seat : ℕ) (v : Verdict S)
      → (((found : List H)
            → (members_of materialize v ≡ ok found)
              ↔ ((v.status ≡ wait_ready) × (s : S) × (v.view ≡ some s) × (materialize s ≡ found)))
          × ((has_departed v ≡ ok true) ↔ (v.status ≡ wait_ready))
          × ((h : H)
              → (replaced_by slot seat v ≡ ok (some h))
                ↔ ((v.status ≡ wait_ready) × (s : S) × (v.view ≡ some s) × (slot seat s ≡ some h))))
        × ((members_of materialize v ≡ err fenced) ↔ (v.status ≡ wait_fenced))
        × ((has_departed v ≡ err fenced) ↔ (v.status ≡ wait_fenced))
        × ((replaced_by slot seat v ≡ err fenced) ↔ (v.status ≡ wait_fenced))
  waits_lem seat v = (
    (members_of-ready v, has_departed-ready v, replaced_by-ready seat v),
    members_of-fenced v,
    has_departed-fenced v,
    replaced_by-fenced seat v,
  )

module _ {S : Type 0} where
  epoch_behind_lem :
      (status : Status) (view : Option S) (seen_pool : Bool)
      → ((s : S)
          → (epoch_behind status view seen_pool ≡ ok s) ↔ ((status ≡ wait_ready) × (view ≡ some s)))
        × (epoch_behind status view seen_pool ≢ err fenced)
        × ((epoch_behind status view seen_pool ≡ err stale) ↔ (status ≡ wait_stale))
        × ((epoch_behind status view seen_pool ≡ err policy_error) ↔ (status ≡ wait_no_size))
  unfolding epoch_behind
  epoch_behind_lem status view seen_pool = ground arith

  -- `epoch` opens a round exactly where the native wait is ready with a view, and from that view. It
  -- raises `Fenced` exactly where the wait says so and the client is no longer accepted, `Stale` and
  -- `PolicyError` exactly where the wait says that the registry is silent and that the pool declares
  -- no size, and in all other cases `TimeoutError`.
  pub epoch_of_lem :
      (e : EpochVerdict S)
      → ((s : S)
          → (epoch_of e ≡ ok s) ↔ ((e.verdict.status ≡ wait_ready) × (e.verdict.view ≡ some s)))
        × ((epoch_of e ≡ err fenced) ↔ ((e.verdict.status ≡ wait_fenced) × (e.accepted ≡ false)))
        × ((epoch_of e ≡ err stale) ↔ (e.verdict.status ≡ wait_stale))
        × ((epoch_of e ≡ err policy_error) ↔ (e.verdict.status ≡ wait_no_size))
        × ((x : Error)
            → epoch_of e ≡ err x
            → (x ≡ fenced) ⊎ ((x ≡ stale) ⊎ ((x ≡ policy_error) ⊎ (x ≡ timeout_error))))
  unfolding epoch_of check_fenced epoch_behind
  epoch_of_lem e = ground arith
