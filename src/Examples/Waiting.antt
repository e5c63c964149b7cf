-- ===== src/Examples/Waiting.antt =====
-- Waits on one pool.
use tinyray.Common.{
  ℕ, List, [], ◌∷◌, Option, none, some, Bool, true, ◌≡◌, ◌≢◌, refl, inl, inr, arith, ◌==◌, ◌+◌, ltb,
  if◌then◌else◌,
}
use tinyray.Common.Int.{pos}
use tinyray.Common.Text.{Text, codes}
use tinyray.Errors.{ok}
use tinyray.Rpc.{Bytes}
use tinyray.Roster.{NativeMember}
use tinyray.Pool.{
  Status, wait_pending, wait_ready, wait_fenced, Verdict, Round, await_loop, members_of,
  has_departed, replaced_by, EpochVerdict, Cache, timed_out, Waiter, Moment, rounds_of,
  replacement_target,
}
use tinyray.Pool.Waiting.{Somewhere, await_loop-ends}
use tinyray.Pool.Waits.{PoolClient, native_threshold, encode_filter}
use tinyray.Pool.Answers.{Said, IsAbout, await_ready-Said, await_replacement-Said}

-- a view is the list of the seats in it
abbrev verdict : Status → Verdict (List ℕ)
verdict status = record { status = status; view = some (3 ∷ 4 ∷ []); found = 2; revision = 8 }

abbrev heard : ℕ → Status → Round (List ℕ)
heard now status = record {
  bell = ok tt;
  checked = ok (verdict status);
  first_clock = now;
  last_clock = now;
  woken = ok tt;
}

-- nothing happens until the deadline at 2000
abbrev quiet : List (Round (List ℕ))
quiet = heard 1000 wait_pending ∷ heard 1500 wait_pending ∷ heard 2100 wait_pending ∷ []

await_loop-ends_example : await_loop true (some 2000) quiet ≢ none
await_loop-ends_example = await_loop-ends true 2000 quiet (inr (inr (inl (omega arith))))

abbrev at_seat : ℕ → List ℕ → Option ℕ
at_seat k [] = none
at_seat k (x ∷ seats) = if x == k then some x else at_seat k seats

-- a waiter that is ready once the state of the member is at least `least`
abbrev waiter : ℕ → Waiter (List ℕ) ℕ
waiter least = record {
  check = λ initial live w. (ok (verdict (if ltb w least then wait_pending else wait_ready)), w);
  wait = λ bound initial live w. (ok (verdict wait_ready), w);
}

abbrev client : PoolClient (List ℕ) ℕ ℕ ℕ
client = record {
  count_waiter = λ count filt. ok (waiter 5);
  departure_waiter = λ identity. ok (waiter 6);
  replacement_waiter = λ seat was capture. ok (waiter (seat + 4));
  encode = λ filt. ok (filt ∷ []);
  materialize = λ s. s;
  slot = at_seat;
}

abbrev moment : ℕ → ℕ → Moment ℕ
moment now w = record {
  bell = ok tt;
  live = [];
  state = w;
  first_clock = now;
  last_clock = now;
  woken = ok tt;
}

abbrev arriving : List (Moment ℕ)
arriving = moment 1000 4 ∷ moment 1500 8 ∷ []

await_ready-Said_example :
    (raw : Option Bytes) × (w : Waiter (List ℕ) ℕ) × (encode_filter client (some 9) ≡ ok raw)
    × (client.count_waiter (native_threshold (pos 2)) raw ≡ ok w)
    × Somewhere (Said (members_of {H = ℕ} (λ s. s)) (3 ∷ 4 ∷ [])) (rounds_of w true arriving)
unfolding tinyray.Pool.Waits.await_ready tinyray.Pool.Waits.awaiting tinyray.Pool.Waits.counting
    encode_filter tinyray.Pool.await_native await_loop tinyray.Watch.left_ms members_of
await_ready-Said_example =
    await_ready-Said client 7 500 arriving (6 ∷ []) (pos 2) 1500 (some 9) (3 ∷ 4 ∷ []) refl

await_replacement-Said_example :
    (seat : ℕ) × (was : Option Text) × (capture : Bool) × IsAbout (some 3) none seat was capture
    × (w : Waiter (List ℕ) ℕ) × (client.replacement_waiter seat was capture ≡ ok w)
    × Somewhere (Said (replaced_by at_seat seat) (some 3)) (rounds_of w true arriving)
unfolding tinyray.Pool.Waits.await_replacement replacement_target tinyray.Roster.native_seat
    tinyray.Pool.Waits.awaiting tinyray.Pool.Waits.replacing tinyray.Pool.await_native await_loop
    tinyray.Watch.left_ms replaced_by
await_replacement-Said_example =
    await_replacement-Said client 7 500 arriving (6 ∷ []) (some 3) none none 3 refl

abbrev round_of_two : EpochVerdict (List ℕ)
round_of_two = record { verdict = verdict wait_ready; seen_pool = true; accepted = true }

-- a pool with one ready member, at seat 3
abbrev native : ℕ → NativeMember
native k = record {
  pool = codes "engine";
  id = k;
  slot = some k;
  incarnation = 17;
  ready = true;
  identity = codes "engine/3#17";
}

abbrev cache : Cache
cache = record {
  choose_ref = some (native 3);
  lookup_slot_ref = λ k require_ready. if k == 3 then some (native k) else none;
}

cache_sits :
    (k : ℕ) (require_ready : Bool) (m : NativeMember)
    → cache.lookup_slot_ref k require_ready ≡ some m
    → (m.slot ≡ some k) × (require_ready ≡ true → m.ready ≡ true)
cache_sits k require_ready m h = ground arith
