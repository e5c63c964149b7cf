-- ===== src/Examples/Lifecycle.antt =====
-- A process that joins, leaves, forks and exits.
use tinyray.Common.{
  ℕ, List, [], ◌∷◌, Option, none, some, Bool, true, false, ◌≡◌, refl, inl, inr, arith,
}
use tinyray.Common.Int.{pos}
use tinyray.Common.Text.{Text, codes}
use tinyray.Errors.{ok, err, seat_taken}
use tinyray.Process.{Process, Membership, exit, require_client}
use tinyray.Process.Checks.{Request}
use tinyray.Process.Join.{Outside, join}
use tinyray.Process.Cleanup.{join_restores}
use tinyray.Process.Steps.{imported, joins, Reach, start, later, IsSound}
use tinyray.Process.Reach.{reach-IsSound}
use tinyray.Process.Exit.{exit_idle}

-- seat 3 of 8, with an object to serve
abbrev request : Request
request = record {
  pool = codes "engine";
  policy = codes "stateful";
  slot = some (pos 3);
  size = some (pos 8);
  url = none;
  serves = true;
  coalesce_ms = some (pos 50);
  registry_url = none;
}

abbrev outside : Outside
outside = record {
  environ = λ name. none;
  advertise_variable = some (codes "h");
  probe = ok (codes "h");
  random_id = 5;
  incarnation = 17;
  new_server = ok 1;
  port = 9000;
  new_client = ok 2;
  watch = ok tt;
  start = ok true;
  beats_ok = 1;
  accepted = true;
  refused = false;
  protocol = 3;
  warn = ok tt;
}

-- the same seat, which somebody holds with a later tenure
abbrev taken : Outside
taken = record outside { accepted = false }

-- a process that has left before
abbrev before : Process
before = record (imported 7) { left = true; gone = 0 ∷ [] }

abbrev member : Membership
member = record { pid = 7; client = 2; server = some 1; identity = codes "engine/3#17" }

abbrev joined : Process
joined = record before {
  left = false;
  client = some 2;
  server = some 1;
  identity = codes "engine/3#17";
  hooks = member ∷ [];
  beating = 2 ∷ [];
  listening = 1 ∷ [];
}

joins_well : join request outside before ≡ (ok member, joined)
unfolding join tinyray.Process.Join.join_checked tinyray.Process.Checks.check_join
    tinyray.Endpoint.checked_pool_name tinyray.Common.Text.text_eq
    tinyray.Process.Checks.checked_seats tinyray.Process.Join.settle_join
    tinyray.Endpoint.registry_endpoint tinyray.Common.Text.strip tinyray.Common.Text.is_space
    tinyray.Common.Text.contains tinyray.Common.Text.starts_with tinyray.Process.Join.build
    tinyray.Process.Building.open_server tinyray.Process.Join.own_url tinyray.Endpoint.advertise
    tinyray.Process.Building.open_client tinyray.Registry.missing tinyray.Process.Join.own_identity
    tinyray.Process.Join.commit tinyray.Identity.identity tinyray.Common.Decimal.decimal
joins_well = refl

joins_badly : join request taken before ≡ (err seat_taken, record before { left = false })
unfolding join tinyray.Process.Join.join_checked tinyray.Process.Checks.check_join
    tinyray.Endpoint.checked_pool_name tinyray.Common.Text.text_eq
    tinyray.Process.Checks.checked_seats tinyray.Process.Join.settle_join
    tinyray.Endpoint.registry_endpoint tinyray.Common.Text.strip tinyray.Common.Text.is_space
    tinyray.Common.Text.contains tinyray.Common.Text.starts_with tinyray.Process.Join.build
    tinyray.Process.Building.open_server tinyray.Process.Join.own_url tinyray.Endpoint.advertise
    tinyray.Process.Building.open_client tinyray.Process.Building.unwind
    tinyray.Process.Building.undo tinyray.Process.close_server tinyray.Process.leave_client
    tinyray.Process.remove
joins_badly = refl

join_restores_example : record before { left = false } ≡ record before { left = false }
join_restores_example =
    join_restores request taken before (record before { left = false }) seat_taken joins_badly

-- it joins, and a second `join` raises
abbrev at_work : Process
at_work = (join request outside (imported 7)).1

work : Reach 7 at_work
work = later start (joins request outside (λ k e. refl))

reach-IsSound_example : IsSound at_work at_work.client
reach-IsSound_example = reach-IsSound 7 at_work work

exit_idle_example : ((exit at_work).beating ≡ []) × ((exit at_work).listening ≡ [])
exit_idle_example = exit_idle 7 at_work work
