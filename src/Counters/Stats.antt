-- ===== src/Counters/Stats.antt =====
-- python/tinyray/_serve.py, `Counters.snapshot`, and python/tinyray/__init__.py, `Member.stats`: the
-- numbers that a member reports, by name.
use tinyray.Common.{ℕ, ◌/◌, List, [], ◌∷◌, Option, none, some, if◌then◌else◌, ◌==◌, not}
use tinyray.Common.Text.{Text, codes, text_eq}
use tinyray.Errors.{Result, ok, err, runtime_error}
use tinyray.Rpc.{Error}
use tinyray.Counters.{Counters}

abbrev pub Stats : Type 0
Stats = List (Text × ℕ)

-- out[name] = n, and out.update(new)
unfoldable pub set_number : Text → ℕ → Stats → Stats
set_number name n [] = (name, n) ∷ []
set_number name n ((key, old) ∷ out) =
    if text_eq key name then (key, n) ∷ out else (key, old) ∷ set_number name n out

unfoldable pub updated : Stats → Stats → Stats
updated out [] = out
updated out ((name, n) ∷ new) = updated (set_number name n out) new

-- Counters.snapshot, with what a native listener says
unfoldable pub snapshot : Option Stats → Counters → Stats
snapshot (some native) c = native
snapshot none c =
    (codes "calls", c.calls)
    ∷ (codes "refused", c.refused)
    ∷ (codes "failed", c.failed)
    ∷ (codes "in_flight", c.in_flight)
    ∷ (codes "peak_in_flight", c.peak_in_flight)
    ∷ (codes "busy_ms", c.busy_ns / 1000000)
    ∷ []

unfoldable pub with_limit : Option ℕ → Stats → Stats
with_limit none out = out
with_limit (some limit) out = set_number (codes "concurrency_limit") limit out

-- Member.stats in the process `pid`, of a member of the process `mine`: the numbers of the client, and
-- those of the server and its limit where it serves
unfoldable pub stats : ℕ → ℕ → Stats → Option (Stats × Option ℕ) → Result Error Stats
stats pid mine client server =
    if not (pid == mine)
    then err runtime_error
    else ok (elim server [
      | none ↦ client
      | some (counters, limit) ↦ with_limit limit (updated client counters)
    ])
