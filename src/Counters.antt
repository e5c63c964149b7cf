-- ===== src/Counters.antt =====
-- python/tinyray/_serve.py, `Counters` without a native listener: each method is one step under its
-- lock. A call enters, is answered, and is left; a refused call only counts as refused.
pub mod Balance
pub mod Stats
use tinyray.Common.{ℕ, suc, ◌+◌, ◌-◌, List, [], ◌∷◌, Bool, true, false, if◌then◌else◌, ltb}

pub record Counters : Type 0 where
  pub calls : ℕ
  pub refused : ℕ
  pub failed : ℕ
  pub in_flight : ℕ
  pub peak_in_flight : ℕ
  pub busy_ns : ℕ

-- Counters.__init__
abbrev pub fresh : Counters
fresh = record {
  calls = 0;
  refused = 0;
  failed = 0;
  in_flight = 0;
  peak_in_flight = 0;
  busy_ns = 0;
}

pub data Event : Type 0 where
  entered : Event
  answered : Bool → Event
  left : ℕ → Event
  refuse : Event

abbrev larger : ℕ → ℕ → ℕ
larger a b = if ltb a b then b else a

-- One method. `left` is called by a call that has entered; where none has, the source's number goes
-- below zero, and this one stays there.
unfoldable pub count : Event → Counters → Counters
count entered c = record c {
  in_flight = c.in_flight + 1;
  peak_in_flight = larger c.peak_in_flight (c.in_flight + 1);
}
count (answered failed) c = record c {
  calls = c.calls + 1;
  failed = if failed then c.failed + 1 else c.failed;
}
count (left spent_ns) c = record c { in_flight = c.in_flight - 1; busy_ns = c.busy_ns + spent_ns }
count refuse c = record c { refused = c.refused + 1 }

unfoldable pub count_all : List Event → Counters → Counters
count_all [] c = c
count_all (e ∷ events) c = count_all events (count e c)
