-- ===== src/Watch.antt =====
-- python/tinyray/__init__.py: `_left_ms`, `_Watching` with its two kinds of stream, and
-- `Pool.until`. The client's cache and the clock are read once for each call that the source makes
-- of them: a `Look` holds what the calls of one `_step` return, in their order, and a stream runs
-- over a list of looks. Times are in microseconds. `S` is the type of snapshots.
pub mod Deadlines
pub mod Silence
pub mod Streams
pub mod Until
pub mod Loop
use tinyray.Common.{
  ℕ, zero, suc, ◌+◌, ◌-◌, ◌*◌, ◌/◌, List, [], ◌∷◌, Option, none, some, Bool, true, false, not, ◌&&◌,
  ◌||◌, if◌then◌else◌, ltb, leb, ◌==◌,
}
use tinyray.Common.Text.{Text}
use tinyray.Errors.{Result, ok, err, Exn, fenced, timeout_error}
use tinyray.Value.{Value}

-- _left_ms(deadline), at the time `now`
unfoldable pub left_ms : Option ℕ → ℕ → Option ℕ
left_ms none now = some 3600000
left_ms (some deadline) now = if leb deadline now then none else some ((deadline - now) / 1000 + 1)

-- what a stream with `fields` remembers: `_NO_DIGEST`, or an answer of field_digest
pub data Digest : Type 0 where
  no_digest : Digest
  known : Option ℕ → Digest

unfoldable pub same_answer : Option ℕ → Option ℕ → Bool
same_answer none none = true
same_answer none (some b) = false
same_answer (some a) none = false
same_answer (some a) (some b) = a == b

-- digest != self._digest
unfoldable pub differs : Option ℕ → Digest → Bool
unfolding same_answer
differs now no_digest = true
differs now (known before) = not (same_answer now before)

-- _Watching
pub record Watching : Type 0 where
  pub seen : ℕ
  pub deadline : Option ℕ
  pub closed : Bool
  pub tick : ℕ
  pub has_fields : Bool
  pub digest : Digest

-- What one `_step` reads, in order: whether the stream was closed since it began to wait (`close` and
-- `leave` may run on another thread), `accepted`, the clock, `cache_revision`, the pool's version
-- (`pool_info`, if the pool is known), `field_digest`, the snapshot and the clock again.
pub record Look (S : Type 0) : Type 0 where
  pub closed : Bool
  pub accepted : Bool
  pub first_clock : ℕ
  pub revision : ℕ
  pub version : Option ℕ
  pub fields : Option ℕ
  pub snapshot : S
  pub last_clock : ℕ

-- _Watching.__init__: the digest is read before the revision
unfoldable pub watching : Option ℕ → Option ℕ → ℕ → Bool → Option ℕ → ℕ → Watching
watching since timeout now has_fields fields_now revision_now = record {
  seen = elim since [ none ↦ revision_now | some r ↦ r ];
  deadline = elim timeout [ none ↦ none | some t ↦ some (now + t) ];
  closed = false;
  tick = 0;
  has_fields = has_fields;
  digest =
      if not has_fields
      then known none
      else elim since [ none ↦ known fields_now | some r ↦ no_digest ];
}

-- None if deadline is None else max(0.0, deadline - now)
abbrev pub time_left : Option ℕ → ℕ → Option ℕ
time_left none now = none
time_left (some deadline) now = some (deadline - now)

-- a snapshot to hand over, or how long to wait, where 0 ends the stream
pub data Step (S : Type 0) : Type 0 where
  give : S → Step S
  pause : ℕ → Step S

-- How a call of `__next__` or `__anext__` ends; `waiting` where the looks are used up.
pub data Turn (S : Type 0) : Type 0 where
  yielded : S → Turn S
  stopped : Turn S
  raised : Exn Value → Turn S
  waiting : Turn S

module _ {S : Type 0} where
  -- the end of `_step`
  unfoldable pub rest_of : Option ℕ → Step S
  rest_of none = pause 0
  rest_of (some ms) = pause ms

  -- the part of `_step` behind the comparison of the versions
  unfoldable pub moved : Look S → Watching → Step S × Watching
  unfolding rest_of differs
  moved look w =
      if not w.has_fields
      then (give look.snapshot, w)
      else if differs look.fields w.digest
      then (give look.snapshot, record w { digest = known look.fields })
      else (rest_of (left_ms w.deadline look.last_clock), w)

  unfoldable pub compare_version : Option ℕ → Look S → Watching → Step S × Watching
  unfolding rest_of
  compare_version none look w = (rest_of (left_ms w.deadline look.last_clock), w)
  compare_version (some v) look w =
      if v == w.seen
      then (rest_of (left_ms w.deadline look.last_clock), w)
      else moved look (record w { seen = v })

  unfoldable pub step : Look S → Watching → Result (Exn Value) (Step S) × Watching
  step look w =
      let (s, w') = compare_version look.version look (record w { tick = look.revision }) in
      if w.closed || look.closed
      then (ok (pause 0), w)
      else if not look.accepted
      then (err fenced, w)
      else elim (left_ms w.deadline look.first_clock) [
        | none ↦ (ok (pause 0), w)
        | some ms ↦ (ok s, w')
      ]

  -- the end of one round of `Watch.__next__`, given what the later rounds do
  unfoldable pub turn_of :
      Result (Exn Value) (Step S)
      → Watching
      → List (Look S)
      → Turn S × Watching × List (Look S)
      → Turn S × Watching × List (Look S)
  turn_of (err e) w looks later = (raised e, w, looks)
  turn_of (ok (give s)) w looks later = (yielded s, w, looks)
  turn_of (ok (pause zero)) w looks later = (stopped, w, looks)
  turn_of (ok (pause (suc ms))) w looks later = later

  -- Watch.__next__
  unfoldable pub next_snapshot : List (Look S) → Watching → Turn S × Watching × List (Look S)
  unfolding turn_of
  next_snapshot [] w = (waiting, w, [])
  next_snapshot (look ∷ looks) w =
      let (result, w') = step look w in
      let later = next_snapshot looks w' in turn_of result w' looks later

  -- the end of one round of the loop of `Pool.until`, given what the later rounds do
  unfoldable pub until_turn :
      (S → Bool) → Turn S → Option (Result (Exn Value) S) → Option (Result (Exn Value) S)
  until_turn predicate (yielded s) rest = if predicate s then some (ok s) else rest
  until_turn predicate stopped rest = some (err timeout_error)
  until_turn predicate (raised e) rest = some (err e)
  until_turn predicate waiting rest = none

  -- the loop of Pool.until over the watch: `none` where the looks are used up
  unfoldable pub until_loop :
      (S → Bool) → ℕ → List (Look S) → Watching → Option (Result (Exn Value) S)
  unfolding until_turn
  until_loop predicate zero looks w = none
  until_loop predicate (suc n) looks w =
      let (turn, w', looks') = next_snapshot looks w in
      let rest = until_loop predicate n looks' w' in until_turn predicate turn rest

  -- Pool.until: `first` is the snapshot that it takes before it watches, of the version `revision`;
  -- the clock is read at `now` for what is left of the timeout, and at `later` by the watch.
  unfoldable pub until :
      (S → Bool)
      → Option ℕ
      → Option ℕ
      → ℕ
      → ℕ
      → S
      → ℕ
      → ℕ
      → List (Look S)
      → Option (Result (Exn Value) S)
  until predicate since deadline now later first revision fuel looks =
      let from : ℕ = elim since [ none ↦ revision | some r ↦ r ] in
      if predicate first
      then some (ok first)
      else until_loop predicate fuel looks
          (watching (some from) (time_left deadline now) later false none 0)
