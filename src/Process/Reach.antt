-- ===== src/Process/Reach.antt =====
-- What a process can come to by any sequence of `join`, `leave`, forks and exit hooks.
use mathlib.Core.Path.{subst}
use tinyray.Common.{
  ℕ, List, [], ◌∷◌, Option, none, some, false, not, ◌≡◌, ◌⊎◌, inl, inr, refl, sym, ap, ◌∙◌, arith,
  keep, All, ◌==◌, ==_iff, Bool-cases,
}
use tinyray.Errors.{Result, ok, err}
use tinyray.Rpc.{Error}
use tinyray.Process.{
  Process, Membership, remove, close_server, leave_client, forget_client, leave_now, leave, forked,
  after_fork,
}
use tinyray.Process.Checks.{Request}
use tinyray.Process.Join.{Outside, join}
use tinyray.Process.Cleanup.{join_restores, join_owns, listening_with}
use tinyray.Process.Steps.{
  imported, In, has_left, IsHeld, Step, Reach, IsIdle, IsHolding, IsSound, joins, leaves, forks,
  start, later,
}

pub In-All :
    (P : Membership → Type 0) (m : Membership) (hs : List Membership) → All P hs → In m hs → P m
In-All P m [] a i = absurd i
In-All P m (h ∷ hs) (ph, phs) (inl e) = subst P (sym e) ph
In-All P m (h ∷ hs) (ph, phs) (inr i) = In-All P m hs phs i

pub All-imp :
    (P Q : Membership → Type 0) (hs : List Membership)
    → ((h : Membership) → P h → Q h)
    → All P hs
    → All Q hs
All-imp P Q [] f a = tt
All-imp P Q (h ∷ hs) f (p, ps) = (f h p, All-imp P Q hs f ps)

other_client : {h m : Membership} → h ≡ m → (h.client == m.client) ≡ false → ⊥
other_client {h} {m} e other = let same : h.client ≡ m.client = ap (λ x. x.client) e in ground arith

-- what `keep` leaves of the hooks, when the current membership goes
kept_idle :
    (m : Membership) (pid : ℕ) (hs : List Membership)
    → All (λ h. h.pid ≡ pid → h ≡ m) hs
    → All (λ h. (h.pid ≡ pid) → ⊥) (keep (λ h. not (h.client == m.client)) hs)
kept_idle m pid [] a = tt
kept_idle m pid (h ∷ hs) (ph, phs) = elim (Bool-cases (h.client == m.client)) [
  | inl same ↦ rw same (kept_idle m pid hs phs)
  | inr other ↦ rw other ((λ e. other_client (ph e) other), kept_idle m pid hs phs)
]

abbrev pub closing : Option ℕ → List ℕ → List ℕ
closing none xs = xs
closing (some k) xs = remove k xs

pub leave_now-fields :
    (p : Process) (m : Membership)
    → p.client ≡ some m.client
    → let q = leave_now m p in
      (q.client ≡ none)
      × (q.server ≡ none)
      × (q.pid ≡ p.pid)
      × (q.beating ≡ remove m.client p.beating)
      × (q.listening ≡ closing m.server p.listening)
      × (q.hooks ≡ keep (λ h. not (h.client == m.client)) p.hooks)
      × (q.gone ≡ m.client ∷ p.gone)
unfolding leave_now forget_client leave_client close_server
leave_now-fields p m h = ground arith

closing_opened : (server : Option ℕ) → closing server (listening_with server (imported 0)) ≡ []
unfolding remove
closing_opened none = refl
closing_opened (some k) = ground arith

remove_only : (k : ℕ) → remove k (k ∷ []) ≡ []
unfolding remove
remove_only k = ground arith

pub leave_now-IsSound :
    (p : Process) (m : Membership)
    → p.client ≡ some m.client
    → IsHolding p m
    → IsIdle (leave_now m p) × ((leave_now m p).client ≡ none)
leave_now-IsSound p m h (beats, listens, serves, owner, mine, here, hook, hooks) =
    let q = leave_now m p in
    let (q_client, q_server, q_pid, q_beating, q_listening, q_hooks, q_gone) =
      leave_now-fields p m h in
    (
      (
        q_beating ∙ ap (remove m.client) beats ∙ remove_only m.client,
        q_listening ∙ ap (closing m.server) listens ∙ closing_opened m.server,
        q_server,
        subst (λ n. All (λ x. (x.pid ≡ n) → ⊥) q.hooks) (sym q_pid)
            (subst (All (λ x. (x.pid ≡ p.pid) → ⊥)) (sym q_hooks)
              (kept_idle m p.pid p.hooks hooks)),
      ),
      q_client,
    )

-- the current membership is the only one of this process that is held and has not left
pub held_current :
    (p : Process) (m : Membership)
    → IsSound p p.client
    → IsHeld p m
    → p.pid ≡ m.pid
    → has_left m.client p ≡ false
    → (p.client ≡ some m.client) × IsHolding p m
held_current p m sound held mine here = by_client p.client refl sound
  where
    in_hooks : In m p.hooks
    in_hooks = elim held [ inl i ↦ i | inr gone ↦ absurd (ground arith) ]

    by_client :
        (c : Option ℕ) → p.client ≡ c → IsSound p c → (p.client ≡ some m.client) × IsHolding p m
    by_client none e (a, b, d, hooks) = absurd (In-All _ m p.hooks hooks in_hooks (sym mine))
    by_client (some c) e (m', at, holding) =
        let same : m ≡ m' = In-All _ m p.hooks holding.7 in_hooks (sym mine) in
        (
          e ∙ ap some (sym at ∙ ap (λ x. x.client) (sym same)),
          subst (IsHolding p) (sym same) holding,
        )

pub leave-IsSound :
    (p : Process) (m : Membership)
    → IsSound p p.client
    → IsHeld p m
    → IsSound (leave m p).1 (leave m p).1.client
unfolding leave
leave-IsSound p m sound held = elim (Bool-cases (p.pid == m.pid)) [
  | inr other ↦ rw other sound
  | inl mine ↦ elim (Bool-cases (has_left m.client p)) [
    | inl gone ↦ rw (mine, gone) sound
    | inr here ↦
        let current = held_current p m sound held ((==_iff p.pid m.pid).0 mine) here in
        let (idle, client) = leave_now-IsSound p m current.0 current.1 in
        rw (mine, here) (subst (IsSound (leave_now m p)) (sym client) idle)
  ]
]

forks-IsSound :
    (p : Process) (pid : ℕ)
    → All (λ h. (h.pid ≡ pid) → ⊥) p.hooks
    → IsSound (after_fork (forked pid p)) none
unfolding after_fork forked
forks-IsSound p pid h = (refl, refl, refl, h)

unmarked-IsSound :
    (p : Process) (c : Option ℕ) → IsSound p c → IsSound (record p { left = false }) c
unmarked-IsSound p none h = h
unmarked-IsSound p (some c) h = h

-- the process behind a `join` that returned
abbrev joined : Membership → Process → Process
joined m p = record p {
  left = false;
  client = some m.client;
  server = m.server;
  owner_pid = p.pid;
  identity = m.identity;
  hooks = m ∷ p.hooks;
  beating = m.client ∷ p.beating;
  listening = listening_with m.server p;
}

opened_alone :
    (server : Option ℕ) (p : Process)
    → p.listening ≡ []
    → listening_with server p ≡ listening_with server (imported 0)
opened_alone none p h = h
opened_alone (some k) p h = ap (λ xs. k ∷ xs) h

joined-IsSound :
    (p : Process) (m : Membership)
    → IsIdle p
    → m.pid ≡ p.pid
    → has_left m.client p ≡ false
    → IsSound (joined m p) (some m.client)
joined-IsSound p m (beats, listens, serves, hooks) mine here = (
  m,
  refl,
  (
    ap (λ xs. m.client ∷ xs) beats,
    opened_alone m.server p listens,
    refl,
    refl,
    mine,
    here,
    inl refl,
    ((λ e. refl), All-imp _ _ p.hooks (λ h other e. absurd (other e)) hooks),
  ),
)

join-IsSound :
    (p : Process) (r : Request) (o : Outside)
    → ((k : ℕ) → o.new_client ≡ ok k → has_left k p ≡ false)
    → IsSound p p.client
    → IsSound (join r o p).1 (join r o p).1.client
join-IsSound p r o new sound = elim (Joined-cases (join r o p)) [
  | inr (e, p', h) ↦
      subst (λ q. IsSound q q.client) (sym (ap (λ x. x.1) h ∙ join_restores r o p p' e h))
        (unmarked-IsSound p p.client sound)
  | inl (m, p', h) ↦
      let (free, accepted, made, mine, became) = join_owns r o p p' m h in
      subst (λ q. IsSound q q.client) (sym (ap (λ x. x.1) h ∙ became))
        (joined-IsSound p m (subst (IsSound p) free sound) mine (new m.client made))
]
  where
    Joined-cases :
        (x : Result Error Membership × Process)
        → ((m : Membership) × (p' : Process) × (x ≡ (ok m, p')))
          ⊎ ((e : Error) × (p' : Process) × (x ≡ (err e, p')))
    Joined-cases (ok m, p') = inl (m, p', refl)
    Joined-cases (err e, p') = inr (e, p', refl)

step-IsSound : (p q : Process) → Step p q → IsSound p p.client → IsSound q q.client
step-IsSound p _ (joins r o new) sound = join-IsSound p r o new sound
step-IsSound p _ (leaves m held) sound = leave-IsSound p m sound held
step-IsSound p _ (forks pid other) sound = unfold after_fork in (forks-IsSound p pid other)

-- Whatever sequence of joins, leaves and forks a process comes from, and whichever of those joins and
-- leaves raised: it holds one membership or none; with none, no heartbeat of it is left to
-- stop and no server of it listens; with one, just that one's heartbeat has been started and not
-- stopped and just its server listens, and its exit hook stands.
pub reach-IsSound : (pid : ℕ) (p : Process) → Reach pid p → IsSound p p.client
reach-IsSound pid _ start = (refl, refl, refl, tt)
reach-IsSound pid q (later {p} before step) = step-IsSound p q step (reach-IsSound pid p before)
