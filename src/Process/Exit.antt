-- ===== src/Process/Exit.antt =====
-- A normal exit: what the hooks of atexit leave running.
use mathlib.Core.Path.{subst}
use tinyray.Common.{
  ℕ, List, [], ◌∷◌, none, some, true, false, not, ◌≡◌, ◌⊎◌, inl, inr, refl, sym, ap, ◌∙◌, arith,
  any, keep, All, ◌==◌, ==_iff, Bool-cases, Option-cases,
}
use tinyray.Process.{Process, Membership, leave_now, leave, leave_at_exit, run_hooks, exit}
use tinyray.Process.Steps.{In, has_left, IsHeld, IsSound, IsHolding, Reach, IsIdle}
use tinyray.Process.Reach.{
  reach-IsSound, held_current, leave_now-fields, leave_now-IsSound, All-imp,
}

kept-held :
    (m h : Membership) (p : Process) (hs : List Membership)
    → In h hs
    → In h (keep (λ x. not (x.client == m.client)) hs) ⊎ ((h.client == m.client) ≡ true)
kept-held m h p [] i = absurd i
kept-held m h p (x ∷ hs) (inl e) = elim (Bool-cases (x.client == m.client)) [
  | inl same ↦ inr (subst (λ y. (y.client == m.client) ≡ true) (sym e) same)
  | inr other ↦ rw other (inl (inl e))
]
kept-held m h p (x ∷ hs) (inr i) = elim (Bool-cases (x.client == m.client)) [
  | inl same ↦ rw same (kept-held m h p hs i)
  | inr other ↦ rw other (elim (kept-held m h p hs i) [ inl j ↦ inl (inr j) | inr s ↦ inr s ])
]

leave_now-IsHeld :
    (p : Process) (m h : Membership)
    → p.client ≡ some m.client
    → IsHeld p h
    → IsHeld (leave_now m p) h
leave_now-IsHeld p m h current held =
    let (q_client, q_server, q_pid, q_beating, q_listening, q_hooks, q_gone) =
      leave_now-fields p m current in
    elim held [
      | inr gone ↦ inr (ap (any (λ g. g == h.client)) q_gone ∙ ground (arith, gone))
      | inl i ↦ elim (kept-held m h p p.hooks i) [
        | inl j ↦ inl (subst (In h) (sym q_hooks) j)
        | inr same ↦ inr (ap (any (λ g. g == h.client)) q_gone ∙ ground (arith, same))
      ]
    ]

-- the current membership leaves, or is still waiting to be told to
IsLeaving : Process → List Membership → Type 0
IsLeaving p hooks = (m : Membership) → p.client ≡ some m.client → IsHolding p m → In m hooks

leave_at_exit-cases :
    (p : Process) (m : Membership)
    → IsSound p p.client
    → IsHeld p m
    → (leave_at_exit m p ≡ p) × (IsHolding p m → ⊥)
      ⊎ (p.client ≡ some m.client) × IsHolding p m × (leave_at_exit m p ≡ leave_now m p)
unfolding leave_at_exit leave
leave_at_exit-cases p m sound held = elim (Bool-cases (p.pid == m.pid)) [
  | inr other ↦ inl (rw other refl, (λ holding. let e : m.pid ≡ p.pid = holding.4 in ground arith))
  | inl mine ↦ elim (Bool-cases (has_left m.client p)) [
    | inl gone ↦ inl (
      rw (mine, gone) refl,
      (λ holding. let e : has_left m.client p ≡ false = holding.5 in ground arith),
    )
    | inr here ↦
        let current = held_current p m sound held ((==_iff p.pid m.pid).0 mine) here in
        inr (current.0, current.1, rw (mine, here) refl)
  ]
]

none-some : {c : ℕ} → none ≡ some c → ⊥
none-some h = ground arith

hooks-IsHeld :
    (p : Process) (hs : List Membership)
    → ((h : Membership) → In h hs → In h p.hooks)
    → All (IsHeld p) hs
hooks-IsHeld p [] f = tt
hooks-IsHeld p (h ∷ hs) f = (inl (f h (inl refl)), hooks-IsHeld p hs (λ x i. f x (inr i)))

run_hooks-IsIdle :
    (hooks : List Membership) (p : Process)
    → IsSound p p.client
    → All (IsHeld p) hooks
    → IsLeaving p hooks
    → IsIdle (run_hooks hooks p)
unfolding run_hooks IsLeaving
run_hooks-IsIdle [] p sound held leaving = elim (Option-cases p.client) [
  | inl e ↦ subst (IsSound p) e sound
  | inr (c, e) ↦
      let (m, at, holding) = subst (IsSound p) e sound in
      absurd (leaving m (e ∙ ap some (sym at)) holding)
]
run_hooks-IsIdle (m ∷ hooks) p sound (h, held) leaving = elim (leave_at_exit-cases p m sound h) [
  | inl (same, other) ↦
      subst (λ q. IsIdle (run_hooks hooks q)) (sym same)
        (run_hooks-IsIdle hooks p sound held λ x e holding. elim (leaving x e holding) [
          | inl i ↦ absurd (other (subst (IsHolding p) i holding))
          | inr i ↦ i
        ])
  | inr (current, holding, left) ↦
      let q = leave_now m p in
      let (idle, client) = leave_now-IsSound p m current holding in
      subst (λ x. IsIdle (run_hooks hooks x)) (sym left)
        (run_hooks-IsIdle hooks q (subst (IsSound q) (sym client) idle)
          (All-imp _ _ hooks (λ x. leave_now-IsHeld p m x current) held)
          (λ x e _. absurd (none-some (sym client ∙ e))))
]

-- In any process that can come about, a normal exit leaves no heartbeat that was not stopped and no server
-- listening.
pub exit_idle :
    (pid : ℕ) (p : Process) → Reach pid p → ((exit p).beating ≡ []) × ((exit p).listening ≡ [])
unfolding exit IsLeaving
exit_idle pid p reach =
    let (beating, listening, _, _) =
      run_hooks-IsIdle p.hooks p (reach-IsSound pid p reach) (hooks-IsHeld p p.hooks (λ h i. i))
        (λ m e holding. holding.6) in
    (beating, listening)
