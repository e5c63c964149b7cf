-- ===== src/Process/Cleanup.antt =====
-- What `join` leaves behind when it raises and when it returns.
use tinyray.Common.{
  ℕ, List, [], ◌∷◌, Option, none, some, Bool, true, false, ◌≡◌, refl, ap, sym, ◌∙◌, ◌⊎◌, inl, inr,
  arith,
}
use tinyray.Common.Text.{Text}
use tinyray.Errors.{Result, ok, err, Result-cases}
use tinyray.Rpc.{Error}
use tinyray.Endpoint.{checked_method_endpoint}
use tinyray.Registry.{missing}
use tinyray.Process.{Process, Membership, remove, close_server, leave_client}
use tinyray.Process.Checks.{Request, Checked, check_join}
use tinyray.Process.Building.{
  Building, Act, ◌>>=◌, lift, bind_result, open_server, open_client, unwind, undo,
}
use tinyray.Process.Join.{
  Outside, serve, register, build, commit, settle_join, join_checked, join, own_url, own_identity,
  answered, admitted, greeted,
}

remove-head : (k : ℕ) (xs : List ℕ) → remove k (k ∷ xs) ≡ xs
unfolding remove
remove-head k xs = ground arith

-- Undone, the building is the process that `join` began with.
abbrev IsUndoable : Process → Building → Type 0
IsUndoable p b = unwind b.cleanup b.process ≡ p

module _ (p : Process) where
  Keeps {ℓ} : {A : Type ℓ} → Act A → Type 0
  Keeps m = (b : Building) → IsUndoable p b → IsUndoable p (m b).1

  bind-Keeps {ℓ κ} :
      {A : Type ℓ} {B : Type κ} (m : Act A) (f : A → Act B)
      → Keeps m
      → ((a : A) → Keeps (f a))
      → Keeps (m >>= f)
  unfolding Keeps
  bind-Keeps {A = A} {B = B} m f hm hf b h = bound (m b) (hm b h)
    where
      bound : (r : Result Error A × Building) → IsUndoable p r.1 → IsUndoable p (bind_result r f).1
      bound (ok a, b') h' = hf a b' h'
      bound (err e, b') h' = h'

  lift-Keeps {ℓ} : {A : Type ℓ} (r : Result Error A) → Keeps (lift r)
  unfolding Keeps
  lift-Keeps r b h = h

  open_server-Keeps : (k : ℕ) → Keeps (open_server k)
  unfolding Keeps open_server unwind undo close_server
  open_server-Keeps k b h = rw (remove-head k b.process.listening) h

  open_client-Keeps : (k : ℕ) → Keeps (open_client k)
  unfolding Keeps open_client unwind undo leave_client
  open_client-Keeps k b h = rw (remove-head k b.process.beating) h

  lifted-Keeps {ℓ κ} :
      {A : Type ℓ} {B : Type κ} (r : Result Error A) (f : A → Act B)
      → ((a : A) → Keeps (f a))
      → Keeps (lift r >>= f)
  lifted-Keeps r f = bind-Keeps (lift r) f (lift-Keeps r)

  serve-Keeps : (serves : Bool) (url : Option Text) (o : Outside) → Keeps (serve serves url o)
  unfolding serve
  serve-Keeps true given o = lifted-Keeps o.new_server _ λ k.
      bind-Keeps (open_server k) _ (open_server-Keeps k)
        λ _. lifted-Keeps (own_url given o) _ λ url. lift-Keeps (ok (some k, some url))
  serve-Keeps false none o = lift-Keeps (ok (none, none))
  serve-Keeps false (some given) o =
      lifted-Keeps (checked_method_endpoint given) _ λ url. lift-Keeps (ok (none, some url))

  register-Keeps : (o : Outside) → Keeps (register o)
  unfolding register
  register-Keeps o = lifted-Keeps o.new_client _ λ k.
      bind-Keeps (open_client k) _ (open_client-Keeps k) λ _. lifted-Keeps o.watch _ λ _.
        lifted-Keeps o.start _ λ started. lifted-Keeps (answered started o.beats_ok) _ λ _.
          lifted-Keeps (admitted o.accepted o.refused) _
            λ _. lifted-Keeps (greeted (missing o.protocol) o.warn) _ λ _. lift-Keeps (ok k)

  build-Keeps : (r : Request) (o : Outside) (pid : ℕ) (who : Text) → Keeps (build r o pid who)
  unfolding build
  build-Keeps r o pid who =
      bind-Keeps (serve r.serves r.url o) _ (serve-Keeps r.serves r.url o) λ served.
        bind-Keeps (register o) _ (register-Keeps o)
          λ k. lift-Keeps (ok (record { pid = pid; client = k; server = served.0; identity = who }))

settled :
    (p p' : Process) (built : Result Error Membership × Building) (e : Error)
    → IsUndoable p built.1
    → settle_join built ≡ (err e, p')
    → p' ≡ p
unfolding settle_join
settled p p' (ok m, b) e h k = absurd (ground arith)
settled p p' (err x, b) e h k = sym (ap (λ r. r.1) k) ∙ h

checked-restores :
    (r : Request) (o : Outside) (checked : Result Error Checked) (p p' : Process) (e : Error)
    → join_checked r o checked p ≡ (err e, p')
    → p' ≡ p
unfolding join_checked Keeps
checked-restores r o (err x) p p' e h = sym (ap (λ r. r.1) h)
checked-restores r o (ok c) p p' e h =
    settled p p' _ e
      (build-Keeps p r o p.pid (own_identity c o) (record { process = p; cleanup = [] })
        (unfold unwind in refl))
      h

-- A `join` that raises, at whatever point and for whatever reason, has undone all that it opened: no
-- server listens and no heartbeat is left started that was not before, nothing of the process has changed, but
-- that it does not count as one that left.
pub join_restores :
    (r : Request) (o : Outside) (p p' : Process) (e : Error)
    → join r o p ≡ (err e, p')
    → p' ≡ record p { left = false }
unfolding join
join_restores r o p p' e h =
    checked-restores r o (check_join r o.environ p.client) (record p { left = false }) p' e h

abbrev pub listening_with : Option ℕ → Process → List ℕ
listening_with none p = p.listening
listening_with (some k) p = k ∷ p.listening

serve_opens :
    (serves : Bool) (url : Option Text) (o : Outside) (b b' : Building)
    (served : Option ℕ × Option Text)
    → serve serves url o b ≡ (ok served, b')
    → b'.process ≡ record b.process { listening = listening_with served.0 b.process }
unfolding serve open_server
serve_opens true given o b b' served h = ground arith
serve_opens false none o b b' served h = ground arith
serve_opens false (some given) o b b' served h = ground arith

register_opens :
    (o : Outside) (b b' : Building) (k : ℕ)
    → register o b ≡ (ok k, b')
    → (b'.process ≡ record b.process { beating = k ∷ b.process.beating })
      × (o.accepted ≡ true)
      × (o.new_client ≡ ok k)
unfolding register open_client admitted
register_opens o b b' k h = ground arith

Act-cases {ℓ} :
    {A : Type ℓ} (r : Result Error A × Building)
    → ((a : A) × (b : Building) × (r ≡ (ok a, b)))
      ⊎ ((e : Error) × (b : Building) × (r ≡ (err e, b)))
Act-cases (ok a, b) = inl (a, b, refl)
Act-cases (err e, b) = inr (e, b, refl)

build_opens :
    (r : Request) (o : Outside) (pid : ℕ) (who : Text) (b b' : Building) (m : Membership)
    → build r o pid who b ≡ (ok m, b')
    → (b'.process ≡ record b.process {
      beating = m.client ∷ b.process.beating;
      listening = listening_with m.server b.process;
    })
      × (m.pid ≡ pid)
      × (o.accepted ≡ true)
      × (o.new_client ≡ ok m.client)
unfolding build
build_opens r o pid who b b' m h = elim (Act-cases (serve r.serves r.url o b)) [
  | inr (e, c, s) ↦ absurd (ground arith)
  | inl (served, c, s) ↦ elim (Act-cases (register o c)) [
    | inr (e, d, t) ↦ absurd (ground arith)
    | inl (k, d, t) ↦
        let listens = serve_opens r.serves r.url o b c served s in
        let beats = register_opens o c d k t in ground (arith, listens, beats)
  ]
]

check_join-client :
    (r : Request) (environ : Text → Option Text) (client : Option ℕ) (c : Checked)
    → check_join r environ client ≡ ok c
    → client ≡ none
unfolding check_join
check_join-client r environ none c h = refl
check_join-client r environ (some k) c h = absurd (ground arith)

-- A `join` that returns was accepted by the registry, in a process that held no membership; it has
-- handed over exactly the server and the client that it opened, with the exit hook that releases
-- them.
pub join_owns :
    (r : Request) (o : Outside) (p p' : Process) (m : Membership)
    → join r o p ≡ (ok m, p')
    → (p.client ≡ none)
      × (o.accepted ≡ true)
      × (o.new_client ≡ ok m.client)
      × (m.pid ≡ p.pid)
      × (p' ≡ record p {
        left = false;
        client = some m.client;
        server = m.server;
        owner_pid = p.pid;
        identity = m.identity;
        hooks = m ∷ p.hooks;
        beating = m.client ∷ p.beating;
        listening = listening_with m.server p;
      })
unfolding join join_checked settle_join commit
join_owns r o p p' m h = elim (Result-cases (check_join r o.environ p.client)) [
  | inr (e, checked) ↦ absurd (ground arith)
  | inl (c, checked) ↦
      let b : Building = record { process = record p { left = false }; cleanup = [] } in
      elim (Act-cases (build r o p.pid (own_identity c o) b)) [
        | inr (e, d, built) ↦ absurd (ground arith)
        | inl (m', d, built) ↦
            let free = check_join-client r o.environ p.client c checked in
            let opened = build_opens r o p.pid (own_identity c o) b d m' built in
            ground (arith, free, opened)
      ]
]
