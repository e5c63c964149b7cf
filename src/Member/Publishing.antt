-- ===== src/Member/Publishing.antt =====
-- What peers see of a member and what its process keeps: `Member.ready` and its kin.
use tinyray.Common.{
  ℕ, List, [], ◌∷◌, Bool, true, false, ◌≡◌, ◌⊎◌, inl, inr, All, not, ap, sym, ◌∙◌, refl, arith,
  if◌then◌else◌, ◌==◌,
}
use tinyray.Errors.{Result, ok, err, runtime_error}
use tinyray.Rpc.{Bytes, Error}
use tinyray.Member.{
  Codec, Client, Member, Publish, ready, update, replace, set_ready, unready, wanted, encode_state,
  send, stored, publish_encoded, publish, publish_all,
}

-- What the client owes: a call that returns has replaced what peers see, and readiness with it or
-- not, and one that raises has changed nothing of that.
pub record IsClient {C : Type 0} (client : Client C) (body_of : C → Bytes) (ready_of : C → Bool)
    : Type 0 where
  pub set :
      (body : Bytes) (r : Bool) (c : C)
      → let (result, c') = client.set_state body r c in
        ((result ≡ ok tt) × (body_of c' ≡ body) × (ready_of c' ≡ r))
        ⊎ ((e : Error) × (result ≡ err e) × (body_of c' ≡ body_of c) × (ready_of c' ≡ ready_of c))
  pub set_only :
      (body : Bytes) (c : C)
      → let (result, c') = client.set_state_only body c in
        ((result ≡ ok tt) × (body_of c' ≡ body) × (ready_of c' ≡ ready_of c))
        ⊎ ((e : Error) × (result ≡ err e) × (body_of c' ≡ body_of c) × (ready_of c' ≡ ready_of c))

-- the readiness that a call leaves behind
abbrev pub readiness : Publish → Bool → Bool
readiness (ready new) before = true
readiness (update new) before = before
readiness (replace new) before = before
readiness (set_ready new) before = true
readiness unready before = false

module _ {C : Type 0} (codec : Codec) (max_state : ℕ) (client : Client C) (body_of : C → Bytes)
    (ready_of : C → Bool) (lawful : IsClient client body_of ready_of) where
  -- What peers see of the member is its state.
  abbrev pub InStep : Member → C → Type 0
  InStep m c = encode_state codec max_state m.state ≡ ok (body_of c)

  abbrev pub IsPublished : Publish → Member → C → Result Error (Unit {0}) × Member × C → Type 0
  IsPublished call m c after =
      ((after.0 ≡ ok tt)
        × (after.1.state ≡ wanted call m.state)
        × InStep after.1 after.2
        × (ready_of after.2 ≡ readiness call (ready_of c)))
      ⊎ ((e : Error) × (after.0 ≡ err e)
          × (after.1 ≡ m)
          × (body_of after.2 ≡ body_of c)
          × (ready_of after.2 ≡ ready_of c))

  Sent : Publish → Bytes → C → Result Error (Unit {0}) × C → Type 0
  Sent call body c (r, c') =
      ((r ≡ ok tt) × (body_of c' ≡ body) × (ready_of c' ≡ readiness call (ready_of c)))
      ⊎ ((e : Error) × (r ≡ err e) × (body_of c' ≡ body_of c) × (ready_of c' ≡ ready_of c))

  send-Sent : (call : Publish) (body : Bytes) (c : C) → Sent call body c (send client call body c)
  unfolding send Sent
  send-Sent (ready new) body c = lawful.set body true c
  send-Sent (update new) body c = lawful.set_only body c
  send-Sent (replace new) body c = lawful.set_only body c
  send-Sent (set_ready new) body c = lawful.set body true c
  send-Sent unready body c = lawful.set body false c

  stored-IsPublished :
      (call : Publish) (body : Bytes) (m : Member) (c : C) (sent : Result Error (Unit {0}) × C)
      → encode_state codec max_state (wanted call m.state) ≡ ok body
      → Sent call body c sent
      → IsPublished call m c (stored (wanted call m.state) m sent)
  unfolding stored Sent
  stored-IsPublished call body m c (ok u, c') h (inl (a, b, d)) =
      inl (refl, refl, h ∙ ap ok (sym b), d)
  stored-IsPublished call body m c (ok u, c') h (inr (e, a, b, d)) = absurd (ground arith)
  stored-IsPublished call body m c (err e, c') h (inl (a, b, d)) = absurd (ground arith)
  stored-IsPublished call body m c (err e, c') h (inr (e', a, b, d)) = inr (e, refl, refl, b, d)

  encoded-IsPublished :
      (call : Publish) (m : Member) (c : C) (encoded : Result Error Bytes)
      → encode_state codec max_state (wanted call m.state) ≡ encoded
      → IsPublished call m c (publish_encoded codec max_state client call encoded m c)
  unfolding publish_encoded
  encoded-IsPublished call m c (err e) h = inr (e, refl, refl, refl, refl)
  encoded-IsPublished call m c (ok body) h =
      stored-IsPublished call body m c (send client call body c) h (send-Sent call body c)

  pub publish_lem :
      (pid : ℕ) (call : Publish) (m : Member) (c : C)
      → IsPublished call m c (publish codec max_state client pid call m c)
  unfolding publish
  publish_lem pid call m c =
      elim (pid == m.pid)
        as (λ mine. IsPublished call m c (
          if not mine
          then (err runtime_error, m, c)
          else publish_encoded codec max_state client call
              (encode_state codec max_state (wanted call m.state)) m c)) [
                | true ↦ encoded-IsPublished call m c _ refl
                | false ↦ inr (runtime_error, refl, refl, refl, refl)
              ]

  -- Calls of `update` and `replace` never change the readiness that peers see.
  pub publish_all-readiness :
      (pid : ℕ) (calls : List Publish) (m : Member) (c : C)
      → All (λ call. (b : Bool) → readiness call b ≡ b) calls
      → ready_of (publish_all codec max_state client pid calls m c).1 ≡ ready_of c
  unfolding publish_all
  publish_all-readiness pid [] m c h = refl
  publish_all-readiness pid (call ∷ calls) m c (q, h) =
      let (r, m', c') = publish codec max_state client pid call m c in
      let kept = publish_all-readiness pid calls m' c' h in
      elim (publish_lem pid call m c) [
        | inl (_, _, _, after) ↦ kept ∙ after ∙ q (ready_of c)
        | inr (e, _, _, _, after) ↦ kept ∙ after
      ]
