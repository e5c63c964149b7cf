-- ===== src/Server/Closing.antt =====
-- What a method server has released when it is closed.
use mathlib.Core.Path.{subst}
use tinyray.Common.{
  ℕ, List, [], ◌∷◌, ◌++◌, Bool, true, false, any, ◌≡◌, ◌⊎◌, inl, inr, refl, arith, sym, ◌∙◌,
}
use tinyray.Common.Text.{Text, text_eq, text_eq_refl}
use tinyray.Endpoint.{served_url}
use tinyray.Server.{
  MethodServer, Use, tracks, urls, closes, abandons, use_server, use_all, close, track_endpoint,
  url, abandon,
}

abbrev pub is_in : Text → List Text → Bool
is_in e es = any (λ x. text_eq x e) es

-- the endpoints that were to be tracked
abbrev pub Tracked : Text → ℕ → List Use → Type 0
Tracked e port [] = ⊥
Tracked e port (tracks given ∷ uses) = (given ≡ e) ⊎ Tracked e port uses
Tracked e port (urls host ∷ uses) = (served_url host port ≡ e) ⊎ Tracked e port uses
Tracked e port (closes ∷ uses) = Tracked e port uses
Tracked e port (abandons ∷ uses) = Tracked e port uses

append-is_in : (e : Text) (xs ys : List Text) → is_in e ys ≡ true → is_in e (xs ++ ys) ≡ true
append-is_in e [] ys h = h
append-is_in e (x ∷ xs) ys h = ground (arith, append-is_in e xs ys)

true-not : true ≡ false → ⊥
true-not h = ground arith

module _ {F : Type 0} where
  use_server-closed :
      (u : Use) (s : MethodServer F) → s.closed ≡ true → (use_server u s).closed ≡ true
  unfolding use_server track_endpoint url close abandon
  use_server-closed (tracks e) s h = ground arith
  use_server-closed (urls host) s h = ground arith
  use_server-closed closes s h = ground arith
  use_server-closed abandons s h = ground arith

  use_all-closed :
      (uses : List Use) (s : MethodServer F) → s.closed ≡ true → (use_all uses s).closed ≡ true
  unfolding use_all
  use_all-closed [] s h = h
  use_all-closed (u ∷ uses) s h = use_all-closed uses (use_server u s) (use_server-closed u s h)

  use_server-port : (u : Use) (s : MethodServer F) → (use_server u s).port ≡ s.port
  unfolding use_server track_endpoint url close abandon
  use_server-port (tracks e) s = ground arith
  use_server-port (urls host) s = ground arith
  use_server-port closes s = ground arith
  use_server-port abandons s = refl

  track_endpoint_self :
      (e : Text) (s : MethodServer F) → is_in e (track_endpoint e s).endpoints ≡ true
  unfolding track_endpoint
  track_endpoint_self e s = ground (arith, text_eq_refl e)

  track_endpoint-is_in :
      (e x : Text) (s : MethodServer F)
      → is_in e s.endpoints ≡ true
      → is_in e (track_endpoint x s).endpoints ≡ true
  unfolding track_endpoint
  track_endpoint-is_in e x s h = ground arith

  tracked_port : (given : Text) (s : MethodServer F) → (track_endpoint given s).port ≡ s.port
  unfolding track_endpoint
  tracked_port given s = ground arith

  close-closed : (s : MethodServer F) → (close s).closed ≡ true
  unfolding close
  close-closed s = ground arith

  behind :
      (given : Text) (uses : List Use) (s : MethodServer F) (e : Text)
      → (is_in e s.endpoints ≡ true) ⊎ ((given ≡ e) ⊎ Tracked e s.port uses)
      → let s' = track_endpoint given s in (is_in e s'.endpoints ≡ true) ⊎ Tracked e s'.port uses
  behind given uses s e (inl h) = inl (track_endpoint-is_in e given s h)
  behind given uses s e (inr (inl same)) = inl (
      subst (λ x. is_in e (track_endpoint x s).endpoints ≡ true) (sym same)
        (track_endpoint_self e s))
  behind given uses s e (inr (inr t)) =
      inr (subst (λ p. Tracked e p uses) (sym (tracked_port given s)) t)

  -- an open server behind some uses has tracked what it was to track
  use_all-tracks :
      (uses : List Use) (s : MethodServer F) (e : Text)
      → (use_all uses s).closed ≡ false
      → (is_in e s.endpoints ≡ true) ⊎ Tracked e s.port uses
      → is_in e (use_all uses s).endpoints ≡ true
  unfolding use_all use_server url abandon
  use_all-tracks [] s e still (inl h) = h
  use_all-tracks [] s e still (inr h) = absurd h
  use_all-tracks (tracks given ∷ uses) s e still h =
      use_all-tracks uses (track_endpoint given s) e still (behind given uses s e h)
  use_all-tracks (urls host ∷ uses) s e still h =
      use_all-tracks uses (track_endpoint (served_url host s.port) s) e still
        (behind (served_url host s.port) uses s e h)
  use_all-tracks (closes ∷ uses) s e still h =
      absurd (true-not (sym (use_all-closed uses (close s) (close-closed s)) ∙ still))
  use_all-tracks (abandons ∷ uses) s e still h =
      absurd (true-not (sym (use_all-closed uses (abandon s) refl) ∙ still))

  close_drops :
      (s : MethodServer F) (e : Text)
      → s.closed ≡ false
      → is_in e s.endpoints ≡ true
      → is_in e (close s).dropped ≡ true
  unfolding close
  close_drops s e still h = rw still (append-is_in e s.dropped s.endpoints h)

  close_once :
      (s : MethodServer F)
      → s.closed ≡ false
      → (close (close s) ≡ close s) × ((close s).listening ≡ false)
  unfolding close
  close_once s still = ground arith

  -- Whatever was done with a server that is still open, closing it stops the listener and drops every
  -- endpoint that was tracked or handed out as its address; closing it again changes nothing.
  pub close_lem :
      (uses : List Use) (s : MethodServer F)
      → let now = use_all uses s in
        now.closed ≡ false
        → ((e : Text) → Tracked e s.port uses → is_in e (close now).dropped ≡ true)
          × (close (close now) ≡ close now)
          × ((close now).listening ≡ false)
  close_lem uses s still =
      let now = use_all uses s in
      let (again, quiet) = close_once now still in
      ((λ e t. close_drops now e still (use_all-tracks uses s e still (inr t))), again, quiet)
