-- ===== src/Encode/Actions.antt =====
-- Steps of an encoding: on the thread's record of BlobRefs, to a result or the reason to stop.
use mathlib.Core.Path.{subst}
use tinyray.Common.{List, [], ◌∷◌, ◌≡◌, ◌⊎◌, inl, inr, refl, sym, ap, arith}
use tinyray.Errors.{Result, ok, err}
use tinyray.Rpc.{Error}
use tinyray.Encode.{Stop, raises, Local}

abbrev pub Act {ℓ} : Type ℓ → Type ℓ
Act A = Local → Result Stop A × Local

abbrev pub bind_result {ℓ κ} :
    {A : Type ℓ} {B : Type κ} → Result Stop A × Local → (A → Act B) → Result Stop B × Local
bind_result (ok a, s) f = f a s
bind_result (err e, s) f = (err e, s)

infixl 5 ◌>>=◌ ◌>>◌
unfoldable pub ◌>>=◌ {ℓ κ} : {A : Type ℓ} {B : Type κ} → Act A → (A → Act B) → Act B
(m >>= f) s = bind_result (m s) f

abbrev pub ◌>>◌ {ℓ κ} : {A : Type ℓ} {B : Type κ} → Act A → Act B → Act B
m >> k = m >>= λ _. k

abbrev pub pure {ℓ} : {A : Type ℓ} → A → Act A
pure a s = (ok a, s)

abbrev pub stop {ℓ} : {A : Type ℓ} → Stop → Act A
stop e s = (err e, s)

abbrev pub lift {ℓ} : {A : Type ℓ} → Result Error A → Act A
lift (ok a) s = (ok a, s)
lift (err e) s = (err (raises e), s)

-- [f(x) for x in xs]
unfoldable pub each {ℓ κ} : {A : Type ℓ} {B : Type κ} → (A → Act B) → List A → Act (List B)
each f [] = pure []
each f (x ∷ xs) = do y ← f x; ys ← each f xs; pure (y ∷ ys)

-- an outcome that a step has from some record
unfoldable pub Gives {ℓ} : {A : Type ℓ} → Act A → Result Stop A → Type ℓ
Gives m r = (s : Local) × ((m s).0 ≡ r)

err_of : {B : Type 0} (d e : Stop) → ◌≡◌ {A = Result Stop B} (err d) (err e) → d ≡ e
err_of d e h = ap (λ r. elim r [ ok b ↦ d | err x ↦ x ]) h

pub stop_err : (A : Type 0) (d e : Stop) → Gives {A = A} (stop d) (err e) → d ≡ e
unfolding Gives
stop_err A d e (s, h) = err_of d e h

abbrev pub Among : {A : Type 0} → A → List A → Type 0
Among x [] = ⊥
Among x (y ∷ ys) = (x ≡ y) ⊎ Among x ys

module _ {A : Type 0} where
  pub pure_ok : (a b : A) → Gives (pure a) (ok b) → a ≡ b
  unfolding Gives
  pure_ok a b (s, h) = ap (λ r. elim r [ ok z ↦ z | err e ↦ a ]) h

  pub pure_err : (a : A) (e : Stop) → Gives (pure a) (err e) → ⊥
  unfolding Gives
  pure_err a e (s, h) = absurd (ground arith)

  pub stop_ok : (e : Stop) (a : A) → Gives (stop e) (ok a) → ⊥
  unfolding Gives
  stop_ok e a (s, h) = absurd (ground arith)

module _ {A B : Type 0} where
  bind_result_ok :
      (r : Result Stop A × Local) (f : A → Act B) (b : B)
      → (bind_result r f).0 ≡ ok b
      → (a : A) × (r.0 ≡ ok a) × Gives (f a) (ok b)
  unfolding Gives
  bind_result_ok (ok a, s) f b h = (a, refl, (s, h))
  bind_result_ok (err e, s) f b h = absurd (ground arith)

  bind_result_err :
      (r : Result Stop A × Local) (f : A → Act B) (e : Stop)
      → (bind_result r f).0 ≡ err e
      → (r.0 ≡ err e) ⊎ ((a : A) × (r.0 ≡ ok a) × Gives (f a) (err e))
  unfolding Gives
  bind_result_err (ok a, s) f e h = inr (a, refl, (s, h))
  bind_result_err (err d, s) f e h = inl (ap err (err_of {B = B} d e h))

  pub bind_ok :
      (m : Act A) (f : A → Act B) (b : B)
      → Gives (m >>= f) (ok b)
      → (a : A) × Gives m (ok a) × Gives (f a) (ok b)
  unfolding Gives ◌>>=◌
  bind_ok m f b (s, h) = let (a, e, g) = bind_result_ok (m s) f b h in (a, (s, e), g)

  pub bind_err :
      (m : Act A) (f : A → Act B) (e : Stop)
      → Gives (m >>= f) (err e)
      → Gives m (err e) ⊎ ((a : A) × Gives m (ok a) × Gives (f a) (err e))
  unfolding Gives ◌>>=◌
  bind_err m f e (s, h) = elim (bind_result_err (m s) f e h) [
    | inl g ↦ inl (s, g)
    | inr (a, g, k) ↦ inr (a, (s, g), k)
  ]

module _ {A B : Type 0} (f : A → Act B) where
  -- each result is a result of its item
  abbrev pub Made : List A → List B → Type 0
  Made [] [] = Unit
  Made [] (y ∷ ys) = ⊥
  Made (x ∷ xs) [] = ⊥
  Made (x ∷ xs) (y ∷ ys) = Gives (f x) (ok y) × Made xs ys

  pub each-Made : (xs : List A) (ys : List B) → Gives (each f xs) (ok ys) → Made xs ys
  unfolding each
  each-Made [] ys g = subst (Made []) (pure_ok [] ys g) tt
  each-Made (x ∷ xs) ys g =
      let (y, first, after) = bind_ok (f x) _ ys g in
      let (rest, others, last) = bind_ok (each f xs) _ ys after in
      subst (Made (x ∷ xs)) (pure_ok (y ∷ rest) ys last) (first, each-Made xs rest others)

  pub each_err :
      (xs : List A) (e : Stop)
      → Gives (each f xs) (err e)
      → (x : A) × Among x xs × Gives (f x) (err e)
  unfolding each
  each_err [] e g = absurd (pure_err [] e g)
  each_err (x ∷ xs) e g = elim (bind_err (f x) _ e g) [
    | inl first ↦ (x, inl refl, first)
    | inr (y, _, after) ↦ elim (bind_err (each f xs) _ e after) [
      | inl others ↦ let (z, i, h) = each_err xs e others in (z, inr i, h)
      | inr (rest, _, last) ↦ absurd (pure_err _ e last)
    ]
  ]

  pub Made-Among :
      (xs : List A) (ys : List B) (x : A) → Made xs ys → Among x xs → (y : B) × Gives (f x) (ok y)
  Made-Among [] ys x made i = absurd i
  Made-Among (z ∷ xs) [] x made i = absurd made
  Made-Among (z ∷ xs) (y ∷ ys) x (first, others) (inl e) =
      (y, subst (λ w. Gives (f w) (ok y)) (sym e) first)
  Made-Among (z ∷ xs) (y ∷ ys) x (first, others) (inr i) = Made-Among xs ys x others i

-- What every step of an encoding keeps true of the thread's record.
module _ (P : Local → Type 0) where
  abbrev pub Keeps : {A : Type 0} → Act A → Type 0
  Keeps m = (s : Local) → P s → P (m s).1

  module _ {A B : Type 0} where
    bind_result-Keeps :
        (r : Result Stop A × Local) (f : A → Act B)
        → P r.1
        → ((a : A) → Keeps (f a))
        → P (bind_result r f).1
    bind_result-Keeps (ok a, s) f p h = h a s p
    bind_result-Keeps (err e, s) f p h = p

    pub bind-Keeps :
        (m : Act A) (f : A → Act B) → Keeps m → ((a : A) → Keeps (f a)) → Keeps (m >>= f)
    unfolding ◌>>=◌
    bind-Keeps m f before after s p = bind_result-Keeps (m s) f (before s p) after

  module _ {A B : Type 0} where
    pub each-Keeps : (f : A → Act B) (xs : List A) → ((x : A) → Keeps (f x)) → Keeps (each f xs)
    unfolding each
    each-Keeps f [] h s p = p
    each-Keeps f (x ∷ xs) h s p =
        bind-Keeps (f x) _ (h x) (λ y. bind-Keeps (each f xs) _ (each-Keeps f xs h) (λ ys t q. q)) s
          p

  pub lift-Keeps : {A : Type 0} (r : Result Error A) → Keeps (lift r)
  lift-Keeps (ok a) s p = p
  lift-Keeps (err e) s p = p

module _ {A B : Type 0} where
  bind_result-run :
      (r : Result Stop A × Local) (f : A → Act B) (a : A) → r.0 ≡ ok a → bind_result r f ≡ f a r.1
  bind_result-run (ok b, s) f a h = ap (λ x. f x s) (ap (λ r. elim r [ ok z ↦ z | err e ↦ b ]) h)
  bind_result-run (err e, s) f a h = absurd (ground arith)

  pub bind-run :
      (m : Act A) (f : A → Act B) (s : Local) (a : A) → (m s).0 ≡ ok a → (m >>= f) s ≡ f a (m s).1
  unfolding ◌>>=◌
  bind-run m f s a h = bind_result-run (m s) f a h

  -- a step that returns does so in two parts
  pub bind-split :
      (m : Act A) (f : A → Act B) (s : Local) (b : B)
      → ((m >>= f) s).0 ≡ ok b
      → (a : A) × ((m s).0 ≡ ok a) × ((m >>= f) s ≡ f a (m s).1)
  unfolding Gives ◌>>=◌
  bind-split m f s b h = let (a, e, _) = bind_result_ok (m s) f b h in (a, e, bind-run m f s a e)

  bind_result-stop :
      (r : Result Stop A × Local) (f : A → Act B) (e : Stop)
      → r.0 ≡ err e
      → bind_result r f ≡ (err e, r.1)
  bind_result-stop (ok a, s) f e h = absurd (ground arith)
  bind_result-stop (err d, s) f e h = ap (λ x. (err x, s)) (err_of {B = A} d e h)

  pub bind-stop :
      (m : Act A) (f : A → Act B) (s : Local) (e : Stop)
      → (m s).0 ≡ err e
      → (m >>= f) s ≡ (err e, (m s).1)
  unfolding ◌>>=◌
  bind-stop m f s e h = bind_result-stop (m s) f e h
