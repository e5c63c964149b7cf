-- ===== src/Common/Unseen.antt =====
-- What is left of numbered things when some of them have been seen, with a weight for each. It bounds
-- the recursions that enter a thing once.
use Prim.Native.Nat.{ℕ, zero, suc, ◌+◌, ◌≤◌, ◌<◌}
use mathlib.Core.Path.{◌≡◌, refl}
use mathlib.Core.Bool.{true, false}
use mathlib.Core.List.{List, [], ◌∷◌}
use mathlib.Core.Option.{some}
use native.Mathlib.Omega.{arith}
use tinyray.Common.Tests.{◌==◌, if◌then◌else◌}
use tinyray.Common.Lists.{any, get_elem?}

module _ {ℓ} {A : Type ℓ} (weight : A → ℕ) where
  -- the weight of the things that are not seen, of a list whose first has the number `i`
  abbrev pub unseen : ℕ → List A → List ℕ → ℕ
  unseen i [] seen = 0
  unseen i (o ∷ things) seen =
      (if any (λ s. s == i) seen then 0 else weight o) + unseen (suc i) things seen

  unseen-above :
      (i k : ℕ) (things : List A) (seen : List ℕ)
      → k < i
      → unseen i things (k ∷ seen) ≡ unseen i things seen
  unseen-above i k [] seen h = refl
  unseen-above i k (o ∷ things) seen h = ground (arith, unseen-above (suc i) k things seen)

  pub unseen-enters :
      (i j k : ℕ) (things : List A) (seen : List ℕ) (o : A)
      → k ≡ i + j
      → get_elem? things j ≡ some o
      → any (λ s. s == k) seen ≡ false
      → unseen i things (k ∷ seen) + weight o ≡ unseen i things seen
  unseen-enters i j k [] seen o e h new = absurd (ground arith)
  unseen-enters i zero k (x ∷ things) seen o e h new =
      let at : k ≡ i = omega arith in ground (arith, at, unseen-above (suc i) k things seen)
  unseen-enters i (suc j) k (x ∷ things) seen o e h new =
      let at : k ≡ suc i + j = omega arith in
      ground (arith, unseen-enters (suc i) j k things seen o at h new)

  pub unseen_mono :
      (i : ℕ) (things : List A) (seen seen' : List ℕ)
      → ((j : ℕ) → any (λ s. s == j) seen ≡ true → any (λ s. s == j) seen' ≡ true)
      → unseen i things seen' ≤ unseen i things seen
  unseen_mono i [] seen seen' h = omega arith
  unseen_mono i (o ∷ things) seen seen' h =
      ground (arith, h i, unseen_mono (suc i) things seen seen' h)
