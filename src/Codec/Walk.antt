-- ===== src/Codec/Walk.antt =====
-- How long a walk can take.
use tinyray.Common.{
  ℕ, zero, suc, ◌+◌, ◌<◌, List, [], ◌∷◌, some, ◌≡◌, ◌≢◌, inl, inr, refl, ap, arith, get_elem?,
  length,
}
use tinyray.Common.Unseen.{unseen, unseen-enters}
use tinyray.Errors.{Result, Result-cases}
use tinyray.Rpc.{Error}
use tinyray.Codec.{
  Object, blob_ref, pydantic, container, plain, Heap, object_at, out_of_fuel, push, enter, walk,
  degree, entries,
}

length-push :
    (children pending : List ℕ) → length (push children pending) ≡ length children + length pending
unfolding push
length-push [] pending = omega arith
length-push (k ∷ children) pending = omega (arith, length-push children (k ∷ pending))

unseen-nothing : (i : ℕ) (heap : Heap) → unseen degree i heap [] ≡ entries heap
unfolding entries
unseen-nothing i [] = refl
unseen-nothing i (o ∷ heap) = ap (λ n. degree o + n) (unseen-nothing (suc i) heap)

-- what is left to do
abbrev pub work : Heap → List ℕ → List ℕ → ℕ
work heap pending seen = length pending + unseen degree 0 heap seen

object_at-container :
    (heap : Heap) (k : ℕ) (children : List ℕ)
    → object_at heap k ≡ container children
    → get_elem? heap k ≡ some (container children)
unfolding object_at
object_at-container heap k children h = ground arith

enter-work :
    (heap : Heap) (o : Object) (k : ℕ) (pending seen : List ℕ)
    → object_at heap k ≡ o
    → let entered = enter o k pending seen in
      work heap entered.0 entered.1 + 1 ≡ work heap (k ∷ pending) seen
unfolding enter
enter-work heap (container children) k pending seen h = ground (
  arith,
  length-push children pending,
  unseen-enters degree 0 k k heap seen (container children) (omega arith)
      (object_at-container heap k children h),
)
enter-work heap (blob_ref closed) k pending seen h = omega arith
enter-work heap pydantic k pending seen h = omega arith
enter-work heap plain k pending seen h = omega arith

module _ {A : Type 0} (heap : Heap) (act : Object → ℕ → A → Result Error A) where
  pub walk_ends :
      (n : ℕ) (pending seen : List ℕ) (acc : A)
      → work heap pending seen < n
      → walk heap act n pending seen acc ≢ out_of_fuel
  unfolding walk
  walk_ends zero pending seen acc h = absurd (omega arith)
  walk_ends (suc n) [] seen acc h = λ e. ground arith
  walk_ends (suc n) (k ∷ pending) seen acc h = elim (Result-cases (act (object_at heap k) k acc)) [
    | inr (e, p) ↦ rw (p, walk) (λ e. ground arith)
    | inl (acc', p) ↦
        rw (p, walk)
          (walk_ends n _ _ acc'
            (omega (arith, enter-work heap (object_at heap k) k pending seen refl)))
  ]

  -- A walk from one value ends, however the objects refer to each other: the fuel that it is given
  -- is never used up.
  pub walk_terminates :
      (value : ℕ) (acc : A) → walk heap act (2 + entries heap) (value ∷ []) [] acc ≢ out_of_fuel
  walk_terminates value acc =
      walk_ends (2 + entries heap) (value ∷ []) [] acc (omega (arith, unseen-nothing 0 heap))
