-- ===== src/Codec/Outgoing.antt =====
-- What a walk says when it ends, and `_reject_pydantic_values`.
use mathlib.Core.Path.{subst}
use tinyray.Common.{ℕ, zero, suc, List, [], ◌∷◌, ◌≡◌, ◌≢◌, ◌⊎◌, inl, inr, refl, sym, arith}
use tinyray.Errors.{Result, ok, err, Result-cases}
use tinyray.Rpc.{Error}
use tinyray.Codec.{
  Object, blob_ref, pydantic, container, plain, Heap, object_at, Walked, done, raised, out_of_fuel,
  enter, walk,
}
use tinyray.Codec.Reachable.{In, Reach, here, into, children_of, In-push}

pub Walked-cases :
    {A : Type 0} (w : Walked A)
    → w ≢ out_of_fuel
    → ((a : A) × (w ≡ done a)) ⊎ ((e : Error) × (w ≡ raised e))
Walked-cases (done a) h = inl (a, refl)
Walked-cases (raised e) h = inr (e, refl)
Walked-cases out_of_fuel h = absurd (h refl)

entered-from :
    (children : List ℕ) (k : ℕ) (pending seen : List ℕ) (v : ℕ)
    → In v (enter (container children) k pending seen).0
    → In v children ⊎ In v pending
unfolding enter
entered-from children k pending seen v i = ground (arith, In-push v children pending)

module _ {A : Type 0} (heap : Heap) (act : Object → ℕ → A → Result Error A) (value : ℕ)
    (P : A → Type 0)
    (holds : (k : ℕ) (acc acc' : A)
      → Reach heap value k
      → act (object_at heap k) k acc ≡ ok acc'
      → P acc
      → P acc') where
  abbrev pub IsReached : List ℕ → Type 0
  IsReached pending = (v : ℕ) → In v pending → Reach heap value v

  enter-IsReached :
      (o : Object) (k : ℕ) (pending seen : List ℕ)
      → object_at heap k ≡ o
      → IsReached (k ∷ pending)
      → IsReached (enter o k pending seen).0
  unfolding enter
  enter-IsReached (container children) k pending seen at reached v i =
      elim (entered-from children k pending seen v i) [
        | inr j ↦ reached v (inr j)
        | inl child ↦ into (reached k (inl refl)) (subst (λ o. In v (children_of o)) (sym at) child)
      ]
  enter-IsReached (blob_ref closed) k pending seen at reached v i = reached v (inr i)
  enter-IsReached pydantic k pending seen at reached v i = reached v (inr i)
  enter-IsReached plain k pending seen at reached v i = reached v (inr i)

  -- What a walk says when it ends.
  abbrev pub Means : Walked A → Type 0
  Means (done result) = P result
  Means (raised e) =
      (v : ℕ) × (acc : A) × Reach heap value v × (act (object_at heap v) v acc ≡ err e)
  Means out_of_fuel = Unit

  pub walk-Means :
      (n : ℕ) (pending seen : List ℕ) (acc : A)
      → IsReached pending
      → P acc
      → Means (walk heap act n pending seen acc)
  unfolding walk
  walk-Means zero pending seen acc reached p = tt
  walk-Means (suc n) [] seen acc reached p = p
  walk-Means (suc n) (k ∷ pending) seen acc reached p =
      let reach : Reach heap value k = reached k (inl refl) in
      elim (Result-cases (act (object_at heap k) k acc)) [
        | inr (e, raises) ↦ rw (raises, walk) (k, acc, reach, raises)
        | inl (acc', passes) ↦
            rw (passes, walk)
              (walk-Means n _ _ acc'
                (enter-IsReached (object_at heap k) k pending seen refl reached)
                (holds k acc acc' reach passes p))
      ]

module _ {A : Type 0} (heap : Heap) (act : Object → ℕ → A → Result Error A) (value : ℕ) where
  -- where a walk raises, one of the objects made it raise
  pub walk_raises :
      (n : ℕ) (acc : A) (e : Error)
      → walk heap act n (value ∷ []) [] acc ≡ raised e
      → (v : ℕ) × (acc : A) × Reach heap value v × (act (object_at heap v) v acc ≡ err e)
  walk_raises n acc e h =
      subst (Means heap act value (λ a. Unit {0}) (λ k a b reach passes u. u)) h (
        walk-Means heap act value (λ a. Unit {0}) (λ k a b reach passes u. u) n (value ∷ []) [] acc
          (λ v i. elim i [ inl e ↦ subst (Reach heap value) (sym e) here | inr j ↦ absurd j ]) tt)
