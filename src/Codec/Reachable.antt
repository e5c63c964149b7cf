-- ===== src/Codec/Reachable.antt =====
-- What the walks look at: every object that the value refers to, directly or through containers.
use mathlib.Core.Path.{subst}
use tinyray.Common.{
  ℕ, zero, suc, List, [], ◌∷◌, true, ◌≡◌, ◌↔◌, ◌⊎◌, inl, inr, refl, sym, arith, any, ◌==◌,
}
use tinyray.Errors.{Result, ok, Result-cases}
use tinyray.Rpc.{Error}
use tinyray.Codec.{
  Object, blob_ref, pydantic, container, plain, Heap, object_at, done, push, enter, walk,
}

abbrev pub In : ℕ → List ℕ → Type 0
In k [] = ⊥
In k (x ∷ xs) = (k ≡ x) ⊎ In k xs

abbrev pub children_of : Object → List ℕ
children_of (container children) = children
children_of (blob_ref closed) = []
children_of pydantic = []
children_of plain = []

-- the objects that a value refers to, itself included
pub data Reach (heap : Heap) (value : ℕ) : ℕ → Type 0 where
  here : Reach heap value value
  into : {u v : ℕ} → Reach heap value u → In v (children_of (object_at heap u)) → Reach heap value v

pub In-push :
    (k : ℕ) (children pending : List ℕ)
    → In k (push children pending) ↔ (In k children ⊎ In k pending)
unfolding push
In-push k [] pending = ((λ i. inr i), (λ i. elim i [ inl e ↦ absurd e | inr i ↦ i ]))
In-push k (x ∷ children) pending = ground (arith, In-push k children (x ∷ pending))

In-any : (k : ℕ) (seen : List ℕ) → any (λ s. s == k) seen ≡ true → In k seen
In-any k [] h = absurd (ground arith)
In-any k (x ∷ seen) h = ground (arith, In-any k seen)

module _ (k : ℕ) (pending seen : List ℕ) where
  enter_pending : (o : Object) (v : ℕ) → In v pending → In v (enter o k pending seen).0
  unfolding enter
  enter_pending (container children) v i = ground (arith, In-push v children pending)
  enter_pending (blob_ref closed) v i = i
  enter_pending pydantic v i = i
  enter_pending plain v i = i

  enter_seen : (o : Object) (v : ℕ) → In v seen → In v (enter o k pending seen).1
  unfolding enter
  enter_seen (container children) v i = ground arith
  enter_seen (blob_ref closed) v i = i
  enter_seen pydantic v i = i
  enter_seen plain v i = i

  enter_self : (o : Object) → (children_of o ≡ []) ⊎ In k (enter o k pending seen).1
  unfolding enter
  enter_self (container children) = ground (arith, In-any k seen)
  enter_self (blob_ref closed) = inl refl
  enter_self pydantic = inl refl
  enter_self plain = inl refl

  enter_new :
      (o : Object) (u v : ℕ)
      → In u (enter o k pending seen).1
      → In u seen ⊎ ((u ≡ k) × (In v (children_of o) → In v (enter o k pending seen).0))
  unfolding enter
  enter_new (container children) u v i = ground (arith, In-push v children pending)
  enter_new (blob_ref closed) u v i = inl i
  enter_new pydantic u v i = inl i
  enter_new plain u v i = inl i

module _ {A : Type 0} (heap : Heap) (act : Object → ℕ → A → Result Error A) (Noted : ℕ → A → Type 0)
    (notes : (k : ℕ) (acc acc' : A) → act (object_at heap k) k acc ≡ ok acc' → Noted k acc')
    (keeps : (k v : ℕ) (acc acc' : A)
      → act (object_at heap k) k acc ≡ ok acc'
      → Noted v acc
      → Noted v acc') where
  -- `v` is still to be popped, or was popped and, if it is a container, entered
  IsCovered : List ℕ → List ℕ → A → ℕ → Type 0
  IsCovered pending seen acc v =
      In v pending ⊎ (Noted v acc × ((children_of (object_at heap v) ≡ []) ⊎ In v seen))

  IsClosed : List ℕ → List ℕ → A → Type 0
  IsClosed pending seen acc =
      (u v : ℕ) → In u seen → In v (children_of (object_at heap u)) → IsCovered pending seen acc v

  -- one round of the walk
  round_covers :
      (k v : ℕ) (pending seen : List ℕ) (acc acc' : A)
      → act (object_at heap k) k acc ≡ ok acc'
      → IsCovered (k ∷ pending) seen acc v
      → let entered = enter (object_at heap k) k pending seen in
        IsCovered entered.0 entered.1 acc' v
  unfolding IsCovered
  round_covers k v pending seen acc acc' h (inl (inl e)) = inr (
      subst
        (λ x.
          Noted x acc'
          × ((children_of (object_at heap x) ≡ [])
              ⊎ In x (enter (object_at heap k) k pending seen).1))
        (sym e) (notes k acc acc' h, enter_self k pending seen (object_at heap k)))
  round_covers k v pending seen acc acc' h (inl (inr i)) =
      inl (enter_pending k pending seen (object_at heap k) v i)
  round_covers k v pending seen acc acc' h (inr (noted, inl bare)) =
      inr (keeps k v acc acc' h noted, inl bare)
  round_covers k v pending seen acc acc' h (inr (noted, inr i)) =
      inr (keeps k v acc acc' h noted, inr (enter_seen k pending seen (object_at heap k) v i))

  round-IsClosed :
      (k : ℕ) (pending seen : List ℕ) (acc acc' : A)
      → act (object_at heap k) k acc ≡ ok acc'
      → IsClosed (k ∷ pending) seen acc
      → let entered = enter (object_at heap k) k pending seen in IsClosed entered.0 entered.1 acc'
  unfolding IsClosed IsCovered
  round-IsClosed k pending seen acc acc' h closed u v i child =
      elim (enter_new k pending seen (object_at heap k) u v i) [
        | inl old ↦ round_covers k v pending seen acc acc' h (closed u v old child)
        | inr (e, pushed) ↦
            inl (pushed (subst (λ x. In v (children_of (object_at heap x))) e child))
      ]

  walk_covers :
      (n : ℕ) (pending seen : List ℕ) (acc result : A) (value : ℕ)
      → walk heap act n pending seen acc ≡ done result
      → IsCovered pending seen acc value
      → IsClosed pending seen acc
      → (last : List ℕ) × IsCovered [] last result value × IsClosed [] last result
  unfolding walk
  walk_covers zero pending seen acc result value h covered closed = absurd (ground arith)
  walk_covers (suc n) [] seen acc result value h covered closed =
      let same : acc ≡ result = ground arith in
      (
        seen,
        subst (λ a. IsCovered [] seen a value) same covered,
        subst (IsClosed [] seen) same closed,
      )
  walk_covers (suc n) (k ∷ pending) seen acc result value h covered closed =
      elim (Result-cases (act (object_at heap k) k acc)) [
        | inr (e, p) ↦ absurd (ground arith)
        | inl (acc', p) ↦
            walk_covers n _ _ acc' result value (rw (p, walk) at h)
              (round_covers k value pending seen acc acc' p covered)
              (round-IsClosed k pending seen acc acc' p closed)
      ]

  reach-IsCovered :
      (value v : ℕ) (last : List ℕ) (result : A)
      → IsCovered [] last result value
      → IsClosed [] last result
      → Reach heap value v
      → IsCovered [] last result v
  unfolding IsCovered IsClosed
  reach-IsCovered value v last result covered closed here = covered
  reach-IsCovered value v last result covered closed (into {u} before child) =
      elim (reach-IsCovered value u last result covered closed before) [
        | inl i ↦ absurd i
        | inr (noted, inl bare) ↦ absurd (subst (In v) bare child)
        | inr (noted, inr i) ↦ closed u v i child
      ]

  -- Where a walk is done, every object that the value refers to has been noted.
  pub walk_notes :
      (n value v : ℕ) (acc result : A)
      → walk heap act n (value ∷ []) [] acc ≡ done result
      → Reach heap value v
      → Noted v result
  unfolding IsCovered IsClosed
  walk_notes n value v acc result h reach =
      let (last, covered, closed) =
        walk_covers n (value ∷ []) [] acc result value h (inl (inl refl)) (λ u w i. absurd i) in
      elim (reach-IsCovered value v last result covered closed reach) [
        | inl i ↦ absurd i
        | inr (noted, _) ↦ noted
      ]
