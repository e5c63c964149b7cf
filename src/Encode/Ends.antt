-- ===== src/Encode/Ends.antt =====
-- How deep a preparation can go: an object is never entered again below itself.
use tinyray.Common.{
  ℕ, zero, suc, ◌+◌, ◌<◌, List, [], ◌∷◌, some, ◌≡◌, inl, inr, refl, arith, get_elem?, length,
  Option-cases,
}
use tinyray.Common.Unseen.{unseen, unseen-enters}
use tinyray.Errors.{err}
use tinyray.Encode.{Call, PyObject, item_at, Encoder, out_of_fuel}
use tinyray.Encode.Actions.{Gives}
use tinyray.Encode.Prepare.{prepare}
use tinyray.Encode.Stops.{Part, turned_down_by}
use tinyray.Encode.Trails.{prepare_stopped}

abbrev pub unentered : List PyObject → List ℕ → ℕ
unentered heap active = unseen (λ o. 1) 0 heap active

unentered-nothing : (i : ℕ) (heap : List PyObject) → unseen (λ o. 1) i heap [] ≡ length heap
unentered-nothing i [] = refl
unentered-nothing i (o ∷ heap) = omega (arith, unentered-nothing (suc i) heap)

-- an object with something in it is on the heap
item_at-some :
    (heap : List PyObject) (k v : ℕ)
    → Part (item_at heap k) v
    → (o : PyObject) × (get_elem? heap k ≡ some o)
unfolding item_at
item_at-some heap k v i = elim (Option-cases (get_elem? heap k)) [
  | inl e ↦ absurd (rw (e, item_at) at i)
  | inr found ↦ found
]

module _ (E : Encoder) (heap : List PyObject) where
  prepare_ends :
      (n : ℕ) (how : Call) (active : List ℕ) (k : ℕ)
      → unentered heap active < n
      → Gives (prepare E heap n how active k) (err out_of_fuel)
      → ⊥
  prepare_ends zero how active k h g = omega arith
  prepare_ends (suc n) how active k h g =
      elim (prepare_stopped E heap n active k how out_of_fuel g) [
        | inl (b, e) ↦ ground arith
        | inr (inl (z, _, _, _, e)) ↦ ground arith
        | inr (inr (inl (b, e))) ↦ ground arith
        | inr (inr (inr (b, inr r))) ↦
            let (x, e) =
              turned_down_by E heap (prepare E heap n) (k ∷ active) (item_at heap k) out_of_fuel
                r in
            ground arith
        | inr (inr (inr (b, inl (v, i, (how', f))))) ↦
            let (o, at) = item_at-some heap k v i in
            prepare_ends n how' (k ∷ active) v
              (omega (arith, unseen-enters (λ x. 1) 0 k k heap active o (omega arith) at b)) f
      ]

  pub prepare_terminates :
      (how : Call) (value : ℕ)
      → Gives (prepare E heap (2 + length heap) how [] value) (err out_of_fuel)
      → ⊥
  prepare_terminates how value =
      prepare_ends (2 + length heap) how [] value (omega (arith, unentered-nothing 0 heap))
