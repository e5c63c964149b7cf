-- ===== src/Member/Waits.antt =====
-- What merging keeps, and when a member's waits end.
use mathlib.Core.Path.{subst}
use tinyray.Common.{
  ℕ, List, [], ◌∷◌, Option, none, some, Bool, true, false, ◌≡◌, ◌⊎◌, inl, inr, refl, arith,
  if◌then◌else◌, Option-cases,
}
use tinyray.Common.Text.{Text, text_eq, text_eq→≡, text_eq_refl}
use tinyray.Value.{Value}
use tinyray.Serve.{lookup}
use tinyray.Watch.{left_ms}
use tinyray.Member.{Dict, put, merge, wait_fenced}

-- Each key stands in the dict once.
abbrev pub IsDistinct : Dict → Type 0
IsDistinct [] = Unit
IsDistinct ((k, v) ∷ d) = (lookup k d ≡ none) × IsDistinct d

lookup-put :
    (key k : Text) (v : Value) (d : Dict)
    → lookup key (put k v d) ≡ (if text_eq k key then some v else lookup key d)
unfolding lookup put
lookup-put key k v [] = refl
lookup-put key k v ((k', old) ∷ d) =
    ground (
      arith,
      lookup-put key k v d,
      text_eq→≡ k' k,
      text_eq→≡ k key,
      text_eq→≡ k' key,
      text_eq_refl k,
    )

-- A merge takes the new value of every key that the new dict has, and keeps the old value, or the
-- absence, of every other.
pub lookup-merge :
    (key : Text) (old new : Dict)
    → IsDistinct new
    → lookup key (merge old new) ≡ elim (lookup key new) [ some v ↦ some v | none ↦ lookup key old ]
unfolding lookup merge
lookup-merge key old [] h = refl
lookup-merge key old ((k, v) ∷ new) (fresh, h) =
    ground (arith, lookup-merge key (put k v old) new h, lookup-put key k v old, text_eq→≡ k key)

-- One round found the seat lost, or the time was up, while the seat was held.
abbrev pub EndsAt : Option ℕ → Bool → Bool × ℕ → Type 0
EndsAt deadline true (accepted, now) = accepted ≡ false
EndsAt deadline false (accepted, now) = (accepted ≡ true) × (left_ms deadline now ≡ none)

abbrev pub SomeRound : (Bool × ℕ → Type 0) → List (Bool × ℕ) → Type 0
SomeRound P [] = ⊥
SomeRound P (round ∷ rounds) = P round ⊎ SomeRound P rounds

-- `wait_fenced` returns True only at a round that found the seat lost, and False only at one that
-- found it held and the time up, so without a timeout it never returns False.
pub wait_fenced_lem :
    (deadline : Option ℕ) (rounds : List (Bool × ℕ)) (lost : Bool)
    → wait_fenced deadline rounds ≡ some lost
    → SomeRound (EndsAt deadline lost) rounds
unfolding wait_fenced
wait_fenced_lem deadline [] lost h = absurd (ground arith)
wait_fenced_lem deadline ((true, now) ∷ rounds) lost h =
    elim (Option-cases (left_ms deadline now)) [
      | inl e ↦
          let expired : false ≡ lost = ground arith in
          inl (subst (λ b. EndsAt deadline b (true, now)) expired (refl, e))
      | inr (ms, e) ↦ inr (wait_fenced_lem deadline rounds lost (ground arith))
    ]
wait_fenced_lem deadline ((false, now) ∷ rounds) true h = inl refl
wait_fenced_lem deadline ((false, now) ∷ rounds) false h = absurd (ground arith)
