-- ===== src/Bells/Loops.antt =====
-- What the cache of values per event loop holds.
use mathlib.Core.Path.{subst}
use tinyray.Common.{
  ℕ, List, [], ◌∷◌, ◌++◌, Option, none, some, Bool, true, false, if◌then◌else◌, ◌==◌, ◌≡◌, ◌≢◌, ◌⊎◌,
  inl, inr, refl, arith, ==_iff, Bool-cases, ap, sym, ◌∙◌,
}
use tinyray.Errors.{ok, err, runtime_error}
use tinyray.Bells.{Bell, new_bell, sweep, entry_of, pop, use_entry, per_loop, loop_bell}

module _ {T : Type 0} where
  sweep-entry_of :
      (is_gone : ℕ → Bool) (j : ℕ) (cache : List (ℕ × T))
      → entry_of j (sweep is_gone cache).0 ≡ (if is_gone j then none else entry_of j cache)
  unfolding sweep entry_of
  sweep-entry_of is_gone j [] = ground arith
  sweep-entry_of is_gone j ((k, held) ∷ cache) = elim (Bool-cases (k == j)) [
    | inl same ↦
        let at : k ≡ j = (==_iff k j).0 same in
        ground (arith, at, ap is_gone at, sweep-entry_of is_gone j cache)
    | inr other ↦ ground (arith, sweep-entry_of is_gone j cache)
  ]

  pop-entry_of :
      (loop j : ℕ) (cache : List (ℕ × T))
      → entry_of j (pop loop cache) ≡ (if loop == j then none else entry_of j cache)
  unfolding pop entry_of
  pop-entry_of loop j [] = ground arith
  pop-entry_of loop j ((k, held) ∷ cache) = ground (arith, pop-entry_of loop j cache)

  abbrev pub In : T → List T → Type 0
  In v [] = ⊥
  In v (x ∷ xs) = (x ≡ v) ⊎ In v xs

  In-append : (v : T) (xs ys : List T) → In v xs ⊎ In v ys → In v (xs ++ ys)
  In-append v [] ys (inl i) = absurd i
  In-append v [] ys (inr i) = i
  In-append v (x ∷ xs) ys (inl (inl e)) = inl e
  In-append v (x ∷ xs) ys (inl (inr i)) = inr (In-append v xs ys (inl i))
  In-append v (x ∷ xs) ys (inr i) = inr (In-append v xs ys (inr i))

  sweep_drops :
      (is_gone : ℕ → Bool) (j : ℕ) (v : T) (cache : List (ℕ × T))
      → entry_of j cache ≡ some v
      → is_gone j ≡ true
      → In v (sweep is_gone cache).1
  unfolding sweep entry_of
  sweep_drops is_gone j v [] h gone = absurd (ground arith)
  sweep_drops is_gone j v ((k, held) ∷ cache) h gone = elim (Bool-cases (k == j)) [
    | inl same ↦ let at : k ≡ j = (==_iff k j).0 same in ground (arith, at, ap is_gone at)
    | inr other ↦ ground (arith, sweep_drops is_gone j v cache)
  ]

  module _ (loop : ℕ) (made : T) (reuse : T → Bool) (left : List (ℕ × T)) (dropped : List T) where
    use_entry_lem :
        (o : Option T)
        → entry_of loop left ≡ o
        → let (value, after, gone) = use_entry loop made reuse o left dropped in
          (entry_of loop after ≡ some value)
          × ((j : ℕ) → (loop == j) ≡ false → entry_of j after ≡ entry_of j left)
          × ((value ≡ made) ⊎ ((o ≡ some value) × (reuse value ≡ true)))
          × ((v : T) → (o ≡ some v) → (entry_of loop after ≡ some v) ⊎ In v gone)
          × ((v : T) → In v dropped → In v gone)
    unfolding use_entry entry_of
    use_entry_lem none e =
        (ground arith, (λ j h. ground arith), inl refl, (λ v h. absurd (ground arith)), (λ v i. i))
    use_entry_lem (some held) e = elim (Bool-cases (reuse held)) [
      | inl again ↦
          rw (again, use_entry)
            (e, (λ j h. refl), inr (refl, again), (λ v h. inl (e ∙ h)), (λ v i. i))
      | inr other ↦
          rw (other, use_entry)
            (
              ground arith,
              (λ j h. ground (arith, pop-entry_of loop j left)),
              inl refl,
              (λ v h. inr (In-append v dropped (held ∷ []) (inr (inl (ground arith))))),
              (λ v i. In-append v dropped (held ∷ []) (inl i)),
            )
    ]

  -- Behind a call from a loop that is not gone, the cache has, for that loop, the value that was
  -- returned; for every other loop that is alive, what it had; and nothing for another loop that is
  -- gone. The value that is returned is the one made new, or one that the loop had and that may be
  -- used again. What the cache had for a loop is still there, or was dropped.
  pub per_loop_lem :
      (is_gone : ℕ → Bool) (loop : ℕ) (made : T) (reuse : T → Bool) (cache : List (ℕ × T))
      → is_gone loop ≡ false
      → let (value, after, dropped) = per_loop is_gone loop made reuse cache in
        (entry_of loop after ≡ some value)
        × ((j : ℕ)
            → (loop == j) ≡ false
            → entry_of j after ≡ (if is_gone j then none else entry_of j cache))
        × ((value ≡ made) ⊎ ((entry_of loop cache ≡ some value) × (reuse value ≡ true)))
        × ((j : ℕ) (v : T) → entry_of j cache ≡ some v → (entry_of j after ≡ some v) ⊎ In v dropped)
  unfolding per_loop
  per_loop_lem is_gone loop made reuse cache alive =
      let left = (sweep is_gone cache).0 in
      let dropped = (sweep is_gone cache).1 in
      let (has, others, from, kept, keeps) =
        use_entry_lem loop made reuse left dropped (entry_of loop left) refl in
      let swept = sweep-entry_of is_gone loop cache in
      (
        has,
        (λ j h. others j h ∙ sweep-entry_of is_gone j cache),
        ground (arith, swept),
        (λ j v h. elim (Bool-cases (is_gone j)) [
          | inl gone ↦ inr (keeps v (sweep_drops is_gone j v cache h gone))
          | inr here ↦ elim (Bool-cases (loop == j)) [
            | inl same ↦
                let at : loop ≡ j = (==_iff loop j).0 same in
                let had : entry_of loop cache ≡ some v =
                  subst (λ k. entry_of k cache ≡ some v) (sym at) h in
                let found : entry_of loop left ≡ some v = ground (arith, swept) in
                subst
                  (λ k.
                    (entry_of k (per_loop is_gone loop made reuse cache).1 ≡ some v)
                    ⊎ In v (per_loop is_gone loop made reuse cache).2)
                  at (kept v found)
            | inr other ↦ inl (ground (arith, others j other, sweep-entry_of is_gone j cache))
          ]
        ]),
      )

  reused :
      (reuse : T → Bool) (made value : T) (cache : List (ℕ × T)) (loop : ℕ)
      → reuse made ≡ true
      → (value ≡ made) ⊎ ((entry_of loop cache ≡ some value) × (reuse value ≡ true))
      → reuse value ≡ true
  reused reuse made value cache loop fits (inl e) = ap reuse e ∙ fits
  reused reuse made value cache loop fits (inr (e, again)) = again

-- A wait gets a bell only if its client is the one of this process, and then a bell of that client,
-- which the running loop keeps; otherwise it raises `RuntimeError`.
pub loop_bell_lem :
    (current : Option ℕ) (client : ℕ) (is_gone : ℕ → Bool) (loop : ℕ) (bells : List (ℕ × Bell))
    → is_gone loop ≡ false
    → ((current ≡ some client)
        × (b : Bell) × (after : List (ℕ × Bell)) × (dropped : List Bell) × (loop_bell current client
              is_gone loop bells
            ≡ ok (b, after, dropped))
        × (b.client ≡ client)
        × (entry_of loop after ≡ some b))
      ⊎ ((current ≢ some client)
          × (loop_bell current client is_gone loop bells ≡ err runtime_error))
unfolding loop_bell
loop_bell_lem none client is_gone loop bells alive = inr ((λ e. ground arith), refl)
loop_bell_lem (some current) client is_gone loop bells alive =
    elim (Bool-cases (client == current)) [
      | inr other ↦ inr ((λ e. ground arith), rw (other, loop_bell) refl)
      | inl mine ↦
          let of_client : Bell → Bool = λ b. b.client == client in
          let (b, after, dropped) = per_loop is_gone loop (new_bell client) of_client bells in
          let (has, others, from, kept) =
            per_loop_lem is_gone loop (new_bell client) of_client bells alive in
          let fits : of_client (new_bell client) ≡ true = unfold new_bell in (ground arith) in
          let again = reused of_client (new_bell client) b bells loop fits from in
          inl (
            ap some (sym ((==_iff client current).0 mine)),
            b,
            after,
            dropped,
            rw (mine, loop_bell) refl,
            (==_iff b.client client).0 again,
            has,
          )
    ]
