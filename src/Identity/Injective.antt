-- ===== src/Identity/Injective.antt =====
-- What a fencing token of `_identity` was built from.
use mathlib.Core.Path.{subst}
use tinyray.Common.{ℕ, sym, ◌∙◌, ◌++◌, ◌∷◌, [], Option, ◌≡◌, refl, append_assoc}
use tinyray.Common.Text.{Text, Lacks, is_digit_code}
use tinyray.Common.Decimal.{decimal, decimal-injective, decimal-Lacks}
use tinyray.Identity.{identity, seat_key}

not-Lacks-append : (c : ℕ) (s t : Text) → Lacks c (s ++ c ∷ t) → ⊥
not-Lacks-append c [] t h = h.0 refl
not-Lacks-append c (x ∷ s) t h = not-Lacks-append c s t h.1

-- A text is cut at its last separator in one way.
pub last_separator :
    (c : ℕ) (s s' t t' : Text)
    → Lacks c t
    → Lacks c t'
    → s ++ c ∷ t ≡ s' ++ c ∷ t'
    → (s ≡ s') × (t ≡ t')
last_separator c [] [] t t' h h' e = (refl, cc)
last_separator c [] (x ∷ s') t t' h h' e =
    let t_eq : t ≡ s' ++ c ∷ t' = cc in absurd (not-Lacks-append c s' t' (subst (Lacks c) t_eq h))
last_separator c (x ∷ s) [] t t' h h' e =
    let t_eq : t' ≡ s ++ c ∷ t = cc in absurd (not-Lacks-append c s t (subst (Lacks c) t_eq h'))
last_separator c (x ∷ s) (x' ∷ s') t t' h h' e =
    let rest : s ++ c ∷ t ≡ s' ++ c ∷ t' = cc in
    let (s_eq, t_eq) = last_separator c s s' t t' h h' rest in (cc, t_eq)

-- Two members with the same token have the same pool, the same seat (or id) and the same tenure,
-- whatever characters the pool names hold.
pub identity_injective :
    (pool pool' : Text) (slot slot' : Option ℕ) (ident ident' incarnation incarnation' : ℕ)
    → identity pool slot ident incarnation ≡ identity pool' slot' ident' incarnation'
    → (pool ≡ pool') × (seat_key slot ident ≡ seat_key slot' ident') × (incarnation ≡ incarnation')
unfolding identity is_digit_code
identity_injective pool pool' slot slot' ident ident' incarnation incarnation' e =
    let key = seat_key slot ident in
    let key' = seat_key slot' ident' in
    let regrouped =
      append_assoc pool (b'/' ∷ decimal key) (b'#' ∷ decimal incarnation)
      ∙ e
      ∙ sym (append_assoc pool' (b'/' ∷ decimal key') (b'#' ∷ decimal incarnation')) in
    let (seats, tenures) =
      last_separator b'#' (pool ++ b'/' ∷ decimal key) (pool' ++ b'/' ∷ decimal key') _ _
        (decimal-Lacks b'#' incarnation refl) (decimal-Lacks b'#' incarnation' refl) regrouped in
    let (pools, keys) =
      last_separator b'/' pool pool' _ _ (decimal-Lacks b'/' key refl)
        (decimal-Lacks b'/' key' refl) seats in
    (pools, decimal-injective key key' keys, decimal-injective incarnation incarnation' tenures)
