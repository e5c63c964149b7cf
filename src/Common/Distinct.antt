-- ===== src/Common/Distinct.antt =====
-- Lists of numbers in which each number stands at most once.
use Prim.Native.Nat.{ℕ}
use mathlib.Core.Path.{◌≡◌, refl}
use mathlib.Core.Bool.{Bool, true, false}
use mathlib.Core.List.{List, [], ◌∷◌, ◌++◌}
use native.Mathlib.Omega.{arith}
use tinyray.Common.Tests.{◌==◌, if◌then◌else◌}
use tinyray.Common.Lists.{any}

abbrev pub is_in : ℕ → List ℕ → Bool
is_in k xs = any (λ x. x == k) xs

pub append-is_in :
    (j k : ℕ) (xs : List ℕ) → is_in j (xs ++ k ∷ []) ≡ (if k == j then true else is_in j xs)
append-is_in j k [] = ground arith
append-is_in j k (x ∷ xs) = ground (arith, append-is_in j k xs)

abbrev pub IsDistinct : List ℕ → Type 0
IsDistinct [] = Unit
IsDistinct (x ∷ xs) = (is_in x xs ≡ false) × IsDistinct xs

pub append-IsDistinct :
    (k : ℕ) (xs : List ℕ) → IsDistinct xs → is_in k xs ≡ false → IsDistinct (xs ++ k ∷ [])
append-IsDistinct k [] d h = (refl, tt)
append-IsDistinct k (x ∷ xs) (new, d) h =
    (ground (arith, append-is_in x k xs), append-IsDistinct k xs d (ground arith))
