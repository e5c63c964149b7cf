-- ===== src/Common/Text.antt =====
-- Python's `str` as the list of its code points, with the methods that the package calls.
pub mod Strip
use Prim.Native.Char.{code}
use Prim.Native.String.{String}
use tinyray.Common.Tests.{ltb, leb, ◌==◌, if◌then◌else◌}
use tinyray.Common.Lists.{any, all, All}
use Prim.Native.Nat.{ℕ}
use mathlib.Core.Path.{◌≡◌, refl}
use mathlib.Core.Logic.{◌≢◌}
use mathlib.Core.Bool.{Bool, true, false, ◌&&◌, ◌||◌}
use mathlib.Core.List.{List, [], ◌∷◌, ◌++◌}
use native.Mathlib.Omega.{arith}

abbrev pub Text : Type 0
Text = List ℕ

-- the code points of a literal
abbrev pub codes : String → Text
codes String.[] = []
codes (String.◌∷◌ c s) = code c ∷ codes s

-- s == t
unfoldable pub text_eq : Text → Text → Bool
text_eq [] [] = true
text_eq [] (y ∷ t) = false
text_eq (x ∷ s) [] = false
text_eq (x ∷ s) (y ∷ t) = x == y && text_eq s t

pub text_eq→≡ : (s t : Text) → text_eq s t ≡ true → s ≡ t
unfolding text_eq
text_eq→≡ [] [] h = refl
text_eq→≡ [] (y ∷ t) h = cc
text_eq→≡ (x ∷ s) [] h = cc
text_eq→≡ (x ∷ s) (y ∷ t) h = ground (arith, text_eq→≡ s t)

pub text_eq_refl : (s : Text) → text_eq s s ≡ true
unfolding text_eq
text_eq_refl [] = refl
text_eq_refl (x ∷ s) = ground (arith, text_eq_refl s)

-- not s
abbrev pub is_empty : Text → Bool
is_empty [] = true
is_empty (c ∷ s) = false

-- s.partition(c)[0] and s.partition(c)[2]
unfoldable pub before : ℕ → Text → Text
before c [] = []
before c (x ∷ s) = if x == c then [] else x ∷ before c s

unfoldable pub after : ℕ → Text → Text
after c [] = []
after c (x ∷ s) = if x == c then s else after c s

-- c in s, for one character
abbrev pub has : ℕ → Text → Bool
has c = any (λ x. x == c)

-- s.startswith(p)
unfoldable pub starts_with : Text → Text → Bool
starts_with [] s = true
starts_with (c ∷ p) [] = false
starts_with (c ∷ p) (x ∷ s) = c == x && starts_with p s

-- p in s
unfoldable pub contains : Text → Text → Bool
contains p [] = starts_with p []
contains p (x ∷ s) = starts_with p (x ∷ s) || contains p s

-- str.isspace on one character, as `strip` uses it
unfoldable pub is_space : ℕ → Bool
is_space c =
    leb 9 c && leb c 13
    || leb 28 c && leb c 32
    || c == 0x85
    || c == 0xa0
    || c == 0x1680
    || leb 0x2000 c && leb c 0x200a
    || c == 0x2028
    || c == 0x2029
    || c == 0x202f
    || c == 0x205f
    || c == 0x3000

unfoldable pub lstrip : Text → Text
lstrip [] = []
lstrip (c ∷ s) = if is_space c then lstrip s else c ∷ s

-- a character, unless it and all behind it is space
abbrev keep_before : ℕ → Text → Text
keep_before c [] = if is_space c then [] else c ∷ []
keep_before c (x ∷ s) = c ∷ x ∷ s

unfoldable pub rstrip : Text → Text
rstrip [] = []
rstrip (c ∷ s) = keep_before c (rstrip s)

-- s.strip()
unfoldable pub strip : Text → Text
unfolding lstrip rstrip
strip s = rstrip (lstrip s)

-- s.isascii()
unfoldable pub is_ascii : Text → Bool
is_ascii = all (λ c. ltb c 128)

-- an ASCII digit
unfoldable pub is_digit_code : ℕ → Bool
is_digit_code c = leb b'0' c && leb c b'9'

-- s.isdigit(), where the digits are those of ASCII
unfoldable pub is_digit : Text → Bool
unfolding is_digit_code
is_digit [] = false
is_digit (c ∷ s) = all is_digit_code (c ∷ s)

unfoldable pub is_identifier_start : ℕ → Bool
is_identifier_start c = leb b'a' c && leb c b'z' || leb b'A' c && leb c b'Z' || c == b'_'

-- s.isidentifier(), for an ASCII text
unfoldable pub is_identifier : Text → Bool
unfolding is_identifier_start is_digit_code
is_identifier [] = false
is_identifier (c ∷ s) =
    is_identifier_start c && all (λ x. is_identifier_start x || is_digit_code x) s

module _ (c : ℕ) where
  abbrev pub Lacks : Text → Type 0
  Lacks = All (λ x. x ≢ c)

  pub before-append : (s t : Text) → Lacks s → before c (s ++ c ∷ t) ≡ s
  unfolding before
  before-append [] t h = ground arith
  before-append (x ∷ s) t (hx, hs) = ground (arith, before-append s t hs)

  pub after-append : (s t : Text) → Lacks s → after c (s ++ c ∷ t) ≡ t
  unfolding after
  after-append [] t h = ground arith
  after-append (x ∷ s) t (hx, hs) = ground (arith, after-append s t hs)

  pub has→Lacks : (s : Text) → has c s ≡ false → Lacks s
  has→Lacks [] h = tt
  has→Lacks (x ∷ s) h = (ground arith, has→Lacks s (ground arith))
