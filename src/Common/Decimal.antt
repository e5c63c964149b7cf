-- ===== src/Common/Decimal.antt =====
-- Python's decimal print of a nonnegative `int`, f"{n}", and `int(s)` on digits.
use Prim.Native.Nat.{ℕ, zero, suc, ◌+◌, ◌-◌, ◌*◌, ◌/◌, ◌%◌, ◌≤◌, ◌<◌, ◌^◌}
use mathlib.Core.Path.{◌≡◌, refl, sym, ap, ◌∙◌}
use mathlib.Core.Bool.{true, false}
use mathlib.Core.List.{[], ◌∷◌, ◌++◌, foldl, foldl-append}
use native.Mathlib.Nat.{pow-suc}
use native.Mathlib.Omega.{arith}
use tinyray.Common.Tests.{ltb, if◌then◌else◌}
use tinyray.Common.Lists.{all, all-append, length, length-append}
use tinyray.Common.Text.{Text, is_digit_code, is_digit, Lacks}

digits : ℕ → ℕ → Text
digits zero n = []
digits (suc f) n =
    let rest = digits f (n / 10) ++ (b'0' + n % 10) ∷ [] in
    if ltb n 10 then (b'0' + n) ∷ [] else rest

-- f"{n}"; `n + 1` rounds are enough for `n`
unfoldable pub decimal : ℕ → Text
unfolding digits
decimal n = digits (suc n) n

-- int(s), for a text of ASCII digits
unfoldable pub int_of : Text → ℕ
int_of = foldl (λ n c. n * 10 + (c - b'0')) 0

int_of-snoc : (s : Text) (d : ℕ) → int_of (s ++ d ∷ []) ≡ int_of s * 10 + (d - b'0')
unfolding int_of
int_of-snoc s d = rw foldl-append

int_of-digits : (f n : ℕ) → n < f → int_of (digits f n) ≡ n
unfolding digits
int_of-digits zero n h = elim h [ ]
int_of-digits (suc f) n h = ground (
  arith,
  int_of-snoc (digits f (n / 10)) (b'0' + n % 10),
  int_of-snoc [] (b'0' + n),
  int_of-digits f (n / 10),
  int_of_nil,
)
  where
    int_of_nil : int_of [] ≡ 0
    int_of_nil = unfold int_of in refl

-- Reading the print of a number gives the number.
pub int_of-decimal : (n : ℕ) → int_of (decimal n) ≡ n
unfolding decimal
int_of-decimal n = int_of-digits (suc n) n (omega arith)

pub decimal-injective : (m n : ℕ) → decimal m ≡ decimal n → m ≡ n
decimal-injective m n h = sym (int_of-decimal m) ∙ ap int_of h ∙ int_of-decimal n

all-digits : (f n : ℕ) → all is_digit_code (digits f n) ≡ true
unfolding digits is_digit_code
all-digits zero n = refl
all-digits (suc f) n = ground (
  arith,
  all-append is_digit_code (digits f (n / 10)) ((b'0' + n % 10) ∷ []),
  all-digits f (n / 10),
)

pub all-decimal : (n : ℕ) → all is_digit_code (decimal n) ≡ true
unfolding decimal
all-decimal n = all-digits (suc n) n

length-digits_pos : (f n : ℕ) → 0 < length (digits (suc f) n)
unfolding digits
length-digits_pos f n = ground (arith, length-append (digits f (n / 10)) ((b'0' + n % 10) ∷ []))

pub length-decimal_pos : (n : ℕ) → 0 < length (decimal n)
unfolding decimal
length-decimal_pos n = length-digits_pos n n

is_digit-all : (s : Text) → 0 < length s → is_digit s ≡ all is_digit_code s
unfolding is_digit
is_digit-all [] h = absurd (omega arith)
is_digit-all (c ∷ s) h = refl

-- f"{n}".isdigit()
pub is_digit-decimal : (n : ℕ) → is_digit (decimal n) ≡ true
is_digit-decimal n = is_digit-all (decimal n) (length-decimal_pos n) ∙ all-decimal n

digits-Lacks : (c : ℕ) (s : Text) → is_digit_code c ≡ false → all is_digit_code s ≡ true → Lacks c s
digits-Lacks c [] h k = tt
digits-Lacks c (x ∷ s) h k = (ground arith, digits-Lacks c s h (ground arith))

-- A character that is no digit is not in the print of a number.
pub decimal-Lacks : (c n : ℕ) → is_digit_code c ≡ false → Lacks c (decimal n)
decimal-Lacks c n h = digits-Lacks c (decimal n) h (all-decimal n)

-- A number below a power of ten has at most so many digits.
length-digits_le : (k f n : ℕ) → n < 10 ^ suc k → length (digits f n) ≤ suc k
unfolding digits
length-digits_le k zero n h = omega arith
length-digits_le zero (suc f) n h = ground arith
length-digits_le (suc k) (suc f) n h =
    let q : n / 10 < 10 ^ suc k = omega (arith, pow-suc 10 (suc k)) in
    ground (
      arith,
      length-digits_le k f (n / 10) q,
      length-append (digits f (n / 10)) ((b'0' + n % 10) ∷ []),
    )

pub length-decimal_le : (k n : ℕ) → n < 10 ^ suc k → length (decimal n) ≤ suc k
unfolding decimal
length-decimal_le k n h = length-digits_le k (suc n) n h

decimal_1024 : decimal 1024 ≡ b'1' ∷ b'0' ∷ b'2' ∷ b'4' ∷ []
unfolding decimal
decimal_1024 = refl

decimal_big : int_of (decimal 1234567890123456789) ≡ 1234567890123456789
unfolding decimal int_of
decimal_big = refl
