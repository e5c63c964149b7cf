-- ===== src/Encode/Integers.antt =====
-- python/tinyray/_msgpack.py: `_decode_ext` on the extension for integers out of msgspec's range.
use tinyray.Common.{ℕ, zero, suc, [], ◌∷◌, ◌≡◌, refl, arith, ◌==◌, if◌then◌else◌, ap, ◌∙◌}
use tinyray.Common.Decimal.{decimal, int_of, int_of-decimal, decimal-Lacks}
use tinyray.Common.Int.{ℤ, pos, negsuc}
use tinyray.Common.Text.{Text, Lacks, is_digit_code}
use tinyray.Encode.Prepare.{str}

-- int(raw.decode("ascii")), for a text of digits with or without a minus
unfoldable pub negated : ℕ → ℤ
negated zero = pos zero
negated (suc n) = negsuc n

unfoldable pub read_int : Text → ℤ
read_int [] = pos 0
read_int (c ∷ s) = if c == b'-' then negated (int_of s) else pos (int_of (c ∷ s))

read_int_lem : (s : Text) → Lacks b'-' s → read_int s ≡ pos (int_of s)
unfolding read_int int_of
read_int_lem [] lacks = refl
read_int_lem (c ∷ s) (h, lacks) = ground arith

-- `_decode_ext` reads the extension that `_prepare_bigints` writes for an integer as that integer.
pub read_int-str : (z : ℤ) → read_int (str z) ≡ z
unfolding str read_int negated is_digit_code
read_int-str (pos n) =
    read_int_lem (decimal n) (decimal-Lacks b'-' n refl) ∙ ap pos (int_of-decimal n)
read_int-str (negsuc n) = ap negated (int_of-decimal (suc n))
