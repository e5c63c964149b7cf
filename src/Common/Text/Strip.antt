-- ===== src/Common/Text/Strip.antt =====
-- Facts about `strip`, and about characters that a text does not have.
use tinyray.Common.Tests.{Bool-cases}
use tinyray.Common.Lists.{any}
use Prim.Native.Nat.{ℕ}
use mathlib.Core.Path.{◌≡◌, refl, ap, ◌∙◌}
use mathlib.Core.Logic.{inl, inr}
use mathlib.Core.Bool.{false}
use mathlib.Core.List.{[], ◌∷◌, ◌++◌}
use native.Mathlib.Omega.{arith}
use tinyray.Common.Text.{
  Text, is_space, lstrip, rstrip, strip, keep_before, has, contains, starts_with, codes,
}

rstrip-keep_before : (c : ℕ) (r : Text) → rstrip r ≡ r → rstrip (keep_before c r) ≡ keep_before c r
unfolding rstrip
rstrip-keep_before c [] h = elim (Bool-cases (is_space c)) [ inl e ↦ rw e | inr e ↦ rw e (rw e) ]
rstrip-keep_before c (x ∷ s) h = ap (keep_before c) h

rstrip_idem : (s : Text) → rstrip (rstrip s) ≡ rstrip s
unfolding rstrip
rstrip_idem [] = refl
rstrip_idem (c ∷ s) = rstrip-keep_before c (rstrip s) (rstrip_idem s)

lstrip-keep_before :
    (c : ℕ) (r : Text) → is_space c ≡ false → lstrip (keep_before c r) ≡ keep_before c r
unfolding lstrip
lstrip-keep_before c [] h = rw h (rw h)
lstrip-keep_before c (x ∷ s) h = rw h

lstrip-rstrip-lstrip : (s : Text) → lstrip (rstrip (lstrip s)) ≡ rstrip (lstrip s)
unfolding lstrip rstrip
lstrip-rstrip-lstrip [] = refl
lstrip-rstrip-lstrip (c ∷ s) = elim (Bool-cases (is_space c)) [
  | inl e ↦ rw e (lstrip-rstrip-lstrip s)
  | inr e ↦ rw e (unfold lstrip in lstrip-keep_before c (rstrip s) e)
]

-- Stripping twice is stripping once.
pub strip_idem : (s : Text) → strip (strip s) ≡ strip s
unfolding strip
strip_idem s = ap rstrip (lstrip-rstrip-lstrip s) ∙ rstrip_idem (lstrip s)

lstrip_head : (x : Text) (c : ℕ) (s : Text) → lstrip x ≡ c ∷ s → is_space c ≡ false
unfolding lstrip
lstrip_head [] c s h = cc
lstrip_head (d ∷ x) c s h = elim (Bool-cases (is_space d)) [
  | inl e ↦ lstrip_head x c s (ground arith)
  | inr e ↦ ground arith
]

-- A stripped text begins with no space.
pub strip_head : (x : Text) (c : ℕ) (s : Text) → strip x ≡ c ∷ s → is_space c ≡ false
unfolding strip rstrip
strip_head x c s h = go (lstrip x) refl h
  where
    go : (l : Text) → lstrip x ≡ l → rstrip l ≡ c ∷ s → is_space c ≡ false
    go [] e k = cc
    go (d ∷ l) e k =
        let first : is_space d ≡ false = lstrip_head x d l e in
        let same : d ≡ c = kept d (rstrip l) first k in cc
      where
        kept : (d : ℕ) (r : Text) → is_space d ≡ false → keep_before d r ≡ c ∷ s → d ≡ c
        kept d [] first k = ground arith
        kept d (y ∷ r) first k = cc

lstrip-solid : (c : ℕ) (s : Text) → is_space c ≡ false → lstrip (c ∷ s) ≡ c ∷ s
unfolding lstrip
lstrip-solid c s h = rw h

rstrip-solid : (s : Text) → any is_space s ≡ false → rstrip s ≡ s
unfolding rstrip
rstrip-solid [] h = refl
rstrip-solid (c ∷ []) h = ground arith
rstrip-solid (c ∷ d ∷ s) h = ap (keep_before c) (rstrip-solid (d ∷ s) (ground arith))

rstrip-append :
    (s : Text) (c : ℕ) (t : Text) → rstrip (c ∷ t) ≡ c ∷ t → rstrip (s ++ c ∷ t) ≡ s ++ c ∷ t
unfolding rstrip
rstrip-append [] c t h = h
rstrip-append (x ∷ []) c t h = ap (keep_before x) h
rstrip-append (x ∷ y ∷ s) c t h = ap (keep_before x) (rstrip-append (y ∷ s) c t h)

-- A text that begins and ends with no space is not changed by `strip`.
pub strip-append :
    (x : ℕ) (s : Text) (c : ℕ) (t : Text)
    → is_space x ≡ false
    → any is_space (c ∷ t) ≡ false
    → strip (x ∷ s ++ c ∷ t) ≡ x ∷ s ++ c ∷ t
unfolding strip
strip-append x s c t h k =
    ap rstrip (lstrip-solid x (s ++ c ∷ t) h) ∙ rstrip-append (x ∷ s) c t (rstrip-solid (c ∷ t) k)

starts_with-lacks : (s : Text) → has b'/' s ≡ false → starts_with (codes "://") s ≡ false
unfolding starts_with
starts_with-lacks [] h = refl
starts_with-lacks (c ∷ []) h = ground arith
starts_with-lacks (c ∷ d ∷ s) h = ground arith

-- A text with no slash has no `://`.
pub contains-lacks : (s : Text) → has b'/' s ≡ false → contains (codes "://") s ≡ false
unfolding contains
contains-lacks [] h = unfold starts_with in refl
contains-lacks (c ∷ s) h = ground (arith, starts_with-lacks (c ∷ s), contains-lacks s)
