-- ===== src/Endpoint/Agreement.antt =====
-- Addresses where they are advertised and where they are dialled.
use tinyray.Common.{ℕ, [], ◌∷◌, some, true, false, any, any-append, all, ◌≡◌, refl, arith, ◌==◌}
use tinyray.Common.Text.{Text, strip, has, is_space, is_empty, is_digit_code, text_eq_refl}
use tinyray.Common.Text.Strip.{strip_idem, strip_head, strip-append, contains-lacks}
use tinyray.Common.Decimal.{decimal, all-decimal}
use tinyray.Errors.{Exn, Result, ok}
use tinyray.Value.{Value}
use tinyray.Endpoint.{checked_method_endpoint, dialled, advertise, is_bare_break, served_url}

-- An address that `join(url=…)` accepts is one that every caller dials as it stands.
pub dialled-checked_method_endpoint :
    (given endpoint : Text)
    → checked_method_endpoint given ≡ ok endpoint
    → dialled (some endpoint) ≡ ok endpoint
unfolding checked_method_endpoint dialled
dialled-checked_method_endpoint given endpoint h =
    ground (arith, strip_idem given, text_eq_refl endpoint)

digit-tests :
    (s : Text) → all is_digit_code s ≡ true → (any is_space s ≡ false) × (has b'/' s ≡ false)
unfolding is_digit_code is_space
digit-tests [] h = (refl, refl)
digit-tests (c ∷ s) h = ground (arith, digit-tests s)

bare-lacks : (s : Text) → any is_bare_break s ≡ false → has b'/' s ≡ false
bare-lacks [] h = refl
bare-lacks (c ∷ s) h = ground (arith, bare-lacks s)

has-served_url : (host : Text) (port : ℕ) → has b':' (served_url host port) ≡ true
unfolding served_url
has-served_url host port = ground (arith, any-append (λ x. x == b':') host (b':' ∷ decimal port))

served-tests :
    (host : Text) (port : ℕ)
    → any is_bare_break host ≡ false
    → has b'/' (served_url host port) ≡ false
unfolding served_url
served-tests host port h = ground (
  arith,
  any-append (λ x. x == b'/') host (b':' ∷ decimal port),
  bare-lacks host h,
  digit-tests (decimal port) (all-decimal port),
)

strip-served_url :
    (given host : Text) (port : ℕ)
    → strip given ≡ host
    → is_empty host ≡ false
    → strip (served_url host port) ≡ served_url host port
unfolding served_url
strip-served_url given [] port e h = cc
strip-served_url given (c ∷ host) port e h =
    strip-append c host b':' (decimal port) (strip_head given c host e)
      (unfold is_space in (digit-tests (decimal port) (all-decimal port)).0)

-- What a server advertises under TINYRAY_ADVERTISE is dialled as it stands by every caller,
-- whatever port the listener chose.
pub dialled-served_url :
    (c : ℕ) (variable : Text) (probe : Result (Exn Value) Text) (host : Text) (port : ℕ)
    → advertise (some (c ∷ variable)) probe ≡ ok host
    → dialled (some (served_url host port)) ≡ ok (served_url host port)
unfolding advertise dialled
dialled-served_url c variable probe host port h =
    let url = served_url host port in
    ground (
      arith,
      contains-lacks url,
      served-tests host port,
      has-served_url host port,
      strip-served_url (c ∷ variable) host port,
      text_eq_refl url,
      url-not-empty,
    )
  where
    url-not-empty : is_empty (served_url host port) ≡ false
    url-not-empty = not_empty host
      where
        not_empty : (s : Text) → is_empty (served_url s port) ≡ false
        not_empty [] = unfold served_url in refl
        not_empty (x ∷ s) = unfold served_url in refl
