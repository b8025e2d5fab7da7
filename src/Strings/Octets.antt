-- ===== src/Strings/Octets.antt =====
-- The bounds of what `Ipv4Addr` parses (Strings).
use meshlite.Base.{
  ℕ, ◌<◌, ◌≡◌, Option, none, some, List, [], ◌∷◌, refl, ◌+◌, ◌*◌, ◌>>=◌, arith, Text,
}
use meshlite.Strings.{parse_octet, four_octets, parse_ipv4, split}

parse_octet-lt : (s : Text) (n : ℕ) → parse_octet s ≡ some n → n < 256
unfolding parse_octet
parse_octet-lt s n h = ground arith

from_octets :
    (a b c d : Option ℕ) (ip : ℕ)
    → ((n : ℕ) → a ≡ some n → n < 256)
    → ((n : ℕ) → b ≡ some n → n < 256)
    → ((n : ℕ) → c ≡ some n → n < 256)
    → ((n : ℕ) → d ≡ some n → n < 256)
    → (do a' ← a; b' ← b; c' ← c; d' ← d; some (256 * (256 * (256 * a' + b') + c') + d')) ≡ some ip
    → ip < 4294967296
from_octets (some a) (some b) (some c) (some d) ip p q r s h =
    let a' = p a refl in
    let b' = q b refl in
    let c' = r c refl in
    let d' = s d refl in
    let value : 256 * (256 * (256 * a + b) + c) + d ≡ ip = ground arith in omega arith
from_octets none b c d ip p q r s h = absurd (ground arith)
from_octets (some a) none c d ip p q r s h = absurd (ground arith)
from_octets (some a) (some b) none d ip p q r s h = absurd (ground arith)
from_octets (some a) (some b) (some c) none ip p q r s h = absurd (ground arith)

four_octets-lt : (pieces : List Text) (ip : ℕ) → four_octets pieces ≡ some ip → ip < 4294967296
four_octets-lt (a ∷ b ∷ c ∷ d ∷ []) ip h =
    from_octets (parse_octet a) (parse_octet b) (parse_octet c) (parse_octet d) ip
      (parse_octet-lt a) (parse_octet-lt b) (parse_octet-lt c) (parse_octet-lt d) h
four_octets-lt [] ip h = absurd (ground arith)
four_octets-lt (a ∷ []) ip h = absurd (ground arith)
four_octets-lt (a ∷ b ∷ []) ip h = absurd (ground arith)
four_octets-lt (a ∷ b ∷ c ∷ []) ip h = absurd (ground arith)
four_octets-lt (a ∷ b ∷ c ∷ d ∷ x ∷ pieces) ip h = absurd (ground arith)

pub parse_ipv4-lt : (s : Text) (ip : ℕ) → parse_ipv4 s ≡ some ip → ip < 4294967296
unfolding parse_ipv4
parse_ipv4-lt s ip h = four_octets-lt (split b'.' s) ip h
