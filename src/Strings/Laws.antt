-- ===== src/Strings/Laws.antt =====
-- Facts about the functions of `str`.
use meshlite.Base.{ℕ, ◌+◌, ◌*◌, ◌<◌, ◌≡◌, Option, none, some, List, [], ◌∷◌, arith, Text, ◌>>=◌}
use meshlite.Strings.{split, parse_octet, parse_ipv4, four_octets}

-- An optional number is a byte.
abbrev Octet : Option ℕ → Type 0
Octet none = Unit
Octet (some n) = n < 256

parse_octet-Octet : (s : Text) → Octet (parse_octet s)
unfolding parse_octet
parse_octet-Octet s = ground arith

join_octets : Option ℕ → Option ℕ → Option ℕ → Option ℕ → Option ℕ
join_octets a b c d = do
  a' ← a
  b' ← b
  c' ← c
  d' ← d
  some (256 * (256 * (256 * a' + b') + c') + d')

join_octets-lt :
    (a b c d : Option ℕ) {n : ℕ}
    → Octet a
    → Octet b
    → Octet c
    → Octet d
    → join_octets a b c d ≡ some n
    → n < 4294967296
unfolding join_octets
join_octets-lt (some a) (some b) (some c) (some d) ha hb hc hd h = ground arith
join_octets-lt _ _ _ _ ha hb hc hd h = cc

four_octets-lt : (ps : List Text) {n : ℕ} → four_octets ps ≡ some n → n < 4294967296
unfolding join_octets
four_octets-lt (a ∷ b ∷ c ∷ d ∷ []) h =
    join_octets-lt (parse_octet a) (parse_octet b) (parse_octet c) (parse_octet d)
      (parse_octet-Octet a) (parse_octet-Octet b) (parse_octet-Octet c) (parse_octet-Octet d) h
four_octets-lt _ h = cc

-- A parsed address has 32 bits.
pub parse_ipv4-lt : (s : Text) {n : ℕ} → parse_ipv4 s ≡ some n → n < 4294967296
unfolding parse_ipv4
parse_ipv4-lt s h = four_octets-lt (split b'.' s) h
