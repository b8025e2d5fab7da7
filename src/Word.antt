-- ===== src/Word.antt =====
-- Machine words in memory: the byte order of the host, and `to_be`, `from_be` of `u16` and `u32`.
pub mod Mask
use meshlite.Base.{ℕ, ◌+◌, ◌*◌, ◌/◌, ◌%◌, ◌<◌, ◌≡◌, List, [], ◌∷◌, arith}

pub data Endian : Type 0 where
  little big : Endian

-- `u16::swap_bytes`, `u32::swap_bytes`
abbrev swap16 : ℕ → ℕ
swap16 x = x % 256 * 256 + x / 256 % 256

abbrev swap32 : ℕ → ℕ
swap32 x = ((x % 256 * 256 + x / 256 % 256) * 256 + x / 65536 % 256) * 256 + x / 16777216 % 256

abbrev pub to_be16 : Endian → ℕ → ℕ
to_be16 little x = swap16 x
to_be16 big x = x

abbrev pub to_be32 : Endian → ℕ → ℕ
to_be32 little x = swap32 x
to_be32 big x = x

-- the same exchange of bytes
abbrev pub from_be16 : Endian → ℕ → ℕ
from_be16 = to_be16

abbrev pub from_be32 : Endian → ℕ → ℕ
from_be32 = to_be32

-- The word that the host reads from consecutive bytes of memory.
abbrev pub word16 : Endian → ℕ → ℕ → ℕ
word16 little a b = a + 256 * b
word16 big a b = 256 * a + b

abbrev pub word32 : Endian → ℕ → ℕ → ℕ → ℕ → ℕ
word32 little a b c d = a + 256 * (b + 256 * (c + 256 * d))
word32 big a b c d = 256 * (256 * (256 * a + b) + c) + d

-- The bytes of a word in memory.
abbrev pub bytes16 : Endian → ℕ → List ℕ
bytes16 little x = x % 256 ∷ x / 256 % 256 ∷ []
bytes16 big x = x / 256 % 256 ∷ x % 256 ∷ []

abbrev pub bytes32 : Endian → ℕ → List ℕ
bytes32 little x = x % 256 ∷ x / 256 % 256 ∷ x / 65536 % 256 ∷ x / 16777216 % 256 ∷ []
bytes32 big x = x / 16777216 % 256 ∷ x / 65536 % 256 ∷ x / 256 % 256 ∷ x % 256 ∷ []

-- `to_be` of a number has in memory the bytes of the number, highest first.
pub to_be32-word32 :
    (e : Endian) (a b c d : ℕ)
    → a < 256
    → b < 256
    → c < 256
    → d < 256
    → to_be32 e (256 * (256 * (256 * a + b) + c) + d) ≡ word32 e a b c d
to_be32-word32 little a b c d ha hb hc hd = omega arith
to_be32-word32 big a b c d ha hb hc hd = omega arith

pub to_be16-word16 :
    (e : Endian) (a b : ℕ) → a < 256 → b < 256 → to_be16 e (256 * a + b) ≡ word16 e a b
to_be16-word16 little a b ha hb = omega arith
to_be16-word16 big a b ha hb = omega arith

pub from_be16-to_be16 : (e : Endian) (x : ℕ) → x < 65536 → from_be16 e (to_be16 e x) ≡ x
from_be16-to_be16 little x h = omega arith
from_be16-to_be16 big x h = omega arith

pub from_be32-to_be32 : (e : Endian) (x : ℕ) → x < 4294967296 → from_be32 e (to_be32 e x) ≡ x
from_be32-to_be32 little x h = omega arith
from_be32-to_be32 big x h = omega arith
