-- ===== src/Classifier/Frame.antt =====
-- What the loads of `TcContext` (aya) are documented to do: read one, two or four bytes of the
-- packet at an offset, in the byte order of the host, or fail where the packet ends.
use meshlite.Base.{
  ℕ, ◌+◌, ◌<◌, ◌≡◌, refl, Option, some, arith, Bytes, All, All-get_elem?, get_elem?, ◌>>=◌,
}
use meshlite.Word.{Endian, word16, word32}
use meshlite.Classifier.{TcContext}

abbrev pub read16 : Endian → Bytes → ℕ → Option ℕ
read16 e bytes i = do a ← get_elem? bytes i; b ← get_elem? bytes (i + 1); some (word16 e a b)

abbrev pub read32 : Endian → Bytes → ℕ → Option ℕ
read32 e bytes i = do
  a ← get_elem? bytes i
  b ← get_elem? bytes (i + 1)
  c ← get_elem? bytes (i + 2)
  d ← get_elem? bytes (i + 3)
  some (word32 e a b c d)

pub record IsFrame (e : Endian) (bytes : Bytes) (ctx : TcContext) : Type 0 where
  pub octets : All (λ b. b < 256) bytes
  pub at8 : (i : ℕ) → ctx.load8 i ≡ get_elem? bytes i
  pub at16 : (i : ℕ) → ctx.load16 i ≡ read16 e bytes i
  pub at32 : (i : ℕ) → ctx.load32 i ≡ read32 e bytes i

-- A context that meets this, for any packet.
abbrev pub frame_context : Endian → Bytes → TcContext
frame_context e bytes = record {
  load8 = get_elem? bytes;
  load16 = read16 e bytes;
  load32 = read32 e bytes;
}

pub frame_context-IsFrame :
    (e : Endian) (bytes : Bytes)
    → All (λ b. b < 256) bytes
    → IsFrame e bytes (frame_context e bytes)
frame_context-IsFrame e bytes h = record {
  octets = h;
  at8 = λ i. refl;
  at16 = λ i. refl;
  at32 = λ i. refl;
}

pub get_elem?-lt :
    (bytes : Bytes) (i : ℕ) {b : ℕ}
    → All (λ b. b < 256) bytes
    → get_elem? bytes i ≡ some b
    → b < 256
get_elem?-lt bytes i h e = let (c, p, q) = All-get_elem? bytes i h e in omega arith
