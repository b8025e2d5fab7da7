-- ===== src/Classifier/Fields.antt =====
-- The fields of a packet as numbers, and the loads of kprobe/kprobe-ebpf/src/main.rs in terms of them.
use mathlib.Core.Option
use meshlite.Base.{
  ℕ, ◌+◌, ◌*◌, ◌<◌, ◌≡◌, ap, sym, ◌⊎◌, inl, inr, Option, none, some, arith, ◌>>=◌, Bytes, All,
  get_elem?, Option-cases,
}
use meshlite.Word.{Endian, to_be16, to_be32, to_be16-word16, to_be32-word32}
use meshlite.Classifier.Frame.{read16, read32, get_elem?-lt}

-- Numbers in a packet stand highest byte first.
abbrev pub host16 : Bytes → ℕ → Option ℕ
host16 bytes i = do a ← get_elem? bytes i; b ← get_elem? bytes (i + 1); some (256 * a + b)

abbrev pub host32 : Bytes → ℕ → Option ℕ
host32 bytes i = do
  a ← get_elem? bytes i
  b ← get_elem? bytes (i + 1)
  c ← get_elem? bytes (i + 2)
  d ← get_elem? bytes (i + 3)
  some (256 * (256 * (256 * a + b) + c) + d)

-- A field is missing, or is a number of its width.
abbrev pub Fits : ℕ → Option ℕ → Type 0
Fits bound o = (o ≡ none) ⊎ ((x : ℕ) × (o ≡ some x) × (x < bound))

pub Fits-some : (bound x : ℕ) → Fits bound (some x) → x < bound
Fits-some bound x h = ground arith

module _ (e : Endian) (bytes : Bytes) (octets : All (λ b. b < 256) bytes) where
  pub get_elem?-Fits : (i : ℕ) → Fits 256 (get_elem? bytes i)
  get_elem?-Fits i = elim (Option-cases (get_elem? bytes i)) [
    | inl missing ↦ inl missing
    | inr (x, here) ↦ inr (x, here, get_elem?-lt bytes i octets here)
  ]

  pub host16-Fits :
      (i : ℕ)
      → Fits 65536 (host16 bytes i) × (read16 e bytes i ≡ Option.map (to_be16 e) (host16 bytes i))
  host16-Fits i = go (get_elem?-Fits i) (get_elem?-Fits (i + 1))
    where
      go :
          Fits 256 (get_elem? bytes i)
          → Fits 256 (get_elem? bytes (i + 1))
          → Fits 65536 (host16 bytes i)
            × (read16 e bytes i ≡ Option.map (to_be16 e) (host16 bytes i))
      go (inl p) q = (inl (rw p), rw p)
      go (inr (a, p, ha)) (inl q) = (inl (rw (p, q)), rw (p, q))
      go (inr (a, p, ha)) (inr (b, q, hb)) = (
        inr (256 * a + b, rw (p, q), omega arith),
        rw (p, q) (ap some (sym (to_be16-word16 e a b ha hb))),
      )

  pub host32-Fits :
      (i : ℕ)
      → Fits 4294967296 (host32 bytes i)
        × (read32 e bytes i ≡ Option.map (to_be32 e) (host32 bytes i))
  host32-Fits i =
      go (get_elem?-Fits i) (get_elem?-Fits (i + 1)) (get_elem?-Fits (i + 2))
        (get_elem?-Fits (i + 3))
    where
      go :
          Fits 256 (get_elem? bytes i)
          → Fits 256 (get_elem? bytes (i + 1))
          → Fits 256 (get_elem? bytes (i + 2))
          → Fits 256 (get_elem? bytes (i + 3))
          → Fits 4294967296 (host32 bytes i)
            × (read32 e bytes i ≡ Option.map (to_be32 e) (host32 bytes i))
      go (inl p) q r s = (inl (rw p), rw p)
      go (inr (a, p, ha)) (inl q) r s = (inl (rw (p, q)), rw (p, q))
      go (inr (a, p, ha)) (inr (b, q, hb)) (inl r) s = (inl (rw (p, q, r)), rw (p, q, r))
      go (inr (a, p, ha)) (inr (b, q, hb)) (inr (c, r, hc)) (inl s) =
          (inl (rw (p, q, r, s)), rw (p, q, r, s))
      go (inr (a, p, ha)) (inr (b, q, hb)) (inr (c, r, hc)) (inr (d, s, hd)) = (
        inr (256 * (256 * (256 * a + b) + c) + d, rw (p, q, r, s), omega arith),
        rw (p, q, r, s) (ap some (sym (to_be32-word32 e a b c d ha hb hc hd))),
      )
