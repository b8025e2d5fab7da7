-- ===== src/Strings/Utf8.antt =====
-- `str::from_utf8`: the code points of a byte string, and what it refuses.
use meshlite.Base.{
  ℕ, zero, suc, ◌+◌, ◌-◌, ◌*◌, ◌<◌, ◌≡◌, refl, ◌&&◌, Option, none, some, [], ◌∷◌, Text, Bytes, ltb,
  leb, ◌==◌, if◌then◌else◌, arith, All,
}

-- A character of which `need` bytes are missing; the next is between `low` and `high`.
pub record Pending : Type 0 where
  pub need : ℕ
  pub low : ℕ
  pub high : ℕ
  pub value : ℕ

abbrev pending : ℕ → ℕ → ℕ → ℕ → Pending
pending need low high value = record { need = need; low = low; high = high; value = value }

abbrev between : Pending
between = pending 0 0 0 0

-- The character that a byte ends, if it ends one, and what is missing after it.
abbrev Step : Type 0
Step = Option (Option ℕ × Pending)

abbrev lead : ℕ → Step
lead b =
    if ltb b 0x80
    then some (some b, between)
    else if ltb b 0xC2
    then none
    else if ltb b 0xE0
    then some (none, pending 1 0x80 0xBF (b - 0xC0))
    else if b == 0xE0
    then some (none, pending 2 0xA0 0xBF 0)
    else if b == 0xED
    then some (none, pending 2 0x80 0x9F 0x0D)
    else if ltb b 0xF0
    then some (none, pending 2 0x80 0xBF (b - 0xE0))
    else if b == 0xF0
    then some (none, pending 3 0x90 0xBF 0)
    else if ltb b 0xF4
    then some (none, pending 3 0x80 0xBF (b - 0xF0))
    else if b == 0xF4
    then some (none, pending 3 0x80 0x8F 4)
    else none

abbrev continue : ℕ → ℕ → Step
continue zero value = some (some value, between)
continue (suc n) value = some (none, pending (suc n) 0x80 0xBF value)

abbrev step_at : ℕ → Pending → ℕ → Step
step_at zero p b = lead b
step_at (suc n) p b =
    if leb p.low b && leb b p.high then continue n (p.value * 64 + (b - 0x80)) else none

abbrev step : Pending → ℕ → Step
step p b = step_at p.need p b

abbrev emit : Option ℕ → Option Text → Option Text
emit out none = none
emit none (some s) = some s
emit (some c) (some s) = some (c ∷ s)

abbrev decode : Pending → Bytes → Option Text
decode p [] = if p.need == 0 then some [] else none
decode p (b ∷ bs) = elim (step p b) [ none ↦ none | some (out, q) ↦ emit out (decode q bs) ]

unfoldable pub from_utf8 : Bytes → Option Text
from_utf8 bs = decode between bs

lead_ascii : (b : ℕ) → b < 128 → lead b ≡ some (some b, between)
lead_ascii b h = ground arith

decode-ascii : (s : Bytes) → All (λ b. b < 128) s → decode between s ≡ some s
decode-ascii [] h = refl
decode-ascii (b ∷ s) h = ground (arith, decode-ascii s h.1, lead_ascii b h.0)

-- A byte string of ASCII is its own text.
pub from_utf8-ascii : (s : Bytes) → All (λ b. b < 128) s → from_utf8 s ≡ some s
unfolding from_utf8
from_utf8-ascii s h = decode-ascii s h
