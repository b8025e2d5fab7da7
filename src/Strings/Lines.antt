-- ===== src/Strings/Lines.antt =====
-- `lines` and `trim` on text that a program printed.
use meshlite.Base.{
  ℕ, ◌<◌, ◌≡◌, ◌≢◌, refl, sym, ap, ◌∙◌, true, false, List, [], ◌∷◌, ◌++◌, append_assoc, arith, Text,
  All,
}
use meshlite.Strings.{
  split, lines, ended_lines, strip_cr, trim, trim_start, trim_end, keep_before, is_whitespace,
}
use meshlite.Strings.Split.{has, split-ne-nil, split-append, has-append}

strip_cr-append : (s : Text) → strip_cr (s ++ 13 ∷ []) ≡ s
strip_cr-append [] = refl
strip_cr-append (c ∷ []) = refl
strip_cr-append (c ∷ d ∷ s) = ap (λ t. c ∷ t) (strip_cr-append (d ∷ s))

-- A line that is ended by carriage return and line feed.
pub lines-append : (s rest : Text) → has 10 s ≡ false → lines (s ++ 13 ∷ 10 ∷ rest) ≡ s ∷ lines rest
unfolding lines
lines-append s rest h =
    ap (λ t. ended_lines (split 10 t)) (sym (append_assoc s (13 ∷ []) (10 ∷ rest)))
    ∙ ap ended_lines (split-append 10 (s ++ 13 ∷ []) rest (has-append 10 s (13 ∷ []) ∙ rw h refl))
    ∙ go (split 10 rest) (split-ne-nil 10 rest)
  where
    go :
        (pieces : List Text)
        → pieces ≢ []
        → ended_lines ((s ++ 13 ∷ []) ∷ pieces) ≡ s ∷ ended_lines pieces
    go [] n = absurd (n refl)
    go (p ∷ pieces) n = ap (λ t. t ∷ ended_lines (p ∷ pieces)) (strip_cr-append s)

-- The printable characters of ASCII, less the space.
abbrev pub IsVisible : ℕ → Type 0
IsVisible c = (32 < c) × (c < 127)

visible_no_space : (c : ℕ) → IsVisible c → is_whitespace c ≡ false
unfolding is_whitespace
visible_no_space c v = ground arith

trim_end-visible : (s : Text) → All IsVisible s → trim_end s ≡ s
unfolding trim_end
trim_end-visible [] h = refl
trim_end-visible (c ∷ s) h = rw (trim_end-visible s h.1) (go s)
  where
    go : (t : Text) → keep_before c t ≡ c ∷ t
    go [] = rw (visible_no_space c h.0) refl
    go (d ∷ t) = refl

space_is_whitespace : is_whitespace 32 ≡ true
unfolding is_whitespace
space_is_whitespace = refl

trim_start-visible : (s : Text) → All IsVisible s → trim_start s ≡ s
unfolding trim_start
trim_start-visible [] h = refl
trim_start-visible (c ∷ s) h = rw (visible_no_space c h.0) refl

trim_start-space : (s : Text) → trim_start (32 ∷ s) ≡ trim_start s
unfolding trim_start
trim_start-space s = rw space_is_whitespace refl

-- `trim` takes the space off that is put before a visible text.
pub trim-visible : (s : Text) → All IsVisible s → trim (32 ∷ s) ≡ s
unfolding trim
trim-visible s h = ap trim_end (trim_start-space s ∙ trim_start-visible s h) ∙ trim_end-visible s h
