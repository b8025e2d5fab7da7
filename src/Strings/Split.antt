-- ===== src/Strings/Split.antt =====
-- `split` at a character: the pieces have no separator in them, and joining two such pieces is undone.
use meshlite.Base.{
  ℕ, ◌≡◌, ◌≢◌, refl, subst, ap, ◌∙◌, Bool, true, false, ◌||◌, some, List, [], ◌∷◌, ◌++◌, arith,
  Text, if◌then◌else◌, head?, any, ◌==◌, some-injective,
}
use meshlite.Strings.{split, onto_first}

-- The character stands in the string.
abbrev pub has : ℕ → Text → Bool
has c = any (λ x. x == c)

pub split-ne-nil : (c : ℕ) (s : Text) → split c s ≢ []
unfolding split
split-ne-nil c [] e = cc
split-ne-nil c (x ∷ s) e = go (split c s) e
  where
    go : (rest : List Text) → (if x == c then [] ∷ rest else onto_first x rest) ≢ []
    go [] e = ground arith
    go (piece ∷ rest) e = ground arith

-- The first piece has no separator in it.
pub head-split :
    (c : ℕ) (s : Text) {piece : Text} → head? (split c s) ≡ some piece → has c piece ≡ false
unfolding split
head-split c [] {piece} e = subst (λ p. has c p ≡ false) (some-injective [] piece e) refl
head-split c (x ∷ s) {piece} e = go (split c s) (λ p h. head-split c s h) e
  where
    go :
        (rest : List Text)
        → ((p : Text) → head? rest ≡ some p → has c p ≡ false)
        → head? (if x == c then [] ∷ rest else onto_first x rest) ≡ some piece
        → has c piece ≡ false
    go [] h e = ground arith
    go (p ∷ rest) h e = ground (arith, h p refl)

-- A string without the separator is one piece.
pub split-whole : (c : ℕ) (s : Text) → has c s ≡ false → split c s ≡ s ∷ []
unfolding split
split-whole c [] h = refl
split-whole c (x ∷ s) h =
    let other : (x == c) ≡ false = ground arith in rw (other, split-whole c s (ground arith)) refl

-- Up to the first separator, the string is the first piece.
pub split-append : (c : ℕ) (s t : Text) → has c s ≡ false → split c (s ++ c ∷ t) ≡ s ∷ split c t
unfolding split
split-append c [] t h = let same : (c == c) ≡ true = ground arith in rw same refl
split-append c (x ∷ s) t h =
    let other : (x == c) ≡ false = ground arith in
    rw (other, split-append c s t (ground arith)) refl

pub split-append_whole :
    (c : ℕ) (s t : Text) → has c s ≡ false → has c t ≡ false → split c (s ++ c ∷ t) ≡ s ∷ t ∷ []
split-append_whole c s t h k = split-append c s t h ∙ ap (λ ps. s ∷ ps) (split-whole c t k)

pub has-append : (c : ℕ) (s t : Text) → has c (s ++ t) ≡ (has c s || has c t)
has-append c [] t = refl
has-append c (x ∷ s) t = ground (arith, has-append c s t)
