-- ===== src/Strings/Trim.antt =====
-- `trim_end_matches` at a character, and the first piece of a `split` after it.
use meshlite.Base.{
  ℕ, ◌≡◌, ◌≢◌, refl, true, false, some, List, [], ◌∷◌, ◌++◌, arith, Text, if◌then◌else◌, head?,
  ◌==◌,
}
use mathlib.Core.List.{append-nil}
use meshlite.Strings.{split, onto_first, trim_end_matches, keep_unless}
use meshlite.Strings.Split.{has, split-whole}

-- Nothing, or something that the character starts.
abbrev pub IsTail : ℕ → Text → Type 0
IsTail c [] = Unit
IsTail c (x ∷ s) = x ≡ c

keep_unless-some : (c x : ℕ) (s : Text) → s ≢ [] → keep_unless c x s ≡ x ∷ s
keep_unless-some c x [] n = absurd (n refl)
keep_unless-some c x (d ∷ s) n = refl

cons-ne-nil : (x : ℕ) (s : Text) → (x ∷ s) ≢ []
cons-ne-nil x s e = cc

append-ne-nil : (s t : Text) → t ≢ [] → s ++ t ≢ []
append-ne-nil [] t n e = n e
append-ne-nil (x ∷ s) t n e = cc

pub trim-append :
    (c : ℕ) (s t : Text)
    → trim_end_matches c t ≢ []
    → trim_end_matches c (s ++ t) ≡ s ++ trim_end_matches c t
unfolding trim_end_matches
trim-append c [] t n = refl
trim-append c (x ∷ s) t n =
    let rest = trim-append c s t n in
    rw rest
      (keep_unless-some c x (s ++ trim_end_matches c t) (append-ne-nil s (trim_end_matches c t) n))

-- What has none of the character in it stays, and what follows is trimmed.
pub trim-append_clean :
    (c x : ℕ) (s t : Text)
    → has c (x ∷ s) ≡ false
    → trim_end_matches c ((x ∷ s) ++ t) ≡ (x ∷ s) ++ trim_end_matches c t
unfolding trim_end_matches
trim-append_clean c x [] t h = go (trim_end_matches c t)
  where
    go : (r : Text) → keep_unless c x r ≡ x ∷ r
    go [] = ground arith
    go (d ∷ r) = refl
trim-append_clean c x (y ∷ s) t h = rw (trim-append_clean c y s t (ground arith)) refl

pub trim-IsTail : (c : ℕ) (s : Text) → IsTail c s → IsTail c (trim_end_matches c s)
unfolding trim_end_matches
trim-IsTail c [] h = tt
trim-IsTail c (x ∷ s) h = go (trim_end_matches c s)
  where
    go : (r : Text) → IsTail c (keep_unless c x r)
    go [] = let same : (x == c) ≡ true = ground arith in rw same tt
    go (d ∷ r) = h

head-split-append_tail :
    (c : ℕ) (s t : Text) → has c s ≡ false → head? (split c (s ++ c ∷ t)) ≡ some s
unfolding split
head-split-append_tail c [] t h = let same : (c == c) ≡ true = ground arith in rw same refl
head-split-append_tail c (x ∷ s) t h =
    go (split c (s ++ c ∷ t)) (head-split-append_tail c s t (ground arith))
  where
    go :
        (ps : List Text)
        → head? ps ≡ some s
        → head? (if x == c then [] ∷ ps else onto_first x ps) ≡ some (x ∷ s)
    go [] e = cc
    go (p ∷ ps) e = ground arith

pub head-split-append :
    (c : ℕ) (s t : Text) → has c s ≡ false → IsTail c t → head? (split c (s ++ t)) ≡ some s
head-split-append c s [] h k = rw (append-nil s, split-whole c s h) refl
head-split-append c s (x ∷ t) h k = rw k (head-split-append_tail c s t h)
