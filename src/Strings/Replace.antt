-- ===== src/Strings/Replace.antt =====
-- `replace` of a pattern whose first character stands at one place of the string.
use meshlite.Base.{
  ℕ, zero, suc, ◌≡◌, refl, sym, ap, ◌∙◌, inl, inr, false, [], ◌∷◌, ◌++◌, arith, Text, if◌then◌else◌,
  length, drop, Bool-cases,
}
use mathlib.Core.List.{append-nil}
use meshlite.Strings.{starts_with, replace, replace_from}
use meshlite.Strings.Split.{has}

-- Up to the first character of the pattern, the string stays.
replace_from-append :
    (c : ℕ) (pattern to s t : Text)
    → has c s ≡ false
    → replace_from (c ∷ pattern) to 0 (s ++ t) ≡ s ++ replace_from (c ∷ pattern) to 0 t
unfolding replace_from starts_with
replace_from-append c pattern to [] t h = refl
replace_from-append c pattern to (x ∷ s) t h = ground (arith, replace_from-append c pattern to s t)

replace_from-absent :
    (c : ℕ) (pattern to s : Text) → has c s ≡ false → replace_from (c ∷ pattern) to 0 s ≡ s
unfolding replace_from
replace_from-absent c pattern to s h =
    ap (λ x. replace_from (c ∷ pattern) to 0 x) (sym (append-nil s))
    ∙ replace_from-append c pattern to s [] h
    ∙ append-nil s

replace_from-drop :
    (pattern to : Text) (n : ℕ) (s : Text)
    → replace_from pattern to n s ≡ replace_from pattern to 0 (drop n s)
unfolding replace_from
replace_from-drop pattern to zero s = refl
replace_from-drop pattern to (suc n) [] = refl
replace_from-drop pattern to (suc n) (x ∷ s) = replace_from-drop pattern to n s

has-drop : (c n : ℕ) (s : Text) → has c s ≡ false → has c (drop n s) ≡ false
has-drop c zero s h = h
has-drop c (suc n) [] h = refl
has-drop c (suc n) (x ∷ s) h = has-drop c n s (ground arith)

-- A pattern whose first character stands at one place of the string is replaced there, if it is there,
-- and nowhere else.
pub replace-append :
    (c : ℕ) (pattern to s t : Text)
    → has c s ≡ false
    → has c t ≡ false
    → replace (s ++ c ∷ t) (c ∷ pattern) to
      ≡ s ++ (if starts_with t pattern then to ++ drop (length pattern) t else c ∷ t)
unfolding replace replace_from starts_with
replace-append c pattern to s t h k =
    replace_from-append c pattern to s (c ∷ t) h ∙ elim (Bool-cases (starts_with t pattern)) [
      | inl found ↦
          let after =
            replace_from-drop (c ∷ pattern) to (length pattern) t
            ∙ replace_from-absent c pattern to (drop (length pattern) t)
                (has-drop c (length pattern) t k) in
          ground (arith, after)
      | inr absent ↦ ground (arith, replace_from-absent c pattern to t k)
    ]
