-- ===== src/Strings/Search.antt =====
-- `contains` of a string that is joined from parts.
use meshlite.Base.{◌≡◌, true, [], ◌∷◌, ◌++◌, arith, Text}
use meshlite.Strings.{starts_with, contains}

starts_with-append : (s t p : Text) → starts_with s p ≡ true → starts_with (s ++ t) p ≡ true
unfolding starts_with
starts_with-append s t [] h = ground arith
starts_with-append [] t (c ∷ p) h = cc
starts_with-append (x ∷ s) t (c ∷ p) h = ground (arith, starts_with-append s t p)

pub contains_left : (s t p : Text) → contains s p ≡ true → contains (s ++ t) p ≡ true
unfolding contains
contains_left [] [] p h = h
contains_left [] (y ∷ t) p h = ground (arith, starts_with-append [] (y ∷ t) p h)
contains_left (x ∷ s) t p h = ground (arith, starts_with-append (x ∷ s) t p, contains_left s t p)

pub contains_right : (s t p : Text) → contains t p ≡ true → contains (s ++ t) p ≡ true
unfolding contains
contains_right [] t p h = h
contains_right (x ∷ s) t p h = ground (arith, contains_right s t p h)
