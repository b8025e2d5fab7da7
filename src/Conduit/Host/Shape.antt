-- ===== src/Conduit/Host/Shape.antt =====
-- What a host name that is read from a request looks like.
use meshlite.Base.{
  ◌≡◌, ◌≢◌, refl, subst, inl, inr, false, Option, none, some, List, [], ◌∷◌, Text, Bytes, codes,
  Bool-cases, head?, ◌>>=◌,
}
use meshlite.Strings.{split, starts_with, to_ascii_lowercase, lines}
use meshlite.Strings.Split.{has, split-ne-nil, head-split}
use meshlite.Strings.Utf8.{from_utf8}
use meshlite.Conduit.Host.{nonempty, before_colon, host_of_line, or_else, first_host, extract_host}

-- A name with something in it and no colon.
abbrev pub IsHostName : Text → Type 0
IsHostName h = (h ≢ []) × (has b':' h ≡ false)

abbrev IsHost : Option Text → Type 0
IsHost none = Unit
IsHost (some h) = IsHostName h

before_colon_lem : (value : Text) → has b':' (before_colon value) ≡ false
before_colon_lem value =
    go (split b':' value) (split-ne-nil b':' value) (λ p h. head-split b':' value h)
  where
    go :
        (pieces : List Text)
        → pieces ≢ []
        → ((p : Text) → head? pieces ≡ some p → has b':' p ≡ false)
        → has b':' (elim (head? pieces) [ some host ↦ host | none ↦ value ]) ≡ false
    go [] n h = absurd (n refl)
    go (p ∷ pieces) n h = h p refl

nonempty-IsHost : (s : Text) → has b':' s ≡ false → IsHost (nonempty s)
nonempty-IsHost [] h = tt
nonempty-IsHost (c ∷ s) h = ((λ e. cc), h)

line-IsHost : (line : Text) → IsHost (host_of_line line)
unfolding host_of_line
line-IsHost line = elim (Bool-cases (starts_with (to_ascii_lowercase line) (codes "host:"))) [
  | inl there ↦ rw (there, host_of_line) (nonempty-IsHost _ (before_colon_lem _))
  | inr absent ↦ rw (absent, host_of_line) tt
]

or_else-IsHost : (a b : Option Text) → IsHost a → IsHost b → IsHost (or_else a b)
or_else-IsHost none b h k = k
or_else-IsHost (some a) b h k = h

first-IsHost : (ls : List Text) → IsHost (first_host ls)
unfolding first_host
first-IsHost [] = tt
first-IsHost (line ∷ ls) =
    or_else-IsHost (host_of_line line) (first_host ls) (line-IsHost line) (first-IsHost ls)

extract-IsHost : (raw : Bytes) → IsHost (extract_host raw)
unfolding extract_host
extract-IsHost raw = go (from_utf8 raw)
  where
    go : (text : Option Text) → IsHost (text >>= (λ t. first_host (lines t)))
    go none = tt
    go (some t) = first-IsHost (lines t)

-- A host name read from a request is not empty and has no colon in it.
pub extract_host-IsHostName : (raw : Bytes) {h : Text} → extract_host raw ≡ some h → IsHostName h
extract_host-IsHostName raw {h} e = subst IsHost e (extract-IsHost raw)
