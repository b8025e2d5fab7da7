-- ===== src/Conduit/Host.antt =====
-- What conduit/src/egress.rs and conduit/src/ingress.rs read from the head of a request or a response.
pub mod Shape
pub mod Request
use mathlib.Core.Option
use meshlite.Base.{
  ℕ, Bool, Option, none, some, List, [], ◌∷◌, ◌++◌, Text, Bytes, codes, if◌then◌else◌, length, drop,
  head?, get_elem?, ◌>>=◌,
}
use meshlite.Strings.{
  split, starts_with, trim, to_ascii_lowercase, lines, split_whitespace, parse_u16,
}
use meshlite.Strings.Utf8.{from_utf8}

abbrev nonempty : Text → Option Text
nonempty [] = none
nonempty (c ∷ s) = some (c ∷ s)

-- `split(':').next().unwrap_or(value)`
abbrev pub before_colon : Text → Text
before_colon value = elim (head? (split b':' value)) [ some host ↦ host | none ↦ value ]

-- One turn of the loop of `extract_host`.
unfoldable pub host_of_line : Text → Option Text
host_of_line line =
    if starts_with (to_ascii_lowercase line) (codes "host:")
    then nonempty (before_colon (trim (drop (length (codes "host:")) line)))
    else none

abbrev or_else : Option Text → Option Text → Option Text
or_else (some h) later = some h
or_else none later = later

unfoldable pub first_host : List Text → Option Text
first_host [] = none
first_host (line ∷ rest) = or_else (host_of_line line) (first_host rest)

unfoldable pub extract_host : Bytes → Option Text
extract_host raw = do text ← from_utf8 raw; first_host (lines text)

unfoldable pub extract_status_code : Bytes → Option ℕ
extract_status_code raw = do
  text ← from_utf8 raw
  status_line ← head? (lines text)
  code ← get_elem? (split_whitespace status_line) 1
  parse_u16 code
