-- ===== src/Strings.antt =====
-- The functions of `str` that the program uses, over code points: `split`, `starts_with`, `contains`,
-- `trim`, `to_ascii_lowercase`, `lines`, and the parsing of decimal numbers and IPv4 addresses.
pub mod Octets
pub mod Laws
pub mod Utf8
pub mod Split
pub mod Search
pub mod Trim
pub mod Replace
pub mod Lines
use mathlib.Core.Option
use meshlite.Base.{
  ℕ, zero, suc, ◌+◌, ◌-◌, ◌*◌, ◌<◌, Bool, true, false, not, ◌&&◌, ◌||◌, Option, none, some, List,
  [], ◌∷◌, ◌++◌, Text, codes, ltb, leb, ◌==◌, if◌then◌else◌, length, any, ◌>>=◌, Bytes,
}

-- `split(c)` with a character: one piece more than there are separators.
abbrev onto_first : ℕ → List Text → List Text
onto_first x [] = (x ∷ []) ∷ []
onto_first x (piece ∷ pieces) = (x ∷ piece) ∷ pieces

unfoldable pub split : ℕ → Text → List Text
split c [] = [] ∷ []
split c (x ∷ xs) = let rest = split c xs in if x == c then [] ∷ rest else onto_first x rest

unfoldable pub starts_with : Text → Text → Bool
starts_with s [] = true
starts_with [] (p ∷ ps) = false
starts_with (x ∷ s) (p ∷ ps) = x == p && starts_with s ps

-- `contains` with a string
unfoldable pub contains : Text → Text → Bool
contains [] p = starts_with [] p
contains (x ∷ s) p = starts_with (x ∷ s) p || contains s p

unfoldable pub to_ascii_lowercase : Text → Text
to_ascii_lowercase [] = []
to_ascii_lowercase (c ∷ s) = (if leb b'A' c && leb c b'Z' then c + 32 else c) ∷ to_ascii_lowercase s

-- `char::is_whitespace`: White_Space of Unicode
unfoldable pub is_whitespace : ℕ → Bool
is_whitespace c =
    leb 9 c && leb c 13
    || c == 32
    || c == 0x85
    || c == 0xA0
    || c == 0x1680
    || leb 0x2000 c && leb c 0x200A
    || c == 0x2028
    || c == 0x2029
    || c == 0x202F
    || c == 0x205F
    || c == 0x3000

unfoldable pub trim_start : Text → Text
trim_start [] = []
trim_start (c ∷ s) = let rest = trim_start s in if is_whitespace c then rest else c ∷ s

-- A character is dropped when only white space follows it and it is white space itself.
abbrev keep_before : ℕ → Text → Text
keep_before c [] = if is_whitespace c then [] else c ∷ []
keep_before c (d ∷ s) = c ∷ d ∷ s

unfoldable pub trim_end : Text → Text
trim_end [] = []
trim_end (c ∷ s) = keep_before c (trim_end s)

unfoldable pub trim : Text → Text
unfolding trim_start trim_end
trim s = trim_end (trim_start s)

-- `lines`: pieces ended by a line feed, or by carriage return and line feed; no piece after the last
-- line feed.
abbrev strip_cr : Text → Text
strip_cr [] = []
strip_cr (c ∷ []) = if c == 13 then [] else c ∷ []
strip_cr (c ∷ d ∷ s) = c ∷ strip_cr (d ∷ s)

-- The pieces that end in a line feed lose a carriage return, the last one does not.
abbrev ended_lines : List Text → List Text
ended_lines [] = []
ended_lines (last ∷ []) = elim last [ [] ↦ [] | c ∷ s ↦ (c ∷ s) ∷ [] ]
ended_lines (line ∷ next ∷ rest) = strip_cr line ∷ ended_lines (next ∷ rest)

unfoldable pub lines : Text → List Text
unfolding split
lines s = ended_lines (split 10 s)

unfoldable pub is_digit : ℕ → Bool
is_digit c = leb b'0' c && leb c b'9'

abbrev all_digits : Text → Bool
all_digits [] = true
all_digits (c ∷ s) = is_digit c && all_digits s

abbrev decimal_onto : ℕ → Text → ℕ
decimal_onto n [] = n
decimal_onto n (c ∷ s) = decimal_onto (n * 10 + (c - b'0')) s

abbrev is_nil : Text → Bool
is_nil [] = true
is_nil (_ ∷ _) = false

abbrev leading_zero : Text → Bool
leading_zero (c ∷ d ∷ s) = c == b'0'
leading_zero _ = false

-- One number of an address: one to three digits without a leading zero, at most 255.
unfoldable pub parse_octet : Text → Option ℕ
unfolding is_digit
parse_octet s =
    if is_nil s
      || not (all_digits s)
      || ltb 3 (length s)
      || leading_zero s
      || ltb 255 (decimal_onto 0 s)
    then none
    else some (decimal_onto 0 s)

abbrev four_octets : List Text → Option ℕ
four_octets (a ∷ b ∷ c ∷ d ∷ []) = do
  a' ← parse_octet a
  b' ← parse_octet b
  c' ← parse_octet c
  d' ← parse_octet d
  some (256 * (256 * (256 * a' + b') + c') + d')
four_octets _ = none

-- `parse::<Ipv4Addr>()`
unfoldable pub parse_ipv4 : Text → Option ℕ
unfolding parse_octet split
parse_ipv4 s = four_octets (split b'.' s)

-- `split_whitespace`: the pieces between white space that are not empty.
abbrev nonempty : List Text → List Text
nonempty [] = []
nonempty ([] ∷ pieces) = nonempty pieces
nonempty ((c ∷ s) ∷ pieces) = (c ∷ s) ∷ nonempty pieces

abbrev split_at_spaces : Text → List Text
split_at_spaces [] = [] ∷ []
split_at_spaces (x ∷ xs) =
    let rest = split_at_spaces xs in if is_whitespace x then [] ∷ rest else onto_first x rest

unfoldable pub split_whitespace : Text → List Text
unfolding is_whitespace
split_whitespace s = nonempty (split_at_spaces s)

-- `parse::<u16>()`: digits with a plus sign before them at most.
abbrev strip_plus : Text → Text
strip_plus [] = []
strip_plus (c ∷ s) = if c == b'+' then s else c ∷ s

unfoldable pub parse_u16 : Text → Option ℕ
unfolding is_digit
parse_u16 s =
    let digits = strip_plus s in
    if is_nil digits || not (all_digits digits) || ltb 65535 (decimal_onto 0 digits)
    then none
    else some (decimal_onto 0 digits)

-- `windows(n).position(|w| w == p)`: where a nonempty pattern first stands.
unfoldable pub position : Bytes → Bytes → Option ℕ
position p [] = none
position p (x ∷ s) =
    let later = position p s in if starts_with (x ∷ s) p then some 0 else Option.map suc later

-- `strip_prefix`
unfoldable pub strip_prefix : Text → Text → Option Text
strip_prefix [] s = some s
strip_prefix (p ∷ ps) [] = none
strip_prefix (p ∷ ps) (x ∷ s) = let rest = strip_prefix ps s in if x == p then rest else none

-- `trim_end_matches` of a character
abbrev pub keep_unless : ℕ → ℕ → Text → Text
keep_unless c x [] = if x == c then [] else x ∷ []
keep_unless c x (d ∷ s) = x ∷ d ∷ s

unfoldable pub trim_end_matches : ℕ → Text → Text
trim_end_matches c [] = []
trim_end_matches c (x ∷ s) = keep_unless c x (trim_end_matches c s)

-- `replace` of a nonempty pattern, from the left: `skip` characters of a match are still to be passed.
abbrev replace_step : Bool → Text → ℕ → Text → Text
replace_step true to x rest = to ++ rest
replace_step false to x rest = x ∷ rest

replace_from : Text → Text → ℕ → Text → Text
replace_from pattern to skip [] = []
replace_from pattern to (suc skip) (x ∷ s) = replace_from pattern to skip s
replace_from pattern to zero (x ∷ s) =
    let found = starts_with (x ∷ s) pattern in
    let rest = replace_from pattern to (if found then length pattern - 1 else 0) s in
    replace_step found to x rest

unfoldable pub replace : Text → Text → Text → Text
unfolding replace_from
replace s pattern to = replace_from pattern to 0 s
