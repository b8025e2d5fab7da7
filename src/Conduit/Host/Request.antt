-- ===== src/Conduit/Host/Request.antt =====
-- The host that conduit/src/egress.rs and conduit/src/ingress.rs read from a request as a client prints it.
use meshlite.Base.{
  ℕ, ◌<◌, ◌≡◌, refl, ap, ◌∙◌, false, none, some, List, [], ◌∷◌, ◌++◌, arith, Text, codes, All,
  ◌>>=◌,
}
use meshlite.Strings.{starts_with, to_ascii_lowercase, lines}
use meshlite.Strings.Split.{has}
use meshlite.Strings.Trim.{IsTail, head-split-append}
use meshlite.Strings.Lines.{lines-append, IsVisible, trim-visible}
use meshlite.Strings.Utf8.{from_utf8-ascii}
use meshlite.Conduit.Host.{before_colon, host_of_line, first_host, extract_host}

abbrev pub IsAscii : ℕ → Type 0
IsAscii c = c < 128

-- Lines, each ended by carriage return and line feed, before a text.
abbrev printed_lines : List Text → Text → Text
printed_lines [] rest = rest
printed_lines (line ∷ before) rest = line ++ 13 ∷ 10 ∷ printed_lines before rest

-- A head with a line for the host behind the lines `before`: `rest` is the other headers and the body.
abbrev pub printed : List Text → Text → Text → Text
printed before value rest = printed_lines before ((codes "Host: " ++ value) ++ 13 ∷ 10 ∷ rest)

-- A line of ASCII that is not for the host.
abbrev pub IsOther : Text → Type 0
IsOther line =
    All IsAscii line
    × (has 10 line ≡ false)
    × (starts_with (to_ascii_lowercase line) (codes "host:") ≡ false)

All-append : (P : ℕ → Type 0) (s t : Text) → All P s → All P t → All P (s ++ t)
All-append P [] t h k = k
All-append P (c ∷ s) t h k = (h.0, All-append P s t h.1 k)

visible-IsAscii : (s : Text) → All IsVisible s → All IsAscii s
visible-IsAscii [] h = tt
visible-IsAscii (c ∷ s) h = (omega (arith, h.0), visible-IsAscii s h.1)

visible_one_line : (s : Text) → All IsVisible s → has 10 s ≡ false
visible_one_line [] h = refl
visible_one_line (c ∷ s) h = let v = h.0 in let rest = visible_one_line s h.1 in ground arith

before_colon-append :
    (host port : Text)
    → has b':' host ≡ false
    → IsTail b':' port
    → before_colon (host ++ port) ≡ host
before_colon-append host port h k =
    ap (λ o. elim o as (λ x. Text) [ some first ↦ first | none ↦ host ++ port ])
      (head-split-append b':' host port h k)

host_line :
    (x : ℕ) (host port : Text)
    → All IsVisible ((x ∷ host) ++ port)
    → has b':' (x ∷ host) ≡ false
    → IsTail b':' port
    → host_of_line (codes "Host: " ++ ((x ∷ host) ++ port)) ≡ some (x ∷ host)
unfolding host_of_line to_ascii_lowercase starts_with
host_line x host port v h k =
    rw (trim-visible ((x ∷ host) ++ port) v, before_colon-append (x ∷ host) port h k) refl

other_lines_IsAscii :
    (before : List Text) (rest : Text)
    → All IsOther before
    → All IsAscii rest
    → All IsAscii (printed_lines before rest)
other_lines_IsAscii [] rest h k = k
other_lines_IsAscii (line ∷ before) rest h k =
    All-append IsAscii line (13 ∷ 10 ∷ printed_lines before rest) h.0.0
      (omega arith, (omega arith, other_lines_IsAscii before rest h.1 k))

lines-printed_lines :
    (before : List Text) (rest : Text)
    → All IsOther before
    → lines (printed_lines before rest) ≡ before ++ lines rest
lines-printed_lines [] rest h = refl
lines-printed_lines (line ∷ before) rest h =
    lines-append line (printed_lines before rest) h.0.1
    ∙ ap (λ ls. line ∷ ls) (lines-printed_lines before rest h.1)

later_host :
    (before : List Text) (line : Text) (more : List Text) {host : Text}
    → All IsOther before
    → host_of_line line ≡ some host
    → first_host (before ++ line ∷ more) ≡ some host
unfolding first_host host_of_line
later_host [] line more h k = rw k refl
later_host (other ∷ before) line more h k =
    let none_here = h.0.2 in rw none_here (later_host before line more h.1 k)

-- The host is read from the first line `Host: ` of a request, wherever it stands among lines of ASCII that are
-- not for the host: it is what stands before the port, if there is one, provided that both are visible ASCII
-- and the host is not empty and has no colon. What follows may be any ASCII.
pub extract_host-printed :
    (before : List Text) (x : ℕ) (host port rest : Text)
    → All IsOther before
    → All IsVisible ((x ∷ host) ++ port)
    → has b':' (x ∷ host) ≡ false
    → IsTail b':' port
    → All IsAscii rest
    → extract_host (printed before ((x ∷ host) ++ port) rest) ≡ some (x ∷ host)
unfolding extract_host
extract_host-printed before x host port rest others v h k ra =
    let value = (x ∷ host) ++ port in
    let line = codes "Host: " ++ value in
    let ascii_line =
      All-append IsAscii (codes "Host: ") value
        (omega arith, (omega arith, (omega arith, (omega arith, (omega arith, (omega arith, tt))))))
        (visible-IsAscii value v) in
    let tail =
      All-append IsAscii line (13 ∷ 10 ∷ rest) ascii_line (omega arith, (omega arith, ra)) in
    let all = other_lines_IsAscii before (line ++ 13 ∷ 10 ∷ rest) others tail in
    let one = visible_one_line value v in
    let ls =
      lines-printed_lines before (line ++ 13 ∷ 10 ∷ rest) others
      ∙ ap (λ l. before ++ l) (lines-append line rest one) in
    ap (λ o. o >>= (λ text. first_host (lines text)))
      (from_utf8-ascii (printed before value rest) all)
    ∙ ap first_host ls
    ∙ later_host before line (lines rest) others (host_line x host port v h k)
