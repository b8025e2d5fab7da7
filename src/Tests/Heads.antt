-- ===== src/Tests/Heads.antt =====
-- The head of a request, printed and read: conduit/src/egress.rs.
use meshlite.Base.{
  ◌≡◌, refl, false, not, ◌&&◌, some, List, [], ◌∷◌, ◌++◌, arith, Text, codes, All, any, ltb,
}
use meshlite.Strings.{starts_with, to_ascii_lowercase}
use meshlite.Strings.Lines.{IsVisible}
use meshlite.Conduit.Host.{extract_host}
use meshlite.Conduit.Host.Request.{IsAscii, IsOther, printed, extract_host-printed}

checked-IsVisible : (s : Text) → any (λ c. not (ltb 32 c && ltb c 127)) s ≡ false → All IsVisible s
checked-IsVisible [] h = tt
checked-IsVisible (c ∷ s) h = (ground arith, checked-IsVisible s (ground arith))

checked-IsAscii : (s : Text) → any (λ c. not (ltb c 128)) s ≡ false → All IsAscii s
checked-IsAscii [] h = tt
checked-IsAscii (c ∷ s) h = (ground arith, checked-IsAscii s (ground arith))

abbrev before : List Text
before = codes "GET / HTTP/1.1" ∷ codes "User-Agent: curl" ∷ []

before_others : All IsOther before
unfolding starts_with to_ascii_lowercase
before_others = (
  (checked-IsAscii (codes "GET / HTTP/1.1") refl, refl, refl),
  ((checked-IsAscii (codes "User-Agent: curl") refl, refl, refl), tt),
)

abbrev host : Text
host = codes "ervice-beta"

abbrev port : Text
port = codes ":8080"

abbrev rest : Text
rest = codes "Accept: */*\r\n\r\n"

extract_host-printed_example :
    extract_host (printed before ((b's' ∷ host) ++ port) rest) ≡ some (codes "service-beta")
extract_host-printed_example =
    extract_host-printed before b's' host port rest before_others
      (checked-IsVisible ((b's' ∷ host) ++ port) refl) refl refl (checked-IsAscii rest refl)
