-- ===== src/SigilClient/Address.antt =====
-- `bootstrap_connect` of kprobe/kprobe-userspace/src/sigil_client.rs: the plaintext address of Sigil.
-- Whether the endpoint of tonic accepts it and connects is the `Attempt` of the turn.
use meshlite.Base.{◌≡◌, ap, false, ◌∷◌, ◌++◌, Text, codes, drop, if◌then◌else◌}
use meshlite.Strings.{starts_with, replace}
use meshlite.Strings.Split.{has}
use meshlite.Strings.Replace.{replace-append}

-- `plain_addr`, as a URI.
unfoldable pub bootstrap_uri : Text → Text
bootstrap_uri sigil_addr = codes "http://" ++ replace sigil_addr (codes ":8443") (codes ":8444")

-- For an address of a host and a port, the bootstrap goes to the same host, and to the port that comes
-- from the configured one by putting 8444 for 8443 at its front; a port that does not begin with 8443 is
-- used as it is.
pub bootstrap_uri_lem :
    (host port : Text)
    → has b':' host ≡ false
    → has b':' port ≡ false
    → bootstrap_uri (host ++ b':' ∷ port)
      ≡ codes "http://"
        ++ (host
            ++ (if starts_with port (codes "8443")
                then codes ":8444" ++ drop 4 port
                else b':' ∷ port))
unfolding bootstrap_uri
bootstrap_uri_lem host port h p =
    ap (λ s. codes "http://" ++ s)
      (replace-append b':' (codes "8443") (codes ":8444") host port h p)
