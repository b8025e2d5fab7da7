-- ===== src/Conduit/ClusterClient.antt =====
-- conduit/src/cluster_client.rs: enrolment, and the policy that is polled from Sigil. TCP is a function
-- from the request to what is read until the end; the two JSON parsers (serde) are parameters. The
-- contexts that anyhow puts before the text of an error are left out.
pub mod Body
use mathlib.Core.Option
use meshlite.Base.{
  ℕ, ◌+◌, Bool, true, false, not, Option, none, some, List, [], ◌∷◌, ◌++◌, map, Text, Bytes, codes,
  if◌then◌else◌, length, take, drop, head?,
}
use meshlite.Strings.{position, contains, trim, split}
use meshlite.Strings.Utf8.{from_utf8}
use meshlite.CertStore
use meshlite.CertStore.{CertStore}
use meshlite.PolicyCache
use meshlite.PolicyCache.{PolicyCache, AllowRule}
use meshlite.Conduit.{Result, ok, err}
use meshlite.Results.{◌>>=◌}

pub record EnrollResponse : Type 0 where
  pub cert_pem : Bytes
  pub key_pem : Bytes
  pub root_ca_pem : Bytes

unfoldable pub apply_enroll : CertStore → EnrollResponse → Text → CertStore
apply_enroll store resp cluster_id =
    CertStore.update store cluster_id resp.cert_pem resp.root_ca_pem resp.key_pem

pub record RemoteRule : Type 0 where
  pub from : Text
  pub to : List Text

pub record PolicyResponse : Type 0 where
  pub mtls_mode : Text
  pub default_allow : Bool
  pub rules : List RemoteRule

pub record PolicySnapshot : Type 0 where
  pub mtls_mode : Text
  pub default_allow : Bool
  pub rules : List AllowRule

abbrev pub crlf2 : Bytes
crlf2 = codes "\r\n\r\n"

abbrev pub lf2 : Bytes
lf2 = codes "\n\n"

-- Where the body starts.
unfoldable pub separator : Bytes → Option ℕ
separator raw = elim (position crlf2 raw) [
  | some p ↦ some (p + 4)
  | none ↦ Option.map (λ p. p + 2) (position lf2 raw)
]

abbrev up_to_newline : Bytes → Bytes
up_to_newline raw = elim (position (codes "\n") raw) [ some p ↦ take p raw | none ↦ raw ]

unfoldable pub status_line : Bytes → Text
status_line raw = trim (elim (from_utf8 (up_to_newline raw)) [ some line ↦ line | none ↦ [] ])

abbrev checked : Bytes → Option ℕ → Result Bytes
checked raw none = err (codes "HTTP response has no header terminator")
checked raw (some sep) =
    if not (contains (status_line raw) (codes "200"))
    then err (codes "HTTP error: " ++ status_line raw)
    else ok (drop sep raw)

unfoldable pub extract_body : Bytes → Result Bytes
extract_body raw = checked raw (separator raw)

abbrev host_of : Text → Text
host_of addr = elim (head? (split b':' addr)) [ some host ↦ host | none ↦ addr ]

-- What a connection to an address reads until the end, given the bytes written.
abbrev pub Tcp : Type 0
Tcp = Text → Bytes → Result Bytes

unfoldable pub http_get : Tcp → Text → Text → Result Bytes
http_get tcp addr path = do
  buf ← tcp addr (
      codes "GET "
      ++ path
      ++ codes " HTTP/1.1\r\nHost: "
      ++ host_of addr
      ++ codes "\r\nConnection: close\r\n\r\n")
  extract_body buf

-- `body.len()` is given in decimal.
unfoldable pub http_post : (ℕ → Text) → Tcp → Text → Text → Bytes → Result Bytes
http_post decimal tcp addr path body = do
  buf ← tcp addr (
      codes "POST "
      ++ path
      ++ codes " HTTP/1.1\r\nHost: "
      ++ host_of addr
      ++ codes "\r\nContent-Type: application/json\r\nContent-Length: "
      ++ decimal (length body)
      ++ codes "\r\nConnection: close\r\n\r\n"
      ++ body)
  extract_body buf

unfoldable pub enroll :
    (Bytes → Result EnrollResponse) → (ℕ → Text) → Tcp → Text → Text → Result EnrollResponse
enroll parse decimal tcp sigil_http_addr cluster_id = do
  response_bytes ←
      http_post decimal tcp sigil_http_addr (codes "/api/v1/enroll-cluster")
        (codes "{\"cluster_id\":\"" ++ cluster_id ++ codes "\"}")
  parse response_bytes

abbrev pub to_rule : RemoteRule → AllowRule
to_rule r = record { from_service = r.from; to_services = r.to }

abbrev pub to_snapshot : PolicyResponse → PolicySnapshot
to_snapshot resp = record {
  mtls_mode = resp.mtls_mode;
  default_allow = resp.default_allow;
  rules = map to_rule resp.rules;
}

module _ (parse : Bytes → Result PolicyResponse) where
  unfoldable pub fetch_policy : Tcp → Text → Result PolicySnapshot
  fetch_policy tcp sigil_http_addr = do
    bytes ← http_get tcp sigil_http_addr (codes "/api/v1/policy")
    resp ← parse bytes
    ok (to_snapshot resp)

  abbrev pub apply_fetched : Result PolicySnapshot → PolicyCache → PolicyCache
  apply_fetched (ok snap) cache =
      PolicyCache.update cache snap.rules snap.default_allow snap.mtls_mode
  apply_fetched (err e) cache = cache

  -- The loop of `start_policy_poll`: each tick meets a network of its own.
  unfoldable pub poll : Text → List Tcp → PolicyCache → PolicyCache
  poll sigil_http_addr [] cache = cache
  poll sigil_http_addr (tcp ∷ ticks) cache =
      poll sigil_http_addr ticks (apply_fetched (fetch_policy tcp sigil_http_addr) cache)
