-- ===== src/Tests/Gateway.antt =====
-- The gateway: conduit/src.
use mathlib.Core.List.Permᴰ
use meshlite.Base.{◌≡◌, refl, true, false, some, [], ◌∷◌, ◌++◌, Text, Bytes, codes}
use meshlite.HashMap
use meshlite.HashMap.{Entries, IsIteration}
use meshlite.Strings.{
  is_whitespace, split, starts_with, trim, to_ascii_lowercase, lines, split_whitespace, parse_u16,
  position, contains,
}
use meshlite.Strings.Utf8.{from_utf8}
use meshlite.CertStore
use meshlite.CertStore.{CertStore, StoredCert}
use meshlite.PolicyCache
use meshlite.PolicyCache.{AllowRule, PolicyCache, lists}
use meshlite.Conduit.{Result, ok, err, dial, emit}
use meshlite.Conduit.Host.{extract_host, extract_status_code, host_of_line, first_host}
use meshlite.Conduit.Host.Shape.{IsHostName, extract_host-IsHostName}
use meshlite.Conduit.TlsConfig.{Rustls}
use meshlite.Conduit.Egress
use meshlite.Conduit.Egress.Safety
use meshlite.Conduit.Egress.Reports.{IsReport, handle_connection-IsReport}
use meshlite.Conduit.Ingress
use meshlite.Conduit.Ingress.{backend_addr, serve}
use meshlite.Conduit.Ingress.Backend.{count_records, failed, serve_reports}
use meshlite.Conduit.Ingress.Alerts.{mislabelled, serve_mislabels}
use meshlite.Conduit.ClusterClient.{
  EnrollResponse, PolicyResponse, apply_enroll, crlf2, status_line, separator, extract_body, Tcp,
}
use meshlite.Conduit.ClusterClient.Body.{extract_body-append}

abbrev pub request : Bytes
request = codes "GET / HTTP/1.1\r\nHost: service-beta:8080\r\nAccept: */*\r\n\r\n"

request_host : extract_host request ≡ some (codes "service-beta")
unfolding extract_host from_utf8 lines first_host host_of_line to_ascii_lowercase starts_with trim
    is_whitespace split
request_host = refl

response_status : extract_status_code (codes "HTTP/1.1 503 Unavailable\r\n\r\n") ≡ some 503
unfolding extract_status_code from_utf8 lines split_whitespace parse_u16
response_status = refl

extract_host-IsHostName_example : IsHostName (codes "service-beta")
extract_host-IsHostName_example = extract_host-IsHostName request request_host

abbrev pub plain_rustls : Rustls
plain_rustls = record {
  ServerConfig = Bytes;
  read_certs = λ pem. ok pem ∷ [];
  read_pkcs8_keys = λ pem. ok pem ∷ [];
  read_ec_keys = λ pem. [];
  accepts_root = λ c. ok tt;
  accepts_client = λ leafs key. ok tt;
  build_server = λ roots leafs key. ok key;
  valid_name = λ name. ok tt;
}

abbrev pub in_order : Entries StoredCert → Entries StoredCert
in_order m = m

pub in_order-IsIteration : IsIteration in_order
in_order-IsIteration m = Permᴰ.refl m

abbrev pub enrolled : EnrollResponse
enrolled = record { cert_pem = codes "leaf"; key_pem = codes "key"; root_ca_pem = codes "root" }

abbrev pub store : CertStore
store = apply_enroll CertStore.new enrolled (codes "cluster-1")

abbrev pub open_policy : PolicyCache
open_policy = PolicyCache.new

-- A network on which everything works.
abbrev pub calm : Egress.Network
calm = record {
  read = ok request;
  client_write = ok tt;
  connect = ok tt;
  tls_connect = ok tt;
  upstream_write = ok tt;
  response = ok (codes "HTTP/1.1 200 OK\r\n\r\n");
  copy = ok tt;
  elapsed = 0;
}

handle_connection-IsReport_example :
    IsReport plain_rustls in_order (codes "peer:443") (codes "cluster-1") calm (
      Egress.handle_connection plain_rustls in_order
        (codes "peer:443")
        (codes "cluster-1")
        calm
        store
        open_policy)
handle_connection-IsReport_example =
    handle_connection-IsReport plain_rustls in_order (codes "peer:443") (codes "cluster-1") calm
      store open_policy

abbrev pub suffix : Text
suffix = codes ".meshlite-test.svc.cluster.local"

-- The backend refuses the connection.
abbrev pub refusing : Ingress.Network
refusing = record {
  accept = ok tt;
  read = ok request;
  client_write = ok tt;
  connect = err (codes "connection refused");
  backend_write = ok tt;
  copy = ok tt;
}

serve_reports_example :
    count_records (serve (codes "cluster-2") suffix (codes "8080") refusing)
    ≡ failed (Ingress.handle_connection suffix (codes "8080") refusing).1
serve_reports_example = serve_reports suffix (codes "8080") refusing (codes "cluster-2")

abbrev alert_request : Bytes
alert_request = codes "GET / HTTP/1.1\r\nHost: alert-manager\r\n\r\n"

alert_host : extract_host alert_request ≡ some (codes "alert-manager")
unfolding extract_host from_utf8 lines first_host host_of_line to_ascii_lowercase starts_with trim
    is_whitespace split
alert_host = refl

alert_named : contains (codes "alert-manager") (codes "alert") ≡ true
unfolding contains starts_with
alert_named = refl

serve_mislabels_example :
    serve (codes "cluster-2") suffix (codes "8080") (record refusing { read = ok alert_request })
    ≡ dial (backend_addr suffix (codes "8080") (codes "alert-manager"))
      ∷ emit (
          mislabelled suffix
            (codes "8080")
            (codes "cluster-2")
            (codes "alert-manager")
            (codes "connection refused"))
      ∷ []
serve_mislabels_example =
    serve_mislabels suffix (codes "8080") (record refusing { read = ok alert_request })
      (codes "cluster-2") alert_request (codes "alert-manager") (codes "connection refused") refl
      refl alert_host alert_named refl

abbrev pub head : Bytes
head = codes "HTTP/1.1 200 OK\r\nContent-Type: text/plain"

head_ends : position crlf2 (head ++ crlf2) ≡ some 41
unfolding position starts_with
head_ends = refl

first_line_ends : position (codes "\n") (head ++ crlf2) ≡ some 16
unfolding position starts_with
first_line_ends = refl

head_is_ok : contains (status_line (head ++ crlf2)) (codes "200") ≡ true
unfolding contains status_line trim is_whitespace from_utf8 position starts_with
head_is_ok = refl

extract_body-append_example :
    extract_body ((head ++ crlf2) ++ codes "a\r\n\r\nb") ≡ ok (codes "a\r\n\r\nb")
extract_body-append_example =
    extract_body-append head (codes "a\r\n\r\nb") head_ends first_line_ends head_is_ok

-- The status 500 passes for 200 where its reason mentions the number.
misread_status : extract_body (codes "HTTP/1.1 500 Expected 200\r\n\r\noops") ≡ ok (codes "oops")
unfolding extract_body separator contains status_line trim is_whitespace from_utf8 position
    starts_with
misread_status = refl

abbrev pub empty_policy : Bytes → Result PolicyResponse
empty_policy body = ok (record { mtls_mode = codes "enforce"; default_allow = false; rules = [] })

abbrev pub up : Tcp
up addr sent = ok (head ++ crlf2)

abbrev pub down : Tcp
down addr sent = err (codes "connection refused")
