-- ===== src/Tests/Proxies.antt =====
-- The gateway from its start: conduit/src/main.rs and conduit/src/egress.rs.
use meshlite.Base.{ℕ, ◌≡◌, refl, true, List, [], ◌∷◌, Text, Bytes, codes, str_eq}
use mathlib.Core.List.{Memᴰ}
use meshlite.HashMap
use meshlite.Strings.{
  is_whitespace, split, starts_with, trim, to_ascii_lowercase, lines, position, contains,
}
use meshlite.Strings.Utf8.{from_utf8}
use meshlite.CertStore
use meshlite.CertStore.{first_cert}
use meshlite.PolicyCache.{is_allowed_destination}
use meshlite.Conduit.Ingress
use meshlite.Conduit.Ingress.{backend_addr, serve}
use meshlite.Conduit.Crossing.{IsAllowedBackend, crossing-IsAllowedBackend}
use meshlite.Conduit.{Result, ok, dial, to_peer}
use meshlite.Conduit.Host.{extract_host, extract_status_code, host_of_line, first_host}
use meshlite.Conduit.TlsConfig.{client_config, load_certs, load_key, root_store, collect}
use meshlite.Conduit.ClusterClient.{
  EnrollResponse, apply_enroll, enroll, http_post, extract_body, separator, status_line,
}
use meshlite.Conduit.Egress
use meshlite.Conduit.Egress.Allow.{Allowed, reports_allow, handle_connection-Allowed}
use meshlite.Conduit.Gateway.{Cli, Event, tick, to_egress, accept_failed, egress, main}
use meshlite.Conduit.Gateway.Policy.{AllGoverned, main-AllGoverned}
use meshlite.Tests.Gateway.{
  request, refusing, suffix, plain_rustls, in_order, in_order-IsIteration, enrolled, store,
  open_policy, calm, empty_policy, up, down,
}

connection_reported :
    reports_allow (
      Egress.handle_connection plain_rustls in_order
        (codes "peer:443")
        (codes "cluster-1")
        calm
        store
        open_policy)
    ≡ true
unfolding Egress.handle_connection extract_host from_utf8 lines first_host host_of_line
    to_ascii_lowercase starts_with trim is_whitespace split is_allowed_destination first_cert
    apply_enroll CertStore.update HashMap.insert client_config load_certs load_key root_store
    collect str_eq extract_status_code
connection_reported = refl

handle_connection-Allowed_example :
    Allowed plain_rustls in_order (codes "peer:443") (codes "cluster-1") calm open_policy
handle_connection-Allowed_example =
    handle_connection-Allowed plain_rustls in_order (codes "peer:443") (codes "cluster-1") calm
      store open_policy connection_reported

abbrev cli : Cli
cli = record {
  mode = egress;
  cluster_id = codes "cluster-1";
  sigil_addr = codes "sigil:8080";
  listen_addr = codes ":9090";
  peer_addr = codes "peer:443";
  svc_domain_suffix = codes ".svc";
  svc_port = codes "8080";
}

abbrev parse_enroll : Bytes → Result EnrollResponse
parse_enroll body = ok enrolled

abbrev no_digits : ℕ → Text
no_digits n = []

sigil_enrolls :
    enroll parse_enroll no_digits up (codes "sigil:8080") (codes "cluster-1") ≡ ok enrolled
unfolding enroll http_post extract_body separator contains status_line trim is_whitespace from_utf8
    position starts_with split
sigil_enrolls = refl

-- A connection under the initial policy, one under the policy that was fetched, and one after a poll
-- that failed.
abbrev events : List Event
events =
    to_egress calm
    ∷ tick up
    ∷ to_egress calm
    ∷ tick down
    ∷ to_egress calm
    ∷ accept_failed (codes "too many open files")
    ∷ []

main-AllGoverned_example :
    AllGoverned plain_rustls in_order empty_policy cli enrolled open_policy events
      (main plain_rustls in_order empty_policy cli parse_enroll no_digits up
        (ok tt)
        events).connections
main-AllGoverned_example =
    main-AllGoverned plain_rustls in_order empty_policy cli parse_enroll no_digits up events
      enrolled in_order-IsIteration refl refl sigil_enrolls

head_forwarded :
    Memᴰ
      (to_peer request)
      (Egress.handle_connection plain_rustls in_order
        (codes "peer:443")
        (codes "cluster-1")
        calm
        store
        open_policy).0
unfolding Egress.handle_connection extract_host from_utf8 lines first_host host_of_line
    to_ascii_lowercase starts_with trim is_whitespace split is_allowed_destination first_cert
    apply_enroll CertStore.update HashMap.insert client_config load_certs load_key root_store
    collect
head_forwarded = Memᴰ.tail (Memᴰ.tail (Memᴰ.head refl))

abbrev beta_backend : Text
beta_backend = codes "service-beta.meshlite-test.svc.cluster.local:8080"

backend_dialled :
    Memᴰ (dial beta_backend) (serve (codes "cluster-2") suffix (codes "8080") refusing)
unfolding serve Ingress.handle_connection backend_addr contains extract_host from_utf8 lines
    first_host host_of_line to_ascii_lowercase starts_with trim is_whitespace split
backend_dialled = Memᴰ.head refl

crossing-IsAllowedBackend_example :
    IsAllowedBackend open_policy suffix (codes "8080") request beta_backend
crossing-IsAllowedBackend_example =
    crossing-IsAllowedBackend plain_rustls in_order (codes "peer:443") (codes "cluster-1") calm
      store open_policy (codes "cluster-2") suffix (codes "8080") refusing request beta_backend
      head_forwarded refl backend_dialled
