-- ===== src/Conduit/Egress.antt =====
-- `handle_connection` of conduit/src/egress.rs, with the answers of the network as its input.
pub mod Safety
pub mod Reports
pub mod Allow
pub mod Forwarded
pub mod Secured
use meshlite.Base.{
  ℕ, Bool, true, false, Option, none, some, List, [], ◌∷◌, ◌++◌, Text, Bytes, codes, if◌then◌else◌,
}
use meshlite.HashMap.{Entries}
use meshlite.CertStore.{CertStore, StoredCert, first_cert}
use meshlite.PolicyCache.{PolicyCache, is_allowed_destination}
use meshlite.Conduit.{
  Result, ok, err, ClientConfig, Action, emit, dial, handshake, to_peer, to_client, tunnel, Script,
  stop, fail, act, perform, bad_request,
}
use meshlite.Telemetry.{TelemetryRecord}
use meshlite.Conduit.Host.{extract_host, extract_status_code}
use meshlite.Conduit.TlsConfig.{Rustls, client_config}

-- What each call on the network answers, and the reading of the clock where a record is made.
-- A read gives at most the 8192 bytes of its buffer, and no byte at the end of the stream.
pub record Network : Type 0 where
  pub read : Result Bytes
  pub client_write : Result Unit
  pub connect : Result Unit
  pub tls_connect : Result Unit
  pub upstream_write : Result Unit
  pub response : Result Bytes
  pub copy : Result Unit
  pub elapsed : ℕ

abbrev pub forbidden : Bytes
forbidden = codes "HTTP/1.1 403 Forbidden\r\nContent-Length: 0\r\n\r\n"

module _ (tls : Rustls) (iter : Entries StoredCert → Entries StoredCert)
    (peer_addr cluster_id : Text) (net : Network) where
  -- What a record says besides where the connection goes.
  abbrev record_of : Text → Text → Bool → Option ℕ → Option Text → TelemetryRecord
  record_of destination verdict verified status reason = record {
    source_service = codes "cluster/" ++ cluster_id;
    destination_service = destination;
    cluster_id = cluster_id;
    leg = codes "cross_cluster";
    verdict = verdict;
    latency_ms = net.elapsed;
    tls_verified = verified;
    status_code = status;
    error_reason = reason;
    timestamp = none;
  }

  -- A record of a failure, and the end in that error.
  abbrev broken : Text → Text → Bool → Text → Text → Script
  broken destination verdict verified reason e =
      act (emit (record_of destination verdict verified none (some reason))) (fail e)

  abbrev served : Text → Bytes → Script
  served destination response = perform (to_client response) net.client_write (
      act (emit (record_of destination (codes "allow") true (extract_status_code response) none))
        (perform tunnel net.copy stop))

  abbrev await_response : Text → Result Bytes → Script
  await_response destination (err e) =
      broken destination (codes "error") true (codes "read_response_failed: " ++ e) e
  await_response destination (ok []) =
      broken destination (codes "error") true (codes "upstream_closed_before_response")
        (codes "upstream closed before sending a response")
  await_response destination (ok (b ∷ bs)) = served destination (b ∷ bs)

  abbrev connected : Text → Bytes → Result Unit → Script
  connected destination header (err e) =
      broken destination (codes "tls_reject") false (codes "mtls_handshake_failed: " ++ e) e
  connected destination header (ok tt) =
      perform (to_peer header) net.upstream_write (await_response destination net.response)

  abbrev dialled : ClientConfig → Text → Bytes → Result Unit → Script
  dialled cfg destination header (err e) =
      broken destination (codes "error") false (codes "connect_failed: " ++ e) e
  dialled cfg destination header (ok tt) =
      act (handshake cfg (codes "localhost")) (connected destination header net.tls_connect)

  abbrev with_name : ClientConfig → Text → Bytes → Result Unit → Script
  with_name cfg destination header (err e) = fail (codes "invalid SNI name 'localhost': " ++ e)
  with_name cfg destination header (ok tt) =
      act (dial peer_addr) (dialled cfg destination header net.connect)

  abbrev with_config : Text → Bytes → Result ClientConfig → Script
  with_config destination header (err e) = fail e
  with_config destination header (ok cfg) =
      with_name cfg destination header (tls.valid_name (codes "localhost"))

  abbrev with_cert : Text → Bytes → Option StoredCert → Script
  with_cert destination header none = fail (codes "no cert in store")
  with_cert destination header (some entry) =
      with_config destination header
        (client_config tls entry.leaf_cert_pem entry.private_key_pem entry.root_ca_pem)

  abbrev denied : Text → Script
  denied destination =
      act
        (emit
          (record_of destination (codes "deny") false (some 403) (some (codes "policy_denied"))))
        (perform (to_client forbidden) net.client_write stop)

  abbrev route : CertStore → PolicyCache → Bytes → Option Text → Script
  route store cache header none = perform (to_client bad_request) net.client_write stop
  route store cache header (some destination) =
      if is_allowed_destination cache destination
      then with_cert destination header (first_cert iter store)
      else denied destination

  abbrev answer : CertStore → PolicyCache → Result Bytes → Script
  answer store cache (err e) = fail e
  answer store cache (ok []) = stop
  answer store cache (ok (b ∷ bs)) = route store cache (b ∷ bs) (extract_host (b ∷ bs))

  unfoldable pub handle_connection : CertStore → PolicyCache → Script
  handle_connection store cache = answer store cache net.read
