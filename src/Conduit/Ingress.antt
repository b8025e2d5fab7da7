-- ===== src/Conduit/Ingress.antt =====
-- `handle_connection` of conduit/src/ingress.rs and the task of `run` around it.
pub mod Backend
pub mod Routed
pub mod Alerts
use meshlite.Base.{
  ℕ, Bool, true, false, ◌||◌, Option, none, some, List, [], ◌∷◌, ◌++◌, Text, Bytes, codes,
  if◌then◌else◌, any, ◌==◌,
}
use meshlite.Strings.{contains}
use meshlite.Conduit.{
  Result, ok, err, Action, emit, dial, handshake, to_peer, to_client, tunnel, Script, stop, fail,
  act, perform, bad_request,
}
use meshlite.Telemetry.{TelemetryRecord}
use meshlite.Conduit.Host.{extract_host}

pub record Network : Type 0 where
  pub accept : Result Unit
  pub read : Result Bytes
  pub client_write : Result Unit
  pub connect : Result Unit
  pub backend_write : Result Unit
  pub copy : Result Unit

-- `svc_port` in decimal
unfoldable pub backend_addr : Text → Text → Text → Text
backend_addr svc_domain_suffix svc_port host =
    if any (λ c. c == b'.') host
    then host ++ codes ":" ++ svc_port
    else host ++ svc_domain_suffix ++ codes ":" ++ svc_port

module _ (svc_domain_suffix svc_port : Text) (net : Network) where
  abbrev forward : Bytes → Text → Result Unit → Script
  forward header backend (err e) = fail (codes "connect to backend " ++ backend ++ codes ": " ++ e)
  forward header backend (ok tt) =
      perform (to_peer header) net.backend_write (perform tunnel net.copy stop)

  abbrev route : Bytes → Option Text → Script
  route header none = perform (to_client bad_request) net.client_write stop
  route header (some host) =
      let backend = backend_addr svc_domain_suffix svc_port host in
      act (dial backend) (forward header backend net.connect)

  abbrev answer : Result Bytes → Script
  answer (err e) = fail e
  answer (ok []) = stop
  answer (ok (b ∷ bs)) = route (b ∷ bs) (extract_host (b ∷ bs))

  abbrev accepted : Result Unit → Script
  accepted (err e) = fail e
  accepted (ok tt) = answer net.read

  unfoldable pub handle_connection : Script
  handle_connection = accepted net.accept

abbrev pub verdict_of : Text → Text
verdict_of msg =
    if contains msg (codes "certificate") || contains msg (codes "alert")
    then codes "tls_reject"
    else codes "error"

abbrev pub error_record : Text → Text → TelemetryRecord
error_record cluster_id msg = record {
  source_service = codes "remote/" ++ cluster_id;
  destination_service = codes "unknown";
  cluster_id = cluster_id;
  leg = codes "cross_cluster";
  verdict = verdict_of msg;
  latency_ms = 0;
  tls_verified = false;
  status_code = none;
  error_reason = some msg;
  timestamp = none;
}

abbrev pub report : Text → Script → List Action
report cluster_id (actions, ok tt) = actions
report cluster_id (actions, err msg) = actions ++ emit (error_record cluster_id msg) ∷ []

-- The task that `run` spawns for a connection.
unfoldable pub serve : Text → Text → Text → Network → List Action
serve cluster_id svc_domain_suffix svc_port net =
    report cluster_id (handle_connection svc_domain_suffix svc_port net)
