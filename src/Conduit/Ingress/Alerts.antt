-- ===== src/Conduit/Ingress/Alerts.antt =====
-- The verdict that conduit/src/ingress.rs reads from the text of an error.
use meshlite.Base.{
  ◌≡◌, ◌≢◌, refl, inl, inr, true, false, none, some, [], ◌∷◌, ◌++◌, Text, Bytes, codes, Bool-cases,
}
use meshlite.Strings.{contains, lines, split}
use meshlite.Strings.Split.{has}
use meshlite.Strings.Search.{contains_left, contains_right}
use meshlite.Strings.Utf8.{from_utf8}
use meshlite.Conduit.{ok, err, emit, dial}
use meshlite.Telemetry.{TelemetryRecord}
use meshlite.Conduit.Host.{extract_host, first_host}
use meshlite.Conduit.Ingress.{Network, backend_addr, handle_connection, verdict_of, serve}

-- The record of a backend that refused the connection, as far as its name is about alerts.
abbrev pub mislabelled : Text → Text → Text → Text → Text → TelemetryRecord
mislabelled suffix port cluster_id host e = record {
  source_service = codes "remote/" ++ cluster_id;
  destination_service = codes "unknown";
  cluster_id = cluster_id;
  leg = codes "cross_cluster";
  verdict = codes "tls_reject";
  latency_ms = 0;
  tls_verified = false;
  status_code = none;
  error_reason =
      some (codes "connect to backend " ++ backend_addr suffix port host ++ codes ": " ++ e);
  timestamp = none;
}

contains-backend_addr :
    (suffix port host : Text)
    → contains host (codes "alert") ≡ true
    → contains (backend_addr suffix port host) (codes "alert") ≡ true
unfolding backend_addr
contains-backend_addr suffix port host h = elim (Bool-cases (has b'.' host)) [
  | inl dotted ↦
      rw (dotted, backend_addr)
        (contains_left (host ++ codes ":") port (codes "alert")
          (contains_left host (codes ":") (codes "alert") h))
  | inr bare ↦
      rw (bare, backend_addr)
        (contains_left ((host ++ suffix) ++ codes ":") port (codes "alert") (
          contains_left (host ++ suffix) (codes ":") (codes "alert")
            (contains_left host suffix (codes "alert") h)))
]

reason_contains :
    (backend e : Text)
    → contains backend (codes "alert") ≡ true
    → contains (codes "connect to backend " ++ backend ++ codes ": " ++ e) (codes "alert") ≡ true
reason_contains backend e h =
    contains_left ((codes "connect to backend " ++ backend) ++ codes ": ") e (codes "alert") (
      contains_left (codes "connect to backend " ++ backend) (codes ": ") (codes "alert")
        (contains_right (codes "connect to backend ") backend (codes "alert") h))

verdict_of_alert :
    (msg : Text) → contains msg (codes "alert") ≡ true → verdict_of msg ≡ codes "tls_reject"
verdict_of_alert msg h = elim (Bool-cases (contains msg (codes "certificate"))) [
  | inl c ↦ rw c refl
  | inr n ↦ rw (n, h) refl
]

extract_host_nil : {host : Text} → extract_host [] ≢ some host
unfolding extract_host from_utf8 lines split first_host
extract_host_nil n = cc

-- After a good handshake, a request for a host with `alert` in its name whose backend cannot be
-- reached is reported as `tls_reject`, not as `error`.
pub serve_mislabels :
    (suffix port : Text) (net : Network) (cluster_id : Text) (header : Bytes) (host e : Text)
    → net.accept ≡ ok tt
    → net.read ≡ ok header
    → extract_host header ≡ some host
    → contains host (codes "alert") ≡ true
    → net.connect ≡ err e
    → serve cluster_id suffix port net
      ≡ dial (backend_addr suffix port host) ∷ emit (mislabelled suffix port cluster_id host e) ∷ []
unfolding serve handle_connection
serve_mislabels suffix port net cluster_id [] host e a r n c d = absurd (extract_host_nil n)
serve_mislabels suffix port net cluster_id (b ∷ bs) host e a r n c d =
    rw
      (
        a,
        r,
        n,
        d,
        verdict_of_alert _ (reason_contains _ e (contains-backend_addr suffix port host c)),
      )
      refl
