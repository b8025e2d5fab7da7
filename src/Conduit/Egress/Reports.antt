-- ===== src/Conduit/Egress/Reports.antt =====
-- What conduit/src/egress.rs reports of a connection.
use meshlite.Base.{
  ℕ, ◌≤◌, ◌≡◌, refl, inl, inr, Bool, true, false, Option, none, some, List, [], ◌∷◌, ◌++◌, arith,
  Text, Bytes, codes, length, All, Bool-cases,
}
use meshlite.HashMap.{Entries}
use meshlite.CertStore.{CertStore, StoredCert, first_cert}
use meshlite.PolicyCache.{PolicyCache, is_allowed_destination}
use meshlite.Conduit.{
  Result, ok, err, ClientConfig, Action, emit, dial, handshake, to_peer, to_client, tunnel, Script,
  stop, fail, act, perform, bad_request,
}
use meshlite.Telemetry.{TelemetryRecord}
use meshlite.Conduit.Host.{extract_host, extract_status_code}
use meshlite.Conduit.TlsConfig.{Rustls, client_config}
use meshlite.Conduit.Egress.{
  Network, record_of, forbidden, await_response, connected, dialled, with_name, with_config,
  with_cert, route, answer, handle_connection,
}

abbrev pub records : List Action → List TelemetryRecord
records [] = []
records (emit r ∷ actions) = r ∷ records actions
records (_ ∷ actions) = records actions

module _ (tls : Rustls) (iter : Entries StoredCert → Entries StoredCert)
    (peer_addr cluster_id : Text) (net : Network) where
  -- At most one record, and one that claims a verified peer only after the handshake.
  abbrev pub IsReport : Script → Type 0
  IsReport s =
      (length (records s.0) ≤ 1)
      × All (λ r. r.tls_verified ≡ true → (net.connect ≡ ok tt) × (net.tls_connect ≡ ok tt))
          (records s.0)

  -- An action in front that is no record.
  perform-IsReport :
      (a : Action) (r : Result Unit) (s : Script)
      → records (a ∷ []) ≡ []
      → IsReport s
      → IsReport (perform a r s)
  perform-IsReport (emit x) r s n h = absurd (ground arith)
  perform-IsReport (dial x) (ok tt) s n h = h
  perform-IsReport (dial x) (err e) s n h = (omega arith, tt)
  perform-IsReport (handshake cfg name) (ok tt) s n h = h
  perform-IsReport (handshake cfg name) (err e) s n h = (omega arith, tt)
  perform-IsReport (to_peer x) (ok tt) s n h = h
  perform-IsReport (to_peer x) (err e) s n h = (omega arith, tt)
  perform-IsReport (to_client x) (ok tt) s n h = h
  perform-IsReport (to_client x) (err e) s n h = (omega arith, tt)
  perform-IsReport tunnel (ok tt) s n h = h
  perform-IsReport tunnel (err e) s n h = (omega arith, tt)

  -- One record, which is in order, with an end that reports nothing.
  one_record :
      (r : TelemetryRecord) (s : Script)
      → records s.0 ≡ []
      → (r.tls_verified ≡ true → (net.connect ≡ ok tt) × (net.tls_connect ≡ ok tt))
      → IsReport (act (emit r) s)
  one_record r s e h = rw e (omega arith, (h, tt))

  pub tunnel_silent : (r : Result Unit) → records (perform tunnel r stop).0 ≡ []
  tunnel_silent (ok tt) = refl
  tunnel_silent (err e) = refl

  pub client_silent : (b : Bytes) (r : Result Unit) → records (perform (to_client b) r stop).0 ≡ []
  client_silent b (ok tt) = refl
  client_silent b (err e) = refl

  abbrev reported : Text → Text → Bool → Option ℕ → Option Text → TelemetryRecord
  reported = record_of tls iter peer_addr cluster_id net

  module _ (c : net.connect ≡ ok tt) (t : net.tls_connect ≡ ok tt) where
    response-IsReport :
        (destination : Text) (response : Result Bytes)
        → IsReport (await_response tls iter peer_addr cluster_id net destination response)
    response-IsReport destination (err e) =
        one_record
          (reported destination (codes "error") true none
            (some (codes "read_response_failed: " ++ e)))
          (fail e) refl (λ v. (c, t))
    response-IsReport destination (ok []) =
        one_record
          (reported destination (codes "error") true none
            (some (codes "upstream_closed_before_response")))
          (fail (codes "upstream closed before sending a response")) refl (λ v. (c, t))
    response-IsReport destination (ok (b ∷ bs)) =
        perform-IsReport (to_client (b ∷ bs)) net.client_write
          (act
            (emit (reported destination (codes "allow") true (extract_status_code (b ∷ bs)) none))
            (perform tunnel net.copy stop))
          refl
          (one_record
            (reported destination (codes "allow") true (extract_status_code (b ∷ bs)) none)
            (perform tunnel net.copy stop) (tunnel_silent net.copy) (λ v. (c, t)))

  connected-IsReport :
      (destination : Text) (header : Bytes) (r : Result Unit)
      → net.connect ≡ ok tt
      → net.tls_connect ≡ r
      → IsReport (connected tls iter peer_addr cluster_id net destination header r)
  connected-IsReport destination header (err e) c t =
      one_record
        (reported destination (codes "tls_reject") false none
          (some (codes "mtls_handshake_failed: " ++ e)))
        (fail e) refl (λ v. cc)
  connected-IsReport destination header (ok tt) c t =
      perform-IsReport (to_peer header) net.upstream_write
        (await_response tls iter peer_addr cluster_id net destination net.response) refl
        (response-IsReport c t destination net.response)

  dialled-IsReport :
      (cfg : ClientConfig) (destination : Text) (header : Bytes) (r : Result Unit)
      → net.connect ≡ r
      → IsReport (dialled tls iter peer_addr cluster_id net cfg destination header r)
  dialled-IsReport cfg destination header (err e) c =
      one_record
        (reported destination (codes "error") false none (some (codes "connect_failed: " ++ e)))
        (fail e) refl (λ v. cc)
  dialled-IsReport cfg destination header (ok tt) c =
      connected-IsReport destination header net.tls_connect c refl

  name-IsReport :
      (cfg : ClientConfig) (destination : Text) (header : Bytes) (r : Result Unit)
      → IsReport (with_name tls iter peer_addr cluster_id net cfg destination header r)
  name-IsReport cfg destination header (err e) = (omega arith, tt)
  name-IsReport cfg destination header (ok tt) =
      dialled-IsReport cfg destination header net.connect refl

  config-IsReport :
      (destination : Text) (header : Bytes) (r : Result ClientConfig)
      → IsReport (with_config tls iter peer_addr cluster_id net destination header r)
  config-IsReport destination header (err e) = (omega arith, tt)
  config-IsReport destination header (ok cfg) =
      name-IsReport cfg destination header (tls.valid_name (codes "localhost"))

  cert-IsReport :
      (destination : Text) (header : Bytes) (entry : Option StoredCert)
      → IsReport (with_cert tls iter peer_addr cluster_id net destination header entry)
  cert-IsReport destination header none = (omega arith, tt)
  cert-IsReport destination header (some entry) =
      config-IsReport destination header
        (client_config tls entry.leaf_cert_pem entry.private_key_pem entry.root_ca_pem)

  route-IsReport :
      (store : CertStore) (cache : PolicyCache) (header : Bytes) (host : Option Text)
      → IsReport (route tls iter peer_addr cluster_id net store cache header host)
  route-IsReport store cache header none =
      perform-IsReport (to_client bad_request) net.client_write stop refl (omega arith, tt)
  route-IsReport store cache header (some destination) =
      elim (Bool-cases (is_allowed_destination cache destination)) [
        | inl yes_allowed ↦
            rw yes_allowed (cert-IsReport destination header (first_cert iter store))
        | inr refused ↦ rw refused (
            one_record
              (reported destination (codes "deny") false (some 403) (some (codes "policy_denied")))
              (perform (to_client forbidden) net.client_write stop)
              (client_silent forbidden net.client_write) (λ v. cc))
      ]

  answer-IsReport :
      (store : CertStore) (cache : PolicyCache) (read : Result Bytes)
      → IsReport (answer tls iter peer_addr cluster_id net store cache read)
  answer-IsReport store cache (err e) = (omega arith, tt)
  answer-IsReport store cache (ok []) = (omega arith, tt)
  answer-IsReport store cache (ok (b ∷ bs)) =
      route-IsReport store cache (b ∷ bs) (extract_host (b ∷ bs))

  -- A connection is reported by one telemetry record at most, and a record that says that the peer
  -- was verified is only made where the TCP connection and the mTLS handshake succeeded.
  pub handle_connection-IsReport :
      (store : CertStore) (cache : PolicyCache)
      → IsReport (handle_connection tls iter peer_addr cluster_id net store cache)
  unfolding handle_connection
  handle_connection-IsReport store cache = answer-IsReport store cache net.read
