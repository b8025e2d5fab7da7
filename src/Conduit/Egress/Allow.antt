-- ===== src/Conduit/Egress/Allow.antt =====
-- When conduit/src/egress.rs reports a connection as allowed.
use meshlite.Base.{
  ℕ, ◌≡◌, refl, inl, inr, Bool, true, false, Option, none, some, [], ◌∷◌, arith, Text, Bytes, codes,
  any, str_eq, Bool-cases,
}
use meshlite.HashMap.{Entries}
use meshlite.CertStore.{CertStore, StoredCert, first_cert}
use meshlite.PolicyCache.{PolicyCache, is_allowed_destination}
use meshlite.Conduit.{
  ClientConfig, Result, ok, err, Script, to_client, to_peer, stop, perform, bad_request,
}
use meshlite.Telemetry.{TelemetryRecord}
use meshlite.Conduit.Host.{extract_host}
use meshlite.Conduit.TlsConfig.{Rustls, client_config}
use meshlite.Conduit.Egress.{
  Network, forbidden, await_response, connected, dialled, with_name, with_config, with_cert, route,
  answer, handle_connection,
}
use meshlite.Conduit.Egress.Reports.{records, client_silent}

abbrev is_allow : TelemetryRecord → Bool
is_allow r = str_eq r.verdict (codes "allow")

-- Some record has the verdict `allow`.
abbrev pub reports_allow : Script → Bool
reports_allow s = any is_allow (records s.0)

-- Every step up to the first bytes of the response succeeded, and the client got these.
pub record IsCompleted (net : Network) : Type 0 where
  pub dialled : net.connect ≡ ok tt
  pub verified : net.tls_connect ≡ ok tt
  pub forwarded : net.upstream_write ≡ ok tt
  pub first : ℕ
  pub rest : Bytes
  pub responded : net.response ≡ ok (first ∷ rest)
  pub delivered : net.client_write ≡ ok tt

other_words :
    (str_eq (codes "error") (codes "allow") ≡ false)
    × (str_eq (codes "tls_reject") (codes "allow") ≡ false)
    × (str_eq (codes "deny") (codes "allow") ≡ false)
unfolding str_eq
other_words = (refl, refl, refl)

client_only : (b : Bytes) (r : Result Unit) → reports_allow (perform (to_client b) r stop) ≡ false
client_only b (ok tt) = refl
client_only b (err e) = refl

module _ (tls : Rustls) (iter : Entries StoredCert → Entries StoredCert)
    (peer_addr cluster_id : Text) (net : Network) where
  response-IsCompleted :
      (destination : Text) (header : Bytes) (sent : Result Unit) (response : Result Bytes)
      (got : Result Unit)
      → net.connect ≡ ok tt
      → net.tls_connect ≡ ok tt
      → net.upstream_write ≡ sent
      → net.response ≡ response
      → net.client_write ≡ got
      → reports_allow (
          perform
            (to_peer header)
            sent
            (await_response tls iter peer_addr cluster_id net destination response))
        ≡ true
      → IsCompleted net
  response-IsCompleted destination header (err e) response got c t s r g h =
      absurd (ground (arith, other_words))
  response-IsCompleted destination header (ok u) (err e) got c t s r g h =
      absurd (ground (arith, other_words))
  response-IsCompleted destination header (ok u) (ok []) got c t s r g h =
      absurd (ground (arith, other_words))
  response-IsCompleted destination header (ok u) (ok (b ∷ bs)) (err e) c t s r g h =
      absurd (let k = (rw g at h) in ground arith)
  response-IsCompleted destination header (ok u) (ok (b ∷ bs)) (ok v) c t s r g h = record {
    dialled = c;
    verified = t;
    forwarded = s;
    first = b;
    rest = bs;
    responded = r;
    delivered = g;
  }

  connected-IsCompleted :
      (destination : Text) (header : Bytes) (r : Result Unit)
      → net.connect ≡ ok tt
      → net.tls_connect ≡ r
      → reports_allow (connected tls iter peer_addr cluster_id net destination header r) ≡ true
      → IsCompleted net
  connected-IsCompleted destination header (err e) c t h = absurd (ground (arith, other_words))
  connected-IsCompleted destination header (ok u) c t h =
      response-IsCompleted destination header net.upstream_write net.response net.client_write c t
        refl refl refl h

  dialled-IsCompleted :
      (cfg : ClientConfig) (destination : Text) (header : Bytes) (r : Result Unit)
      → net.connect ≡ r
      → reports_allow (dialled tls iter peer_addr cluster_id net cfg destination header r) ≡ true
      → IsCompleted net
  dialled-IsCompleted cfg destination header (err e) c h = absurd (ground (arith, other_words))
  dialled-IsCompleted cfg destination header (ok u) c h =
      connected-IsCompleted destination header net.tls_connect c refl h

  name-IsCompleted :
      (cfg : ClientConfig) (destination : Text) (header : Bytes) (r : Result Unit)
      → reports_allow (with_name tls iter peer_addr cluster_id net cfg destination header r) ≡ true
      → IsCompleted net
  name-IsCompleted cfg destination header (err e) h = absurd (ground (arith, other_words))
  name-IsCompleted cfg destination header (ok u) h =
      dialled-IsCompleted cfg destination header net.connect refl h

  config-IsCompleted :
      (destination : Text) (header : Bytes) (r : Result ClientConfig)
      → reports_allow (with_config tls iter peer_addr cluster_id net destination header r) ≡ true
      → IsCompleted net
  config-IsCompleted destination header (err e) h = absurd (ground (arith, other_words))
  config-IsCompleted destination header (ok cfg) h =
      name-IsCompleted cfg destination header (tls.valid_name (codes "localhost")) h

  cert-IsCompleted :
      (destination : Text) (header : Bytes) (entry : Option StoredCert)
      → reports_allow (with_cert tls iter peer_addr cluster_id net destination header entry) ≡ true
      → IsCompleted net
  cert-IsCompleted destination header none h = absurd (ground (arith, other_words))
  cert-IsCompleted destination header (some entry) h =
      config-IsCompleted destination header
        (client_config tls entry.leaf_cert_pem entry.private_key_pem entry.root_ca_pem) h

  -- A destination whose connection is reported as allowed.
  pub record Allowed (cache : PolicyCache) : Type 0 where
    pub header : Bytes
    pub destination : Text
    pub was_read : net.read ≡ ok header
    pub named : extract_host header ≡ some destination
    pub allowed : is_allowed_destination cache destination ≡ true
    pub completed : IsCompleted net

  route-Allowed :
      (store : CertStore) (cache : PolicyCache) (header : Bytes) (host : Option Text)
      → net.read ≡ ok header
      → extract_host header ≡ host
      → reports_allow (route tls iter peer_addr cluster_id net store cache header host) ≡ true
      → Allowed cache
  route-Allowed store cache header none r e h =
      absurd (ground (arith, client_only bad_request net.client_write))
  route-Allowed store cache header (some destination) r e h =
      elim (Bool-cases (is_allowed_destination cache destination)) [
        | inl yes_allowed ↦ record {
          header = header;
          destination = destination;
          was_read = r;
          named = e;
          allowed = yes_allowed;
          completed =
              cert-IsCompleted destination header (first_cert iter store) (rw yes_allowed at h);
        }
        | inr refused ↦ absurd (
            let k =
              rw
                (
                  refused,
                  client_silent tls iter peer_addr cluster_id net forbidden net.client_write,
                )
                at h in
            ground (arith, other_words))
      ]

  answer-Allowed :
      (store : CertStore) (cache : PolicyCache) (read : Result Bytes)
      → net.read ≡ read
      → reports_allow (answer tls iter peer_addr cluster_id net store cache read) ≡ true
      → Allowed cache
  answer-Allowed store cache (err e) r h = absurd (ground (arith, other_words))
  answer-Allowed store cache (ok []) r h = absurd (ground (arith, other_words))
  answer-Allowed store cache (ok (b ∷ bs)) r h =
      route-Allowed store cache (b ∷ bs) (extract_host (b ∷ bs)) r refl h

  -- A connection is only reported as allowed where the policy allows the destination that its head
  -- names, the dial, the handshake and the forwarding of the head succeeded, and the client was given
  -- the first bytes of a response.
  pub handle_connection-Allowed :
      (store : CertStore) (cache : PolicyCache)
      → reports_allow (handle_connection tls iter peer_addr cluster_id net store cache) ≡ true
      → Allowed cache
  unfolding handle_connection
  handle_connection-Allowed store cache h = answer-Allowed store cache net.read refl h
