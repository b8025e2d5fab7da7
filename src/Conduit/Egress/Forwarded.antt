-- ===== src/Conduit/Egress/Forwarded.antt =====
-- What conduit/src/egress.rs writes to the ingress of the other cluster.
use meshlite.Base.{
  ◌≡◌, refl, inl, inr, true, Option, none, some, [], ◌∷◌, Text, Bytes, codes, All, Bool-cases,
}
use meshlite.HashMap.{Entries}
use meshlite.CertStore.{CertStore, StoredCert, first_cert}
use meshlite.PolicyCache.{PolicyCache, is_allowed_destination}
use meshlite.Conduit.{
  Result, ok, err, ClientConfig, Action, to_peer, to_client, tunnel, Script, stop, perform-All,
  bad_request,
}
use meshlite.Conduit.Host.{extract_host}
use meshlite.Conduit.TlsConfig.{Rustls, client_config}
use meshlite.Conduit.Egress.{
  Network, forbidden, await_response, connected, dialled, with_name, with_config, with_cert, route,
  answer, handle_connection,
}

-- The head names a destination that the policy allows.
pub record IsAllowedHead (cache : PolicyCache) (header : Bytes) : Type 0 where
  pub destination : Text
  pub named : extract_host header ≡ some destination
  pub allowed : is_allowed_destination cache destination ≡ true

abbrev pub IsForwardable : PolicyCache → Action → Type 0
IsForwardable cache (to_peer header) = IsAllowedHead cache header
IsForwardable cache _ = Unit

module _ (tls : Rustls) (iter : Entries StoredCert → Entries StoredCert)
    (peer_addr cluster_id : Text) (net : Network) (cache : PolicyCache) where
  abbrev AllForwardable : Script → Type 0
  AllForwardable s = All (IsForwardable cache) s.0

  response-AllForwardable :
      (destination : Text) (response : Result Bytes)
      → AllForwardable (await_response tls iter peer_addr cluster_id net destination response)
  response-AllForwardable destination (err e) = (tt, tt)
  response-AllForwardable destination (ok []) = (tt, tt)
  response-AllForwardable destination (ok (b ∷ bs)) =
      perform-All (IsForwardable cache) (to_client (b ∷ bs)) net.client_write _ tt
        (tt, perform-All (IsForwardable cache) tunnel net.copy stop tt tt)

  module _ (destination : Text) (header : Bytes) (h : IsAllowedHead cache header) where
    connected-AllForwardable :
        (r : Result Unit)
        → AllForwardable (connected tls iter peer_addr cluster_id net destination header r)
    connected-AllForwardable (err e) = (tt, tt)
    connected-AllForwardable (ok u) =
        perform-All (IsForwardable cache) (to_peer header) net.upstream_write _ h
          (response-AllForwardable destination net.response)

    dialled-AllForwardable :
        (cfg : ClientConfig) (r : Result Unit)
        → AllForwardable (dialled tls iter peer_addr cluster_id net cfg destination header r)
    dialled-AllForwardable cfg (err e) = (tt, tt)
    dialled-AllForwardable cfg (ok u) = (tt, connected-AllForwardable net.tls_connect)

    name-AllForwardable :
        (cfg : ClientConfig) (r : Result Unit)
        → AllForwardable (with_name tls iter peer_addr cluster_id net cfg destination header r)
    name-AllForwardable cfg (err e) = tt
    name-AllForwardable cfg (ok u) = (tt, dialled-AllForwardable cfg net.connect)

    config-AllForwardable :
        (r : Result ClientConfig)
        → AllForwardable (with_config tls iter peer_addr cluster_id net destination header r)
    config-AllForwardable (err e) = tt
    config-AllForwardable (ok cfg) = name-AllForwardable cfg (tls.valid_name (codes "localhost"))

    cert-AllForwardable :
        (entry : Option StoredCert)
        → AllForwardable (with_cert tls iter peer_addr cluster_id net destination header entry)
    cert-AllForwardable none = tt
    cert-AllForwardable (some entry) =
        config-AllForwardable
          (client_config tls entry.leaf_cert_pem entry.private_key_pem entry.root_ca_pem)

  route-AllForwardable :
      (store : CertStore) (header : Bytes) (host : Option Text)
      → extract_host header ≡ host
      → AllForwardable (route tls iter peer_addr cluster_id net store cache header host)
  route-AllForwardable store header none e =
      perform-All (IsForwardable cache) (to_client bad_request) net.client_write stop tt tt
  route-AllForwardable store header (some destination) e =
      elim (Bool-cases (is_allowed_destination cache destination)) [
        | inl a ↦ rw a (
            cert-AllForwardable destination header
              (record { destination = destination; named = e; allowed = a })
              (first_cert iter store))
        | inr refused ↦ rw refused (
          tt,
          perform-All (IsForwardable cache) (to_client forbidden) net.client_write stop tt tt,
        )
      ]

  answer-AllForwardable :
      (store : CertStore) (read : Result Bytes)
      → AllForwardable (answer tls iter peer_addr cluster_id net store cache read)
  answer-AllForwardable store (err e) = tt
  answer-AllForwardable store (ok []) = tt
  answer-AllForwardable store (ok (b ∷ bs)) =
      route-AllForwardable store (b ∷ bs) (extract_host (b ∷ bs)) refl

  -- What a connection writes to the other cluster is a head that names a destination which the policy
  -- allows.
  pub handle_connection-AllForwardable :
      (store : CertStore)
      → All
          (IsForwardable cache)
          (handle_connection tls iter peer_addr cluster_id net store cache).0
  unfolding handle_connection
  handle_connection-AllForwardable store = answer-AllForwardable store net.read
