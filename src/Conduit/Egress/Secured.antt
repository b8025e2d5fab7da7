-- ===== src/Conduit/Egress/Secured.antt =====
-- With which configuration conduit/src/egress.rs meets its peer.
use meshlite.Base.{
  ◌≡◌, refl, sym, inl, inr, Option, none, some, some-injective, List, [], ◌∷◌, Text, Bytes, codes,
  Bool-cases,
}
use meshlite.HashMap.{Entries}
use meshlite.CertStore.{CertStore, StoredCert, first_cert}
use meshlite.PolicyCache.{PolicyCache, is_allowed_destination}
use meshlite.Conduit.{
  Result, ok, err, ClientConfig, Action, emit, dial, handshake, to_peer, to_client, tunnel, stop,
  perform, bad_request,
}
use meshlite.Conduit.Host.{extract_host}
use meshlite.Conduit.TlsConfig.{Rustls, client_config}
use meshlite.Conduit.TlsConfig.Built.{IsBuiltFrom, client_config-IsBuiltFrom}
use meshlite.Conduit.Egress.{
  Network, forbidden, dialled, with_name, with_config, with_cert, route, answer, handle_connection,
}

-- Nothing is written to the peer or tunnelled before a handshake, and the first handshake is with such a
-- configuration.
abbrev pub IsSecured : (ClientConfig → Type 0) → List Action → Type 0
IsSecured P [] = Unit
IsSecured P (emit r ∷ actions) = IsSecured P actions
IsSecured P (dial addr ∷ actions) = IsSecured P actions
IsSecured P (to_client b ∷ actions) = IsSecured P actions
IsSecured P (handshake cfg name ∷ actions) = P cfg
IsSecured P (to_peer b ∷ actions) = ⊥
IsSecured P (tunnel ∷ actions) = ⊥

client-IsSecured :
    (P : ClientConfig → Type 0) (b : Bytes) (r : Result Unit)
    → IsSecured P (perform (to_client b) r stop).0
client-IsSecured P b (ok u) = tt
client-IsSecured P b (err e) = tt

module _ (tls : Rustls) (iter : Entries StoredCert → Entries StoredCert)
    (peer_addr cluster_id : Text) (net : Network) where
  module _ (P : ClientConfig → Type 0) (destination : Text) (header : Bytes) where
    dialled-IsSecured :
        (cfg : ClientConfig) (r : Result Unit)
        → P cfg
        → IsSecured P (dialled tls iter peer_addr cluster_id net cfg destination header r).0
    dialled-IsSecured cfg (err e) p = tt
    dialled-IsSecured cfg (ok u) p = p

    name-IsSecured :
        (cfg : ClientConfig) (r : Result Unit)
        → P cfg
        → IsSecured P (with_name tls iter peer_addr cluster_id net cfg destination header r).0
    name-IsSecured cfg (err e) p = tt
    name-IsSecured cfg (ok u) p = dialled-IsSecured cfg net.connect p

    config-IsSecured :
        (r : Result ClientConfig)
        → ((cfg : ClientConfig) → r ≡ ok cfg → P cfg)
        → IsSecured P (with_config tls iter peer_addr cluster_id net destination header r).0
    config-IsSecured (err e) p = tt
    config-IsSecured (ok cfg) p =
        name-IsSecured cfg (tls.valid_name (codes "localhost")) (p cfg refl)

  -- The configuration is made of this entry.
  abbrev pub IsOf : StoredCert → ClientConfig → Type 0
  IsOf entry = IsBuiltFrom tls entry.leaf_cert_pem entry.private_key_pem entry.root_ca_pem

  cert-IsSecured :
      (entry : StoredCert) (destination : Text) (header : Bytes) (first : Option StoredCert)
      → first ≡ some entry
      → IsSecured
          (IsOf entry)
          (with_cert tls iter peer_addr cluster_id net destination header first).0
  cert-IsSecured entry destination header none f = tt
  cert-IsSecured entry destination header (some c) f =
      let same : entry ≡ c = sym (some-injective c entry f) in
      rw same (
        config-IsSecured (IsOf c) destination header
          (client_config tls c.leaf_cert_pem c.private_key_pem c.root_ca_pem)
          (client_config-IsBuiltFrom tls c.leaf_cert_pem c.private_key_pem c.root_ca_pem))

  route-IsSecured :
      (entry : StoredCert) (store : CertStore) (cache : PolicyCache) (header : Bytes)
      (host : Option Text)
      → first_cert iter store ≡ some entry
      → IsSecured (IsOf entry) (route tls iter peer_addr cluster_id net store cache header host).0
  route-IsSecured entry store cache header none f =
      client-IsSecured (IsOf entry) bad_request net.client_write
  route-IsSecured entry store cache header (some destination) f =
      elim (Bool-cases (is_allowed_destination cache destination)) [
        | inl yes_allowed ↦
            rw yes_allowed (cert-IsSecured entry destination header (first_cert iter store) f)
        | inr refused ↦ rw refused (client-IsSecured (IsOf entry) forbidden net.client_write)
      ]

  answer-IsSecured :
      (entry : StoredCert) (store : CertStore) (cache : PolicyCache) (read : Result Bytes)
      → first_cert iter store ≡ some entry
      → IsSecured (IsOf entry) (answer tls iter peer_addr cluster_id net store cache read).0
  answer-IsSecured entry store cache (err e) f = tt
  answer-IsSecured entry store cache (ok []) f = tt
  answer-IsSecured entry store cache (ok (b ∷ bs)) f =
      route-IsSecured entry store cache (b ∷ bs) (extract_host (b ∷ bs)) f

  -- What a connection sends to the peer goes through a handshake that is configured from the first entry
  -- of the store.
  pub handle_connection-IsSecured :
      (entry : StoredCert) (store : CertStore) (cache : PolicyCache)
      → first_cert iter store ≡ some entry
      → IsSecured (IsOf entry) (handle_connection tls iter peer_addr cluster_id net store cache).0
  unfolding handle_connection
  handle_connection-IsSecured entry store cache f = answer-IsSecured entry store cache net.read f
