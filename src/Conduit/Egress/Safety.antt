-- ===== src/Conduit/Egress/Safety.antt =====
-- What conduit/src/egress.rs lets through.
use meshlite.Base.{
  ◌≡◌, refl, inl, inr, Bool, true, false, Option, none, some, [], ◌∷◌, arith, Text, Bytes, any,
  Bool-cases,
}
use meshlite.HashMap.{Entries}
use meshlite.CertStore.{CertStore, StoredCert, first_cert}
use meshlite.PolicyCache.{PolicyCache, is_allowed_destination}
use meshlite.Conduit.{Result, ok, err, ClientConfig, Action, emit, to_client, Script, stop, perform}
use meshlite.Conduit.Host.{extract_host}
use meshlite.Conduit.TlsConfig.{Rustls, client_config}
use meshlite.Conduit.Egress.{Network, with_config, with_cert, route, answer, handle_connection}

abbrev is_contact : Action → Bool
is_contact (emit r) = false
is_contact (to_client b) = false
is_contact _ = true

-- Some action dials, writes to or tunnels to the other side.
abbrev pub contacts : Script → Bool
contacts s = any is_contact s.0

client_only : (b : Bytes) (r : Result Unit) → contacts (perform (to_client b) r stop) ≡ false
client_only b (ok tt) = refl
client_only b (err e) = refl

module _ (tls : Rustls) (iter : Entries StoredCert → Entries StoredCert) where
  -- What was read names a destination in its head that the policy allows, and a client configuration
  -- could be built from an entry of the store.
  pub record Cleared (store : CertStore) (cache : PolicyCache) (read : Result Bytes) : Type 0 where
    pub header : Bytes
    pub destination : Text
    pub was_read : read ≡ ok header
    pub named : extract_host header ≡ some destination
    pub allowed : is_allowed_destination cache destination ≡ true
    pub entry : StoredCert
    pub is_first : first_cert iter store ≡ some entry
    pub config : ClientConfig
    pub configured :
        client_config tls entry.leaf_cert_pem entry.private_key_pem entry.root_ca_pem ≡ ok config

module _ (tls : Rustls) (iter : Entries StoredCert → Entries StoredCert)
    (peer_addr cluster_id : Text) (net : Network) where
  config-Cleared :
      (store : CertStore) (cache : PolicyCache) (header : Bytes) (destination : Text)
      (entry : StoredCert) (built : Result ClientConfig)
      → extract_host header ≡ some destination
      → is_allowed_destination cache destination ≡ true
      → first_cert iter store ≡ some entry
      → client_config tls entry.leaf_cert_pem entry.private_key_pem entry.root_ca_pem ≡ built
      → contacts (with_config tls iter peer_addr cluster_id net destination header built) ≡ true
      → Cleared tls iter store cache (ok header)
  config-Cleared store cache header destination entry (err x) n a f b h = absurd (ground arith)
  config-Cleared store cache header destination entry (ok cfg) n a f b h = record {
    header = header;
    destination = destination;
    was_read = refl;
    named = n;
    allowed = a;
    entry = entry;
    is_first = f;
    config = cfg;
    configured = b;
  }

  cert-Cleared :
      (store : CertStore) (cache : PolicyCache) (header : Bytes) (destination : Text)
      (first : Option StoredCert)
      → extract_host header ≡ some destination
      → is_allowed_destination cache destination ≡ true
      → first_cert iter store ≡ first
      → contacts (with_cert tls iter peer_addr cluster_id net destination header first) ≡ true
      → Cleared tls iter store cache (ok header)
  cert-Cleared store cache header destination none n a f h = absurd (ground arith)
  cert-Cleared store cache header destination (some entry) n a f h =
      config-Cleared store cache header destination entry
        (client_config tls entry.leaf_cert_pem entry.private_key_pem entry.root_ca_pem) n a f refl h

  route-Cleared :
      (store : CertStore) (cache : PolicyCache) (header : Bytes) (host : Option Text)
      → extract_host header ≡ host
      → contacts (route tls iter peer_addr cluster_id net store cache header host) ≡ true
      → Cleared tls iter store cache (ok header)
  route-Cleared store cache header none e h = ground (arith, client_only _ net.client_write)
  route-Cleared store cache header (some destination) e h =
      elim (Bool-cases (is_allowed_destination cache destination)) [
        | inl yes_allowed ↦
            cert-Cleared store cache header destination (first_cert iter store) e yes_allowed refl
              (rw yes_allowed at h)
        | inr refused ↦ ground (arith, client_only _ net.client_write)
      ]

  answer-Cleared :
      (store : CertStore) (cache : PolicyCache) (read : Result Bytes)
      → contacts (answer tls iter peer_addr cluster_id net store cache read) ≡ true
      → Cleared tls iter store cache read
  answer-Cleared store cache (err e) h = cc
  answer-Cleared store cache (ok []) h = cc
  answer-Cleared store cache (ok (b ∷ bs)) h =
      route-Cleared store cache (b ∷ bs) (extract_host (b ∷ bs)) refl h

  pub handle_connection-Cleared :
      (store : CertStore) (cache : PolicyCache)
      → contacts (handle_connection tls iter peer_addr cluster_id net store cache) ≡ true
      → Cleared tls iter store cache net.read
  unfolding handle_connection
  handle_connection-Cleared store cache h = answer-Cleared store cache net.read h
