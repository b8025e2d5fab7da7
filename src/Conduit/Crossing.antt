-- ===== src/Conduit/Crossing.antt =====
-- The two proxies of conduit/src in a row: what egress.rs writes to its peer is what ingress.rs reads.
use mathlib.Core.List.{Memᴰ}
use meshlite.Base.{◌≡◌, sym, subst, ◌∙◌, true, some, Text, Bytes, All-mem, arith}
use meshlite.HashMap.{Entries}
use meshlite.CertStore.{CertStore, StoredCert}
use meshlite.PolicyCache.{PolicyCache, is_allowed_destination}
use meshlite.Conduit.{ok, dial, to_peer}
use meshlite.Conduit.Host.{extract_host}
use meshlite.Conduit.TlsConfig.{Rustls}
use meshlite.Conduit.Egress
use meshlite.Conduit.Egress.Forwarded.{
  IsAllowedHead, IsForwardable, handle_connection-AllForwardable,
}
use meshlite.Conduit.Ingress
use meshlite.Conduit.Ingress.{serve}
use meshlite.Conduit.Ingress.Routed.{IsAddressOf, IsRoute, IsRouted, serve-AllRouted}

-- A backend that the policy of the other cluster allows.
pub record IsAllowedBackend (cache : PolicyCache) (suffix port header backend : Text) : Type 0 where
  pub destination : Text
  pub named : extract_host header ≡ some destination
  pub allowed : is_allowed_destination cache destination ≡ true
  pub addressed : IsAddressOf suffix port destination backend

module _ (tls : Rustls) (iter : Entries StoredCert → Entries StoredCert)
    (peer_addr cluster_id : Text) (there : Egress.Network) (store : CertStore) (cache : PolicyCache)
    (remote_id suffix port : Text) (here : Ingress.Network) where
  -- If the ingress reads what an egress wrote to it, then each backend that it dials is the destination
  -- which the head names, followed by the suffix if it has no dot, and by the port; and the policy of the
  -- egress allows this destination.
  pub crossing-IsAllowedBackend :
      (header : Bytes) (backend : Text)
      → Memᴰ
          (to_peer header)
          (Egress.handle_connection tls iter peer_addr cluster_id there store cache).0
      → here.read ≡ ok header
      → Memᴰ (dial backend) (serve remote_id suffix port here)
      → IsAllowedBackend cache suffix port header backend
  crossing-IsAllowedBackend header backend sent same reached =
      let (a, is_a, forwardable) =
        All-mem _ (handle_connection-AllForwardable tls iter peer_addr cluster_id there cache store)
          sent in
      let (b, is_b, routed) = All-mem _ (serve-AllRouted suffix port here remote_id) reached in
      let head : IsAllowedHead cache header = subst (IsForwardable cache) (sym is_a) forwardable in
      let r : IsRoute suffix port here backend =
        subst (IsRouted suffix port here) (sym is_b) routed in
      let same_header : ok r.header ≡ ok header = sym r.was_read ∙ same in
      let same_host : r.host ≡ head.destination = ground arith in
      record {
        destination = head.destination;
        named = head.named;
        allowed = head.allowed;
        addressed = subst (λ h. IsAddressOf suffix port h backend) same_host r.addressed;
      }
