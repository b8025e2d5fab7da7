-- ===== src/Conduit/Gateway/Policy.antt =====
-- The gateway of conduit/src/main.rs against the policy and the certificate that it has at each moment.
use meshlite.Base.{ℕ, ◌≡◌, refl, true, false, some, List, [], ◌∷◌, Text, Bytes}
use meshlite.HashMap.{Entries, IsIteration}
use meshlite.CertStore
use meshlite.CertStore.{CertStore, StoredCert, first_cert}
use meshlite.PolicyCache
use meshlite.PolicyCache.{PolicyCache, is_allowed_destination}
use meshlite.Conduit.{Result, ok, err, Action}
use meshlite.Conduit.Host.{extract_host}
use meshlite.Conduit.TlsConfig.{Rustls}
use meshlite.Conduit.ClusterClient.{
  EnrollResponse, PolicyResponse, Tcp, apply_enroll, enroll, fetch_policy, apply_fetched,
}
use meshlite.Conduit.ClusterClient.Body.{last_fetched, first_cert-apply_enroll}
use meshlite.Conduit.Egress
use meshlite.Conduit.Egress.Safety.{contacts, Cleared, handle_connection-Cleared}
use meshlite.Conduit.TlsConfig.Built.{IsBuiltFrom}
use meshlite.Conduit.Egress.Secured.{IsSecured, handle_connection-IsSecured}
use meshlite.Conduit.Gateway.{
  Mode, egress, ingress, Cli, Event, tick, to_egress, to_ingress, accept_failed, run_egress,
  run_mode, main, is_nil,
}

-- The entry that enrolment leaves in the store.
abbrev pub enrolled_cert : EnrollResponse → StoredCert
enrolled_cert resp = record {
  leaf_cert_pem = resp.cert_pem;
  root_ca_pem = resp.root_ca_pem;
  private_key_pem = resp.key_pem;
}

module _ (tls : Rustls) (iter : Entries StoredCert → Entries StoredCert)
    (parse_policy : Bytes → Result PolicyResponse) (cli : Cli) where
  -- A connection contacts the other cluster only for a destination that this policy allows.
  pub record IsGoverned (cache : PolicyCache) (net : Egress.Network) : Type 0 where
    pub header : Bytes
    pub destination : Text
    pub was_read : net.read ≡ ok header
    pub named : extract_host header ≡ some destination
    pub allowed : is_allowed_destination cache destination ≡ true

  -- So does each connection, under the policy last fetched before it, and nothing goes to the peer but after
  -- a handshake that trusts the enrolled root and presents the enrolled certificate and key.
  abbrev pub AllGoverned : EnrollResponse → PolicyCache → List Event → List (List Action) → Type 0
  AllGoverned resp cache [] cs = cs ≡ []
  AllGoverned resp cache (accept_failed e ∷ events) cs = cs ≡ []
  AllGoverned resp cache (to_ingress net ∷ events) cs = AllGoverned resp cache events cs
  AllGoverned resp cache (tick tcp ∷ events) cs =
      AllGoverned resp (last_fetched (fetch_policy parse_policy tcp cli.sigil_addr ∷ []) cache)
        events cs
  AllGoverned resp cache (to_egress net ∷ events) [] = ⊥
  AllGoverned resp cache (to_egress net ∷ events) (c ∷ cs) =
      (contacts (c, ok tt) ≡ true → IsGoverned cache net)
      × IsSecured (IsBuiltFrom tls resp.cert_pem resp.key_pem resp.root_ca_pem) c
      × AllGoverned resp cache events cs

  fetched_last :
      (fetched : Result _) (cache : PolicyCache)
      → apply_fetched parse_policy fetched cache ≡ last_fetched (fetched ∷ []) cache
  unfolding PolicyCache.update
  fetched_last (ok snap) cache = refl
  fetched_last (err e) cache = refl

  Cleared-IsGoverned :
      (store : CertStore) (cache : PolicyCache) (net : Egress.Network)
      → Cleared tls iter store cache net.read
      → IsGoverned cache net
  Cleared-IsGoverned store cache net c = record {
    header = c.header;
    destination = c.destination;
    was_read = c.was_read;
    named = c.named;
    allowed = c.allowed;
  }

  run_egress-AllGoverned :
      (resp : EnrollResponse) (store : CertStore) (cache : PolicyCache) (events : List Event)
      → first_cert iter store ≡ some (enrolled_cert resp)
      → AllGoverned resp cache events
          (run_egress tls iter parse_policy cli store cache events).connections
  unfolding run_egress
  run_egress-AllGoverned resp store cache [] first = refl
  run_egress-AllGoverned resp store cache (accept_failed e ∷ events) first = refl
  run_egress-AllGoverned resp store cache (to_ingress net ∷ events) first =
      run_egress-AllGoverned resp store cache events first
  run_egress-AllGoverned resp store cache (tick tcp ∷ events) first =
      let fetched = fetch_policy parse_policy tcp cli.sigil_addr in
      rw (← fetched_last fetched cache)
        (run_egress-AllGoverned resp store (apply_fetched parse_policy fetched cache) events first)
  run_egress-AllGoverned resp store cache (to_egress net ∷ events) first = (
    λ h.
        Cleared-IsGoverned store cache net
          (handle_connection-Cleared tls iter cli.peer_addr cli.cluster_id net store cache h),
    handle_connection-IsSecured tls iter cli.peer_addr cli.cluster_id net (enrolled_cert resp) store
        cache first,
    run_egress-AllGoverned resp store cache events first,
  )

  run_mode-AllGoverned :
      (mode : Mode) (resp : EnrollResponse) (store : CertStore) (events : List Event)
      → mode ≡ egress
      → is_nil cli.peer_addr ≡ false
      → first_cert iter store ≡ some (enrolled_cert resp)
      → AllGoverned resp PolicyCache.new events
          (run_mode tls iter parse_policy cli mode store (ok tt) events).connections
  run_mode-AllGoverned egress resp store events m p first =
      rw p (run_egress-AllGoverned resp store PolicyCache.new events first)
  run_mode-AllGoverned ingress resp store events m p first = cc

  module _ (parse_enroll : Bytes → Result EnrollResponse) (decimal : ℕ → Text) where
    -- In egress mode, after enrolment and the bind, every connection that contacts the other cluster
    -- does so for a destination that the policy last fetched before it allows, or the initial one as
    -- long as none was fetched; and it writes to the peer or tunnels only after a TLS handshake, the first
    -- of which trusts all the certificates of the enrolled root and no others, and presents the enrolled
    -- certificate with the enrolled key; whatever the order of the polls and the connections, and however
    -- the certificate store iterates.
    pub main-AllGoverned :
        (tcp : Tcp) (events : List Event) (resp : EnrollResponse)
        → IsIteration iter
        → cli.mode ≡ egress
        → is_nil cli.peer_addr ≡ false
        → enroll parse_enroll decimal tcp cli.sigil_addr cli.cluster_id ≡ ok resp
        → AllGoverned resp PolicyCache.new events
            (main tls iter parse_policy cli parse_enroll decimal tcp (ok tt) events).connections
    unfolding main
    main-AllGoverned tcp events resp visits m p e =
        let store = apply_enroll CertStore.new resp cli.cluster_id in
        rw e (
          run_mode-AllGoverned cli.mode resp store events m p
            (first_cert-apply_enroll iter resp cli.cluster_id visits))
