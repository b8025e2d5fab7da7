-- ===== src/Conduit/Gateway.antt =====
-- conduit/src/main.rs and the `run` of conduit/src/egress.rs and conduit/src/ingress.rs: enrolment, the
-- poll of the policy, and the connections that one of the two proxies accepts. The order of the events
-- is that in which they meet the shared caches.
pub mod Policy
use meshlite.Base.{ℕ, Bool, Option, none, some, List, [], ◌∷◌, Text, Bytes, codes, if◌then◌else◌}
use meshlite.HashMap.{Entries}
use meshlite.CertStore
use meshlite.CertStore.{CertStore, StoredCert, first_cert}
use meshlite.PolicyCache
use meshlite.PolicyCache.{PolicyCache}
use meshlite.Conduit.{Result, ok, err, Action, Script, normalize_listen_addr}
use meshlite.Conduit.TlsConfig.{Rustls, server_config}
use meshlite.Conduit.ClusterClient.{
  EnrollResponse, PolicyResponse, Tcp, apply_enroll, enroll, fetch_policy, apply_fetched,
}
use meshlite.Conduit.Egress
use meshlite.Conduit.Ingress

pub data Mode : Type 0 where
  egress ingress : Mode

pub record Cli : Type 0 where
  pub mode : Mode
  pub cluster_id : Text
  pub sigil_addr : Text
  pub listen_addr : Text
  pub peer_addr : Text
  pub svc_domain_suffix : Text
  pub svc_port : Text

-- A tick of the poll, a connection, or an error of `accept`, which ends the proxy. A connection of the
-- other mode does not occur.
pub data Event : Type 0 where
  tick : Tcp → Event
  to_egress : Egress.Network → Event
  to_ingress : Ingress.Network → Event
  accept_failed : Text → Event

-- The addresses that were listened on, what each connection did, and how the proxy ended.
pub record Served : Type 0 where
  pub listened : List Text
  pub connections : List (List Action)
  pub result : Result Unit

abbrev pub ended : Result Unit → Served
ended result = record { listened = []; connections = []; result = result }

abbrev with_connection : List Action → Served → Served
with_connection actions s = record s { connections = actions ∷ s.connections }

abbrev is_nil : Text → Bool
is_nil [] = Bool.true
is_nil (_ ∷ _) = Bool.false

module _ (tls : Rustls) (iter : Entries StoredCert → Entries StoredCert)
    (parse_policy : Bytes → Result PolicyResponse) (cli : Cli) where
  -- The loop of `egress::run` beside that of the poll.
  unfoldable pub run_egress : CertStore → PolicyCache → List Event → Served
  run_egress store cache [] = ended (ok tt)
  run_egress store cache (tick tcp ∷ events) =
      run_egress store
        (apply_fetched parse_policy (fetch_policy parse_policy tcp cli.sigil_addr) cache) events
  run_egress store cache (to_egress net ∷ events) =
      with_connection
        (Egress.handle_connection tls iter cli.peer_addr cli.cluster_id net store cache).0
        (run_egress store cache events)
  run_egress store cache (to_ingress net ∷ events) = run_egress store cache events
  run_egress store cache (accept_failed e ∷ events) = ended (err e)

  -- The loop of `ingress::run`.
  unfoldable pub run_ingress : List Event → Served
  run_ingress [] = ended (ok tt)
  run_ingress (to_ingress net ∷ events) =
      with_connection (Ingress.serve cli.cluster_id cli.svc_domain_suffix cli.svc_port net)
        (run_ingress events)
  run_ingress (accept_failed e ∷ events) = ended (err e)
  run_ingress (tick tcp ∷ events) = run_ingress events
  run_ingress (to_egress net ∷ events) = run_ingress events

  abbrev bound : Result Unit → Served → Served
  bound (err e) s = ended (err e)
  bound (ok tt) s = record s { listened = normalize_listen_addr cli.listen_addr ∷ [] }

  -- `ingress::run` up to the bind.
  abbrev with_server : Result tls.ServerConfig → Result Unit → List Event → Served
  with_server (err e) bind events = ended (err e)
  with_server (ok cfg) bind events = bound bind (run_ingress events)

  abbrev start_ingress : Option StoredCert → Result Unit → List Event → Served
  start_ingress none bind events = ended (err (codes "no cert in store for ingress TLS"))
  start_ingress (some entry) bind events =
      with_server (server_config tls entry.leaf_cert_pem entry.private_key_pem entry.root_ca_pem)
        bind events

  abbrev run_mode : Mode → CertStore → Result Unit → List Event → Served
  run_mode egress store bind events =
      if is_nil cli.peer_addr
      then ended (err (codes "--peer-addr is required in egress mode"))
      else bound bind (run_egress store PolicyCache.new events)
  run_mode ingress store bind events = start_ingress (first_cert iter store) bind events

  abbrev enrolled : Result EnrollResponse → Result Unit → List Event → Served
  enrolled (err e) bind events = ended (err e)
  enrolled (ok resp) bind events =
      run_mode cli.mode (apply_enroll CertStore.new resp cli.cluster_id) bind events

  module _ (parse_enroll : Bytes → Result EnrollResponse) (decimal : ℕ → Text) where
    -- `bind` is the answer to the bind of the listener.
    unfoldable pub main : Tcp → Result Unit → List Event → Served
    main tcp bind events =
        enrolled (enroll parse_enroll decimal tcp cli.sigil_addr cli.cluster_id) bind events
