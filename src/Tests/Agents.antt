-- ===== src/Tests/Agents.antt =====
-- The node agent: the pod watch and the Sigil client of kprobe/kprobe-userspace/src.
use mathlib.Core.List.{Memᴰ}
use mathlib.Core.List.Permᴰ
use meshlite.Base.{
  String, ◌≡◌, ◌≢◌, refl, ◌↔◌, ◌⊎◌, true, false, none, some, List, [], ◌∷◌, Text, Bytes, codes,
  str_eq, arith,
}
use meshlite.HashMap
use meshlite.HashMap.{Entries, IsIteration}
use meshlite.Strings.{parse_ipv4}
use meshlite.CertStore
use meshlite.CertStore.{StoredCert, has_any}
use meshlite.VerdictSync.{Ipv4Addr, PodSnapshot}
use meshlite.PodWatcher
use meshlite.PodWatcher.{Pod, Event, apply, delete, init, init_done, handle, extract_service_and_ip}
use meshlite.PodWatcher.Snapshot.{known, known_history, known-run, handle_announces}
use meshlite.PodWatcher.Normal.{IsNormal, run-IsNormal}
use meshlite.SigilClient
use meshlite.SigilClient.{
  State, bootstrap, upgrading_tls, connected_tls, Node, start, CertBundle, PolicyBundle, Payload,
  cert, policy, Pushes, Attempt, no_channel, refused, subscribed, drain_bootstrap, drain_connected,
  Tls, TlsError, store_empty, err, build_tls_channel, turn, make_hello,
}
use meshlite.SigilClient.Drains.{BootstrapEnds, drain_bootstrap_lem}
use meshlite.SigilClient.Turns.{run_never_empty}
use meshlite.SigilClient.Progress.{Connects, turn-Connects, sleeps, three_turns_sleep}
use meshlite.SigilClient.Hello.{make_hello_names}

abbrev pod_at : String → String → Pod
pod_at app ip = record {
  labels = some ((codes "app", codes app) ∷ []);
  status = some (some (codes ip));
}

abbrev alpha_pod : Pod
alpha_pod = pod_at "alpha" "10.42.0.7"

abbrev beta_pod : Pod
beta_pod = pod_at "beta" "10.42.0.8"

abbrev alpha_ip : Ipv4Addr
alpha_ip = 170524679

alpha_pod_found : extract_service_and_ip alpha_pod ≡ some (codes "alpha", alpha_ip)
unfolding extract_service_and_ip HashMap.get str_eq parse_ipv4
alpha_pod_found = refl

abbrev some_events : List Event
some_events = apply alpha_pod ∷ apply beta_pod ∷ init_done ∷ delete beta_pod ∷ []

known-run_example :
    known (PodWatcher.run [] some_events) (codes "alpha") alpha_ip
    ≡ known_history (codes "alpha") alpha_ip (known [] (codes "alpha") alpha_ip) some_events
known-run_example = known-run (codes "alpha") alpha_ip [] some_events

abbrev unlabelled : Pod
unlabelled = record { labels = none; status = none }

abbrev alpha_only : PodSnapshot
alpha_only = (codes "alpha", alpha_ip ∷ []) ∷ []

unlabelled_silent : (handle alpha_only (apply unlabelled)).1 ≡ false
unfolding handle extract_service_and_ip
unlabelled_silent = refl

handle_announces_example :
    (apply unlabelled ≡ init) ⊎ ((handle alpha_only (apply unlabelled)).0 ≡ alpha_only)
handle_announces_example = handle_announces alpha_only (apply unlabelled) unlabelled_silent

run-IsNormal_example : IsNormal (PodWatcher.run alpha_only some_events)
run-IsNormal_example = run-IsNormal alpha_only some_events (tt, tt)

-- PEM texts that are read as one item each, and an endpoint that accepts everything.
abbrev pub plain_tls : Tls
plain_tls = record {
  Cert = Bytes;
  Key = Bytes;
  read_certs = λ pem. some pem ∷ [];
  read_pkcs8_keys = λ pem. some pem ∷ [];
  add_root = λ c. true;
  accepts_uri = λ uri. true;
  accepts_config = λ c k r. true;
}

abbrev pub agent_cert : CertBundle
agent_cert = record {
  service_id = codes "node-1";
  service_cert_pem = codes "leaf";
  root_ca_pem = codes "root";
  key_pem = codes "key";
}

abbrev pub strict : PolicyBundle
strict = record { rules = []; default_allow = false; mtls_mode = codes "enforce" }

abbrev pub pushes : Pushes
pushes = none ∷ some (policy strict) ∷ some (cert agent_cert) ∷ some (policy strict) ∷ []

abbrev pub in_order : Entries StoredCert → Entries StoredCert
in_order m = m

pub in_order-IsIteration : IsIteration in_order
in_order-IsIteration m = Permᴰ.refl m

abbrev pods_in_order : PodSnapshot → PodSnapshot
pods_in_order m = m

pods_in_order-IsIteration : IsIteration pods_in_order
pods_in_order-IsIteration m = Permᴰ.refl m

abbrev pub sigil : Text
sigil = codes "sigil:8443"

drain_bootstrap_lem_example : BootstrapEnds pushes start (drain_bootstrap pushes start)
drain_bootstrap_lem_example = drain_bootstrap_lem pushes start

abbrev armed : Node
armed = (drain_bootstrap pushes start).1

upgrade_connects :
    (turn plain_tls in_order sigil upgrading_tls armed (subscribed [])).state ≡ connected_tls
unfolding turn build_tls_channel SigilClient.build_from drain_bootstrap SigilClient.receive_policy
    SigilClient.receive_cert SigilClient.apply_policy_bundle CertStore.first_cert CertStore.update
    HashMap.insert
upgrade_connects = refl

turn-Connects_example :
    Connects plain_tls in_order sigil upgrading_tls armed
      (subscribed [])
      (turn plain_tls in_order sigil upgrading_tls armed (subscribed []))
turn-Connects_example =
    turn-Connects plain_tls in_order sigil upgrading_tls armed (subscribed []) upgrade_connects

abbrev attempts : List Attempt
attempts = no_channel ∷ subscribed pushes ∷ subscribed [] ∷ []

connected_after : (SigilClient.run plain_tls in_order sigil bootstrap start attempts).0 ≢ bootstrap
unfolding SigilClient.run turn build_tls_channel SigilClient.build_from drain_bootstrap
    SigilClient.receive_policy SigilClient.receive_cert SigilClient.apply_policy_bundle
    CertStore.first_cert CertStore.update HashMap.insert
connected_after e = ground arith

run_never_empty_example :
    (has_any (SigilClient.run plain_tls in_order sigil bootstrap start attempts).1.certs ≡ true)
    × (build_tls_channel plain_tls in_order sigil
          (SigilClient.run plain_tls in_order sigil bootstrap start attempts).1.certs
        ≢ err store_empty)
run_never_empty_example =
    run_never_empty plain_tls in_order sigil in_order-IsIteration attempts connected_after

three_turns_sleep_example :
    sleeps plain_tls in_order sigil bootstrap start
      (subscribed pushes ∷ subscribed [] ∷ refused ∷ [])
    ≡ true
three_turns_sleep_example =
    three_turns_sleep plain_tls in_order sigil bootstrap start (subscribed pushes) (subscribed [])
      refused

alpha_only-IsUnique : HashMap.IsUnique alpha_only
unfolding HashMap.get
alpha_only-IsUnique = (refl, tt)

make_hello_names_example :
    Memᴰ
      (codes "alpha")
      (make_hello pods_in_order alpha_only (codes "node-1") (codes "dev")).pod_service_ids
    ↔ ((codes "alpha" ≡ codes "node-1")
        ⊎ ((ips : List Ipv4Addr) × (HashMap.get (codes "alpha") alpha_only ≡ some ips)))
make_hello_names_example =
    make_hello_names pods_in_order alpha_only (codes "node-1") (codes "dev") (codes "alpha")
      pods_in_order-IsIteration alpha_only-IsUnique
