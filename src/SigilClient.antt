-- ===== src/SigilClient.antt =====
-- kprobe/kprobe-userspace/src/sigil_client.rs: the client of the Sigil stream, with its three states.
-- A turn is one pass through the outer loop of `run`; what the network gives it is an `Attempt`.
-- PEM parsing, the root store and the endpoint (rustls, rustls-pemfile, tonic) are the fields of `Tls`.
pub mod Turns
pub mod Drains
pub mod Hello
pub mod Progress
pub mod Recovery
pub mod Address
pub mod Received
use meshlite.Base.{
  ℕ, suc, ◌+◌, Bool, true, false, not, ◌&&◌, Option, none, some, List, [], ◌∷◌, ◌++◌, map, Text,
  Bytes, codes, str_eq, any, if◌then◌else◌,
}
use meshlite.HashMap.{Entries}
use meshlite.CertStore
use meshlite.CertStore.{CertStore, StoredCert, first_cert}
use meshlite.PolicyCache
use meshlite.PolicyCache.{PolicyCache, AllowRule}
use meshlite.VerdictSync.{PodSnapshot}

pub data State : Type 0 where
  bootstrap upgrading_tls connected_tls : State

-- The messages of sigil/proto/sigil.proto, as far as they are read.
pub record CertBundle : Type 0 where
  pub service_id : Text
  pub service_cert_pem : Bytes
  pub root_ca_pem : Bytes
  pub key_pem : Bytes

pub record PolicyBundle : Type 0 where
  pub rules : List AllowRule
  pub default_allow : Bool
  pub mtls_mode : Text

pub data Payload : Type 0 where
  cert : CertBundle → Payload
  policy : PolicyBundle → Payload

-- The state that the tasks share, and how often `sync_tx` was sent on.
pub record Node : Type 0 where
  pub certs : CertStore
  pub cache : PolicyCache
  pub syncs : ℕ

abbrev pub start : Node
start = record { certs = CertStore.new; cache = PolicyCache.new; syncs = 0 }

-- The pushes of a stream, up to where it closes or fails. A push may carry no payload.
abbrev pub Pushes : Type 0
Pushes = List (Option Payload)

-- No channel, a refused `subscribe`, or a stream. A TLS channel is connected lazily, so that its failure
-- to connect is a refusal.
pub data Attempt : Type 0 where
  no_channel refused : Attempt
  subscribed : Pushes → Attempt

unfoldable pub apply_policy_bundle : PolicyBundle → PolicyCache → PolicyCache
apply_policy_bundle pb cache = PolicyCache.update cache pb.rules pb.default_allow pb.mtls_mode

-- The arms on `Payload::Cert` and `Payload::Policy`, up to the send on `sync_tx`.
unfoldable pub receive_cert : CertBundle → Node → Node
receive_cert bundle node = record node {
  certs =
      CertStore.update node.certs bundle.service_id bundle.service_cert_pem bundle.root_ca_pem
        bundle.key_pem;
  syncs = node.syncs + 1;
}

unfoldable pub receive_policy : PolicyBundle → Node → Node
receive_policy pb node = record node {
  cache = apply_policy_bundle pb node.cache;
  syncs = node.syncs + 1;
}

-- The inner loop of `State::Bootstrap`, and whether it ended in a certificate.
unfoldable pub drain_bootstrap : Pushes → Node → Bool × Node
drain_bootstrap [] node = (false, node)
drain_bootstrap (none ∷ pushes) node = drain_bootstrap pushes node
drain_bootstrap (some (cert bundle) ∷ pushes) node = (true, receive_cert bundle node)
drain_bootstrap (some (policy pb) ∷ pushes) node = drain_bootstrap pushes (receive_policy pb node)

-- The inner loop of `State::ConnectedTLS`.
unfoldable pub drain_connected : Pushes → Node → Node
drain_connected [] node = node
drain_connected (none ∷ pushes) node = drain_connected pushes node
drain_connected (some (cert bundle) ∷ pushes) node =
    drain_connected pushes (receive_cert bundle node)
drain_connected (some (policy pb) ∷ pushes) node = drain_connected pushes (receive_policy pb node)

pub record Tls : Type 1 where
  pub Cert : Type 0
  pub Key : Type 0
  pub read_certs : Bytes → List (Option Cert)
  pub read_pkcs8_keys : Bytes → List (Option Key)
  pub add_root : Cert → Bool
  pub accepts_uri : Text → Bool
  pub accepts_config : Bytes → Bytes → Bytes → Bool

pub data TlsError : Type 0 where
  store_empty no_root no_key bad_root bad_uri bad_config : TlsError

-- What the channel is set up with.
pub record Channel : Type 0 where
  pub uri : Text
  pub identity_cert : Bytes
  pub identity_key : Bytes
  pub ca_certificate : Bytes
  pub domain_name : Text

pub data Built : Type 0 where
  ok : Channel → Built
  err : TlsError → Built

-- `filter_map(|c| c.ok())`
abbrev pub good {ℓ} : {A : Type ℓ} → List (Option A) → List A
good [] = []
good (none ∷ xs) = good xs
good (some x ∷ xs) = x ∷ good xs

abbrev pub is_nil {ℓ} : {A : Type ℓ} → List A → Bool
is_nil [] = true
is_nil (_ ∷ _) = false

abbrev all {ℓ} : {A : Type ℓ} → (A → Bool) → List A → Bool
all test [] = true
all test (x ∷ xs) = test x && all test xs

-- The state after the turn, the shared state, whether the turn ended in a sleep, and the TLS channel over
-- which it called `subscribe`, if it did.
pub record Outcome : Type 0 where
  pub state : State
  pub node : Node
  pub slept : Bool
  pub subscribed_over : Option Channel

module _ (tls : Tls) (iter : Entries StoredCert → Entries StoredCert) (addr : Text) where
  open tls use {read_certs, read_pkcs8_keys, add_root, accepts_uri, accepts_config}

  abbrev pub channel_for : StoredCert → Channel
  channel_for c = record {
    uri = codes "https://" ++ addr;
    identity_cert = c.leaf_cert_pem;
    identity_key = c.private_key_pem;
    ca_certificate = c.root_ca_pem;
    domain_name = codes "sigil";
  }

  unfoldable pub build_from : StoredCert → Built
  build_from c =
      if is_nil (good (read_certs c.root_ca_pem))
      then err no_root
      else if is_nil (good (read_pkcs8_keys c.private_key_pem))
      then err no_key
      else if not (all add_root (good (read_certs c.root_ca_pem)))
      then err bad_root
      else if not (accepts_uri (codes "https://" ++ addr))
      then err bad_uri
      else if not (accepts_config c.leaf_cert_pem c.private_key_pem c.root_ca_pem)
      then err bad_config
      else ok (channel_for c)

  unfoldable pub build_tls_channel : CertStore → Built
  unfolding build_from
  build_tls_channel store = elim (first_cert iter store) [
    | some c ↦ build_from c
    | none ↦ err store_empty
  ]

  abbrev after_bootstrap : Bool × Node → Outcome
  after_bootstrap (true, node) = record {
    state = upgrading_tls;
    node = node;
    slept = false;
    subscribed_over = none;
  }
  after_bootstrap (false, node) = record {
    state = bootstrap;
    node = node;
    slept = true;
    subscribed_over = none;
  }

  abbrev bootstrap_turn : Node → Attempt → Outcome
  bootstrap_turn node (subscribed pushes) = after_bootstrap (drain_bootstrap pushes node)
  bootstrap_turn node _ = record {
    state = bootstrap;
    node = node;
    slept = true;
    subscribed_over = none;
  }

  -- The stream of this subscription is dropped.
  abbrev upgrading_turn : Node → Built → Attempt → Outcome
  upgrading_turn node (ok channel) (subscribed pushes) = record {
    state = connected_tls;
    node = node;
    slept = false;
    subscribed_over = some channel;
  }
  upgrading_turn node (ok channel) _ = record {
    state = upgrading_tls;
    node = node;
    slept = true;
    subscribed_over = some channel;
  }
  upgrading_turn node (err e) _ = record {
    state = bootstrap;
    node = node;
    slept = true;
    subscribed_over = none;
  }

  abbrev connected_turn : Node → Built → Attempt → Outcome
  connected_turn node (ok channel) (subscribed pushes) = record {
    state = upgrading_tls;
    node = drain_connected pushes node;
    slept = true;
    subscribed_over = some channel;
  }
  connected_turn node (ok channel) _ = record {
    state = upgrading_tls;
    node = node;
    slept = true;
    subscribed_over = some channel;
  }
  connected_turn node (err e) _ = record {
    state = upgrading_tls;
    node = node;
    slept = true;
    subscribed_over = none;
  }

  unfoldable pub turn : State → Node → Attempt → Outcome
  turn bootstrap node attempt = bootstrap_turn node attempt
  turn upgrading_tls node attempt = upgrading_turn node (build_tls_channel node.certs) attempt
  turn connected_tls node attempt = connected_turn node (build_tls_channel node.certs) attempt

  -- The outer loop, for as many turns as there are attempts.
  unfoldable pub run : State → Node → List Attempt → State × Node
  run state node [] = (state, node)
  run state node (attempt ∷ attempts) =
      let done = turn state node attempt in run done.state done.node attempts

-- `make_hello`; `iter` is the order of the keys of the snapshot.
pub record AgentHello : Type 0 where
  pub node_id : Text
  pub cluster_id : Text
  pub pod_service_ids : List Text

unfoldable pub make_hello : (PodSnapshot → PodSnapshot) → PodSnapshot → Text → Text → AgentHello
make_hello iter snapshot node_id cluster_id =
    let svc_ids = map (λ entry. entry.0) (iter snapshot) in
    record {
      node_id = node_id;
      cluster_id = cluster_id;
      pod_service_ids =
          if not (any (λ s. str_eq s node_id) svc_ids) then node_id ∷ svc_ids else svc_ids;
    }
