-- ===== src/SigilClient/Turns.antt =====
-- The state machine of kprobe/kprobe-userspace/src/sigil_client.rs over any sequence of turns.
use meshlite.Base.{
  Option-cases, ◌≡◌, ◌≢◌, refl, ◌∙◌, inl, inr, Bool, true, false, none, some, List, [], ◌∷◌, arith,
  Text,
}
use meshlite.HashMap.{Entries, IsIteration}
use meshlite.CertStore.{StoredCert, first_cert, has_any}
use meshlite.CertStore.Lookup.{first_cert-has_any, has_any-update}
use meshlite.SigilClient.{
  State, bootstrap, upgrading_tls, connected_tls, Node, start, CertBundle, cert, policy, Pushes,
  Attempt, no_channel, refused, subscribed, receive_cert, receive_policy, drain_bootstrap,
  drain_connected, Tls, store_empty, Built, ok, err, build_from, build_tls_channel, after_bootstrap,
  upgrading_turn, connected_turn, turn, run,
}

has_any-receive_cert :
    (bundle : CertBundle) (node : Node) → has_any (receive_cert bundle node).certs ≡ true
unfolding receive_cert
has_any-receive_cert b node =
    has_any-update node.certs b.service_id b.service_cert_pem b.root_ca_pem b.key_pem

pub has_any-drain_connected :
    (pushes : Pushes) (node : Node)
    → has_any node.certs ≡ true
    → has_any (drain_connected pushes node).certs ≡ true
unfolding drain_connected
has_any-drain_connected [] node h = h
has_any-drain_connected (none ∷ pushes) node h = has_any-drain_connected pushes node h
has_any-drain_connected (some (cert bundle) ∷ pushes) node h =
    has_any-drain_connected pushes (receive_cert bundle node) (has_any-receive_cert bundle node)
has_any-drain_connected (some (policy pb) ∷ pushes) node h =
    has_any-drain_connected pushes (receive_policy pb node) (unfold receive_policy in h)

pub has_any-drain_bootstrap :
    (pushes : Pushes) (node : Node)
    → (drain_bootstrap pushes node).0 ≡ true
    → has_any (drain_bootstrap pushes node).1.certs ≡ true
unfolding drain_bootstrap
has_any-drain_bootstrap [] node h = cc
has_any-drain_bootstrap (none ∷ pushes) node h = has_any-drain_bootstrap pushes node h
has_any-drain_bootstrap (some (cert bundle) ∷ pushes) node h = has_any-receive_cert bundle node
has_any-drain_bootstrap (some (policy pb) ∷ pushes) node h =
    has_any-drain_bootstrap pushes (receive_policy pb node) h

-- Out of the bootstrap state the store has a certificate.
abbrev pub IsArmed : State → Node → Type 0
IsArmed bootstrap node = Unit
IsArmed upgrading_tls node = has_any node.certs ≡ true
IsArmed connected_tls node = has_any node.certs ≡ true

module _ (tls : Tls) (iter : Entries StoredCert → Entries StoredCert) (addr : Text) where
  bootstrap_turn-IsArmed :
      (result : Bool × Node)
      → (result.0 ≡ true → has_any result.1.certs ≡ true)
      → IsArmed
          (after_bootstrap tls iter addr result).state
          (after_bootstrap tls iter addr result).node
  bootstrap_turn-IsArmed (true, node) h = h refl
  bootstrap_turn-IsArmed (false, node) h = tt

  turn-IsArmed :
      (state : State) (node : Node) (attempt : Attempt)
      → IsArmed state node
      → IsArmed
          (turn tls iter addr state node attempt).state
          (turn tls iter addr state node attempt).node
  unfolding turn
  turn-IsArmed bootstrap node no_channel h = tt
  turn-IsArmed bootstrap node refused h = tt
  turn-IsArmed bootstrap node (subscribed pushes) h =
      bootstrap_turn-IsArmed (drain_bootstrap pushes node) (has_any-drain_bootstrap pushes node)
  turn-IsArmed upgrading_tls node attempt h =
      go (build_tls_channel tls iter addr node.certs) attempt
    where
      go :
          (built : Built) (attempt : Attempt)
          → IsArmed
              (upgrading_turn tls iter addr node built attempt).state
              (upgrading_turn tls iter addr node built attempt).node
      go (ok ch) (subscribed pushes) = h
      go (ok ch) no_channel = h
      go (ok ch) refused = h
      go (err e) attempt = tt
  turn-IsArmed connected_tls node attempt h =
      go (build_tls_channel tls iter addr node.certs) attempt
    where
      go :
          (built : Built) (attempt : Attempt)
          → IsArmed
              (connected_turn tls iter addr node built attempt).state
              (connected_turn tls iter addr node built attempt).node
      go (ok ch) (subscribed pushes) = has_any-drain_connected pushes node h
      go (ok ch) no_channel = h
      go (ok ch) refused = h
      go (err e) no_channel = h
      go (err e) refused = h
      go (err e) (subscribed pushes) = h

  run-IsArmed :
      (state : State) (node : Node) (attempts : List Attempt)
      → IsArmed state node
      → IsArmed (run tls iter addr state node attempts).0 (run tls iter addr state node attempts).1
  unfolding run
  run-IsArmed state node [] h = h
  run-IsArmed state node (attempt ∷ attempts) h =
      let done = turn tls iter addr state node attempt in
      run-IsArmed done.state done.node attempts (turn-IsArmed state node attempt h)

  build_from-ne-store_empty : (c : StoredCert) → build_from tls iter addr c ≢ err store_empty
  unfolding build_from
  build_from-ne-store_empty c e = ground arith

  build_armed :
      IsIteration iter
      → (node : Node) → has_any node.certs ≡ true
      → build_tls_channel tls iter addr node.certs ≢ err store_empty
  unfolding build_tls_channel
  build_armed visits node h e =
      let some_cert = (first_cert-has_any iter visits node.certs).0 ∙ h in
      elim (Option-cases (first_cert iter node.certs)) [
        | inl absent ↦ ground arith
        | inr (c, there) ↦ build_from-ne-store_empty c (ground arith)
      ]

  -- From the start, through whatever the network does, the store holds a certificate whenever the
  -- state is not the bootstrap state, so that the error for an empty store does not occur there.
  pub run_never_empty :
      IsIteration iter
      → (attempts : List Attempt) → (run tls iter addr bootstrap start attempts).0 ≢ bootstrap
      → (has_any (run tls iter addr bootstrap start attempts).1.certs ≡ true)
        × (build_tls_channel tls iter addr (run tls iter addr bootstrap start attempts).1.certs
            ≢ err store_empty)
  run_never_empty visits attempts n =
      let node = (run tls iter addr bootstrap start attempts).1 in
      let armed =
        go (run tls iter addr bootstrap start attempts).0 n
          (run-IsArmed bootstrap start attempts tt) in
      (armed, build_armed visits node armed)
    where
      go :
          (state : State)
          → state ≢ bootstrap
          → IsArmed state (run tls iter addr bootstrap start attempts).1
          → has_any (run tls iter addr bootstrap start attempts).1.certs ≡ true
      go bootstrap n h = absurd (n refl)
      go upgrading_tls n h = h
      go connected_tls n h = h
