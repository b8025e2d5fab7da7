-- ===== src/SigilClient/Recovery.antt =====
-- How kprobe/kprobe-userspace/src/sigil_client.rs comes back to its connected state once Sigil answers.
use mathlib.Core.List.{Memᴰ}
use meshlite.Base.{
  ◌≡◌, refl, sym, ap, subst, ◌∙◌, ◌⊎◌, inl, inr, Bool, true, false, Option, none, some,
  some-injective, [], ◌∷◌, arith, Text, Option-cases, All, All-mem, head?, mem-perm,
}
use mathlib.Core.Option
use meshlite.HashMap
use meshlite.HashMap.{Entries, IsIteration}
use meshlite.CertStore
use meshlite.CertStore.{CertStore, StoredCert, first_cert, has_any}
use meshlite.CertStore.Lookup.{first_cert-has_any}
use meshlite.SigilClient.{
  State, bootstrap, upgrading_tls, connected_tls, Node, CertBundle, Payload, cert, policy, Pushes,
  subscribed, receive_cert, receive_policy, drain_bootstrap, drain_connected, Tls, Channel, Built,
  ok, err, build_from, build_tls_channel, after_bootstrap, connected_turn, turn,
}
use meshlite.SigilClient.Turns.{IsArmed, has_any-drain_connected, has_any-drain_bootstrap}

module _ (tls : Tls) (iter : Entries StoredCert → Entries StoredCert) (addr : Text) where
  -- A channel can be set up from the entry.
  abbrev pub IsUsable : StoredCert → Type 0
  IsUsable c = (ch : Channel) × (build_from tls iter addr c ≡ ok ch)

  abbrev pub AllUsable : CertStore → Type 0
  AllUsable store = All (λ entry. IsUsable entry.1) store.certs

  abbrev stored : CertBundle → StoredCert
  stored b = record {
    leaf_cert_pem = b.service_cert_pem;
    root_ca_pem = b.root_ca_pem;
    private_key_pem = b.key_pem;
  }

  abbrev UsablePush : Option Payload → Type 0
  UsablePush (some (cert bundle)) = IsUsable (stored bundle)
  UsablePush _ = Unit

  abbrev pub AllUsablePushes : Pushes → Type 0
  AllUsablePushes = All UsablePush

  receive_cert-AllUsable :
      (bundle : CertBundle) (node : Node)
      → IsUsable (stored bundle)
      → AllUsable node.certs
      → AllUsable (receive_cert bundle node).certs
  unfolding receive_cert CertStore.update
  receive_cert-AllUsable b node p h =
      HashMap.All-insert IsUsable b.service_id (stored b) node.certs.certs p h

  drain_connected-AllUsable :
      (pushes : Pushes) (node : Node)
      → AllUsablePushes pushes
      → AllUsable node.certs
      → AllUsable (drain_connected pushes node).certs
  unfolding drain_connected
  drain_connected-AllUsable [] node p h = h
  drain_connected-AllUsable (none ∷ pushes) node p h = drain_connected-AllUsable pushes node p.1 h
  drain_connected-AllUsable (some (cert bundle) ∷ pushes) node p h =
      drain_connected-AllUsable pushes (receive_cert bundle node) p.1
        (receive_cert-AllUsable bundle node p.0 h)
  drain_connected-AllUsable (some (policy pb) ∷ pushes) node p h =
      drain_connected-AllUsable pushes (receive_policy pb node) p.1 (unfold receive_policy in h)

  drain_bootstrap-AllUsable :
      (pushes : Pushes) (node : Node)
      → AllUsablePushes pushes
      → AllUsable node.certs
      → AllUsable (drain_bootstrap pushes node).1.certs
  unfolding drain_bootstrap
  drain_bootstrap-AllUsable [] node p h = h
  drain_bootstrap-AllUsable (none ∷ pushes) node p h = drain_bootstrap-AllUsable pushes node p.1 h
  drain_bootstrap-AllUsable (some (cert bundle) ∷ pushes) node p h =
      receive_cert-AllUsable bundle node p.0 h
  drain_bootstrap-AllUsable (some (policy pb) ∷ pushes) node p h =
      drain_bootstrap-AllUsable pushes (receive_policy pb node) p.1 (unfold receive_policy in h)

  -- The stream brings a certificate.
  abbrev pub BringsCert : Pushes → Type 0
  BringsCert [] = ⊥
  BringsCert (some (cert bundle) ∷ pushes) = Unit
  BringsCert (_ ∷ pushes) = BringsCert pushes

  drain_bootstrap_ends :
      (pushes : Pushes) (node : Node) → BringsCert pushes → (drain_bootstrap pushes node).0 ≡ true
  unfolding drain_bootstrap
  drain_bootstrap_ends [] node b = absurd b
  drain_bootstrap_ends (none ∷ pushes) node b = drain_bootstrap_ends pushes node b
  drain_bootstrap_ends (some (cert bundle) ∷ pushes) node b = refl
  drain_bootstrap_ends (some (policy pb) ∷ pushes) node b =
      drain_bootstrap_ends pushes (receive_policy pb node) b

  first_cert-IsUsable :
      IsIteration iter
      → (store : CertStore) (c : StoredCert) → AllUsable store
      → first_cert iter store ≡ some c
      → IsUsable c
  unfolding first_cert
  first_cert-IsUsable visits store c u e =
      go (iter store.certs) (λ x m. mem-perm (visits store.certs) m) e
    where
      go :
          (l : Entries StoredCert)
          → ((x : Text × StoredCert) → Memᴰ x l → Memᴰ x store.certs)
          → Option.map (λ x. x.1) (head? l) ≡ some c
          → IsUsable c
      go [] sub e = cc
      go (x ∷ l) sub e =
          let (y, same, p) = All-mem store.certs u (sub x (Memᴰ.head refl)) in
          subst IsUsable (sym (ap (λ (z : Text × StoredCert). z.1) same) ∙ some-injective x.1 c e) p

  build_usable :
      IsIteration iter
      → (store : CertStore) → has_any store ≡ true
      → AllUsable store
      → (ch : Channel) × (build_tls_channel tls iter addr store ≡ ok ch)
  unfolding build_tls_channel
  build_usable visits store h u = elim (Option-cases (first_cert iter store)) [
    | inl absent ↦ let found = (first_cert-has_any iter visits store).0 ∙ h in absurd (ground arith)
    | inr (c, there) ↦
        let (ch, built) = first_cert-IsUsable visits store c u there in
        (ch, rw (there, build_tls_channel) built)
  ]

  upgrade_connects :
      IsIteration iter
      → (node : Node) (next : Pushes) → has_any node.certs ≡ true
      → AllUsable node.certs
      → (turn tls iter addr upgrading_tls node (subscribed next)).state ≡ connected_tls
  unfolding turn
  upgrade_connects visits node next h u =
      let (ch, built) = build_usable visits node.certs h u in rw (built, turn) refl

  after_bootstrap_upgrades :
      (result : Bool × Node)
      → result.0 ≡ true
      → ((after_bootstrap tls iter addr result).state ≡ upgrading_tls)
        × ((after_bootstrap tls iter addr result).node ≡ result.1)
  after_bootstrap_upgrades (true, node) h = (refl, refl)
  after_bootstrap_upgrades (false, node) h = absurd (ground arith)

  connected_turn_drains :
      (node : Node) (pushes : Pushes) (built : Built) (ch : Channel)
      → built ≡ ok ch
      → ((connected_turn tls iter addr node built (subscribed pushes)).state ≡ upgrading_tls)
        × ((connected_turn tls iter addr node built (subscribed pushes)).node
            ≡ drain_connected pushes node)
  connected_turn_drains node pushes (ok c) ch h = (refl, refl)
  connected_turn_drains node pushes (err x) ch h = absurd (ground arith)

  -- From every state in which the store has a certificate unless it is the bootstrap state, once Sigil
  -- accepts two subscriptions in a row, of which the first brings a certificate, the client is in its
  -- connected state after the first or the second; provided that a channel can be set up from each
  -- certificate that is stored or brought, and that the store is iterated over its own entries.
  pub reconnects :
      IsIteration iter
      → (state : State) (node : Node) (pushes next : Pushes) → IsArmed state node
      → AllUsable node.certs
      → AllUsablePushes pushes
      → BringsCert pushes
      → let one = turn tls iter addr state node (subscribed pushes) in
        (one.state ≡ connected_tls)
        ⊎ ((turn tls iter addr one.state one.node (subscribed next)).state ≡ connected_tls)
  unfolding turn
  reconnects visits bootstrap node pushes next a u p b =
      let ends = drain_bootstrap_ends pushes node b in
      let (up, same) = after_bootstrap_upgrades (drain_bootstrap pushes node) ends in
      inr (
        rw (up, same)
          (upgrade_connects visits (drain_bootstrap pushes node).1 next
            (has_any-drain_bootstrap pushes node ends) (drain_bootstrap-AllUsable pushes node p u)))
  reconnects visits upgrading_tls node pushes next a u p b =
      inl (upgrade_connects visits node pushes a u)
  reconnects visits connected_tls node pushes next a u p b =
      let (ch, built) = build_usable visits node.certs a u in
      let (up, same) =
        connected_turn_drains node pushes (build_tls_channel tls iter addr node.certs) ch built in
      inr (
        rw (up, same)
          (upgrade_connects visits (drain_connected pushes node) next
            (has_any-drain_connected pushes node a) (drain_connected-AllUsable pushes node p u)))
