-- ===== src/SigilClient/Progress.antt =====
-- How kprobe/kprobe-userspace/src/sigil_client.rs reaches its connected state, with which channel, and
-- that it does not spin.
use meshlite.Base.{
  ℕ, ◌+◌, ◌≤◌, ◌||◌, Bool-cases, ◌≡◌, ◌≢◌, refl, sym, ap, ◌++◌, codes, inl, inr, Bool, true, false,
  some, List, [], ◌∷◌, arith, Text, Option-cases,
}
use meshlite.HashMap.{Entries}
use meshlite.CertStore.{CertStore, StoredCert, first_cert}
use meshlite.SigilClient.{
  State, bootstrap, upgrading_tls, connected_tls, Node, Pushes, Attempt, no_channel, refused,
  subscribed, Tls, Channel, Built, ok, err, good, is_nil, channel_for, build_from,
  build_tls_channel, Outcome, bootstrap_turn, upgrading_turn, connected_turn, turn,
}

abbrev rank : State → ℕ
rank bootstrap = 0
rank upgrading_tls = 1
rank connected_tls = 2

module _ (tls : Tls) (iter : Entries StoredCert → Entries StoredCert) (addr : Text) where
  -- A channel presents the leaf certificate and key of one stored entry, and trusts the root of that
  -- same entry, which holds a certificate; the key is there in PKCS#8.
  pub record IsChannelOf (store : CertStore) (ch : Channel) : Type 0 where
    pub entry : StoredCert
    pub is_first : first_cert iter store ≡ some entry
    pub to_addr : ch.uri ≡ codes "https://" ++ addr
    pub presents : ch.identity_cert ≡ entry.leaf_cert_pem
    pub signs_with : ch.identity_key ≡ entry.private_key_pem
    pub trusts : ch.ca_certificate ≡ entry.root_ca_pem
    pub expects : ch.domain_name ≡ codes "sigil"
    pub has_root : is_nil (good (tls.read_certs entry.root_ca_pem)) ≡ false
    pub has_key : is_nil (good (tls.read_pkcs8_keys entry.private_key_pem)) ≡ false

  built_from :
      (store : CertStore) (ch : Channel) (c : StoredCert)
      → first_cert iter store ≡ some c
      → build_from tls iter addr c ≡ ok ch
      → IsChannelOf store ch
  unfolding build_from
  built_from store ch c e h =
      let same : channel_for tls iter addr c ≡ ch = ground arith in
      record {
        entry = c;
        is_first = e;
        to_addr = ap (λ (x : Channel). x.uri) (sym same);
        presents = ap (λ (x : Channel). x.identity_cert) (sym same);
        signs_with = ap (λ (x : Channel). x.identity_key) (sym same);
        trusts = ap (λ (x : Channel). x.ca_certificate) (sym same);
        expects = ap (λ (x : Channel). x.domain_name) (sym same);
        has_root = ground arith;
        has_key = ground arith;
      }

  built-IsChannelOf :
      (store : CertStore) (ch : Channel)
      → build_tls_channel tls iter addr store ≡ ok ch
      → IsChannelOf store ch
  unfolding build_tls_channel
  built-IsChannelOf store ch h = elim (Option-cases (first_cert iter store)) [
    | inl absent ↦ absurd (ground arith)
    | inr (c, there) ↦ built_from store ch c there (ground arith)
  ]

  -- How a turn comes to end in the connected state.
  pub record Connects (state : State) (node : Node) (attempt : Attempt) (done : Outcome)
      : Type 0 where
    pub from_upgrading : state ≡ upgrading_tls
    pub channel : Channel
    pub channel_of : IsChannelOf node.certs channel
    pub over_it : done.subscribed_over ≡ some channel
    pub stream : Pushes
    pub accepted : attempt ≡ subscribed stream
    pub unchanged : done.node ≡ node

  upgrading-Connects :
      (node : Node) (attempt : Attempt) (built : Built)
      → build_tls_channel tls iter addr node.certs ≡ built
      → (upgrading_turn tls iter addr node built attempt).state ≡ connected_tls
      → Connects upgrading_tls node attempt (upgrading_turn tls iter addr node built attempt)
  upgrading-Connects node (subscribed pushes) (ok ch) b h = record {
    from_upgrading = refl;
    channel = ch;
    channel_of = built-IsChannelOf node.certs ch b;
    over_it = refl;
    stream = pushes;
    accepted = refl;
    unchanged = refl;
  }
  upgrading-Connects node no_channel (ok ch) b h = absurd (ground arith)
  upgrading-Connects node refused (ok ch) b h = absurd (ground arith)
  upgrading-Connects node attempt (err e) b h = absurd (ground arith)

  bootstrap_never_connects :
      (node : Node) (attempt : Attempt)
      → (bootstrap_turn tls iter addr node attempt).state ≢ connected_tls
  bootstrap_never_connects node no_channel h = ground arith
  bootstrap_never_connects node refused h = ground arith
  bootstrap_never_connects node (subscribed pushes) h = ground arith

  connected_turn_sleeps :
      (node : Node) (built : Built) (attempt : Attempt)
      → ((connected_turn tls iter addr node built attempt).slept ≡ true)
        × ((connected_turn tls iter addr node built attempt).state ≡ upgrading_tls)
  connected_turn_sleeps node built attempt = ground arith

  -- The connected state is entered only from the upgrading one, by a subscription that was accepted over
  -- a TLS channel to the configured address, which presents the leaf certificate and key of the first
  -- stored entry, trusts the root of that entry and expects the name `sigil`; the caches are left as they
  -- were.
  pub turn-Connects :
      (state : State) (node : Node) (attempt : Attempt)
      → (turn tls iter addr state node attempt).state ≡ connected_tls
      → Connects state node attempt (turn tls iter addr state node attempt)
  unfolding turn
  turn-Connects bootstrap node attempt h = absurd (bootstrap_never_connects node attempt h)
  turn-Connects upgrading_tls node attempt h =
      upgrading-Connects node attempt (build_tls_channel tls iter addr node.certs) refl h
  turn-Connects connected_tls node attempt h =
      let left =
        (connected_turn_sleeps node (build_tls_channel tls iter addr node.certs) attempt).1 in
      absurd (ground arith)

  -- A turn that does not sleep goes one state up.
  turn_climbs :
      (state : State) (node : Node) (attempt : Attempt)
      → (turn tls iter addr state node attempt).slept ≡ false
      → (rank (turn tls iter addr state node attempt).state ≡ rank state + 1) × (rank state ≤ 1)
  unfolding turn
  turn_climbs bootstrap node attempt h = (ground arith, omega arith)
  turn_climbs upgrading_tls node attempt h = (ground arith, omega arith)
  turn_climbs connected_tls node attempt h =
      let slept =
        (connected_turn_sleeps node (build_tls_channel tls iter addr node.certs) attempt).0 in
      absurd (ground arith)

  -- Whether one of the turns on these attempts ends in the reconnect delay.
  abbrev pub sleeps : State → Node → List Attempt → Bool
  sleeps state node [] = false
  sleeps state node (attempt ∷ attempts) =
      let done = turn tls iter addr state node attempt in
      done.slept || sleeps done.state done.node attempts

  -- Of any three turns in a row at least one ends in the reconnect delay, whatever the network does.
  pub three_turns_sleep :
      (state : State) (node : Node) (a b c : Attempt) → sleeps state node (a ∷ b ∷ c ∷ []) ≡ true
  three_turns_sleep state node a b c =
      let one = turn tls iter addr state node a in
      let two = turn tls iter addr one.state one.node b in
      let three = turn tls iter addr two.state two.node c in
      elim (Bool-cases one.slept) [
        | inl h ↦ rw h refl
        | inr h ↦ elim (Bool-cases two.slept) [
          | inl k ↦ rw (h, k) refl
          | inr k ↦ elim (Bool-cases three.slept) [
            | inl l ↦ rw (h, k, l) refl
            | inr l ↦ absurd (
                omega (
                  arith,
                  turn_climbs state node a h,
                  turn_climbs one.state one.node b k,
                  turn_climbs two.state two.node c l,
                ))
          ]
        ]
      ]
