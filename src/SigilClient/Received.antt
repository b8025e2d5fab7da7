-- ===== src/SigilClient/Received.antt =====
-- What a whole run of kprobe/kprobe-userspace/src/sigil_client.rs takes from its streams.
use meshlite.Base.{
  ◌≡◌, refl, sym, ap, ◌∙◌, Bool, true, false, none, some, List, [], ◌∷◌, ◌++◌, Text,
}
use meshlite.HashMap.{Entries}
use meshlite.CertStore.{StoredCert}
use meshlite.SigilClient.{
  State, bootstrap, upgrading_tls, connected_tls, Node, cert, policy, Pushes, Attempt, no_channel,
  refused, subscribed, receive_cert, receive_policy, drain_bootstrap, drain_connected, Tls, Built,
  ok, err, build_tls_channel, after_bootstrap, upgrading_turn, connected_turn, turn, run,
}

pub drain_connected-append :
    (pushes more : Pushes) (node : Node)
    → drain_connected (pushes ++ more) node ≡ drain_connected more (drain_connected pushes node)
unfolding drain_connected
drain_connected-append [] more node = refl
drain_connected-append (none ∷ pushes) more node = drain_connected-append pushes more node
drain_connected-append (some (cert bundle) ∷ pushes) more node =
    drain_connected-append pushes more (receive_cert bundle node)
drain_connected-append (some (policy pb) ∷ pushes) more node =
    drain_connected-append pushes more (receive_policy pb node)

-- The pushes up to the first certificate.
abbrev up_to_cert : Pushes → Pushes
up_to_cert [] = []
up_to_cert (none ∷ pushes) = up_to_cert pushes
up_to_cert (some (cert bundle) ∷ pushes) = some (cert bundle) ∷ []
up_to_cert (some (policy pb) ∷ pushes) = some (policy pb) ∷ up_to_cert pushes

drain_bootstrap-up_to_cert :
    (pushes : Pushes) (node : Node)
    → (drain_bootstrap pushes node).1 ≡ drain_connected (up_to_cert pushes) node
unfolding drain_bootstrap drain_connected
drain_bootstrap-up_to_cert [] node = refl
drain_bootstrap-up_to_cert (none ∷ pushes) node = drain_bootstrap-up_to_cert pushes node
drain_bootstrap-up_to_cert (some (cert bundle) ∷ pushes) node = refl
drain_bootstrap-up_to_cert (some (policy pb) ∷ pushes) node =
    drain_bootstrap-up_to_cert pushes (receive_policy pb node)

module _ (tls : Tls) (iter : Entries StoredCert → Entries StoredCert) (addr : Text) where
  -- The node after is that of one stream with some pushes.
  abbrev Receives : Node → Node → Type 0
  Receives before after = (pushes : Pushes) × (after ≡ drain_connected pushes before)

  nothing_received : (node : Node) → Receives node node
  unfolding drain_connected
  nothing_received node = ([], refl)

  bootstrap-Receives :
      (result : Bool × Node) → (after_bootstrap tls iter addr result).node ≡ result.1
  bootstrap-Receives (true, node) = refl
  bootstrap-Receives (false, node) = refl

  upgrading-Receives :
      (node : Node) (built : Built) (attempt : Attempt)
      → (upgrading_turn tls iter addr node built attempt).node ≡ node
  upgrading-Receives node (ok channel) (subscribed pushes) = refl
  upgrading-Receives node (ok channel) no_channel = refl
  upgrading-Receives node (ok channel) refused = refl
  upgrading-Receives node (err x) attempt = refl

  connected-Receives :
      (node : Node) (built : Built) (attempt : Attempt)
      → Receives node (connected_turn tls iter addr node built attempt).node
  connected-Receives node (ok channel) (subscribed pushes) = (pushes, refl)
  connected-Receives node (ok channel) no_channel = nothing_received node
  connected-Receives node (ok channel) refused = nothing_received node
  connected-Receives node (err x) attempt = nothing_received node

  turn-Receives :
      (state : State) (node : Node) (attempt : Attempt)
      → Receives node (turn tls iter addr state node attempt).node
  unfolding turn drain_connected
  turn-Receives bootstrap node no_channel = ([], refl)
  turn-Receives bootstrap node refused = ([], refl)
  turn-Receives bootstrap node (subscribed pushes) = (
    up_to_cert pushes,
    bootstrap-Receives (drain_bootstrap pushes node) ∙ drain_bootstrap-up_to_cert pushes node,
  )
  turn-Receives upgrading_tls node attempt =
      ([], upgrading-Receives node (build_tls_channel tls iter addr node.certs) attempt)
  turn-Receives connected_tls node attempt =
      connected-Receives node (build_tls_channel tls iter addr node.certs) attempt

  -- Whatever the network does, the caches after a run are those that one stream with some of the pushes
  -- would have left.
  run-Receives :
      (state : State) (node : Node) (attempts : List Attempt)
      → Receives node (run tls iter addr state node attempts).1
  unfolding run
  run-Receives state node [] = nothing_received node
  run-Receives state node (attempt ∷ attempts) =
      let done = turn tls iter addr state node attempt in
      let (first, here) = turn-Receives state node attempt in
      let (rest, after) = run-Receives done.state done.node attempts in
      (
        first ++ rest,
        after ∙ ap (drain_connected rest) here ∙ sym (drain_connected-append first rest node),
      )
