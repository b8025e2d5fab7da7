-- ===== src/Agent/Inputs.antt =====
-- The agent of kprobe/kprobe-userspace/src in terms of its inputs: the events of the watch and the pushes of
-- Sigil, in the order in which they came in.
use mathlib.Core.List.{Memᴰ}
use meshlite.Base.{
  ℕ, ◌≤◌, ◌≡◌, ◌≢◌, refl, sym, ap, ◌∙◌, ◌↔◌, true, false, some, List, [], ◌∷◌, ◌++◌, arith, Text,
  Bytes, length,
}
use meshlite.HashMap.{IsIteration}
use meshlite.Word.{Endian}
use meshlite.Classifier.{tc_act_shot, TcContext, kprobe_egress}
use meshlite.Classifier.Frame.{IsFrame}
use meshlite.Classifier.Filter.{Packet}
use meshlite.PolicyCache.{PolicyCache, is_allowed}
use meshlite.Bpf.{Aya, IsAya, max_entries, kernel_view}
use meshlite.VerdictSync.{PodSnapshot, ips_of}
use meshlite.VerdictSync.Reconcile.{IsBounded, IsOwned, planned}
use meshlite.PodWatcher.Told.{history_known, known_told, IsOnly}
use meshlite.PodWatcher.Bounded.{known_history-lt}
use meshlite.Enforcement.{IsJudged}
use meshlite.PodWatcher
use meshlite.PodWatcher.{Event, handle}
use meshlite.PodWatcher.Snapshot.{known_history}
use meshlite.SigilClient
use meshlite.SigilClient.{Node, Payload, cert, policy, Pushes, drain_connected}
use meshlite.SigilClient.Received.{drain_connected-append}
use meshlite.SigilClient.Drains.{last_policy, drain_connected_lem}
use meshlite.Agent.{Agent, receive, pod_event, sigil_push, Reach, here, outside, inside}
use meshlite.Agent.Settling.{work, Run, Internal-Same}
use meshlite.Agent.Freshness.{IsStart, initially}
use meshlite.Agent.Enforces.{settled_enforces}

run-append :
    (snap : PodSnapshot) (events : List Event) (event : Event)
    → PodWatcher.run snap (events ++ event ∷ []) ≡ (handle (PodWatcher.run snap events) event).0
unfolding PodWatcher.run
run-append snap [] event = refl
run-append snap (x ∷ events) event = run-append (handle snap x).0 events event

drain_connected-receive :
    (payload : Payload) (pushes : Pushes) (node : Node)
    → drain_connected (some payload ∷ pushes) node ≡ drain_connected pushes (receive payload node)
unfolding drain_connected
drain_connected-receive (cert bundle) pushes node = refl
drain_connected-receive (policy pb) pushes node = refl

drain_connected-last :
    (pushes : Pushes) (payload : Payload) (node : Node)
    → drain_connected (pushes ++ some payload ∷ []) node
      ≡ receive payload (drain_connected pushes node)
unfolding drain_connected
drain_connected-last pushes payload node =
    drain_connected-append pushes (some payload ∷ []) node
    ∙ drain_connected-receive payload [] (drain_connected pushes node)

module _ (aya : Aya) (e : Endian) (iter : PodSnapshot → PodSnapshot) where
  abbrev pub events_of : {s t : Agent aya} → Reach aya e iter s t → List Event
  events_of here = []
  events_of (outside r (pod_event u event o)) = events_of r ++ event ∷ []
  events_of (outside r (sigil_push u payload o)) = events_of r
  events_of (inside r x) = events_of r

  abbrev pub pushes_of : {s t : Agent aya} → Reach aya e iter s t → Pushes
  pushes_of here = []
  pushes_of (outside r (pod_event u event o)) = pushes_of r
  pushes_of (outside r (sigil_push u payload o)) = pushes_of r ++ some payload ∷ []
  pushes_of (inside r x) = pushes_of r

  -- However the tasks ran, the snapshot is that of the watcher alone after the events, and the policy and
  -- certificates are those of one stream with the pushes.
  pub Reach-inputs :
      {s t : Agent aya} (r : Reach aya e iter s t)
      → (t.pods ≡ PodWatcher.run s.pods (events_of r))
        × (t.node ≡ drain_connected (pushes_of r) s.node)
  unfolding PodWatcher.run drain_connected
  Reach-inputs here = (refl, refl)
  Reach-inputs {s = s} (outside r (pod_event u event o)) =
      let (pods, node) = Reach-inputs r in
      (ap (λ p. (handle p event).0) pods ∙ sym (run-append s.pods (events_of r) event), node)
  Reach-inputs {s = s} (outside r (sigil_push u payload o)) =
      let (pods, node) = Reach-inputs r in
      (pods, ap (receive payload) node ∙ sym (drain_connected-last (pushes_of r) payload s.node))
  Reach-inputs (inside r x) =
      let (pods, node) = Reach-inputs r in
      let (same_node, same_pods, same) = Internal-Same aya e iter x in
      (same_pods ∙ pods, same_node ∙ node)

module _ (aya : Aya) (laws : IsAya aya) (e : Endian) (iter : PodSnapshot → PodSnapshot)
    (visits : IsIteration iter) where
  start_inputs :
      (s : Agent aya)
      → IsStart aya laws e iter visits s
      → (s.pods ≡ []) × (s.node ≡ SigilClient.start)
  start_inputs s b =
      let (f, same, one) = initially aya laws e iter visits s b in
      (sym (ap (λ x. x.pods) same), sym (ap (λ x. x.node) same))

  -- The policy that the pushes leave, and the pods that the events leave.
  abbrev pub policy_of : {s t : Agent aya} → Reach aya e iter s t → PolicyCache
  policy_of r = last_policy (pushes_of aya e iter r) SigilClient.start.cache

  abbrev pub pods_of : {s t : Agent aya} → Reach aya e iter s t → PodSnapshot
  pods_of r = PodWatcher.run [] (events_of aya e iter r)

  reached :
      {s t : Agent aya} (r : Reach aya e iter s t)
      → IsStart aya laws e iter visits s
      → (t.pods ≡ pods_of r) × (t.node.cache ≡ policy_of r)
  reached {s = s} r b =
      let (no_pods, first) = start_inputs s b in
      let (pods, node) = Reach-inputs aya e iter r in
      let drained = (drain_connected_lem (pushes_of aya e iter r) SigilClient.start).0 in
      (
        pods ∙ ap (λ p. PodWatcher.run p (events_of aya e iter r)) no_pods,
        ap (λ n. n.cache) (node ∙ ap (drain_connected (pushes_of aya e iter r)) first) ∙ drained,
      )

  state_enforced :
      {n : ℕ} {s t u : Agent aya} (policy_in : PolicyCache) (pods_in : PodSnapshot) (f g : Text)
      (bytes : Bytes) (ctx : TcContext) (p : Packet) (r : Reach aya e iter s t)
      → t.pods ≡ pods_in
      → t.node.cache ≡ policy_in
      → IsStart aya laws e iter visits s
      → Run aya e iter n t u
      → work aya e iter u ≡ 0
      → t.relisting ≡ false
      → length (planned aya laws e iter visits policy_in pods_in) ≤ max_entries
      → IsBounded pods_in
      → IsOwned pods_in f p.src
      → IsOwned pods_in g p.dst
      → f ≢ g
      → Memᴰ p.src (ips_of pods_in f)
      → Memᴰ p.dst (ips_of pods_in g)
      → IsFrame e bytes ctx
      → IsJudged bytes p
      → ((kprobe_egress e (kernel_view aya u.verdicts u.flags) ctx).0 ≡ tc_act_shot)
        ↔ (is_allowed policy_in f g ≡ false)
  state_enforced policy_in pods_in f g bytes ctx p r pods cache b x w listed room bounded own_src
        own_dst n i j frame judged =
      rw (← cache) (
        settled_enforces aya laws e iter visits f g bytes ctx p b r x w listed
          (rw (cache, pods) room) (rw pods bounded) (rw pods own_src) (rw pods own_dst) n
          (rw pods i) (rw pods j) frame judged)

  -- In terms of what came in only: of two pods of different services that the events of the watch say to
  -- be there, a packet from one to the other, opening a connection if it is TCP, is dropped exactly when the
  -- last policy pushed refuses these services, whatever the order in which the tasks ran; once they have
  -- done the work they have, outside a new list of the watch, and provided that no other service is said to
  -- have one of the two addresses and the pairs of addresses fit in the map.
  pub inputs_enforced :
      {n : ℕ} {s t u : Agent aya} (f g : Text) (bytes : Bytes) (ctx : TcContext) (p : Packet)
      (r : Reach aya e iter s t)
      → IsStart aya laws e iter visits s
      → Run aya e iter n t u
      → work aya e iter u ≡ 0
      → t.relisting ≡ false
      → length (planned aya laws e iter visits (policy_of r) (pods_of r)) ≤ max_entries
      → IsOnly (events_of aya e iter r) f p.src
      → IsOnly (events_of aya e iter r) g p.dst
      → f ≢ g
      → known_history f p.src false (events_of aya e iter r) ≡ true
      → known_history g p.dst false (events_of aya e iter r) ≡ true
      → IsFrame e bytes ctx
      → IsJudged bytes p
      → ((kprobe_egress e (kernel_view aya u.verdicts u.flags) ctx).0 ≡ tc_act_shot)
        ↔ (is_allowed (policy_of r) f g ≡ false)
  inputs_enforced {t = t} {u = u} f g bytes ctx p r b x w listed room only_src only_dst n i j frame
        judged =
      let events = events_of aya e iter r in
      let (pods, cache) = reached r b in
      state_enforced (policy_of r) (pods_of r) f g bytes ctx p r pods cache b x w listed room
        (λ h ip m.
          known_history-lt h ip false events (λ never. absurd (ground arith))
            (known_told h ip events m))
        (λ h m. only_src h (known_told h p.src events m))
        (λ h m. only_dst h (known_told h p.dst events m)) n (history_known f p.src events i)
        (history_known g p.dst events j) frame judged
