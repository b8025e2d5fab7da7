-- ===== src/Agent/Enforces.antt =====
-- The agent of kprobe/kprobe-userspace/src as a whole, from what came in to the fate of a packet.
use mathlib.Core.List.{Memᴰ}
use meshlite.Base.{ℕ, ◌≤◌, ◌≡◌, ◌≢◌, ◌∙◌, ◌↔◌, false, Text, Bytes, length}
use meshlite.HashMap.{IsIteration}
use meshlite.Word.{Endian}
use meshlite.Classifier.{tc_act_shot, TcContext, kprobe_egress}
use meshlite.Classifier.Frame.{IsFrame}
use meshlite.Classifier.Filter.{Packet}
use meshlite.PolicyCache.{is_allowed}
use meshlite.Bpf.{Aya, IsAya, max_entries, kernel_view}
use meshlite.VerdictSync.{PodSnapshot, ips_of, packet_key}
use meshlite.VerdictSync.Reconcile.{IsBounded, IsOwned, planned, planned_verdict}
use meshlite.Enforcement.{IsJudged, written_enforces}
use meshlite.Agent.{Agent, Reach}
use meshlite.Agent.Settling.{work, Run, Run-Reach, Run-Same}
use meshlite.Agent.Freshness.{Reflects, IsStart, rest-Reflects}

module _ (aya : Aya) (laws : IsAya aya) (e : Endian) (iter : PodSnapshot → PodSnapshot)
    (visits : IsIteration iter) where
  rested-Reflects :
      {n : ℕ} {s t u : Agent aya}
      → IsStart aya laws e iter visits s
      → Reach aya e iter s t
      → Run aya e iter n t u
      → work aya e iter u ≡ 0
      → t.relisting ≡ false
      → Reflects aya laws e iter visits t.node.cache t.pods u.verdicts u.flags
  rested-Reflects {u = u} b r x w listed =
      let (node, pods, relisting) = Run-Same aya e iter x in
      let reflects =
        rest-Reflects aya laws e iter visits b (Run-Reach aya e iter r x) w (relisting ∙ listed) in
      rw (← node, ← pods) reflects

  -- Whatever events and pushes have come in since the start, and in whatever order the tasks ran, if the
  -- watch is not in the middle of a new list then, once the tasks have done the work they have, a packet
  -- between pods of two different services, opening a connection if it is TCP, is dropped exactly when
  -- the policy last received refuses these services; provided that no other service has one of its
  -- addresses, the addresses of pods have 32 bits and the pairs of addresses fit in the map.
  pub settled_enforces :
      {n : ℕ} {s t u : Agent aya} (f g : Text) (bytes : Bytes) (ctx : TcContext) (p : Packet)
      → IsStart aya laws e iter visits s
      → Reach aya e iter s t
      → Run aya e iter n t u
      → work aya e iter u ≡ 0
      → t.relisting ≡ false
      → length (planned aya laws e iter visits t.node.cache t.pods) ≤ max_entries
      → IsBounded t.pods
      → IsOwned t.pods f p.src
      → IsOwned t.pods g p.dst
      → f ≢ g
      → Memᴰ p.src (ips_of t.pods f)
      → Memᴰ p.dst (ips_of t.pods g)
      → IsFrame e bytes ctx
      → IsJudged bytes p
      → ((kprobe_egress e (kernel_view aya u.verdicts u.flags) ctx).0 ≡ tc_act_shot)
        ↔ (is_allowed t.node.cache f g ≡ false)
  settled_enforces {t = t} {u = u} f g bytes ctx p b r x w listed room bounded own_src own_dst n i j
        frame judged =
      let reflects = rested-Reflects b r x w listed in
      written_enforces e (kernel_view aya u.verdicts u.flags) t.node.cache f g bytes ctx p
        (reflects.keys room (packet_key e p.src p.dst)
          ∙ planned_verdict aya laws e iter visits t.node.cache t.pods f g p.src p.dst bounded
              own_src own_dst n i j)
        frame judged
