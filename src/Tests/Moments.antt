-- ===== src/Tests/Moments.antt =====
-- A packet while the reconciliation is at work: kprobe/kprobe-userspace/src.
use meshlite.Base.{refl, arith, not, ◌==◌}
use meshlite.Word.{little}
use meshlite.Classifier.{tc_act_shot, Maps, kprobe_egress}
use meshlite.Classifier.Frame.{frame_context, frame_context-IsFrame}
use meshlite.Classifier.Filter.{key_of}
use meshlite.Bpf.{kernel_view}
use meshlite.Bpf.ListMap.{list_maps, list_maps-IsAya}
use meshlite.VerdictSync.{write_flag}
use meshlite.VerdictSync.Interrupted.{interrupted}
use meshlite.Agent.{
  Agent, send_sync, wake, clone_policy, clone_pods, Reach, inside, sends_sync, wakes, clones_policy,
  clones_pods,
}
use meshlite.Agent.Views.{IsView, syncing}
use meshlite.Agent.Moments.{IsAccountable, always-IsAccountable}
use meshlite.Tests.Packets.{
  alpha_ip, beta_ip, syn_back, packet_of, same_order, same_order-IsIteration, syn_back-IsJudged,
}
use meshlite.Tests.Interleavings.{fresh, fresh-IsStart, busy, busy_reached}

-- The reconciliation has taken the message, the policy and the pods.
abbrev sent : Agent list_maps
sent = send_sync list_maps busy

abbrev awake : Agent list_maps
awake = wake list_maps sent

abbrev with_clone : Agent list_maps
with_clone = clone_policy list_maps awake

abbrev pub about_to_sync : Agent list_maps
about_to_sync = clone_pods list_maps with_clone busy.node.cache

pub about_to_sync_reached : Reach list_maps little same_order fresh about_to_sync
about_to_sync_reached =
    inside
      (inside
        (inside (inside busy_reached (sends_sync busy refl (omega arith)))
          (wakes sent refl (omega arith)))
        (clones_policy awake refl))
      (clones_pods with_clone busy.node.cache refl)

-- The maps after the first of the insertions.
abbrev one_inserted : Maps
one_inserted =
    kernel_view list_maps
      (interrupted list_maps little same_order busy.node.cache busy.pods 1 about_to_sync.verdicts)
      (write_flag list_maps busy.node.cache about_to_sync.flags)

abbrev one_call : IsView list_maps little same_order about_to_sync one_inserted
one_call = syncing 1 busy.node.cache busy.pods refl

always-IsAccountable_example :
    IsAccountable list_maps list_maps-IsAya little same_order same_order-IsIteration
      about_to_sync_reached one_call
      (key_of little beta_ip alpha_ip)
      (not ((kprobe_egress little one_inserted (frame_context little syn_back)).0 == tc_act_shot))
always-IsAccountable_example =
    always-IsAccountable list_maps list_maps-IsAya little same_order same_order-IsIteration syn_back
      (frame_context little syn_back) (packet_of beta_ip alpha_ip 2) fresh-IsStart
      about_to_sync_reached one_call (frame_context-IsFrame little syn_back (omega arith))
      syn_back-IsJudged
