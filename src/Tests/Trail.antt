-- ===== src/Tests/Trail.antt =====
-- What Trace is told of a packet that is dropped while the reconciliation is at work.
use mathlib.Core.List.{Memᴰ}
use meshlite.Base.{refl, false, none, some, [], ◌∷◌, List, arith, codes, str_eq}
use meshlite.HashMap
use meshlite.Word.{little}
use meshlite.Classifier.{
  kprobe_egress, try_intercept, lookup_verdict, in_pod_cidr, pod_verdict, tcp_verdict, is_new_syn,
}
use meshlite.Classifier.Frame.{frame_context, frame_context-IsFrame}
use meshlite.Bpf.{kernel_view, key_eq}
use meshlite.Bpf.ListMap.{list_maps, list_maps-IsAya}
use meshlite.VerdictSync
use meshlite.VerdictSync.{write_flag, ips_of, verdict_for, flag_for, packet_key, good_keys}
use meshlite.VerdictSync.Interrupted.{interrupted}
use meshlite.PolicyCache
use meshlite.PolicyCache.{is_allowed, check_rules, lists}
use meshlite.PodWatcher.{
  handle, extract_service_and_ip, normalize, push_ip, sort, insert_sorted, dedup,
}
use meshlite.SigilClient.{receive_policy, apply_policy_bundle}
use meshlite.Strings.{parse_ipv4, split, parse_octet}
use meshlite.Reader.{first_service, resolve_service, read_record, in_pod_net}
use meshlite.Reader.Layout.{read_log}
use meshlite.Reader.Slots.{read_slot}
use meshlite.Telemetry
use meshlite.Telemetry.{TelemetryRecord, agent_capacity, start, emit, post_next}
use meshlite.Telemetry.ListChannel.{list_channel, list_channel-IsMpsc}
use meshlite.Agent.Views.{syncing}
use meshlite.Agent.Trail.{Seen, Happening, read, posting, events_of, IsWitnessed, run-IsWitnessed}
use meshlite.Tests.Packets.{syn_back, pods, same_order, same_order-IsIteration}
use meshlite.Tests.Interleavings.{fresh, fresh-IsStart, busy}
use meshlite.Tests.Moments.{about_to_sync, about_to_sync_reached}

abbrev seen_back : Seen list_maps little same_order fresh same_order (codes "dev")
seen_back = record {
  bytes = syn_back;
  ctx = frame_context little syn_back;
  frame = frame_context-IsFrame little syn_back (omega arith);
  time = about_to_sync;
  reached = about_to_sync_reached;
  maps =
      kernel_view list_maps
        (interrupted list_maps little same_order busy.node.cache busy.pods 2 about_to_sync.verdicts)
        (write_flag list_maps busy.node.cache about_to_sync.flags);
  view = syncing 2 busy.node.cache busy.pods refl;
  snapshot = pods;
  pad = (0, 0);
  rest = [];
}

abbrev happenings : List (Happening list_maps little same_order fresh same_order (codes "dev"))
happenings = read seen_back ∷ posting ∷ []

abbrev denial : TelemetryRecord
denial = record {
  source_service = codes "beta";
  destination_service = codes "alpha";
  cluster_id = codes "dev";
  leg = codes "intra_cluster";
  verdict = codes "deny";
  latency_ms = 0;
  tls_verified = false;
  status_code = none;
  error_reason = some (codes "policy_denied");
  timestamp = none;
}

denial_posted :
    Memᴰ denial
      (Telemetry.run list_channel
        (start list_channel agent_capacity)
        (events_of list_maps little same_order fresh same_order (codes "dev") happenings)).posted
unfolding kprobe_egress try_intercept lookup_verdict in_pod_cidr pod_verdict tcp_verdict is_new_syn
    key_eq VerdictSync.svc_names write_flag ips_of verdict_for flag_for packet_key good_keys
    is_allowed check_rules lists PolicyCache.update handle extract_service_and_ip normalize push_ip
    sort insert_sorted dedup receive_policy apply_policy_bundle parse_ipv4 split parse_octet
    first_service resolve_service read_record in_pod_net read_log read_slot Telemetry.run emit
    post_next HashMap.get HashMap.insert str_eq
denial_posted = Memᴰ.head refl

run-IsWitnessed_example :
    IsWitnessed list_maps little same_order fresh same_order (codes "dev") happenings denial
run-IsWitnessed_example =
    run-IsWitnessed list_maps list_maps-IsAya little same_order same_order-IsIteration same_order
      (codes "dev") fresh fresh-IsStart list_channel list_channel-IsMpsc happenings denial
      denial_posted
