-- ===== src/Tests/Interleavings.antt =====
-- The tasks of the agent together: kprobe/kprobe-userspace/src/main.rs.
use meshlite.Base.{
  String, ◌+◌, ◌≤◌, ◌<◌, ◌≡◌, refl, ◌↔◌, true, false, some, [], ◌∷◌, arith, codes, str_eq,
  str_eq_iff, length,
}
use meshlite.HashMap
use meshlite.Word.{little}
use meshlite.Strings.{parse_ipv4, split, parse_octet}
use meshlite.Classifier.{tc_act_shot, kprobe_egress}
use meshlite.Classifier.Frame.{frame_context, frame_context-IsFrame}
use meshlite.PolicyCache
use meshlite.PolicyCache.{PolicyCache, is_allowed}
use meshlite.Bpf.{kernel_view, max_entries}
use meshlite.Bpf.ListMap.{list_maps, list_maps-IsAya}
use meshlite.VerdictSync
use meshlite.VerdictSync.{PodSnapshot, ips_of}
use meshlite.VerdictSync.Reconcile.{planned}
use meshlite.PodWatcher
use meshlite.PodWatcher.{
  Pod, apply, handle, extract_service_and_ip, normalize, push_ip, sort, insert_sorted, dedup,
}
use meshlite.SigilClient.{PolicyBundle, policy, receive_policy, apply_policy_bundle}
use meshlite.Agent.{
  Agent, initial, boot, take_event, take_push, send_changed, Reach, here, outside, inside,
  pod_event, sigil_push, sends_changed,
}
use meshlite.Agent.Settling.{work, Run, settles, Run-work, Same, stay, step}
use meshlite.Agent.Freshness.{IsStart}
use meshlite.PodWatcher.Told.{IsOnly}
use meshlite.Agent.Inputs.{events_of, pods_of, policy_of, inputs_enforced}
use meshlite.PodWatcher.Snapshot.{is_pod_of, known_history}
use meshlite.Tests.Packets.{
  alpha_ip, beta_ip, syn_back, packet_of, pods, one_way, same_order, same_order-IsIteration,
  beta-ne-alpha, syn_back-IsJudged,
}

abbrev pod_at : String → String → Pod
pod_at app ip = record {
  labels = some ((codes "app", codes app) ∷ []);
  status = some (some (codes ip));
}

abbrev one_way_bundle : PolicyBundle
one_way_bundle = record {
  rules = one_way.rules;
  default_allow = false;
  mtls_mode = codes "enforce";
}

abbrev pub fresh : Agent list_maps
fresh = initial list_maps [] 1

pub fresh-IsStart : IsStart list_maps list_maps-IsAya little same_order same_order-IsIteration fresh
unfolding boot
fresh-IsStart = record { verdicts = []; flags = 0; booted = refl; empty = λ k. refl }

-- A pod, its announcement, the policy, and another pod.
abbrev one_pod : Agent list_maps
one_pod = take_event list_maps fresh (apply (pod_at "alpha" "10.244.1.5"))

abbrev one_told : Agent list_maps
one_told = send_changed list_maps one_pod

abbrev with_policy : Agent list_maps
with_policy = take_push list_maps one_told (policy one_way_bundle)

abbrev pub busy : Agent list_maps
busy = take_event list_maps with_policy (apply (pod_at "beta" "10.244.2.7"))

pub one_pod_told : (one_pod.owes_pod ≡ true) × (one_pod.pod_queue < 32)
unfolding handle extract_service_and_ip HashMap.get str_eq parse_ipv4 split parse_octet
one_pod_told = (refl, omega arith)

abbrev pub busy_reached : Reach list_maps little same_order fresh busy
busy_reached =
    outside
      (outside
        (inside (outside here (pod_event fresh (apply (pod_at "alpha" "10.244.1.5")) refl))
          (sends_changed one_pod one_pod_told.0 one_pod_told.1))
        (sigil_push one_told (policy one_way_bundle) refl))
      (pod_event with_policy (apply (pod_at "beta" "10.244.2.7")) refl)

busy_listed : busy.relisting ≡ false
unfolding handle extract_service_and_ip HashMap.get HashMap.insert str_eq parse_ipv4 split
    parse_octet normalize push_ip sort insert_sorted dedup ips_of receive_policy apply_policy_bundle
    PolicyCache.update
busy_listed = refl

settles_example :
    (t : Agent list_maps) × Run list_maps little same_order
      (work list_maps little same_order busy)
      busy
      t
    × (work list_maps little same_order t ≡ 0)
    × Same list_maps little same_order busy t
settles_example = settles list_maps little same_order busy

told : Run list_maps little same_order 1 one_pod one_told
told = step (sends_changed one_pod one_pod_told.0 one_pod_told.1) (stay one_told)

Run-work_example :
    work list_maps little same_order one_pod ≡ 1 + work list_maps little same_order one_told
Run-work_example = Run-work list_maps little same_order told

abbrev at_rest : Agent list_maps
at_rest = (settles list_maps little same_order busy).0

-- What the whole run was given.
abbrev known_pods : PodSnapshot
known_pods = pods_of list_maps list_maps-IsAya little same_order same_order-IsIteration busy_reached

abbrev last_pushed : PolicyCache
last_pushed =
    policy_of list_maps list_maps-IsAya little same_order same_order-IsIteration busy_reached

inputs_holds : (known_pods ≡ pods) × (last_pushed ≡ one_way)
unfolding PodWatcher.run handle extract_service_and_ip HashMap.get HashMap.insert str_eq parse_ipv4
    split parse_octet normalize push_ip sort insert_sorted dedup ips_of receive_policy
    apply_policy_bundle PolicyCache.update
inputs_holds = (refl, refl)

beta_only : IsOnly (events_of list_maps little same_order busy_reached) (codes "beta") beta_ip
unfolding is_pod_of extract_service_and_ip HashMap.get str_eq parse_ipv4 split parse_octet
beta_only g h = ground (arith, str_eq_iff (codes "beta") g)

alpha_only : IsOnly (events_of list_maps little same_order busy_reached) (codes "alpha") alpha_ip
unfolding is_pod_of extract_service_and_ip HashMap.get str_eq parse_ipv4 split parse_octet
alpha_only g h = ground (arith, str_eq_iff (codes "alpha") g)

inputs_room :
    length (
      planned list_maps list_maps-IsAya little same_order same_order-IsIteration last_pushed
        known_pods)
    ≤ max_entries
unfolding VerdictSync.svc_names ips_of HashMap.get str_eq
inputs_room = rw inputs_holds.0 (omega arith)

beta_told :
    known_history (codes "beta") beta_ip false (events_of list_maps little same_order busy_reached)
    ≡ true
unfolding is_pod_of extract_service_and_ip HashMap.get str_eq parse_ipv4 split parse_octet
beta_told = refl

alpha_told :
    known_history
      (codes "alpha")
      alpha_ip
      false
      (events_of list_maps little same_order busy_reached)
    ≡ true
unfolding is_pod_of extract_service_and_ip HashMap.get str_eq parse_ipv4 split parse_octet
alpha_told = refl

inputs_enforced_example :
    ((kprobe_egress little
        (kernel_view list_maps at_rest.verdicts at_rest.flags)
        (frame_context little syn_back)).0
      ≡ tc_act_shot)
    ↔ (is_allowed last_pushed (codes "beta") (codes "alpha") ≡ false)
inputs_enforced_example =
    inputs_enforced list_maps list_maps-IsAya little same_order same_order-IsIteration
      (codes "beta") (codes "alpha") syn_back (frame_context little syn_back)
      (packet_of beta_ip alpha_ip 2) busy_reached fresh-IsStart
      (settles list_maps little same_order busy).1 (settles list_maps little same_order busy).2
      busy_listed inputs_room beta_only alpha_only beta-ne-alpha beta_told alpha_told
      (frame_context-IsFrame little syn_back (omega arith)) syn_back-IsJudged
