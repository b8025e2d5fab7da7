-- ===== src/Agent/Queues.antt =====
-- How much the two channels of kprobe/kprobe-userspace/src/main.rs hold.
use meshlite.Base.{◌≤◌, arith}
use meshlite.Word.{Endian}
use meshlite.Bpf.{Aya}
use meshlite.VerdictSync.{PodSnapshot}
use meshlite.Agent.{
  capacity, Agent, External, pod_event, sigil_push, Internal, sends_changed, takes_changed,
  forwards, sends_sync, wakes, clones_policy, clones_pods, reconciles, Reach, here, outside, inside,
}

module _ (aya : Aya) (e : Endian) (iter : PodSnapshot → PodSnapshot) where
  abbrev pub IsBounded : Agent aya → Type 0
  IsBounded s = (s.pod_queue ≤ capacity) × (s.sync_queue ≤ capacity)

  External-IsBounded : {s t : Agent aya} → External aya e iter s t → IsBounded s → IsBounded t
  External-IsBounded (pod_event s event h) b = b
  External-IsBounded (sigil_push s payload h) b = b

  Internal-IsBounded : {s t : Agent aya} → Internal aya e iter s t → IsBounded s → IsBounded t
  Internal-IsBounded (sends_changed s o r) b = omega (arith, b.0, b.1, r)
  Internal-IsBounded (takes_changed s o r) b = omega (arith, b.0, b.1, r)
  Internal-IsBounded (forwards s o r) b = omega (arith, b.0, b.1, r)
  Internal-IsBounded (sends_sync s o r) b = omega (arith, b.0, b.1, r)
  Internal-IsBounded (wakes s i r) b = omega (arith, b.0, b.1, r)
  Internal-IsBounded (clones_policy s i) b = b
  Internal-IsBounded (clones_pods s p i) b = b
  Internal-IsBounded (reconciles s p pods i) b = b

  -- Through any interleaving of the tasks, and whatever comes from outside, neither channel ever holds
  -- more messages than the 32 it was made for.
  pub Reach-IsBounded : {s t : Agent aya} → IsBounded s → Reach aya e iter s t → IsBounded t
  Reach-IsBounded b here = b
  Reach-IsBounded b (outside r x) = External-IsBounded x (Reach-IsBounded b r)
  Reach-IsBounded b (inside r x) = Internal-IsBounded x (Reach-IsBounded b r)
