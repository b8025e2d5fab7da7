-- ===== src/Agent/LastSync.antt =====
-- The last call of `sync` in a run of kprobe/kprobe-userspace/src/main.rs.
use meshlite.Base.{◌≡◌, refl, ◌∙◌, Option, none, some}
use meshlite.Word.{Endian}
use meshlite.Bpf.{Aya}
use meshlite.PolicyCache.{PolicyCache}
use meshlite.VerdictSync.{PodSnapshot, sync}
use meshlite.Agent.{
  idle, Agent, pod_event, sigil_push, sends_changed, takes_changed, forwards, sends_sync, wakes,
  clones_policy, clones_pods, reconciles, Reach, here, outside, inside,
}
use meshlite.Agent.History.{IsPast, Reach-IsPast}

module _ (aya : Aya) (e : Endian) (iter : PodSnapshot → PodSnapshot) where
  -- The policy and the pods that the last call was given, if there was one.
  abbrev pub last_sync :
      {s t : Agent aya} → Reach aya e iter s t → Option (PolicyCache × PodSnapshot)
  last_sync here = none
  last_sync (outside r x) = last_sync r
  last_sync (inside r (reconciles t p pods i)) = some (p, pods)
  last_sync (inside r (sends_changed t o q)) = last_sync r
  last_sync (inside r (takes_changed t o q)) = last_sync r
  last_sync (inside r (forwards t o q)) = last_sync r
  last_sync (inside r (sends_sync t o q)) = last_sync r
  last_sync (inside r (wakes t i q)) = last_sync r
  last_sync (inside r (clones_policy t i)) = last_sync r
  last_sync (inside r (clones_pods t p i)) = last_sync r

  -- The maps are as at the start, or as this call left them.
  abbrev pub IsSyncedBy : Agent aya → Agent aya → Option (PolicyCache × PodSnapshot) → Type 0
  IsSyncedBy s t none = (t.verdicts ≡ s.verdicts) × (t.flags ≡ s.flags)
  IsSyncedBy s t (some (p, pods)) =
      IsPast aya e iter s t p pods
      × (before : aya.Verdicts) × (flags_before : aya.Flags) × (t.verdicts
          ≡ (sync aya e iter p pods before flags_before).0.verdicts)
      × (t.flags ≡ (sync aya e iter p pods before flags_before).1)

  IsPast-later :
      (s t u : Agent aya) (p : PolicyCache) (pods : PodSnapshot)
      → ((r : Agent aya) → Reach aya e iter r t → Reach aya e iter r u)
      → IsPast aya e iter s t p pods
      → IsPast aya e iter s u p pods
  IsPast-later s t u p pods later past = record {
    policy_time = past.policy_time;
    pods_time = past.pods_time;
    first = past.first;
    second = past.second;
    third = later past.pods_time past.third;
    policy_cloned = past.policy_cloned;
    pods_cloned = past.pods_cloned;
  }

  keeps :
      (s t u : Agent aya) (o : Option (PolicyCache × PodSnapshot))
      → ((r : Agent aya) → Reach aya e iter r t → Reach aya e iter r u)
      → u.verdicts ≡ t.verdicts
      → u.flags ≡ t.flags
      → IsSyncedBy s t o
      → IsSyncedBy s u o
  keeps s t u none later v f (a, b) = (v ∙ a, f ∙ b)
  keeps s t u (some (p, pods)) later v f (past, before, flags_before, a, b) =
      (IsPast-later s t u p pods later past, before, flags_before, v ∙ a, f ∙ b)

  pub last_sync-IsSyncedBy :
      {s t : Agent aya} → s.phase ≡ idle → (r : Reach aya e iter s t) → IsSyncedBy s t (last_sync r)
  last_sync-IsSyncedBy i here = (refl, refl)
  last_sync-IsSyncedBy {s = s} i (outside r (pod_event t event o)) =
      keeps s t _ (last_sync r) (λ a x. outside x (pod_event t event o)) refl refl
        (last_sync-IsSyncedBy i r)
  last_sync-IsSyncedBy {s = s} i (outside r (sigil_push t payload o)) =
      keeps s t _ (last_sync r) (λ a x. outside x (sigil_push t payload o)) refl refl
        (last_sync-IsSyncedBy i r)
  last_sync-IsSyncedBy {s = s} i (inside r (reconciles t p pods about)) = (
    IsPast-later s t _ p pods (λ a x. inside x (reconciles t p pods about))
        (Reach-IsPast aya e iter i r about),
    t.verdicts,
    t.flags,
    refl,
    refl,
  )
  last_sync-IsSyncedBy {s = s} i (inside r (sends_changed t o q)) =
      keeps s t _ (last_sync r) (λ a x. inside x (sends_changed t o q)) refl refl
        (last_sync-IsSyncedBy i r)
  last_sync-IsSyncedBy {s = s} i (inside r (takes_changed t o q)) =
      keeps s t _ (last_sync r) (λ a x. inside x (takes_changed t o q)) refl refl
        (last_sync-IsSyncedBy i r)
  last_sync-IsSyncedBy {s = s} i (inside r (forwards t o q)) =
      keeps s t _ (last_sync r) (λ a x. inside x (forwards t o q)) refl refl
        (last_sync-IsSyncedBy i r)
  last_sync-IsSyncedBy {s = s} i (inside r (sends_sync t o q)) =
      keeps s t _ (last_sync r) (λ a x. inside x (sends_sync t o q)) refl refl
        (last_sync-IsSyncedBy i r)
  last_sync-IsSyncedBy {s = s} i (inside r (wakes t j q)) =
      keeps s t _ (last_sync r) (λ a x. inside x (wakes t j q)) refl refl (last_sync-IsSyncedBy i r)
  last_sync-IsSyncedBy {s = s} i (inside r (clones_policy t j)) =
      keeps s t _ (last_sync r) (λ a x. inside x (clones_policy t j)) refl refl
        (last_sync-IsSyncedBy i r)
  last_sync-IsSyncedBy {s = s} i (inside r (clones_pods t p j)) =
      keeps s t _ (last_sync r) (λ a x. inside x (clones_pods t p j)) refl refl
        (last_sync-IsSyncedBy i r)
