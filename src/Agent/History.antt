-- ===== src/Agent/History.antt =====
-- Where the verdicts in the maps come from, at any moment of kprobe/kprobe-userspace/src/main.rs.
use meshlite.Base.{◌≡◌, refl, sym, subst, ◌∙◌, ◌⊎◌, inl, inr}
use meshlite.Word.{Endian}
use meshlite.Bpf.{Aya}
use meshlite.PolicyCache.{PolicyCache}
use meshlite.VerdictSync.{PodSnapshot, sync}
use meshlite.Agent.{
  Phase, idle, woken, holding, ready, Agent, External, pod_event, sigil_push, Internal,
  sends_changed, takes_changed, forwards, sends_sync, wakes, clones_policy, clones_pods, reconciles,
  Reach, here, outside, inside, clone_pods, reconcile,
}

module _ (aya : Aya) (e : Endian) (iter : PodSnapshot → PodSnapshot) where
  -- The maps are what a call of `sync` left, with the policy of one moment and the pods of that moment
  -- or a later one.
  pub record IsWritten (s t : Agent aya) : Type 0 where
    pub policy_time : Agent aya
    pub pods_time : Agent aya
    pub first : Reach aya e iter s policy_time
    pub second : Reach aya e iter policy_time pods_time
    pub third : Reach aya e iter pods_time t
    pub before : aya.Verdicts
    pub flags_before : aya.Flags
    pub verdicts_written :
        t.verdicts
        ≡ (sync aya e iter policy_time.node.cache pods_time.pods before flags_before).0.verdicts
    pub flags_written :
        t.flags ≡ (sync aya e iter policy_time.node.cache pods_time.pods before flags_before).1

  -- The maps are as they were, or written.
  abbrev pub HasHistory : Agent aya → Agent aya → Type 0
  HasHistory s t = ((t.verdicts ≡ s.verdicts) × (t.flags ≡ s.flags)) ⊎ IsWritten s t

  -- What the reconciliation has cloned is what there was.
  record IsPastPolicy (s t : Agent aya) (p : PolicyCache) : Type 0 where
    time : Agent aya
    since : Reach aya e iter s time
    till : Reach aya e iter time t
    cloned : p ≡ time.node.cache

  pub record IsPast (s t : Agent aya) (p : PolicyCache) (pods : PodSnapshot) : Type 0 where
    pub policy_time : Agent aya
    pub pods_time : Agent aya
    pub first : Reach aya e iter s policy_time
    pub second : Reach aya e iter policy_time pods_time
    pub third : Reach aya e iter pods_time t
    pub policy_cloned : p ≡ policy_time.node.cache
    pub pods_cloned : pods ≡ pods_time.pods

  abbrev PhaseHistory : Agent aya → Agent aya → Phase → Type 0
  PhaseHistory s t idle = Unit
  PhaseHistory s t woken = Unit
  PhaseHistory s t (holding p) = IsPastPolicy s t p
  PhaseHistory s t (ready p pods) = IsPast s t p pods

  abbrev Histories : Agent aya → Agent aya → Type 0
  Histories s t = HasHistory s t × PhaseHistory s t t.phase

  -- A step that leaves the maps and the phase.
  module _ (s t u : Agent aya)
      (later : (r : Agent aya) → Reach aya e iter r t → Reach aya e iter r u) where
    maps_later : u.verdicts ≡ t.verdicts → u.flags ≡ t.flags → HasHistory s t → HasHistory s u
    maps_later v f (inl (a, b)) = inl (v ∙ a, f ∙ b)
    maps_later v f (inr w) = inr (record {
      policy_time = w.policy_time;
      pods_time = w.pods_time;
      first = w.first;
      second = w.second;
      third = later w.pods_time w.third;
      before = w.before;
      flags_before = w.flags_before;
      verdicts_written = v ∙ w.verdicts_written;
      flags_written = f ∙ w.flags_written;
    })

    phase_later : (phase : Phase) → PhaseHistory s t phase → PhaseHistory s u phase
    phase_later idle h = tt
    phase_later woken h = tt
    phase_later (holding p) h = record {
      time = h.time;
      since = h.since;
      till = later h.time h.till;
      cloned = h.cloned;
    }
    phase_later (ready p pods) h = record {
      policy_time = h.policy_time;
      pods_time = h.pods_time;
      first = h.first;
      second = h.second;
      third = later h.pods_time h.third;
      policy_cloned = h.policy_cloned;
      pods_cloned = h.pods_cloned;
    }

    stays :
        u.verdicts ≡ t.verdicts
        → u.flags ≡ t.flags
        → u.phase ≡ t.phase
        → Histories s t
        → Histories s u
    stays v f same (m, p) =
        (maps_later v f m, subst (PhaseHistory s u) (sym same) (phase_later t.phase p))

  External-Histories : {s t u : Agent aya} → External aya e iter t u → Histories s t → Histories s u
  External-Histories {s = s} (pod_event t event o) h =
      stays s t _ (λ r x. outside x (pod_event t event o)) refl refl refl h
  External-Histories {s = s} (sigil_push t payload o) h =
      stays s t _ (λ r x. outside x (sigil_push t payload o)) refl refl refl h

  clones_pods-Histories :
      (s t : Agent aya) (p : PolicyCache) (i : t.phase ≡ holding p)
      → Reach aya e iter s t
      → Histories s t
      → Histories s (clone_pods aya t p)
  clones_pods-Histories s t p i r (m, h) =
      let past : IsPastPolicy s t p = subst (PhaseHistory s t) i h in
      (
        maps_later s t _ (λ q x. inside x (clones_pods t p i)) refl refl m,
        record {
          policy_time = past.time;
          pods_time = t;
          first = past.since;
          second = past.till;
          third = inside here (clones_pods t p i);
          policy_cloned = past.cloned;
          pods_cloned = refl;
        },
      )

  reconciles-Histories :
      (s t : Agent aya) (p : PolicyCache) (pods : PodSnapshot) (i : t.phase ≡ ready p pods)
      → Histories s t
      → Histories s (reconcile aya e iter t p pods)
  reconciles-Histories s t p pods i (m, h) =
      let past : IsPast s t p pods = subst (PhaseHistory s t) i h in
      (
        inr (record {
          policy_time = past.policy_time;
          pods_time = past.pods_time;
          first = past.first;
          second = past.second;
          third = inside past.third (reconciles t p pods i);
          before = t.verdicts;
          flags_before = t.flags;
          verdicts_written = rw (← past.policy_cloned, ← past.pods_cloned) refl;
          flags_written = rw (← past.policy_cloned, ← past.pods_cloned) refl;
        }),
        tt,
      )

  Internal-Histories :
      {s t u : Agent aya}
      → Internal aya e iter t u
      → Reach aya e iter s t
      → Histories s t
      → Histories s u
  Internal-Histories {s = s} (sends_changed t o q) r h =
      stays s t _ (λ a x. inside x (sends_changed t o q)) refl refl refl h
  Internal-Histories {s = s} (takes_changed t o q) r h =
      stays s t _ (λ a x. inside x (takes_changed t o q)) refl refl refl h
  Internal-Histories {s = s} (forwards t o q) r h =
      stays s t _ (λ a x. inside x (forwards t o q)) refl refl refl h
  Internal-Histories {s = s} (sends_sync t o q) r h =
      stays s t _ (λ a x. inside x (sends_sync t o q)) refl refl refl h
  Internal-Histories {s = s} (wakes t i q) r h =
      (maps_later s t _ (λ a x. inside x (wakes t i q)) refl refl h.0, tt)
  Internal-Histories {s = s} (clones_policy t i) r h = (
    maps_later s t _ (λ a x. inside x (clones_policy t i)) refl refl h.0,
    record { time = t; since = r; till = inside here (clones_policy t i); cloned = refl },
  )
  Internal-Histories {s = s} (clones_pods t p i) r h = clones_pods-Histories s t p i r h
  Internal-Histories {s = s} (reconciles t p pods i) r h = reconciles-Histories s t p pods i h

  Reach-Histories : {s t : Agent aya} → s.phase ≡ idle → Reach aya e iter s t → Histories s t
  Reach-Histories {s = s} i here = (inl (refl, refl), rw i tt)
  Reach-Histories i (outside r x) = External-Histories x (Reach-Histories i r)
  Reach-Histories i (inside r x) = Internal-Histories x r (Reach-Histories i r)

  -- Through any interleaving, the maps are as they were at the start, or as a call of `sync` left them
  -- that was given the policy of one moment since and the pods of that moment or a later one.
  pub Reach-HasHistory : {s t : Agent aya} → s.phase ≡ idle → Reach aya e iter s t → HasHistory s t
  Reach-HasHistory i r = (Reach-Histories i r).0

  -- What a call of `sync` is about to be given was there, the policy at one moment and the pods at that
  -- moment or a later one.
  pub Reach-IsPast :
      {s t : Agent aya} {p : PolicyCache} {pods : PodSnapshot}
      → s.phase ≡ idle
      → Reach aya e iter s t
      → t.phase ≡ ready p pods
      → IsPast s t p pods
  Reach-IsPast {s = s} {t = t} i r about = subst (PhaseHistory s t) about (Reach-Histories i r).1
