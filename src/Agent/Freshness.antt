-- ===== src/Agent/Freshness.antt =====
-- What the maps of the kernel say of the policy and the pods, through any interleaving of the tasks of
-- kprobe/kprobe-userspace/src/main.rs.
use meshlite.Base.{
  ◌≤◌, ◌≡◌, refl, sym, ap, subst, ◌∙◌, ◌⊎◌, inl, inr, Bool, true, false, Option, none, some, [],
  ◌∷◌, map, arith, length, length-perm, some-injective, Bool-cases,
}
use meshlite.HashMap.{IsIteration}
use meshlite.Word.{Endian}
use meshlite.Classifier.{PacketKey}
use meshlite.Bpf.{Aya, IsAya, max_entries}
use meshlite.PolicyCache.{PolicyCache}
use meshlite.PodWatcher.{Event, apply, init_apply, delete, init, init_done, error, handle}
use meshlite.PodWatcher.Snapshot.{handle_announces}
use meshlite.SigilClient.{start}
use meshlite.VerdictSync.{PodSnapshot, flag_for, svc_names, sync}
use meshlite.VerdictSync.Writes.{last_write}
use meshlite.VerdictSync.Plan.{plan}
use meshlite.VerdictSync.Reconcile.{planned, sync_effect, sync_flag}
use meshlite.Agent.Settling.{is_pending, work, rested}
use meshlite.Agent.{
  Phase, idle, woken, holding, ready, Agent, initial, boot, External, pod_event, sigil_push,
  Internal, sends_changed, takes_changed, forwards, sends_sync, wakes, clones_policy, clones_pods,
  reconciles, Reach, here, outside, inside, relisting_after, take_event, clone_pods, reconcile,
}

module _ (aya : Aya) (laws : IsAya aya) (e : Endian) (iter : PodSnapshot → PodSnapshot)
    (visits : IsIteration iter) where
  -- The flag is the default of the policy, and each key has what the reconciliation writes for it, if
  -- the pairs fit in the map.
  pub record Reflects (policy : PolicyCache) (pods : PodSnapshot) (verdicts : aya.Verdicts)
      (flags : aya.Flags) : Type 0 where
    pub flag : aya.get_flag flags 0 ≡ some (flag_for policy)
    pub keys :
        length (planned aya laws e iter visits policy pods) ≤ max_entries
        → (k : PacketKey)
        → aya.get verdicts k ≡ last_write (planned aya laws e iter visits policy pods) k none

  -- What the reconciliation has at hand is what there is.
  abbrev IsCurrent : Phase → Agent aya → Type 0
  IsCurrent idle s = Reflects s.node.cache s.pods s.verdicts s.flags
  IsCurrent woken s = Unit
  IsCurrent (holding p) s = p ≡ s.node.cache
  IsCurrent (ready p pods) s = (p ≡ s.node.cache) × (pods ≡ s.pods)

  abbrev pub IsFresh : Agent aya → Type 0
  IsFresh s = (is_pending aya e iter s ≡ true) ⊎ ((s.relisting ≡ true) ⊎ IsCurrent s.phase s)

  sync-Reflects :
      (policy : PolicyCache) (pods : PodSnapshot) (m : aya.Verdicts) (flags : aya.Flags)
      → Reflects policy pods
          (sync aya e iter policy pods m flags).0.verdicts
          (sync aya e iter policy pods m flags).1
  sync-Reflects policy pods m flags = record {
    flag = sync_flag aya laws e iter visits policy pods m flags;
    keys = λ room k. (sync_effect aya laws e iter visits policy pods m flags k room).1;
  }

  relisting_stays : (event : Event) (r : Bool) → r ≡ true → relisting_after aya event false r ≡ true
  relisting_stays init r h = refl
  relisting_stays (apply pod) r h = h
  relisting_stays (init_apply pod) r h = h
  relisting_stays (delete pod) r h = h
  relisting_stays init_done r h = h
  relisting_stays error r h = h

  -- An event that leaves the pods as they are leaves current what was.
  event-IsCurrent :
      (phase : Phase) (s : Agent aya) (event : Event)
      → (handle s.pods event).0 ≡ s.pods
      → IsCurrent phase s
      → IsCurrent phase (take_event aya s event)
  event-IsCurrent idle s event same c =
      subst (λ pods. Reflects s.node.cache pods s.verdicts s.flags) (sym same) c
  event-IsCurrent woken s event same c = tt
  event-IsCurrent (holding p) s event same c = c
  event-IsCurrent (ready p pods) s event same c = (c.0, c.1 ∙ sym same)

  silent-IsFresh :
      (s : Agent aya) (event : Event)
      → s.owes_pod ≡ false
      → (handle s.pods event).1 ≡ false
      → (handle s.pods event).0 ≡ s.pods
      → IsFresh s
      → IsFresh (take_event aya s event)
  silent-IsFresh s event h quiet same (inl pending) = inl (rw quiet (rw h at pending))
  silent-IsFresh s event h quiet same (inr (inl r)) =
      inr (inl (rw quiet (relisting_stays event s.relisting r)))
  silent-IsFresh s event h quiet same (inr (inr c)) =
      inr (inr (event-IsCurrent s.phase s event same c))

  External-IsFresh : {s t : Agent aya} → External aya e iter s t → IsFresh s → IsFresh t
  External-IsFresh (sigil_push s payload h) f = inl (ground arith)
  External-IsFresh (pod_event s event h) f = elim (Bool-cases (handle s.pods event).1) [
    | inl announced ↦ inl (rw announced refl)
    | inr quiet ↦ elim (handle_announces s.pods event quiet) [
      | inl start_over ↦
          inr
            (inl (ap (λ ev. relisting_after aya ev (handle s.pods event).1 s.relisting) start_over))
      | inr same ↦ silent-IsFresh s event h quiet same f
    ]
  ]

  clone_pods-IsFresh :
      (s : Agent aya) (p : PolicyCache)
      → s.phase ≡ holding p
      → IsFresh s
      → IsFresh (clone_pods aya s p)
  clone_pods-IsFresh s p i (inl pending) = inl pending
  clone_pods-IsFresh s p i (inr (inl r)) = inr (inl r)
  clone_pods-IsFresh s p i (inr (inr c)) = inr (inr (rw i at c, refl))

  reconcile-IsFresh :
      (s : Agent aya) (p : PolicyCache) (pods : PodSnapshot)
      → s.phase ≡ ready p pods
      → IsFresh s
      → IsFresh (reconcile aya e iter s p pods)
  reconcile-IsFresh s p pods i (inl pending) = inl pending
  reconcile-IsFresh s p pods i (inr (inl r)) = inr (inl r)
  reconcile-IsFresh s p pods i (inr (inr c)) =
      let (same_policy, same_pods) = rw i at c in
      inr (inr (rw (← same_policy, ← same_pods) (sync-Reflects p pods s.verdicts s.flags)))

  Internal-IsFresh : {s t : Agent aya} → Internal aya e iter s t → IsFresh s → IsFresh t
  Internal-IsFresh (sends_changed s o r) f = inl (ground arith)
  Internal-IsFresh (takes_changed s o r) f = inl (ground arith)
  Internal-IsFresh (forwards s o r) f = inl (ground arith)
  Internal-IsFresh (sends_sync s o r) f = inl (ground arith)
  Internal-IsFresh (wakes s i r) f = inr (inr tt)
  Internal-IsFresh (clones_policy s i) f = inr (inr refl)
  Internal-IsFresh (clones_pods s p i) f = clone_pods-IsFresh s p i f
  Internal-IsFresh (reconciles s p pods i) f = reconcile-IsFresh s p pods i f

  pub Reach-IsFresh : {s t : Agent aya} → IsFresh s → Reach aya e iter s t → IsFresh t
  Reach-IsFresh f here = f
  Reach-IsFresh f (outside r x) = External-IsFresh x (Reach-IsFresh f r)
  Reach-IsFresh f (inside r x) = Internal-IsFresh x (Reach-IsFresh f r)

  -- The agent as it starts, over an empty map with the flag for allow-all.
  pub record IsStart (s : Agent aya) : Type 0 where
    pub verdicts : aya.Verdicts
    pub flags : aya.Flags
    pub booted : boot aya verdicts flags ≡ some s
    pub empty : (k : PacketKey) → aya.get verdicts k ≡ none

  no_plan : planned aya laws e iter visits start.cache [] ≡ []
  unfolding svc_names
  no_plan = go (iter []) (length-perm (visits []))
    where
      go :
          (l : PodSnapshot)
          → length l ≡ 0
          → plan e start.cache [] (map (λ x. x.0) l) (map (λ x. x.0) l) ≡ []
      go [] h = refl
      go (x ∷ l) h = absurd (omega arith)

  -- What `boot` leaves, with the flag that it has set.
  pub initially :
      (s : Agent aya) (b : IsStart s)
      → (f : aya.Flags) × (initial aya b.verdicts f ≡ s) × (aya.get_flag f 0 ≡ some 1)
  unfolding boot
  initially s b = go (aya.set_flag 0 1 b.flags) refl b.booted
    where
      go :
          (set : Option aya.Flags)
          → aya.set_flag 0 1 b.flags ≡ set
          → (elim set as (λ x. Option (Agent aya)) [
            | some f ↦ some (initial aya b.verdicts f)
            | none ↦ none
          ])
            ≡ some s
          → (f : aya.Flags) × (initial aya b.verdicts f ≡ s) × (aya.get_flag f 0 ≡ some 1)
      go none w h = absurd cc
      go (some f) w h =
          let (g, done, read) = laws.set_flag_zero 1 b.flags in
          let same : g ≡ f = some-injective _ _ (sym done ∙ w) in
          (f, some-injective _ _ h, subst (λ x. aya.get_flag x 0 ≡ some 1) same read)

  start-IsFresh : (s : Agent aya) → IsStart s → IsFresh s
  unfolding flag_for
  start-IsFresh s b =
      let (f, here_, read) = initially s b in
      subst IsFresh here_
        (inr (inr (record { flag = read; keys = λ room k. b.empty k ∙ rw no_plan refl })))

  -- Through any interleaving since the start, whenever the tasks are at rest and the watch is not in the
  -- middle of a new list, the maps are what the reconciliation makes of the present policy and pods.
  pub rest-Reflects :
      {s t : Agent aya}
      → IsStart s
      → Reach aya e iter s t
      → work aya e iter t ≡ 0
      → t.relisting ≡ false
      → Reflects t.node.cache t.pods t.verdicts t.flags
  rest-Reflects {s} {t} b r w listed = go (Reach-IsFresh (start-IsFresh s b) r)
    where
      go : IsFresh t → Reflects t.node.cache t.pods t.verdicts t.flags
      go (inl pending) = let (i, n) = rested aya e iter t w in absurd (ground arith)
      go (inr (inl l)) = absurd (ground arith)
      go (inr (inr c)) = let (i, n) = rested aya e iter t w in rw i at c
