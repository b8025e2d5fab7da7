-- ===== src/Agent/Views.antt =====
-- What the classifier may find in the maps at any moment of kprobe/kprobe-userspace/src, and where its
-- entries come from.
use meshlite.Base.{ℕ, ◌≤◌, Option-cases, ◌≡◌, refl, ap, subst, ◌∙◌, inl, inr, none, some, arith}
use meshlite.HashMap.{IsIteration}
use meshlite.Word.{Endian}
use meshlite.Classifier.{Maps, PacketKey}
use meshlite.Bpf.{Aya, IsAya, kernel_view}
use meshlite.VerdictSync.{PodSnapshot, verdict_for, write_flag}
use meshlite.VerdictSync.Pairs.{Planned}
use meshlite.Reader.Reports.{IsBinary}
use meshlite.VerdictSync.Justified.{sync-Planned}
use meshlite.VerdictSync.Interrupted.{interrupted, interrupted-Only}
use meshlite.PolicyCache.{PolicyCache}
use meshlite.Agent.{idle, ready, Agent, Reach}
use meshlite.Agent.Freshness.{IsStart, initially}
use meshlite.Agent.History.{IsWritten, Reach-HasHistory}

Planned-le :
    (e : Endian) (policy : PolicyCache) (pods : PodSnapshot) (key : PacketKey) (v : ℕ)
    → Planned e policy pods (key, v)
    → v ≤ 1
unfolding verdict_for
Planned-le e policy pods key v p = let wrote = ap (λ (w : PacketKey × ℕ). w.1) p.is in ground arith

module _ (aya : Aya) (e : Endian) (iter : PodSnapshot → PodSnapshot) where
  -- What the classifier may find in the maps in a state of the agent: what stands there, or, if a call of
  -- `sync` is at work, what it has made of it.
  pub data IsView (t : Agent aya) : Maps → Type 0 where
    resting : IsView t (kernel_view aya t.verdicts t.flags)
    syncing :
        (n : ℕ) (policy : PolicyCache) (pods : PodSnapshot)
        → t.phase ≡ ready policy pods
        → IsView t (
            kernel_view aya
              (interrupted aya e iter policy pods n t.verdicts)
              (write_flag aya policy t.flags))

module _ (aya : Aya) (laws : IsAya aya) (e : Endian) (iter : PodSnapshot → PodSnapshot)
    (visits : IsIteration iter) where
  pub start_state :
      (s : Agent aya)
      → IsStart aya laws e iter visits s
      → (s.phase ≡ idle)
        × ((k : PacketKey) → aya.get s.verdicts k ≡ none)
        × (aya.get_flag s.flags 0 ≡ some 1)
  start_state s b =
      let (f, same, one) = initially aya laws e iter visits s b in
      subst
        (λ x.
          (x.phase ≡ idle)
          × ((k : PacketKey) → aya.get x.verdicts k ≡ none)
          × (aya.get_flag x.flags 0 ≡ some 1))
        same (refl, b.empty, one)

  -- An entry was planned by some call of `sync`.
  entry-Planned :
      {s t : Agent aya} (key : PacketKey) (v : ℕ)
      → IsStart aya laws e iter visits s
      → Reach aya e iter s t
      → aya.get t.verdicts key ≡ some v
      → (w : IsWritten aya e iter s t) × Planned e w.policy_time.node.cache w.pods_time.pods
          (key, v)
  entry-Planned {s = s} {t = t} key v b r there =
      let (at_rest, empty, flag) = start_state s b in
      elim (Reach-HasHistory aya e iter at_rest r) [
        | inl (verdicts, flags) ↦
            absurd (let gone = ap (λ m. aya.get m key) verdicts ∙ empty key in ground arith)
        | inr w ↦ (
          w,
          sync-Planned aya laws e iter visits w.policy_time.node.cache w.pods_time.pods w.before
              w.flags_before key v (rw w.verdicts_written at there),
        )
      ]

  entry-le :
      {s t : Agent aya} (key : PacketKey) (v : ℕ)
      → IsStart aya laws e iter visits s
      → Reach aya e iter s t
      → aya.get t.verdicts key ≡ some v
      → v ≤ 1
  entry-le key v b r there =
      let (w, planned) = entry-Planned key v b r there in
      Planned-le e w.policy_time.node.cache w.pods_time.pods key v planned

  entries-IsBinary :
      (m : aya.Verdicts) (flags : aya.Flags)
      → ((key : PacketKey) (v : ℕ) → aya.get m key ≡ some v → v ≤ 1)
      → IsBinary (kernel_view aya m flags)
  entries-IsBinary m flags small key = elim (Option-cases (aya.get m key)) [
    | inl absent ↦ rw absent refl
    | inr (v, there) ↦ let h = small key v there in rw there (ground arith)
  ]

  -- Whenever the classifier looks, it finds zeros and ones.
  pub view-IsBinary :
      {s t : Agent aya} {maps : Maps}
      → IsStart aya laws e iter visits s
      → Reach aya e iter s t
      → IsView aya e iter t maps
      → IsBinary maps
  view-IsBinary {t = t} b r resting =
      entries-IsBinary t.verdicts t.flags (λ key v there. entry-le key v b r there)
  view-IsBinary {t = t} b r (syncing n policy pods about) =
      entries-IsBinary (interrupted aya e iter policy pods n t.verdicts)
        (write_flag aya policy t.flags)
        (λ key v there.
          elim (interrupted-Only aya e iter policy pods laws n t.verdicts key v there) [
            | inl old ↦ entry-le key v b r old
            | inr new ↦ Planned-le e policy pods key v new
          ])
