-- ===== src/Agent/Moments.antt =====
-- Why a packet is dropped or passed at any moment of kprobe/kprobe-userspace/src, not only at rest.
use meshlite.Base.{ℕ, ◌≡◌, ap, ◌∙◌, ◌⊎◌, inl, inr, Bool, true, not, some, arith, Bytes, ◌==◌}
use meshlite.HashMap.{IsIteration}
use meshlite.Word.{Endian}
use meshlite.Classifier.{tc_act_shot, Maps, TcContext, kprobe_egress}
use meshlite.Classifier.Frame.{IsFrame}
use meshlite.Classifier.Filter.{Packet, key_of}
use meshlite.Bpf.{Aya, IsAya, kernel_view}
use meshlite.VerdictSync.{PodSnapshot, write_flag}
use meshlite.Enforcement.{IsJudged}
use meshlite.Enforcement.Accountable.{
  IsDecided, IsAnswered, Planned-IsDecided, IsAnswered, fate_by_entry, synced_accountable,
}
use meshlite.VerdictSync.Interrupted.{interrupted, interrupted-Only}
use meshlite.VerdictSync.Reconcile.{write_flag_zero}
use meshlite.PolicyCache.{PolicyCache}
use meshlite.Agent.{Agent, Reach}
use meshlite.Agent.Freshness.{IsStart}
use meshlite.Agent.History.{IsPast, Reach-IsPast}
use meshlite.Agent.Startup.Opening.{allow_all_passes}
use meshlite.Agent.Views.{IsView, resting, syncing, start_state}
use meshlite.VerdictSync.Justified.{sync-Planned}
use meshlite.Agent.LastSync.{last_sync, IsSyncedBy, last_sync-IsSyncedBy}
use meshlite.Classifier.{PacketKey}
use meshlite.Base.{none, Option}

module _ (aya : Aya) (laws : IsAya aya) (e : Endian) (iter : PodSnapshot → PodSnapshot)
    (visits : IsIteration iter) where
  -- Between two steps: everything passes before the first call of `sync`; after it, the policy and the pods
  -- of the last call decide, which are those of one moment and of that moment or a later one.
  abbrev pub IsSettledBy :
      Agent aya → Agent aya → Option (PolicyCache × PodSnapshot) → PacketKey → Bool → Type 0
  IsSettledBy s t none key passed = passed ≡ true
  IsSettledBy s t (some (policy, pods)) key passed =
      IsPast aya e iter s t policy pods × IsAnswered aya laws e iter visits policy pods key passed

  -- An entry that the last call wrote.
  abbrev pub IsLeftBy :
      Agent aya → Agent aya → Option (PolicyCache × PodSnapshot) → PacketKey → Bool → Type 0
  IsLeftBy s t none key passed = ⊥
  IsLeftBy s t (some (policy, pods)) key passed =
      IsPast aya e iter s t policy pods × IsDecided e policy pods key passed

  -- While a call is at work: an entry of the last one, or the policy and the pods of this one, with its
  -- default as long as there is no entry.
  abbrev pub IsAccountable :
      {s t : Agent aya} {maps : Maps}
      → Reach aya e iter s t
      → IsView aya e iter t maps
      → PacketKey
      → Bool
      → Type 0
  IsAccountable {s = s} {t = t} r resting key passed =
      IsSettledBy s t (last_sync aya e iter r) key passed
  IsAccountable {s = s} {t = t} r (syncing n policy pods about) key passed =
      IsLeftBy s t (last_sync aya e iter r) key passed
      ⊎ (IsPast aya e iter s t policy pods
          × (IsDecided e policy pods key passed
              ⊎ ((aya.get (interrupted aya e iter policy pods n t.verdicts) key ≡ none)
                  × (policy.default_allow ≡ passed))))

  between_steps :
      (s t : Agent aya) (o : Option (PolicyCache × PodSnapshot)) (bytes : Bytes) (ctx : TcContext)
      (p : Packet)
      → IsStart aya laws e iter visits s
      → IsSyncedBy aya e iter s t o
      → IsFrame e bytes ctx
      → IsJudged bytes p
      → IsSettledBy s t o
          (key_of e p.src p.dst)
          (not ((kprobe_egress e (kernel_view aya t.verdicts t.flags) ctx).0 == tc_act_shot))
  between_steps s t none bytes ctx p b (verdicts, flags) frame judged =
      let (at_rest, empty, flag) = start_state aya laws e iter visits s b in
      let passes =
        allow_all_passes e (kernel_view aya t.verdicts t.flags) bytes ctx
          (λ k. ap (λ m. aya.get m k) verdicts ∙ empty k) (ap (λ x. aya.get_flag x 0) flags ∙ flag)
          frame in
      ground (arith, passes)
  between_steps s t (some (policy, pods)) bytes ctx p b
        (past, before, flags_before, verdicts, flags) frame judged =
      (
        past,
        rw (verdicts, flags)
            (synced_accountable aya laws e iter visits policy pods before flags_before bytes ctx p
              frame judged),
      )

  left_by :
      (s t : Agent aya) (o : Option (PolicyCache × PodSnapshot)) (key : PacketKey) (v : ℕ)
      → IsStart aya laws e iter visits s
      → IsSyncedBy aya e iter s t o
      → aya.get t.verdicts key ≡ some v
      → IsLeftBy s t o key (not (v == 1))
  left_by s t none key v b (verdicts, flags) there =
      let (at_rest, empty, flag) = start_state aya laws e iter visits s b in
      absurd (let gone = ap (λ m. aya.get m key) verdicts ∙ empty key in ground arith)
  left_by s t (some (policy, pods)) key v b (past, before, flags_before, verdicts, flags) there = (
    past,
    Planned-IsDecided e policy pods key v (
        sync-Planned aya laws e iter visits policy pods before flags_before key v
          (rw verdicts at there)),
  )

  -- At any moment since the start, whatever the order of the steps, a packet between pod addresses, opening
  -- a connection if it is TCP: before the first call of `sync` it is passed. Between two steps after that,
  -- it is passed or dropped as the policy that the last call was given answers for two different services
  -- that have its addresses in the pods that the call was given; or as the default of that policy says, if
  -- there are none such or the pairs did not fit in the map. While a call removes and inserts, it is
  -- passed or dropped as that policy and those pods have it, of the last call or of this one; or as the
  -- default of this one says, if there is no entry then. What a call is given is the policy of some moment
  -- since the start, and the pods of that moment or a later one.
  pub always-IsAccountable :
      {s t : Agent aya} {maps : Maps} (bytes : Bytes) (ctx : TcContext) (p : Packet)
      → IsStart aya laws e iter visits s
      → (r : Reach aya e iter s t) (view : IsView aya e iter t maps) → IsFrame e bytes ctx
      → IsJudged bytes p
      → IsAccountable r view
          (key_of e p.src p.dst)
          (not ((kprobe_egress e maps ctx).0 == tc_act_shot))
  always-IsAccountable {s = s} {t = t} bytes ctx p b r resting frame judged =
      between_steps s t (last_sync aya e iter r) bytes ctx p b
        (last_sync-IsSyncedBy aya e iter (start_state aya laws e iter visits s b).0 r) frame judged
  always-IsAccountable {s = s} {t = t} bytes ctx p b r (syncing n policy pods about) frame judged =
      let at_rest = (start_state aya laws e iter visits s b).0 in
      let past = Reach-IsPast aya e iter at_rest r about in
      let key = key_of e p.src p.dst in
      let o = last_sync aya e iter r in
      let m = interrupted aya e iter policy pods n t.verdicts in
      let Entry : Bool → Type 0 =
        λ answer. IsLeftBy s t o key answer ⊎ IsDecided e policy pods key answer in
      let entry : (v : ℕ) → aya.get m key ≡ some v → Entry (not (v == 1)) = λ v there.
        elim (interrupted-Only aya e iter policy pods laws n t.verdicts key v there) [
          | inl old ↦ inl (left_by s t o key v b (last_sync-IsSyncedBy aya e iter at_rest r) old)
          | inr new ↦ inr (Planned-IsDecided e policy pods key v new)
        ] in
      elim (fate_by_entry e (kernel_view aya m (write_flag aya policy t.flags)) policy bytes ctx p
        Entry (write_flag_zero aya laws policy t.flags) entry frame judged) [
          | inl (inl left) ↦ inl left
          | inl (inr decided) ↦ inr (past, inl decided)
          | inr default ↦ inr (past, inr default)
        ]
