-- ===== src/Enforcement/Accountable.antt =====
-- Why kprobe drops or passes a packet, without conditions on the pods or on the size of the map.
use mathlib.Core.List.{Memᴰ}
use meshlite.Base.{
  ℕ, ◌≡◌, ◌≢◌, ap, ◌↔◌, ◌⊎◌, inl, inr, none, some, Bool, not, arith, Text, Bytes, ◌==◌, Bool-cases,
  Option-cases,
}
use meshlite.HashMap.{IsIteration}
use meshlite.Word.{Endian}
use meshlite.Classifier.{tc_act_shot, Maps, PacketKey, TcContext, lookup_verdict, kprobe_egress}
use meshlite.Classifier.Frame.{IsFrame}
use meshlite.Classifier.Filter.{Packet, key_of}
use meshlite.PolicyCache.{PolicyCache, is_allowed}
use meshlite.Bpf.{Aya, IsAya}
use meshlite.VerdictSync.{PodSnapshot, Ipv4Addr, ips_of, verdict_for, flag_for, packet_key}
use meshlite.VerdictSync.Pairs.{Planned}
use meshlite.VerdictSync.Reconcile.{sync_flag}
use meshlite.VerdictSync.Justified.{sync-Planned}
use meshlite.VerdictSync.Absent.{IsUncovered, absent-IsUncovered}
use meshlite.Enforcement.{
  IsJudged, drops_by_verdict, lookup_verdict-some, lookup_verdict-none, synced,
}

-- The key is of addresses of two different services for which `is_allowed` has this answer.
pub record IsDecided (e : Endian) (policy : PolicyCache) (pods : PodSnapshot) (key : PacketKey)
    (answer : Bool) : Type 0 where
  pub from_svc : Text
  pub to_svc : Text
  pub src : Ipv4Addr
  pub dst : Ipv4Addr
  pub differ : from_svc ≢ to_svc
  pub src_of : Memᴰ src (ips_of pods from_svc)
  pub dst_of : Memᴰ dst (ips_of pods to_svc)
  pub key_is : key ≡ key_of e src dst
  pub answered : is_allowed policy from_svc to_svc ≡ answer

-- A verdict of one is a drop, any other is none.
dropped_by : (action v : ℕ) → (action ≡ tc_act_shot) ↔ (v ≡ 1) → (action == tc_act_shot) ≡ (v == 1)
dropped_by action v (forth, back) = elim (Bool-cases (v == 1)) [
  | inl one ↦ let h = back (ground arith) in ground arith
  | inr other ↦ elim (Bool-cases (action == tc_act_shot)) [
    | inl shot ↦ let h = forth (ground arith) in ground arith
    | inr passed ↦ ground arith
  ]
]

pub Planned-IsDecided :
    (e : Endian) (policy : PolicyCache) (pods : PodSnapshot) (key : PacketKey) (v : ℕ)
    → Planned e policy pods (key, v)
    → IsDecided e policy pods key (not (v == 1))
unfolding verdict_for packet_key
Planned-IsDecided e policy pods key v p =
    let wrote = ap (λ (w : PacketKey × ℕ). w.1) p.is in
    record {
      from_svc = p.from_svc;
      to_svc = p.to_svc;
      src = p.src;
      dst = p.dst;
      differ = p.differ;
      src_of = p.src_of;
      dst_of = p.dst_of;
      key_is = ap (λ (w : PacketKey × ℕ). w.0) p.is;
      answered = ground arith;
    }

-- A judged packet has the fate of the entry for it, or of the flag if there is none.
pub fate_by_entry :
    (e : Endian) (maps : Maps) (policy : PolicyCache) (bytes : Bytes) (ctx : TcContext) (p : Packet)
    (Reason : Bool → Type 0)
    → maps.policy_flags 0 ≡ some (flag_for policy)
    → ((v : ℕ) → maps.verdict_map (key_of e p.src p.dst) ≡ some v → Reason (not (v == 1)))
    → IsFrame e bytes ctx
    → IsJudged bytes p
    → let passed = not ((kprobe_egress e maps ctx).0 == tc_act_shot) in
      Reason passed
      ⊎ ((maps.verdict_map (key_of e p.src p.dst) ≡ none) × (policy.default_allow ≡ passed))
unfolding flag_for
fate_by_entry e maps policy bytes ctx p Reason flag entry frame judged =
    let key = key_of e p.src p.dst in
    let fate = drops_by_verdict e maps bytes ctx p frame judged in
    let same = dropped_by (kprobe_egress e maps ctx).0 (lookup_verdict maps key) fate in
    elim (Option-cases (maps.verdict_map key)) [
      | inr (v, there) ↦
          let read = lookup_verdict-some maps key v there in inl (rw (same, read) (entry v there))
      | inl absent ↦
          let read = lookup_verdict-none maps key (flag_for policy) absent flag in
          inr (absent, rw (same, read) (ground arith))
    ]

module _ (aya : Aya) (laws : IsAya aya) (e : Endian) (iter : PodSnapshot → PodSnapshot)
    (visits : IsIteration iter) (policy : PolicyCache) (pods : PodSnapshot) where
  -- A packet is passed or dropped as `is_allowed` answers for two different services that have its
  -- addresses; or as `default_allow` says, if there are no such services or the pairs do not fit in the map.
  abbrev pub IsAnswered : PacketKey → Bool → Type 0
  IsAnswered key passed =
      IsDecided e policy pods key passed
      ⊎ (IsUncovered aya laws e iter visits policy pods key × (policy.default_allow ≡ passed))

  -- This is so after `sync`, for a packet between pod addresses, opening a connection if it is TCP; also
  -- where the map is too small or addresses are shared.
  pub synced_accountable :
      (m : aya.Verdicts) (flags : aya.Flags) (bytes : Bytes) (ctx : TcContext) (p : Packet)
      → IsFrame e bytes ctx
      → IsJudged bytes p
      → IsAnswered (key_of e p.src p.dst) (
          not (
            (kprobe_egress e (synced aya laws e iter visits policy pods m flags) ctx).0
            == tc_act_shot))
  synced_accountable m flags bytes ctx p frame judged =
      let key = key_of e p.src p.dst in
      elim (fate_by_entry e (synced aya laws e iter visits policy pods m flags) policy bytes ctx p
        (IsDecided e policy pods key) (sync_flag aya laws e iter visits policy pods m flags)
        (λ v there.
          Planned-IsDecided e policy pods key v
            (sync-Planned aya laws e iter visits policy pods m flags key v there))
        frame judged) [
          | inl decided ↦ inl decided
          | inr (absent, default) ↦
              inr
                (absent-IsUncovered aya laws e iter visits policy pods m flags key absent, default)
        ]
