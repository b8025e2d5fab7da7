-- ===== src/Enforcement.antt =====
-- Kprobe as a whole: the maps that `sync` (kprobe/kprobe-userspace/src/verdict_sync.rs) writes, as the
-- classifier (kprobe/kprobe-ebpf/src/main.rs) reads them for each packet.
pub mod Accountable
use mathlib.Core.List.{Memᴰ}
use meshlite.Base.{
  ℕ, ◌≤◌, ◌≡◌, ◌≢◌, sym, ◌∙◌, ◌↔◌, true, false, none, some, arith, Text, Bytes, length, ◌==◌,
  if◌then◌else◌,
}
use meshlite.HashMap.{IsIteration}
use meshlite.Word.{Endian}
use meshlite.Classifier.{tc_act_shot, PacketKey, TcContext, Maps, lookup_verdict, kprobe_egress}
use meshlite.Classifier.Frame.{IsFrame}
use meshlite.Classifier.Filter.{Packet, parse_packet, is_pod, opens_connection, key_of}
use meshlite.Classifier.Safety.{
  Dropped, lookup_verdict-Denied, Denied-lookup_verdict, kprobe_egress_drops_iff,
}
use meshlite.PolicyCache.{PolicyCache, is_allowed}
use meshlite.Bpf.{Aya, IsAya, max_entries, kernel_view}
use meshlite.VerdictSync.{
  PodSnapshot, ips_of, verdict_for, flag_for, packet_key, write_flag, clear, sync,
}
use meshlite.VerdictSync.Writes.{clear_empty}
use meshlite.VerdictSync.Reconcile.{
  IsBounded, IsOwned, planned, sync_verdict, sync_no_stale, sync_flag, write_flag_zero,
}

-- A packet whose verdict matters: between pods, and, if it is TCP, opening a connection.
pub record IsJudged (bytes : Bytes) (p : Packet) : Type 0 where
  pub parsed : parse_packet bytes ≡ some p
  pub from_pod : is_pod p.src ≡ true
  pub to_pod : is_pod p.dst ≡ true
  pub opens : p.proto ≡ 6 → opens_connection p.flags ≡ true

lookup_verdict-some :
    (maps : Maps) (key : PacketKey) (v : ℕ)
    → maps.verdict_map key ≡ some v
    → lookup_verdict maps key ≡ v
unfolding lookup_verdict
lookup_verdict-some maps key v e = ground arith

pub lookup_verdict-none :
    (maps : Maps) (key : PacketKey) (flag : ℕ)
    → maps.verdict_map key ≡ none
    → maps.policy_flags 0 ≡ some flag
    → lookup_verdict maps key ≡ (if flag == 0 then 1 else 0)
unfolding lookup_verdict
lookup_verdict-none maps key flag e f = ground arith

-- The fate of a judged packet is its verdict.
drops_by_verdict :
    (e : Endian) (maps : Maps) (bytes : Bytes) (ctx : TcContext) (p : Packet)
    → IsFrame e bytes ctx
    → IsJudged bytes p
    → ((kprobe_egress e maps ctx).0 ≡ tc_act_shot)
      ↔ (lookup_verdict maps (key_of e p.src p.dst) ≡ 1)
drops_by_verdict e maps bytes ctx p frame judged =
    let (forth, back) = kprobe_egress_drops_iff e maps bytes ctx frame in
    (
      λ h. go (forth h),
      λ h. back (record {
        packet = p;
        parsed = judged.parsed;
        from_pod = judged.from_pod;
        to_pod = judged.to_pod;
        denied = lookup_verdict-Denied maps (key_of e p.src p.dst) h;
        opens = judged.opens;
      }),
    )
  where
    go : Dropped e maps bytes → lookup_verdict maps (key_of e p.src p.dst) ≡ 1
    go d =
        let same = sym judged.parsed ∙ d.parsed in
        let packets : p ≡ d.packet = ground arith in
        rw packets (Denied-lookup_verdict maps (key_of e d.packet.src d.packet.dst) d.denied)

-- A judged packet whose verdict stands in the map is dropped exactly when the policy refuses.
pub written_enforces :
    (e : Endian) (maps : Maps) (policy : PolicyCache) (f t : Text) (bytes : Bytes) (ctx : TcContext)
    (p : Packet)
    → maps.verdict_map (packet_key e p.src p.dst) ≡ some (verdict_for policy f t)
    → IsFrame e bytes ctx
    → IsJudged bytes p
    → ((kprobe_egress e maps ctx).0 ≡ tc_act_shot) ↔ (is_allowed policy f t ≡ false)
unfolding verdict_for packet_key
written_enforces e maps policy f t bytes ctx p written frame judged =
    let read = lookup_verdict-some maps (key_of e p.src p.dst) (verdict_for policy f t) written in
    let fate = drops_by_verdict e maps bytes ctx p frame judged in
    (λ h. let denied = fate.0 h in ground arith, λ h. fate.1 (ground arith))

module _ (aya : Aya) (laws : IsAya aya) (e : Endian) (iter : PodSnapshot → PodSnapshot)
    (visits : IsIteration iter) (policy : PolicyCache) (pods : PodSnapshot) where
  open aya use {Verdicts, Flags}

  -- The maps as the classifier sees them after `sync`.
  abbrev pub synced : Verdicts → Flags → Maps
  synced m flags =
      let (done, flags') = sync aya e iter policy pods m flags in
      kernel_view aya done.verdicts flags'

  -- After `sync`, a packet between the pods of two different services, opening a connection if it is
  -- TCP, is dropped exactly when `is_allowed` refuses these services; if no other service has one of its
  -- addresses, the addresses of pods have 32 bits and the pairs of addresses fit in the map.
  pub synced_enforces :
      (m : Verdicts) (flags : Flags) (f t : Text) (bytes : Bytes) (ctx : TcContext) (p : Packet)
      → length (planned aya laws e iter visits policy pods) ≤ max_entries
      → IsBounded pods
      → IsOwned pods f p.src
      → IsOwned pods t p.dst
      → f ≢ t
      → Memᴰ p.src (ips_of pods f)
      → Memᴰ p.dst (ips_of pods t)
      → IsFrame e bytes ctx
      → IsJudged bytes p
      → ((kprobe_egress e (synced m flags) ctx).0 ≡ tc_act_shot) ↔ (is_allowed policy f t ≡ false)
  unfolding verdict_for packet_key
  synced_enforces m flags f t bytes ctx p room bounded own_src own_dst n i j frame judged =
      written_enforces e (synced m flags) policy f t bytes ctx p
        (sync_verdict aya laws e iter visits policy pods m flags f t p.src p.dst room bounded
          own_src own_dst n i j)
        frame judged

  -- After `sync`, a packet between pod addresses that are not those of two different services has the
  -- fate that `default_allow` gives it, if the pairs of addresses fit in the map; the packet opens a
  -- connection if it is TCP.
  pub synced_default :
      (m : Verdicts) (flags : Flags) (bytes : Bytes) (ctx : TcContext) (p : Packet)
      → length (planned aya laws e iter visits policy pods) ≤ max_entries
      → ((f t : Text) (src dst : ℕ)
          → f ≢ t
          → Memᴰ src (ips_of pods f)
          → Memᴰ dst (ips_of pods t)
          → packet_key e p.src p.dst ≢ packet_key e src dst)
      → IsFrame e bytes ctx
      → IsJudged bytes p
      → ((kprobe_egress e (synced m flags) ctx).0 ≡ tc_act_shot) ↔ (policy.default_allow ≡ false)
  unfolding flag_for packet_key
  synced_default m flags bytes ctx p room other frame judged =
      let absent =
        sync_no_stale aya laws e iter visits policy pods m flags (packet_key e p.src p.dst) room
          other in
      let flag = sync_flag aya laws e iter visits policy pods m flags in
      let read =
        lookup_verdict-none (synced m flags) (key_of e p.src p.dst) (flag_for policy) absent flag in
      let fate = drops_by_verdict e (synced m flags) bytes ctx p frame judged in
      (λ h. let denied = fate.0 h in ground arith, λ h. fate.1 (ground arith))

  -- Between step 2 and step 3 of `sync` every packet between pods, opening a connection if it is TCP,
  -- is dropped exactly when `default_allow` is false, whatever `is_allowed` says of the services.
  pub sync_window :
      (m : Verdicts) (flags : Flags) (bytes : Bytes) (ctx : TcContext) (p : Packet)
      → IsFrame e bytes ctx
      → IsJudged bytes p
      → ((kprobe_egress e (kernel_view aya (clear aya m) (write_flag aya policy flags)) ctx).0
          ≡ tc_act_shot)
        ↔ (policy.default_allow ≡ false)
  unfolding flag_for
  sync_window m flags bytes ctx p frame judged =
      let maps = kernel_view aya (clear aya m) (write_flag aya policy flags) in
      let key = key_of e p.src p.dst in
      let flag = write_flag_zero aya laws policy flags in
      let read = lookup_verdict-none maps key (flag_for policy) (clear_empty aya laws m key) flag in
      let fate = drops_by_verdict e maps bytes ctx p frame judged in
      (λ h. let denied = fate.0 h in ground arith, λ h. fate.1 (ground arith))
