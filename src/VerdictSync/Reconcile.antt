-- ===== src/VerdictSync/Reconcile.antt =====
-- What `sync` (kprobe/kprobe-userspace/src/verdict_sync.rs) leaves in the kernel's maps.
use mathlib.Core.List.{Memᴰ}
use mathlib.Core.List.Permᴰ
use meshlite.Base.{
  ℕ, ◌≤◌, ◌<◌, ◌≡◌, ◌≢◌, sym, ap, ◌∙◌, ◌⊎◌, inl, inr, none, some, if◌then◌else◌, List, [], ◌∷◌, map,
  arith, Text, length, Option-cases, mem-perm,
}
use meshlite.HashMap
use meshlite.HashMap.{IsIteration}
use meshlite.Word.{Endian, from_be32, from_be32-to_be32}
use meshlite.Classifier.{PacketKey}
use meshlite.PolicyCache.{PolicyCache, is_allowed}
use meshlite.Classifier.Filter.{key_of}
use meshlite.Bpf.{Aya, IsAya, max_entries}
use meshlite.VerdictSync.{
  Ipv4Addr, PodSnapshot, ips_of, verdict_for, flag_for, packet_key, Progress, write_flag, clear,
  svc_names, populate, sync,
}
use meshlite.VerdictSync.Writes.{
  Write, last_write, last_write_same, last_write_none, run_writes, run_writes_effect, clear_empty,
}
use meshlite.VerdictSync.Plan.{plan, write_all-plan}
use meshlite.VerdictSync.Pairs.{Planned, mem-plan, plan-mem}

-- Addresses have 32 bits.
abbrev pub IsBounded : PodSnapshot → Type 0
IsBounded pods = (f : Text) (ip : Ipv4Addr) → Memᴰ ip (ips_of pods f) → ip < 4294967296

-- No other service has the address.
abbrev pub IsOwned : PodSnapshot → Text → Ipv4Addr → Type 0
IsOwned pods f ip = (g : Text) → Memᴰ ip (ips_of pods g) → f ≡ g

packet_key-eq :
    (e : Endian) (a b c d : Ipv4Addr)
    → a < 4294967296
    → b < 4294967296
    → c < 4294967296
    → d < 4294967296
    → packet_key e a b ≡ packet_key e c d
    → (a ≡ c) × (b ≡ d)
unfolding packet_key
packet_key-eq e a b c d ha hb hc hd p = (
  sym (from_be32-to_be32 e a ha)
      ∙ ap (λ (k : PacketKey). from_be32 e k.src_ip) p
      ∙ from_be32-to_be32 e c hc,
  sym (from_be32-to_be32 e b hb)
      ∙ ap (λ (k : PacketKey). from_be32 e k.dst_ip) p
      ∙ from_be32-to_be32 e d hd,
)

-- Two planned writes to one key write one verdict.
Planned-verdict :
    (e : Endian) (policy : PolicyCache) (pods : PodSnapshot) (f t : Text) (src dst : Ipv4Addr)
    (w : ℕ)
    → IsBounded pods
    → IsOwned pods f src
    → IsOwned pods t dst
    → Memᴰ src (ips_of pods f)
    → Memᴰ dst (ips_of pods t)
    → Planned e policy pods (packet_key e src dst, w)
    → w ≡ verdict_for policy f t
Planned-verdict e policy pods f t src dst w bounded own_src own_dst i j p =
    let keys = ap (λ (x : Write). x.0) p.is in
    let (same_src, same_dst) =
      packet_key-eq e src dst p.src p.dst (bounded f src i) (bounded t dst j)
        (bounded p.from_svc p.src p.src_of) (bounded p.to_svc p.dst p.dst_of) keys in
    let ff = own_src p.from_svc (rw same_src p.src_of) in
    let tt' = own_dst p.to_svc (rw same_dst p.dst_of) in ap (λ (x : Write). x.1) p.is ∙ rw (ff, tt')

mem-svc_names :
    (iter : PodSnapshot → PodSnapshot) (pods : PodSnapshot) (f : Text) {ip : Ipv4Addr}
    → IsIteration iter
    → Memᴰ ip (ips_of pods f)
    → Memᴰ f (map (λ entry. entry.0) (iter pods))
unfolding ips_of
mem-svc_names iter pods f {ip} visits i = go (Option-cases (HashMap.get f pods))
  where
    visited :
        (l : PodSnapshot) {ips : List Ipv4Addr}
        → Memᴰ (f, ips) l
        → Memᴰ f (map (λ entry. entry.0) l)
    visited [] m = elim m [ ]
    visited (x ∷ l) (Memᴰ.head e) = Memᴰ.head (ap (λ (y : Text × List Ipv4Addr). y.0) e)
    visited (x ∷ l) (Memᴰ.tail m) = Memᴰ.tail (visited l m)

    go :
        (HashMap.get f pods ≡ none) ⊎ ((ips : List Ipv4Addr) × (HashMap.get f pods ≡ some ips))
        → Memᴰ f (map (λ entry. entry.0) (iter pods))
    go (inl absent) = elim (rw (absent, ips_of) at i) [ ]
    go (inr (ips, there)) =
        visited (iter pods) (mem-perm (Permᴰ.symm (visits pods)) (HashMap.mem_of_get f pods there))

pub write_flag_zero :
    (aya : Aya)
    → IsAya aya
    → (policy : PolicyCache) (flags : aya.Flags)
    → aya.get_flag (write_flag aya policy flags) 0 ≡ some (flag_for policy)
unfolding write_flag
write_flag_zero aya laws policy flags =
    let (g, done, read) = laws.set_flag_zero (flag_for policy) flags in rw (done, write_flag) read

module _ (aya : Aya) (laws : IsAya aya) (e : Endian) (iter : PodSnapshot → PodSnapshot)
    (visits : IsIteration iter) (policy : PolicyCache) (pods : PodSnapshot) where
  open aya use {Verdicts, Flags, get, get_flag}

  abbrev pub names : List Text
  names = svc_names aya e iter policy pods

  abbrev pub planned : List Write
  planned = plan e policy pods names names

  pub sync-run_writes :
      (m : Verdicts) (flags : Flags)
      → (sync aya e iter policy pods m flags).0
        ≡ run_writes aya planned (record { verdicts = clear aya m; entry_count = 0 })
  unfolding sync populate
  sync-run_writes m flags = write_all-plan aya e policy pods _ _ _

  pub sync_effect :
      (m : Verdicts) (flags : Flags) (j : PacketKey)
      → length planned ≤ max_entries
      → ((sync aya e iter policy pods m flags).0.entry_count ≡ length planned)
        × (get (sync aya e iter policy pods m flags).0.verdicts j ≡ last_write planned j none)
  sync_effect m flags j room =
      let empty = laws.size_empty (clear aya m) (clear_empty aya laws m) in
      let start : Progress aya = record { verdicts = clear aya m; entry_count = 0 } in
      let (counted, read) = run_writes_effect aya laws planned j start (rw empty (omega arith)) in
      rw (sync-run_writes m flags)
        (omega arith, read ∙ ap (last_write planned j) (clear_empty aya laws m j))

  -- A pair of addresses of different services is planned.
  pub planned_mem :
      (f t : Text) (src dst : Ipv4Addr)
      → f ≢ t
      → Memᴰ src (ips_of pods f)
      → Memᴰ dst (ips_of pods t)
      → Memᴰ (packet_key e src dst, verdict_for policy f t) planned
  unfolding svc_names
  planned_mem f t src dst n i j =
      plan-mem e policy pods f t _ _ n (mem-svc_names iter pods f visits i)
        (mem-svc_names iter pods t visits j) i j

  -- What the planned writes leave for two addresses of different services.
  pub planned_verdict :
      (f t : Text) (src dst : Ipv4Addr)
      → IsBounded pods
      → IsOwned pods f src
      → IsOwned pods t dst
      → f ≢ t
      → Memᴰ src (ips_of pods f)
      → Memᴰ dst (ips_of pods t)
      → last_write planned (packet_key e src dst) none ≡ some (verdict_for policy f t)
  planned_verdict f t src dst bounded own_src own_dst n i j =
      last_write_same planned (packet_key e src dst) (verdict_for policy f t) none
        (λ w k.
          Planned-verdict e policy pods f t src dst w bounded own_src own_dst i j
            (mem-plan e policy pods names names k))
        (inl (planned_mem f t src dst n i j))

  -- After `sync`, whatever the map held before and in whatever order the services are visited, the
  -- verdict of two addresses of different services, in the order of the network, is 0 if `is_allowed`
  -- answers true for these services and 1 if it answers false, if no other service has one of the two addresses, the addresses have 32 bits and the pairs fit in
  -- the map.
  pub sync_verdict :
      (m : Verdicts) (flags : Flags) (f t : Text) (src dst : Ipv4Addr)
      → length planned ≤ max_entries
      → IsBounded pods
      → IsOwned pods f src
      → IsOwned pods t dst
      → f ≢ t
      → Memᴰ src (ips_of pods f)
      → Memᴰ dst (ips_of pods t)
      → get (sync aya e iter policy pods m flags).0.verdicts (key_of e src dst)
        ≡ some (if is_allowed policy f t then 0 else 1)
  unfolding verdict_for packet_key
  sync_verdict m flags f t src dst room bounded own_src own_dst n i j =
      (sync_effect m flags (packet_key e src dst) room).1
      ∙ planned_verdict f t src dst bounded own_src own_dst n i j

  -- A key that is of no two addresses of different services is not in the map after `sync`: nothing
  -- is left of an earlier policy or of pods that are gone.
  pub sync_no_stale :
      (m : Verdicts) (flags : Flags) (key : PacketKey)
      → length planned ≤ max_entries
      → ((f t : Text) (src dst : Ipv4Addr)
          → f ≢ t
          → Memᴰ src (ips_of pods f)
          → Memᴰ dst (ips_of pods t)
          → key ≢ packet_key e src dst)
      → get (sync aya e iter policy pods m flags).0.verdicts key ≡ none
  sync_no_stale m flags key room other =
      (sync_effect m flags key room).1
      ∙ last_write_none planned key none (λ w k.
        let p = mem-plan e policy pods names names k in
        other p.from_svc p.to_svc p.src p.dst p.differ p.src_of p.dst_of
          (ap (λ (x : Write). x.0) p.is))

  -- The flag that the classifier reads for other keys is `default_allow`.
  pub sync_flag :
      (m : Verdicts) (flags : Flags)
      → get_flag (sync aya e iter policy pods m flags).1 0 ≡ some (flag_for policy)
  unfolding sync
  sync_flag m flags = write_flag_zero aya laws policy flags
