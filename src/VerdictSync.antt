-- ===== src/VerdictSync.antt =====
-- `sync` of kprobe/kprobe-userspace/src/verdict_sync.rs: the maps of the kernel rebuilt from a policy
-- and a snapshot of the pods. `iter` is the order of `pods.keys()`. The locks are held for the length
-- of each call, so the state is passed along; logging is left out.
pub mod Writes
pub mod Plan
pub mod Pairs
pub mod Reconcile
pub mod Justified
pub mod Interrupted
pub mod Absent
use meshlite.Base.{
  ℕ, ◌+◌, Bool, true, false, Option, none, some, List, [], ◌∷◌, map, Text, str_eq, if◌then◌else◌,
}
use meshlite.HashMap
use meshlite.HashMap.{Entries}
use meshlite.Word.{Endian, to_be32}
use meshlite.Classifier.{PacketKey}
use meshlite.PolicyCache.{PolicyCache, is_allowed}
use meshlite.Bpf.{Aya}

-- `Ipv4Addr`, as the number that `u32::from` gives.
abbrev pub Ipv4Addr : Type 0
Ipv4Addr = ℕ

-- `HashMap<String, Vec<Ipv4Addr>>`
abbrev pub PodSnapshot : Type 0
PodSnapshot = Entries (List Ipv4Addr)

-- `pods[svc]`, for a key that is there: the callers take `svc` from the keys.
unfoldable pub ips_of : PodSnapshot → Text → List Ipv4Addr
ips_of pods svc = elim (HashMap.get svc pods) [ some ips ↦ ips | none ↦ [] ]

unfoldable pub verdict_for : PolicyCache → Text → Text → ℕ
verdict_for policy from_svc to_svc = if is_allowed policy from_svc to_svc then 0 else 1

unfoldable pub flag_for : PolicyCache → ℕ
flag_for policy = if policy.default_allow then 1 else 0

unfoldable pub packet_key : Endian → Ipv4Addr → Ipv4Addr → PacketKey
packet_key e src_ip dst_ip = record { src_ip = to_be32 e src_ip; dst_ip = to_be32 e dst_ip }

module _ (aya : Aya) where
  open aya use {Verdicts, Flags, insert, remove, keys, set_flag}

  -- The map and `entry_count`.
  pub record Progress : Type 0 where
    pub verdicts : Verdicts
    pub entry_count : ℕ

  -- Step 1.
  unfoldable pub write_flag : PolicyCache → Flags → Flags
  write_flag policy flags = elim (set_flag 0 (flag_for policy) flags) [ some f ↦ f | none ↦ flags ]

  -- `filter_map(|k| k.ok())`
  unfoldable pub good_keys : List (Option PacketKey) → List PacketKey
  good_keys [] = []
  good_keys (none ∷ ks) = good_keys ks
  good_keys (some k ∷ ks) = k ∷ good_keys ks

  -- `for key in &keys_to_remove { let _ = map.remove(key); }`
  unfoldable pub remove_all : List PacketKey → Verdicts → Verdicts
  remove_all [] m = m
  remove_all (k ∷ ks) m = remove_all ks (elim (remove k m) [ some n ↦ n | none ↦ m ])

  -- Step 2.
  unfoldable pub clear : Verdicts → Verdicts
  clear m = remove_all (good_keys (keys m)) m

  unfoldable pub write : PacketKey → ℕ → Progress → Progress
  write key verdict p = elim (insert key verdict p.verdicts) [
    | some m ↦ record { verdicts = m; entry_count = p.entry_count + 1 }
    | none ↦ p
  ]

  module _ (e : Endian) where
    unfoldable pub write_row : ℕ → Ipv4Addr → List Ipv4Addr → Progress → Progress
    write_row verdict src [] p = p
    write_row verdict src (dst ∷ dsts) p =
        write_row verdict src dsts (write (packet_key e src dst) verdict p)

    unfoldable pub write_block : ℕ → List Ipv4Addr → List Ipv4Addr → Progress → Progress
    write_block verdict [] dsts p = p
    write_block verdict (src ∷ srcs) dsts p =
        write_block verdict srcs dsts (write_row verdict src dsts p)

    module _ (policy : PolicyCache) (pods : PodSnapshot) where
      -- `for to_svc in &svc_names`
      unfoldable pub write_from : Text → List Text → Progress → Progress
      write_from from_svc [] p = p
      write_from from_svc (to_svc ∷ names) p = write_from from_svc names (
          if str_eq from_svc to_svc
          then p
          else write_block (verdict_for policy from_svc to_svc) (ips_of pods from_svc)
              (ips_of pods to_svc) p)

      -- `for from_svc in &svc_names`
      unfoldable pub write_all : List Text → List Text → Progress → Progress
      write_all [] names p = p
      write_all (from_svc ∷ rest) names p = write_all rest names (write_from from_svc names p)

    module _ (iter : PodSnapshot → PodSnapshot) (policy : PolicyCache) (pods : PodSnapshot) where
      unfoldable pub svc_names : List Text
      svc_names = map (λ entry. entry.0) (iter pods)

      -- Step 3, over the cleared map.
      unfoldable pub populate : Verdicts → Progress
      populate m =
          write_all policy pods svc_names svc_names (record { verdicts = m; entry_count = 0 })

      unfoldable pub sync : Verdicts → Flags → Progress × Flags
      sync m flags =
          let flags' = write_flag policy flags in
          let cleared = clear m in (populate cleared, flags')
