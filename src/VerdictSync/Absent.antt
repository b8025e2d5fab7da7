-- ===== src/VerdictSync/Absent.antt =====
-- Why a pair has no entry after `sync` (kprobe/kprobe-userspace/src/verdict_sync.rs).
use mathlib.Core.List.{Memᴰ}
use meshlite.Base.{
  ℕ, ◌<◌, ◌≡◌, ◌≢◌, sym, ◌∙◌, ◌⊎◌, inl, inr, true, Option, none, some, List, [], ◌∷◌, arith, Text,
  length, ltb, Bool-cases, if◌then◌else◌,
}
use meshlite.HashMap.{IsIteration}
use meshlite.Word.{Endian}
use meshlite.Classifier.{PacketKey}
use meshlite.Classifier.Filter.{key_of}
use meshlite.PolicyCache.{PolicyCache}
use meshlite.Bpf.{Aya, IsAya, max_entries, key_eq, key_eq_iff}
use meshlite.VerdictSync.{PodSnapshot, Ipv4Addr, ips_of, verdict_for, packet_key, sync}
use meshlite.VerdictSync.Writes.{Write, last_write}
use meshlite.VerdictSync.Reconcile.{planned, planned_mem, sync_effect}

last_write-some : (ws : List Write) (j : PacketKey) (v : ℕ) → last_write ws j (some v) ≢ none
last_write-some [] j v h = cc
last_write-some ((k, u) ∷ ws) j v h = elim (Bool-cases (key_eq k j)) [
  | inl same ↦ last_write-some ws j u (rw same at h)
  | inr other ↦ last_write-some ws j v (rw other at h)
]

last_write-mem :
    (ws : List Write) (j : PacketKey) (v : ℕ) (o : Option ℕ)
    → Memᴰ (j, v) ws
    → last_write ws j o ≢ none
last_write-mem [] j v o m h = elim m [ ]
last_write-mem ((k, u) ∷ ws) j v o (Memᴰ.tail m) h =
    last_write-mem ws j v (if key_eq k j then some u else o) m h
last_write-mem ((k, u) ∷ ws) j v o (Memᴰ.head e) h =
    let same : key_eq k j ≡ true = ground (arith, key_eq_iff k j) in
    last_write-some ws j u (rw same at h)

-- The key is not of addresses of two different services.
abbrev pub IsUnknown : Endian → PodSnapshot → PacketKey → Type 0
IsUnknown e pods key =
    (f t : Text) (src dst : Ipv4Addr)
    → f ≢ t
    → Memᴰ src (ips_of pods f)
    → Memᴰ dst (ips_of pods t)
    → key ≢ key_of e src dst

module _ (aya : Aya) (laws : IsAya aya) (e : Endian) (iter : PodSnapshot → PodSnapshot)
    (visits : IsIteration iter) (policy : PolicyCache) (pods : PodSnapshot) where
  -- The pairs of addresses do not fit in the map, or this is none of them.
  abbrev pub IsUncovered : PacketKey → Type 0
  IsUncovered key =
      (max_entries < length (planned aya laws e iter visits policy pods)) ⊎ IsUnknown e pods key

  pub absent-IsUncovered :
      (m : aya.Verdicts) (flags : aya.Flags) (key : PacketKey)
      → aya.get (sync aya e iter policy pods m flags).0.verdicts key ≡ none
      → IsUncovered key
  unfolding packet_key
  absent-IsUncovered m flags key absent =
      let ws = planned aya laws e iter visits policy pods in
      elim (Bool-cases (ltb max_entries (length ws))) [
        | inl many ↦ inl (ground arith)
        | inr few ↦ inr (λ f t src dst n i j same.
            let read =
              (sync_effect aya laws e iter visits policy pods m flags key (ground arith)).1 in
            let mem = planned_mem aya laws e iter visits policy pods f t src dst n i j in
            last_write-mem ws key (verdict_for policy f t) none (rw same mem) (sym read ∙ absent))
      ]
