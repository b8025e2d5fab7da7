-- ===== src/VerdictSync/Justified.antt =====
-- The entries that `sync` (kprobe/kprobe-userspace/src/verdict_sync.rs) leaves, also where the map is too
-- small or an address has several services.
use mathlib.Core.List.{Memᴰ}
use meshlite.Base.{
  ap, ◌≢◌, Text, if◌then◌else◌, ℕ, ◌+◌, ◌≡◌, refl, sym, ◌∙◌, inl, inr, Option, none, some, List, [],
  ◌∷◌, arith, Bool-cases,
}
use meshlite.HashMap.{IsIteration}
use meshlite.Word.{Endian}
use meshlite.Classifier.{PacketKey}
use meshlite.PolicyCache.{PolicyCache, is_allowed}
use meshlite.Classifier.Filter.{key_of}
use meshlite.Bpf.{Aya, IsAya, key_eq, key_eq_iff}
use meshlite.VerdictSync.{
  Ipv4Addr, ips_of, verdict_for, packet_key, PodSnapshot, Progress, write, clear, sync,
}
use meshlite.VerdictSync.Writes.{Write, run_writes, clear_empty}
use meshlite.VerdictSync.Pairs.{Planned, mem-plan}
use meshlite.VerdictSync.Reconcile
use meshlite.VerdictSync.Reconcile.{planned, sync-run_writes}

module _ (aya : Aya) (laws : IsAya aya) (P : PacketKey → ℕ → Type 0) where
  open aya use {get}

  -- Each entry is as `P` says.
  abbrev pub Only : aya.Verdicts → Type 0
  Only m = (j : PacketKey) (v : ℕ) → get m j ≡ some v → P j v

  pub write-Only :
      (k : PacketKey) (v : ℕ) (p : Progress aya)
      → P k v
      → Only p.verdicts
      → Only (write aya k v p).verdicts
  unfolding write
  write-Only k v p here only j w = go (aya.insert k v p.verdicts) refl
    where
      go :
          (o : Option aya.Verdicts)
          → aya.insert k v p.verdicts ≡ o
          → get
              (elim o as (λ x. Progress aya) [
                | some m ↦ record { verdicts = m; entry_count = p.entry_count + 1 }
                | none ↦ p
              ]).verdicts
              j
            ≡ some w
          → P j w
      go none h g = only j w g
      go (some m) h g =
          let read = sym (laws.get-insert k j v p.verdicts m h) ∙ g in
          elim (Bool-cases (key_eq k j)) [
            | inl same ↦
                let kj = (key_eq_iff k j).0 same in
                let vw : v ≡ w = ground arith in rw (← kj, ← vw) here
            | inr other ↦ only j w (rw other at read)
          ]

  run_writes-Only :
      (ws : List Write) (p : Progress aya)
      → ((k : PacketKey) (v : ℕ) → Memᴰ (k, v) ws → P k v)
      → Only p.verdicts
      → Only (run_writes aya ws p).verdicts
  run_writes-Only [] p all only = only
  run_writes-Only ((k, v) ∷ ws) p all only =
      run_writes-Only ws (write aya k v p) (λ j w m. all j w (Memᴰ.tail m))
        (write-Only k v p (all k v (Memᴰ.head refl)) only)

-- The key is of addresses of two different services, in the order of the network, and the value is 0 if the
-- policy allows these services and 1 if not.
pub record IsJustified (e : Endian) (policy : PolicyCache) (pods : PodSnapshot) (key : PacketKey)
    (v : ℕ) : Type 0 where
  pub from_svc : Text
  pub to_svc : Text
  pub src : Ipv4Addr
  pub dst : Ipv4Addr
  pub differ : from_svc ≢ to_svc
  pub src_of : Memᴰ src (ips_of pods from_svc)
  pub dst_of : Memᴰ dst (ips_of pods to_svc)
  pub key_is : key ≡ key_of e src dst
  pub value_is : v ≡ (if is_allowed policy from_svc to_svc then 0 else 1)

pub Planned-IsJustified :
    (e : Endian) (policy : PolicyCache) (pods : PodSnapshot) (key : PacketKey) (v : ℕ)
    → Planned e policy pods (key, v)
    → IsJustified e policy pods key v
unfolding verdict_for packet_key
Planned-IsJustified e policy pods key v p = record {
  from_svc = p.from_svc;
  to_svc = p.to_svc;
  src = p.src;
  dst = p.dst;
  differ = p.differ;
  src_of = p.src_of;
  dst_of = p.dst_of;
  key_is = ap (λ (w : Write). w.0) p.is;
  value_is = ap (λ (w : Write). w.1) p.is;
}

module _ (aya : Aya) (laws : IsAya aya) (e : Endian) (iter : PodSnapshot → PodSnapshot)
    (visits : IsIteration iter) (policy : PolicyCache) (pods : PodSnapshot) where
  -- After `sync` every entry is a planned one.
  pub sync-Planned :
      (m : aya.Verdicts) (flags : aya.Flags) (key : PacketKey) (v : ℕ)
      → aya.get (sync aya e iter policy pods m flags).0.verdicts key ≡ some v
      → Planned e policy pods (key, v)
  sync-Planned m flags key v h =
      let ws = planned aya laws e iter visits policy pods in
      let names = Reconcile.names aya laws e iter visits policy pods in
      let start : Progress aya = record { verdicts = clear aya m; entry_count = 0 } in
      let same = sync-run_writes aya laws e iter visits policy pods m flags in
      run_writes-Only aya laws (λ k w. Planned e policy pods (k, w)) ws start
        (λ k w i. mem-plan e policy pods names names i)
        (λ k w g. absurd (let none_there = clear_empty aya laws m k in ground arith)) key v
        (rw same at h)

  -- After `sync` every entry is for addresses of two different services, and is 0 if `is_allowed` answers
  -- true for these and 1 if it answers false; whatever the map held before, and also if the map is full or
  -- addresses are shared.
  pub sync-IsJustified :
      (m : aya.Verdicts) (flags : aya.Flags) (key : PacketKey) (v : ℕ)
      → aya.get (sync aya e iter policy pods m flags).0.verdicts key ≡ some v
      → IsJustified e policy pods key v
  sync-IsJustified m flags key v h =
      Planned-IsJustified e policy pods key v (sync-Planned m flags key v h)
