-- ===== src/SigilClient/Hello.antt =====
-- `make_hello` of kprobe/kprobe-userspace/src/sigil_client.rs.
use mathlib.Core.List.{Memᴰ}
use mathlib.Core.List.Permᴰ
use meshlite.Base.{
  ◌≡◌, sym, ap, ◌↔◌, ◌⊎◌, inl, inr, true, some, List, [], ◌∷◌, map, Text, str_eq, str_eq_iff, any,
  Bool-cases, mem-perm,
}
use meshlite.HashMap
use meshlite.HashMap.{Entries, IsIteration, IsUnique}
use meshlite.VerdictSync.{Ipv4Addr, PodSnapshot}
use meshlite.SigilClient.{make_hello}

abbrev names_of : PodSnapshot → List Text
names_of snap = map (λ entry. entry.0) snap

names-mem :
    (svc : Text) (snap : PodSnapshot) {ips : List Ipv4Addr}
    → Memᴰ (svc, ips) snap
    → Memᴰ svc (names_of snap)
names-mem svc [] m = elim m [ ]
names-mem svc (e ∷ snap) (Memᴰ.head p) = Memᴰ.head (ap (λ (x : Text × List Ipv4Addr). x.0) p)
names-mem svc (e ∷ snap) (Memᴰ.tail m) = Memᴰ.tail (names-mem svc snap m)

mem-names :
    (svc : Text) (snap : PodSnapshot)
    → Memᴰ svc (names_of snap)
    → (ips : List Ipv4Addr) × Memᴰ (svc, ips) snap
mem-names svc [] m = elim m [ ]
mem-names svc ((k, ips) ∷ snap) (Memᴰ.head p) = (ips, Memᴰ.head cc)
mem-names svc (e ∷ snap) (Memᴰ.tail m) = let (ips, i) = mem-names svc snap m in (ips, Memᴰ.tail i)

any-mem : (node : Text) (xs : List Text) → any (λ s. str_eq s node) xs ≡ true → Memᴰ node xs
any-mem node [] h = cc
any-mem node (x ∷ xs) h = elim (Bool-cases (str_eq x node)) [
  | inl same ↦ Memᴰ.head (sym ((str_eq_iff x node).0 same))
  | inr other ↦ Memᴰ.tail (any-mem node xs (rw other at h))
]

-- Whatever the iteration order, the hello for a snapshot without repeated keys names exactly the agent
-- itself and the services that have an entry in it.
pub make_hello_names :
    (iter : PodSnapshot → PodSnapshot) (snap : PodSnapshot) (node_id cluster_id svc : Text)
    → IsIteration iter
    → IsUnique snap
    → Memᴰ svc (make_hello iter snap node_id cluster_id).pod_service_ids
      ↔ ((svc ≡ node_id) ⊎ ((ips : List Ipv4Addr) × (HashMap.get svc snap ≡ some ips)))
unfolding make_hello
make_hello_names iter snap node_id cluster_id svc visits unique =
    elim (Bool-cases (any (λ s. str_eq s node_id) (names_of (iter snap)))) [
      | inl there ↦ rw there (λ m. inr (listed m), λ h. named there h)
      | inr absent ↦ rw absent (first, added)
    ]
  where
    listed :
        Memᴰ svc (names_of (iter snap)) → (ips : List Ipv4Addr) × (HashMap.get svc snap ≡ some ips)
    listed m =
        let (ips, i) = mem-names svc (iter snap) m in
        (ips, HashMap.get_of_mem svc snap unique (mem-perm (visits snap) i))

    entry_named :
        (ips : List Ipv4Addr) → HashMap.get svc snap ≡ some ips → Memᴰ svc (names_of (iter snap))
    entry_named ips e =
        names-mem svc (iter snap)
          (mem-perm (Permᴰ.symm (visits snap)) (HashMap.mem_of_get svc snap e))

    named :
        any (λ s. str_eq s node_id) (names_of (iter snap)) ≡ true
        → (svc ≡ node_id) ⊎ ((ips : List Ipv4Addr) × (HashMap.get svc snap ≡ some ips))
        → Memᴰ svc (names_of (iter snap))
    named there (inl e) = rw e (any-mem node_id _ there)
    named there (inr (ips, e)) = entry_named ips e

    first :
        Memᴰ svc (node_id ∷ names_of (iter snap))
        → (svc ≡ node_id) ⊎ ((ips : List Ipv4Addr) × (HashMap.get svc snap ≡ some ips))
    first (Memᴰ.head e) = inl e
    first (Memᴰ.tail m) = inr (listed m)

    added :
        (svc ≡ node_id) ⊎ ((ips : List Ipv4Addr) × (HashMap.get svc snap ≡ some ips))
        → Memᴰ svc (node_id ∷ names_of (iter snap))
    added (inl e) = Memᴰ.head e
    added (inr (ips, e)) = Memᴰ.tail (entry_named ips e)
