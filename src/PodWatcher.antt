-- ===== src/PodWatcher.antt =====
-- kprobe/kprobe-userspace/src/pod_watcher.rs: the snapshot of the pods, kept by the events of the watch.
-- The events come from the kube crate; a pod is the part of it that the code reads.
pub mod Bounded
pub mod Told
pub mod Snapshot
pub mod Normal
use meshlite.Base.{
  ℕ, Bool, true, false, not, Option, none, some, List, [], ◌∷◌, ◌++◌, Text, codes, leb, ◌==◌,
  if◌then◌else◌, ◌>>=◌,
}
use meshlite.HashMap
use meshlite.HashMap.{Entries}
use meshlite.Strings.{parse_ipv4}
use meshlite.VerdictSync.{Ipv4Addr, PodSnapshot, ips_of}

-- `metadata.labels` and `status.pod_ip`
pub record Pod : Type 0 where
  pub labels : Option (Entries Text)
  pub status : Option (Option Text)

-- `watcher::Event`, and an error of the stream
pub data Event : Type 0 where
  apply init_apply delete : Pod → Event
  init init_done error : Event

unfoldable pub extract_service_and_ip : Pod → Option (Text × Ipv4Addr)
extract_service_and_ip pod = do
  labels ← pod.labels
  svc_id ← HashMap.get (codes "app") labels
  status ← pod.status
  ip_str ← status
  ip ← parse_ipv4 ip_str
  some (svc_id, ip)

-- `sort` and `dedup` of a vector of addresses
unfoldable pub insert_sorted : Ipv4Addr → List Ipv4Addr → List Ipv4Addr
insert_sorted x [] = x ∷ []
insert_sorted x (y ∷ ys) = if leb x y then x ∷ y ∷ ys else y ∷ insert_sorted x ys

unfoldable pub sort : List Ipv4Addr → List Ipv4Addr
sort [] = []
sort (x ∷ xs) = insert_sorted x (sort xs)

abbrev onto_distinct : Ipv4Addr → List Ipv4Addr → List Ipv4Addr
onto_distinct x [] = x ∷ []
onto_distinct x (y ∷ ys) = if x == y then y ∷ ys else x ∷ y ∷ ys

unfoldable pub dedup : List Ipv4Addr → List Ipv4Addr
dedup [] = []
dedup (x ∷ xs) = onto_distinct x (dedup xs)

-- `values_mut().for_each(|v| { v.sort(); v.dedup(); })`
unfoldable pub normalize : PodSnapshot → PodSnapshot
normalize [] = []
normalize ((svc, ips) ∷ snap) = (svc, dedup (sort ips)) ∷ normalize snap

-- `entry(svc_id).or_default().push(ip)`
unfoldable pub push_ip : PodSnapshot → Text → Ipv4Addr → PodSnapshot
push_ip snap svc_id ip = HashMap.insert svc_id (ips_of snap svc_id ++ ip ∷ []) snap

-- `ips.retain(|i| *i != ip)`
unfoldable pub retain_ne : Ipv4Addr → List Ipv4Addr → List Ipv4Addr
retain_ne ip [] = []
retain_ne ip (i ∷ ips) = let rest = retain_ne ip ips in if not (i == ip) then i ∷ rest else rest

abbrev put_or_remove : Text → List Ipv4Addr → PodSnapshot → PodSnapshot
put_or_remove svc_id [] snap = HashMap.remove svc_id snap
put_or_remove svc_id (i ∷ ips) snap = HashMap.insert svc_id (i ∷ ips) snap

unfoldable pub remove_ip : PodSnapshot → Text → Ipv4Addr → PodSnapshot
remove_ip snap svc_id ip = elim (HashMap.get svc_id snap) [
  | some ips ↦ put_or_remove svc_id (retain_ne ip ips) snap
  | none ↦ snap
]

-- One turn of the loop of `run`: the new snapshot, and whether `PodEvent::Changed` is sent.
abbrev apply_pod : PodSnapshot → Option (Text × Ipv4Addr) → PodSnapshot × Bool
apply_pod snap none = (snap, false)
apply_pod snap (some (svc_id, ip)) = (normalize (push_ip snap svc_id ip), true)

abbrev delete_pod : PodSnapshot → Option (Text × Ipv4Addr) → PodSnapshot × Bool
delete_pod snap none = (snap, false)
delete_pod snap (some (svc_id, ip)) = (remove_ip snap svc_id ip, true)

unfoldable pub handle : PodSnapshot → Event → PodSnapshot × Bool
handle snap (apply pod) = apply_pod snap (extract_service_and_ip pod)
handle snap (init_apply pod) = apply_pod snap (extract_service_and_ip pod)
handle snap (delete pod) = delete_pod snap (extract_service_and_ip pod)
handle snap init = ([], false)
handle snap init_done = (snap, true)
handle snap error = (snap, false)

unfoldable pub run : PodSnapshot → List Event → PodSnapshot
run snap [] = snap
run snap (event ∷ events) = run (handle snap event).0 events
