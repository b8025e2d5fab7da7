-- ===== src/PodWatcher/Normal.antt =====
-- The lists of the snapshot of kprobe/kprobe-userspace/src/pod_watcher.rs stay sorted, without
-- repetitions, and not empty.
use meshlite.Base.{
  ℕ, ◌≤◌, ◌<◌, ◌≡◌, ◌≢◌, refl, inl, inr, Option, none, some, List, [], ◌∷◌, ◌++◌, arith, Text, leb,
  ◌==◌, All, Bool-cases, Option-cases,
}
use meshlite.HashMap
use meshlite.HashMap.{Entries}
use meshlite.VerdictSync.{Ipv4Addr, PodSnapshot, ips_of}
use meshlite.PodWatcher.{
  Event, apply, init_apply, delete, init, init_done, error, extract_service_and_ip, insert_sorted,
  sort, dedup, normalize, put_or_remove, apply_pod, delete_pod, push_ip, retain_ne, remove_ip,
  handle, run,
}

-- Each address is above those before it; `low` bounds the first from below.
abbrev Ascends : ℕ → List Ipv4Addr → Type 0
Ascends low [] = Unit
Ascends low (x ∷ xs) = (low < x) × Ascends x xs

abbrev Climbs : ℕ → List Ipv4Addr → Type 0
Climbs low [] = Unit
Climbs low (x ∷ xs) = (low ≤ x) × Climbs x xs

-- Sorted, without repetitions, and not empty.
abbrev pub IsNormalList : List Ipv4Addr → Type 0
IsNormalList [] = ⊥
IsNormalList (x ∷ xs) = Ascends x xs

abbrev pub IsNormal : PodSnapshot → Type 0
IsNormal snap = All (λ entry. IsNormalList entry.1) snap

insert_sorted-Climbs :
    (low x : ℕ) (xs : List Ipv4Addr) → low ≤ x → Climbs low xs → Climbs low (insert_sorted x xs)
unfolding insert_sorted
insert_sorted-Climbs low x [] h c = (h, tt)
insert_sorted-Climbs low x (y ∷ ys) h c = elim (Bool-cases (leb x y)) [
  | inl below ↦ rw below (h, (ground arith, c.1))
  | inr above ↦ rw above (c.0, insert_sorted-Climbs y x ys (ground arith) c.1)
]

sort-Climbs : (xs : List Ipv4Addr) → Climbs 0 (sort xs)
unfolding sort
sort-Climbs [] = tt
sort-Climbs (x ∷ xs) = insert_sorted-Climbs 0 x (sort xs) (omega arith) (sort-Climbs xs)

-- `dedup` keeps the first address of an ordered list, and what follows is above it.
dedup_climbing :
    (x : ℕ) (xs : List Ipv4Addr)
    → Climbs x xs
    → (rest : List Ipv4Addr) × (dedup (x ∷ xs) ≡ x ∷ rest) × Ascends x rest
unfolding dedup
dedup_climbing x [] c = ([], refl, tt)
dedup_climbing x (y ∷ ys) c =
    let (rest, e, a) = dedup_climbing y ys c.1 in
    elim (Bool-cases (x == y)) [
      | inl same ↦ (rest, rw e (ground arith), ground arith)
      | inr other ↦ (y ∷ rest, rw e (ground arith), (ground arith, a))
    ]

dedup-IsNormalList :
    (low : ℕ) (xs : List Ipv4Addr) → xs ≢ [] → Climbs low xs → IsNormalList (dedup xs)
dedup-IsNormalList low [] n c = absurd (n refl)
dedup-IsNormalList low (x ∷ xs) n c = let (rest, e, a) = dedup_climbing x xs c.1 in rw e a

insert_sorted-ne-nil : (x : ℕ) (xs : List Ipv4Addr) → insert_sorted x xs ≢ []
unfolding insert_sorted
insert_sorted-ne-nil x [] e = cc
insert_sorted-ne-nil x (y ∷ ys) e = ground arith

sort-ne-nil : (xs : List Ipv4Addr) → xs ≢ [] → sort xs ≢ []
unfolding sort
sort-ne-nil [] n e = n refl
sort-ne-nil (x ∷ xs) n e = insert_sorted-ne-nil x (sort xs) e

-- No list of the snapshot is empty.
abbrev IsInhabited : PodSnapshot → Type 0
IsInhabited snap = All (λ entry. entry.1 ≢ []) snap

normalize-IsNormal : (snap : PodSnapshot) → IsInhabited snap → IsNormal (normalize snap)
unfolding normalize
normalize-IsNormal [] h = tt
normalize-IsNormal ((k, ips) ∷ snap) h = (
  dedup-IsNormalList 0 (sort ips) (sort-ne-nil ips h.0) (sort-Climbs ips),
  normalize-IsNormal snap h.1,
)

ne-nil_of_normal : (ips : List Ipv4Addr) → IsNormalList ips → ips ≢ []
ne-nil_of_normal [] h e = h
ne-nil_of_normal (x ∷ xs) h e = cc

normal-IsInhabited : (snap : PodSnapshot) → IsNormal snap → IsInhabited snap
normal-IsInhabited [] h = tt
normal-IsInhabited ((k, ips) ∷ snap) h = (ne-nil_of_normal ips h.0, normal-IsInhabited snap h.1)

concat-ne-nil : (ips : List Ipv4Addr) (ip : Ipv4Addr) → ips ++ ip ∷ [] ≢ []
concat-ne-nil [] ip e = cc
concat-ne-nil (x ∷ ips) ip e = cc

ascending_lower : (low x : ℕ) (xs : List Ipv4Addr) → low ≤ x → Ascends x xs → Ascends low xs
ascending_lower low x [] h a = tt
ascending_lower low x (y ∷ ys) h a = (omega arith, a.1)

retain_ne-Ascends :
    (low ip : ℕ) (xs : List Ipv4Addr) → Ascends low xs → Ascends low (retain_ne ip xs)
unfolding retain_ne
retain_ne-Ascends low ip [] a = tt
retain_ne-Ascends low ip (x ∷ xs) a = elim (Bool-cases (x == ip)) [
  | inl gone ↦ rw gone (ascending_lower low x _ (omega arith) (retain_ne-Ascends x ip xs a.1))
  | inr kept ↦ rw kept (a.0, retain_ne-Ascends x ip xs a.1)
]

normal_of_ascending : (low : ℕ) (xs : List Ipv4Addr) → xs ≢ [] → Ascends low xs → IsNormalList xs
normal_of_ascending low [] n a = n refl
normal_of_ascending low (x ∷ xs) n a = a.1

put_or_remove-IsNormal :
    (k : Text) (ips : List Ipv4Addr) (snap : PodSnapshot)
    → (ips ≢ [] → IsNormalList ips)
    → IsNormal snap
    → IsNormal (put_or_remove k ips snap)
put_or_remove-IsNormal k [] snap p h = HashMap.All-remove IsNormalList k snap h
put_or_remove-IsNormal k (x ∷ ips) snap p h =
    HashMap.All-insert IsNormalList k (x ∷ ips) snap (p (λ e. cc)) h

retain_ne-IsNormalList :
    (ip : Ipv4Addr) (ips : List Ipv4Addr)
    → IsNormalList ips
    → retain_ne ip ips ≢ []
    → IsNormalList (retain_ne ip ips)
unfolding retain_ne
retain_ne-IsNormalList ip [] a n = absurd a
retain_ne-IsNormalList ip (x ∷ xs) a n = elim (Bool-cases (x == ip)) [
  | inl gone ↦
      rw gone (normal_of_ascending x (retain_ne ip xs) (rw gone at n) (retain_ne-Ascends x ip xs a))
  | inr kept ↦ rw kept (retain_ne-Ascends x ip xs a)
]

remove_ip-IsNormal :
    (snap : PodSnapshot) (k : Text) (ip : Ipv4Addr) → IsNormal snap → IsNormal (remove_ip snap k ip)
unfolding remove_ip
remove_ip-IsNormal snap k ip h = elim (Option-cases (HashMap.get k snap)) [
  | inl absent ↦ rw (absent, remove_ip) h
  | inr (ips, there) ↦
      rw (there, remove_ip)
        (put_or_remove-IsNormal k (retain_ne ip ips) snap
          (retain_ne-IsNormalList ip ips (HashMap.All-get IsNormalList k snap h there)) h)
]

apply_pod-IsNormal :
    (snap : PodSnapshot) (found : Option (Text × Ipv4Addr))
    → IsNormal snap
    → IsNormal (apply_pod snap found).0
unfolding push_ip
apply_pod-IsNormal snap none h = h
apply_pod-IsNormal snap (some (k, ip)) h = normalize-IsNormal (push_ip snap k ip) (
    HashMap.All-insert (λ ips. ips ≢ []) k (ips_of snap k ++ ip ∷ []) snap
      (concat-ne-nil (ips_of snap k) ip) (normal-IsInhabited snap h))

delete_pod-IsNormal :
    (snap : PodSnapshot) (found : Option (Text × Ipv4Addr))
    → IsNormal snap
    → IsNormal (delete_pod snap found).0
delete_pod-IsNormal snap none h = h
delete_pod-IsNormal snap (some (k, ip)) h = remove_ip-IsNormal snap k ip h

handle-IsNormal :
    (snap : PodSnapshot) (event : Event) → IsNormal snap → IsNormal (handle snap event).0
unfolding handle
handle-IsNormal snap (apply pod) h = apply_pod-IsNormal snap (extract_service_and_ip pod) h
handle-IsNormal snap (init_apply pod) h = apply_pod-IsNormal snap (extract_service_and_ip pod) h
handle-IsNormal snap (delete pod) h = delete_pod-IsNormal snap (extract_service_and_ip pod) h
handle-IsNormal snap init h = tt
handle-IsNormal snap init_done h = h
handle-IsNormal snap error h = h

-- If every list of the snapshot is sorted, without repetitions and not empty, it stays so whatever
-- events arrive.
pub run-IsNormal :
    (snap : PodSnapshot) (events : List Event) → IsNormal snap → IsNormal (run snap events)
unfolding run
run-IsNormal snap [] h = h
run-IsNormal snap (event ∷ events) h =
    run-IsNormal (handle snap event).0 events (handle-IsNormal snap event h)
