-- ===== src/PodWatcher/Snapshot.antt =====
-- The snapshot of kprobe/kprobe-userspace/src/pod_watcher.rs as a relation between services and
-- addresses: what each event adds and takes away.
use meshlite.Base.{
  ◌≡◌, refl, ap, ◌∙◌, ◌⊎◌, inl, inr, Bool, false, not, ◌&&◌, ◌||◌, Option, none, some, List, [],
  ◌∷◌, ◌++◌, arith, Text, str_eq, str_eq_iff, ◌==◌, if◌then◌else◌, any, Bool-cases, Option-cases,
}
use meshlite.HashMap
use meshlite.VerdictSync.{Ipv4Addr, PodSnapshot, ips_of}
use meshlite.PodWatcher.{
  Pod, Event, apply, init_apply, delete, init, init_done, error, extract_service_and_ip,
  insert_sorted, sort, onto_distinct, dedup, normalize, put_or_remove, apply_pod, delete_pod,
  push_ip, retain_ne, remove_ip, handle, run,
}

abbrev pub has : Ipv4Addr → List Ipv4Addr → Bool
has ip = any (λ x. x == ip)

-- The snapshot gives the service that address.
unfoldable pub known : PodSnapshot → Text → Ipv4Addr → Bool
known snap svc ip = has ip (ips_of snap svc)

has-append :
    (ip : Ipv4Addr) (xs : List Ipv4Addr) (x : Ipv4Addr)
    → has ip (xs ++ x ∷ []) ≡ (x == ip || has ip xs)
has-append ip [] x = refl
has-append ip (y ∷ xs) x = ground (arith, has-append ip xs x)

has-insert_sorted :
    (ip x : Ipv4Addr) (xs : List Ipv4Addr) → has ip (insert_sorted x xs) ≡ (x == ip || has ip xs)
unfolding insert_sorted
has-insert_sorted ip x [] = refl
has-insert_sorted ip x (y ∷ xs) = ground (arith, has-insert_sorted ip x xs)

has-sort : (ip : Ipv4Addr) (xs : List Ipv4Addr) → has ip (sort xs) ≡ has ip xs
unfolding sort
has-sort ip [] = refl
has-sort ip (x ∷ xs) = ground (arith, has-insert_sorted ip x (sort xs), has-sort ip xs)

has-dedup : (ip : Ipv4Addr) (xs : List Ipv4Addr) → has ip (dedup xs) ≡ has ip xs
unfolding dedup
has-dedup ip [] = refl
has-dedup ip (x ∷ xs) = go (dedup xs) (has-dedup ip xs)
  where
    go :
        (ys : List Ipv4Addr)
        → has ip ys ≡ has ip xs
        → has ip (onto_distinct x ys) ≡ (x == ip || has ip xs)
    go [] h = ground arith
    go (y ∷ ys) h = ground arith

has-retain_ne :
    (ip x : Ipv4Addr) (xs : List Ipv4Addr) → has ip (retain_ne x xs) ≡ (not (x == ip) && has ip xs)
unfolding retain_ne
has-retain_ne ip x [] = ground arith
has-retain_ne ip x (y ∷ xs) = ground (arith, has-retain_ne ip x xs)

known-normalize :
    (snap : PodSnapshot) (svc : Text) (ip : Ipv4Addr)
    → known (normalize snap) svc ip ≡ known snap svc ip
unfolding known normalize ips_of HashMap.get
known-normalize [] svc ip = refl
known-normalize ((k, ips) ∷ snap) svc ip =
    ground (arith, known-normalize snap svc ip, has-dedup ip (sort ips), has-sort ip ips)

ips_of-insert :
    (snap : PodSnapshot) (k svc : Text) (ips : List Ipv4Addr)
    → ips_of (HashMap.insert k ips snap) svc ≡ (if str_eq k svc then ips else ips_of snap svc)
unfolding ips_of
ips_of-insert snap k svc ips = ground (arith, HashMap.get-insert k svc ips snap)

ips_of-remove :
    (snap : PodSnapshot) (k svc : Text)
    → ips_of (HashMap.remove k snap) svc ≡ (if str_eq k svc then [] else ips_of snap svc)
unfolding ips_of
ips_of-remove snap k svc = ground (arith, HashMap.get-remove k svc snap)

ips_of-some :
    (snap : PodSnapshot) (k : Text) {ips : List Ipv4Addr}
    → HashMap.get k snap ≡ some ips
    → ips_of snap k ≡ ips
unfolding ips_of
ips_of-some snap k e = ground arith

known-push_ip :
    (snap : PodSnapshot) (k : Text) (x : Ipv4Addr) (svc : Text) (ip : Ipv4Addr)
    → known (push_ip snap k x) svc ip ≡ (str_eq k svc && x == ip || known snap svc ip)
unfolding known push_ip
known-push_ip snap k x svc ip = rw ips_of-insert (elim (Bool-cases (str_eq k svc)) [
  | inl same ↦
      let named = (str_eq_iff k svc).0 same in rw (same, named) (has-append ip (ips_of snap svc) x)
  | inr other ↦ rw other refl
])

ips_of-put_or_remove :
    (ips : List Ipv4Addr) (snap : PodSnapshot) (k svc : Text)
    → ips_of (put_or_remove k ips snap) svc ≡ (if str_eq k svc then ips else ips_of snap svc)
ips_of-put_or_remove [] snap k svc = ips_of-remove snap k svc
ips_of-put_or_remove (i ∷ ips) snap k svc = ips_of-insert snap k svc (i ∷ ips)

known-remove_ip :
    (snap : PodSnapshot) (k : Text) (x : Ipv4Addr) (svc : Text) (ip : Ipv4Addr)
    → known (remove_ip snap k x) svc ip ≡ (not (str_eq k svc && x == ip) && known snap svc ip)
unfolding known remove_ip
known-remove_ip snap k x svc ip = elim (Option-cases (HashMap.get k snap)) [
  | inl absent ↦ rw (absent, remove_ip) (unfold ips_of in ground (arith, str_eq_iff k svc))
  | inr (ips, there) ↦
      rw (there, remove_ip)
        (rw ips_of-put_or_remove (elim (Bool-cases (str_eq k svc)) [
          | inl same ↦
              let named = (str_eq_iff k svc).0 same in
              let mine = ips_of-some snap k there in
              rw (same, ← named, mine) (has-retain_ne ip x ips)
          | inr other ↦ rw other refl
        ]))
]

-- The pod belongs to the service and has the address.
abbrev matches : Text → Ipv4Addr → Option (Text × Ipv4Addr) → Bool
matches svc ip none = false
matches svc ip (some (k, x)) = str_eq k svc && x == ip

unfoldable pub is_pod_of : Text → Ipv4Addr → Pod → Bool
is_pod_of svc ip pod = matches svc ip (extract_service_and_ip pod)

-- What one event makes of the fact that the service has the address.
abbrev pub known_after : Text → Ipv4Addr → Bool → Event → Bool
known_after svc ip before (apply pod) = is_pod_of svc ip pod || before
known_after svc ip before (init_apply pod) = is_pod_of svc ip pod || before
known_after svc ip before (delete pod) = not (is_pod_of svc ip pod) && before
known_after svc ip before init = false
known_after svc ip before init_done = before
known_after svc ip before error = before

-- A watch that lists these pods, after its `Init`.
abbrev pub relist : List Pod → List Event
relist [] = init_done ∷ []
relist (pod ∷ pods) = init_apply pod ∷ relist pods

module _ (svc : Text) (ip : Ipv4Addr) where
  known-apply_pod :
      (snap : PodSnapshot) (found : Option (Text × Ipv4Addr))
      → known (apply_pod snap found).0 svc ip ≡ (matches svc ip found || known snap svc ip)
  known-apply_pod snap none = refl
  known-apply_pod snap (some (k, x)) =
      known-normalize (push_ip snap k x) svc ip ∙ known-push_ip snap k x svc ip

  known-delete_pod :
      (snap : PodSnapshot) (found : Option (Text × Ipv4Addr))
      → known (delete_pod snap found).0 svc ip ≡ (not (matches svc ip found) && known snap svc ip)
  known-delete_pod snap none = refl
  known-delete_pod snap (some (k, x)) = known-remove_ip snap k x svc ip

  known-handle :
      (snap : PodSnapshot) (event : Event)
      → known (handle snap event).0 svc ip ≡ known_after svc ip (known snap svc ip) event
  unfolding handle is_pod_of
  known-handle snap (apply pod) = known-apply_pod snap (extract_service_and_ip pod)
  known-handle snap (init_apply pod) = known-apply_pod snap (extract_service_and_ip pod)
  known-handle snap (delete pod) = known-delete_pod snap (extract_service_and_ip pod)
  known-handle snap init = unfold known ips_of HashMap.get in refl
  known-handle snap init_done = refl
  known-handle snap error = refl

  abbrev pub known_history : Bool → List Event → Bool
  known_history before [] = before
  known_history before (event ∷ events) = known_history (known_after svc ip before event) events

  -- After any events the service has the address exactly if the last event that bears on it added it:
  -- a pod of that service and address was applied, and since then no such pod was deleted and the
  -- watch did not start over.
  pub known-run :
      (snap : PodSnapshot) (events : List Event)
      → known (run snap events) svc ip ≡ known_history (known snap svc ip) events
  unfolding run
  known-run snap [] = refl
  known-run snap (event ∷ events) =
      known-run (handle snap event).0 events
      ∙ ap (λ b. known_history b events) (known-handle snap event)

  history-relist :
      (pods : List Pod) (before : Bool)
      → known_history before (relist pods) ≡ (before || any (is_pod_of svc ip) pods)
  history-relist [] before = ground arith
  history-relist (pod ∷ pods) before =
      history-relist pods (is_pod_of svc ip pod || before) ∙ ground arith

  -- When the watch starts over, the snapshot becomes that of the listed pods, whatever it was before.
  pub known_relisted :
      (snap : PodSnapshot) (pods : List Pod)
      → known (run snap (init ∷ relist pods)) svc ip ≡ any (is_pod_of svc ip) pods
  known_relisted snap pods = known-run snap (init ∷ relist pods) ∙ history-relist pods false

-- Whatever an event changes in the snapshot is announced by `PodEvent::Changed`, except for the
-- clearing at the start of a watch.
pub handle_announces :
    (snap : PodSnapshot) (event : Event)
    → (handle snap event).1 ≡ false
    → (event ≡ init) ⊎ ((handle snap event).0 ≡ snap)
unfolding handle
handle_announces snap (apply pod) h = inr (ground arith)
handle_announces snap (init_apply pod) h = inr (ground arith)
handle_announces snap (delete pod) h = inr (ground arith)
handle_announces snap init h = inl refl
handle_announces snap init_done h = inr refl
handle_announces snap error h = inr refl
