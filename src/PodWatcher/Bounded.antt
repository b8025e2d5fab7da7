-- ===== src/PodWatcher/Bounded.antt =====
-- The addresses that kprobe/kprobe-userspace/src/pod_watcher.rs takes from pods have 32 bits.
use meshlite.Base.{
  ◌<◌, ◌≡◌, inl, inr, Bool, true, ◌||◌, some, List, [], ◌∷◌, arith, Text, Option-cases, Bool-cases,
}
use meshlite.Strings.Octets.{parse_ipv4-lt}
use meshlite.VerdictSync.{Ipv4Addr}
use meshlite.PodWatcher.{
  Pod, Event, apply, init_apply, delete, init, init_done, error, extract_service_and_ip,
}
use meshlite.PodWatcher.Snapshot.{is_pod_of, known_after, known_history}

extract-lt :
    (pod : Pod) (svc : Text) (ip : Ipv4Addr)
    → extract_service_and_ip pod ≡ some (svc, ip)
    → ip < 4294967296
unfolding extract_service_and_ip
extract-lt pod svc ip h = grind (arith, parse_ipv4-lt)

is_pod_of-lt :
    (svc : Text) (ip : Ipv4Addr) (pod : Pod) → is_pod_of svc ip pod ≡ true → ip < 4294967296
unfolding is_pod_of
is_pod_of-lt svc ip pod h = elim (Option-cases (extract_service_and_ip pod)) [
  | inl absent ↦ absurd (ground arith)
  | inr ((k, x), there) ↦ let bound = extract-lt pod k x there in ground arith
]

-- An address that the events say to be there has 32 bits.
pub known_history-lt :
    (svc : Text) (ip : Ipv4Addr) (before : Bool) (events : List Event)
    → (before ≡ true → ip < 4294967296)
    → known_history svc ip before events ≡ true
    → ip < 4294967296
known_history-lt svc ip before [] b h = b h
known_history-lt svc ip before (event ∷ events) b h =
    known_history-lt svc ip (known_after svc ip before event) events (after event) h
  where
    pod_or_before : (pod : Pod) → (is_pod_of svc ip pod || before) ≡ true → ip < 4294967296
    pod_or_before pod k = elim (Bool-cases (is_pod_of svc ip pod)) [
      | inl mine ↦ is_pod_of-lt svc ip pod mine
      | inr other ↦ b (ground arith)
    ]

    after : (x : Event) → known_after svc ip before x ≡ true → ip < 4294967296
    after (apply pod) k = pod_or_before pod k
    after (init_apply pod) k = pod_or_before pod k
    after (delete pod) k = b (ground arith)
    after init k = absurd (ground arith)
    after init_done k = b k
    after error k = b k
