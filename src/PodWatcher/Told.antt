-- ===== src/PodWatcher/Told.antt =====
-- The snapshot that kprobe/kprobe-userspace/src/pod_watcher.rs builds from nothing, in terms of the events.
use mathlib.Core.List.{Memᴰ}
use meshlite.Base.{◌≡◌, sym, ◌∙◌, true, false, List, [], Text, mem_of_any, any_of_mem}
use meshlite.HashMap
use meshlite.HashMap.{IsIteration}
use meshlite.VerdictSync.{Ipv4Addr, ips_of}
use meshlite.PodWatcher
use meshlite.PodWatcher.{Event, handle}
use meshlite.PodWatcher.Snapshot.{known, known_history, known-run}

-- An address is in the snapshot that the events leave exactly if they say it to be there.
pub history_known :
    (f : Text) (ip : Ipv4Addr) (events : List Event)
    → known_history f ip false events ≡ true
    → Memᴰ ip (ips_of (PodWatcher.run [] events) f)
unfolding known ips_of HashMap.get
history_known f ip events h =
    mem_of_any ip (ips_of (PodWatcher.run [] events) f) (known-run f ip [] events ∙ h)

pub known_told :
    (f : Text) (ip : Ipv4Addr) (events : List Event)
    → Memᴰ ip (ips_of (PodWatcher.run [] events) f)
    → known_history f ip false events ≡ true
unfolding known ips_of HashMap.get
known_told f ip events m =
    sym (known-run f ip [] events) ∙ any_of_mem ip (ips_of (PodWatcher.run [] events) f) m

-- No other service is said to have the address.
abbrev pub IsOnly : List Event → Text → Ipv4Addr → Type 0
IsOnly events f ip = (g : Text) → known_history g ip false events ≡ true → f ≡ g
