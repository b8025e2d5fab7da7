-- ===== src/Tests/Startups.antt =====
-- The start of the agent: kprobe/kprobe-userspace/src/main.rs.
use meshlite.Base.{ℕ, zero, suc, ◌≡◌, refl, none, some, [], ◌∷◌, Text, codes}
use meshlite.Results.{Result, ok, err}
use meshlite.Word.{little}
use meshlite.Classifier.{PacketKey}
use meshlite.Strings.{contains, starts_with}
use meshlite.Bpf.ListMap.{list_maps, list_maps-IsAya}
use meshlite.Agent.{initial}
use meshlite.Agent.Startup.{Loader, attached, spawned, reading, main, try_}
use meshlite.Agent.Startup.Opening.{AllOpen, main-AllOpen}
use meshlite.Tests.Packets.{same_order, same_order-IsIteration}

abbrev no_digits : ℕ → Text
no_digits n = []

abbrev opens_first : ℕ → Result Unit
opens_first zero = ok tt
opens_first (suc n) = err (codes "no buffer")

-- The qdisc is there already, and the second CPU has no buffer.
abbrev loader : Loader list_maps
loader = record {
  load_file = ok tt;
  qdisc_add_clsact = err (codes "File exists (os error 17)");
  verdict_map = some (ok []);
  policy_flags = some (ok 0);
  program = some (ok tt);
  load = ok tt;
  attach = ok tt;
  packet_events = some (ok tt);
  online_cpus = ok (0 ∷ 1 ∷ []);
  open_buffer = opens_first;
  ctrl_c = ok tt;
}

starts : main list_maps no_digits (codes "/app/kprobe-ebpf") loader ≡ (
  attached [] 1 ∷ spawned (initial list_maps [] 1) ∷ reading 0 ∷ [],
  err (codes "Failed to open perf buffer for CPU "),
)
unfolding main try_ contains starts_with
starts = refl

empty_at_first :
    (m : list_maps.Verdicts)
    → loader.verdict_map ≡ some (ok m)
    → (k : PacketKey) → list_maps.get m k ≡ none
empty_at_first [] h k = refl
empty_at_first (x ∷ m) h k = cc

main-AllOpen_example :
    AllOpen list_maps list_maps-IsAya little same_order same_order-IsIteration
      (main list_maps no_digits (codes "/app/kprobe-ebpf") loader)
main-AllOpen_example =
    main-AllOpen list_maps list_maps-IsAya little same_order same_order-IsIteration no_digits
      (codes "/app/kprobe-ebpf") loader empty_at_first
