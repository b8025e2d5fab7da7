-- ===== src/Tests/Reports.antt =====
-- What the agent reports: kprobe/kprobe-userspace/src/main.rs.
use mathlib.Core.List.Permᴰ
use meshlite.Base.{◌≡◌, refl, true, some, List, [], ◌∷◌, codes, ◌==◌, any, str_eq, if◌then◌else◌}
use meshlite.HashMap
use meshlite.HashMap.{IsIteration, IsUnique}
use meshlite.Word.{little}
use meshlite.Classifier.{
  tc_act_shot, Maps, TcContext, PacketLog, kprobe_egress, try_intercept, lookup_verdict,
  in_pod_cidr, pod_verdict, tcp_verdict, is_new_syn,
}
use meshlite.VerdictSync.{Ipv4Addr, PodSnapshot}
use meshlite.Reader.{first_service, resolve_service, read_record, in_pod_net}
use meshlite.Reader.Reports.{sent}

abbrev alpha_ip : Ipv4Addr
alpha_ip = 183763205

abbrev pods : PodSnapshot
pods = (codes "alpha", alpha_ip ∷ []) ∷ []

abbrev in_order : PodSnapshot → PodSnapshot
in_order m = m

in_order-IsIteration : IsIteration in_order
in_order-IsIteration m = Permᴰ.refl m

pods-IsUnique : IsUnique pods
unfolding HashMap.get
pods-IsUnique = (refl, tt)

abbrev deny_all : Maps
deny_all = record { verdict_map = λ k. some 1; policy_flags = λ i. some 0 }

-- A TCP packet that opens a connection between 10.244.1.5 and itself.
abbrev syn : TcContext
syn = record {
  load8 = λ i. if i == 23 then some 6 else some 2;
  load16 = λ i. if i == 12 then some 8 else some 0;
  load32 = λ i. some 84014090;
}

abbrev syn_logs : List PacketLog
syn_logs = (kprobe_egress little deny_all syn).1

-- It is dropped, and one record with both names is sent.
syn_reported :
    (((kprobe_egress little deny_all syn).0 == tc_act_shot) ≡ true)
    × (any
          (λ r. str_eq r.source_service (codes "alpha"))
          (sent little in_order pods (codes "dev") syn_logs)
        ≡ true)
unfolding kprobe_egress try_intercept lookup_verdict in_pod_cidr pod_verdict tcp_verdict is_new_syn
    read_record resolve_service first_service in_pod_net str_eq
syn_reported = (refl, refl)
