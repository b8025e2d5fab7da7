-- ===== src/Tests/Packets.antt =====
-- Packets and the maps of the kernel: kprobe.
use mathlib.Core.List.{Memᴰ}
use mathlib.Core.List.Permᴰ
use meshlite.Base.{
  ℕ, ◌≡◌, ◌≢◌, refl, ◌↔◌, ◌⊎◌, inl, inr, false, none, some, [], ◌∷◌, ◌++◌, arith, Text, Bytes,
  codes, if◌then◌else◌, str_eq, str_eq_iff, Bool-cases,
}
use meshlite.HashMap
use meshlite.HashMap.{Entries, IsIteration}
use meshlite.Word.{Endian, little, big}
use meshlite.Classifier.{
  tc_act_ok, tc_act_shot, PacketKey, Maps, kprobe_egress, try_intercept, lookup_verdict,
  in_pod_cidr, pod_verdict, tcp_verdict, is_new_syn,
}
use meshlite.Classifier.Frame.{IsFrame, frame_context, frame_context-IsFrame}
use meshlite.Classifier.Filter.{key_of, Packet, parse_packet, filter, kprobe_egress-filter}
use meshlite.Classifier.Safety.{Dropped, kprobe_egress_drops_iff}
use meshlite.PolicyCache.{PolicyCache, is_allowed, check_rules, lists}
use meshlite.Bpf.{kernel_view}
use meshlite.Bpf.ListMap.{list_maps, list_maps-IsAya}
use meshlite.VerdictSync
use meshlite.VerdictSync.{
  PodSnapshot, ips_of, verdict_for, flag_for, packet_key, clear, write_flag, sync,
}
use meshlite.VerdictSync.Reconcile.{IsBounded, IsOwned, sync_verdict}
use meshlite.VerdictSync.Justified.{IsJustified, sync-IsJustified}
use meshlite.Enforcement.{IsJudged, synced, synced_enforces, sync_window}

abbrev zeros9 : Bytes
zeros9 = 0 ∷ 0 ∷ 0 ∷ 0 ∷ 0 ∷ 0 ∷ 0 ∷ 0 ∷ 0 ∷ []

-- An IPv4 frame: protocol, addresses, ports 8080 and 80, TCP flags.
abbrev frame : ℕ → Bytes → Bytes → ℕ → Bytes
frame proto src dst flags =
    zeros9
    ++ (0
        ∷ 0
        ∷ 0
        ∷ 8
        ∷ 0
        ∷ (zeros9
            ++ (proto ∷ 0 ∷ 0 ∷ (src ++ (dst ++ (31 ∷ 144 ∷ 0 ∷ 80 ∷ (zeros9 ++ (flags ∷ []))))))))

abbrev alpha_octets : Bytes
alpha_octets = 10 ∷ 244 ∷ 1 ∷ 5 ∷ []

abbrev beta_octets : Bytes
beta_octets = 10 ∷ 244 ∷ 2 ∷ 7 ∷ []

abbrev pub alpha_ip : ℕ
alpha_ip = 183763205

abbrev pub beta_ip : ℕ
beta_ip = 183763463

-- SYN from alpha to beta, and back.
abbrev pub syn : Bytes
syn = frame 6 alpha_octets beta_octets 2

abbrev pub syn_back : Bytes
syn_back = frame 6 beta_octets alpha_octets 2

abbrev syn_ack : Bytes
syn_ack = frame 6 beta_octets alpha_octets 18

abbrev pub packet_of : ℕ → ℕ → ℕ → Packet
packet_of src dst flags = record {
  proto = 6;
  src = src;
  dst = dst;
  src_port = 8080;
  dst_port = 80;
  flags = some flags;
}

pub syn_parses : parse_packet syn ≡ some (packet_of alpha_ip beta_ip 2)
unfolding parse_packet
syn_parses = refl

abbrev deny_all : Maps
deny_all = record { verdict_map = λ k. none; policy_flags = λ i. some 0 }

abbrev action : Endian → Maps → Bytes → ℕ
action e maps bytes = (kprobe_egress e maps (frame_context e bytes)).0

-- SYN is dropped, SYN with ACK passes, and so does what is too short to parse.
deny_all_actions :
    (action little deny_all syn ≡ tc_act_shot)
    × (action big deny_all syn ≡ tc_act_shot)
    × (action little deny_all syn_ack ≡ tc_act_ok)
    × (action little deny_all (8 ∷ 0 ∷ []) ≡ tc_act_ok)
unfolding kprobe_egress try_intercept lookup_verdict in_pod_cidr pod_verdict tcp_verdict is_new_syn
deny_all_actions = (refl, refl, refl, refl)

pub syn-IsFrame : IsFrame little syn (frame_context little syn)
syn-IsFrame = frame_context-IsFrame little syn (omega arith)

kprobe_egress-filter_example :
    kprobe_egress little deny_all (frame_context little syn)
    ≡ filter little deny_all (parse_packet syn)
kprobe_egress-filter_example =
    kprobe_egress-filter little deny_all syn (frame_context little syn) syn-IsFrame

kprobe_egress_drops_iff_example :
    (action little deny_all syn ≡ tc_act_shot) ↔ Dropped little deny_all syn
kprobe_egress_drops_iff_example =
    kprobe_egress_drops_iff little deny_all syn (frame_context little syn) syn-IsFrame

abbrev pub pods : PodSnapshot
pods = (codes "alpha", alpha_ip ∷ []) ∷ (codes "beta", beta_ip ∷ []) ∷ []

abbrev pub one_way : PolicyCache
one_way = record {
  rules = record { from_service = codes "alpha"; to_services = codes "beta" ∷ [] } ∷ [];
  default_allow = false;
  mtls_mode = codes "enforce";
}

abbrev pub same_order : PodSnapshot → PodSnapshot
same_order m = m

pub same_order-IsIteration : IsIteration same_order
same_order-IsIteration m = Permᴰ.refl m

-- The owner of an address is known from the address.
abbrev Owned : Text → ℕ → Type 0
Owned f ip = ((f ≡ codes "alpha") × (ip ≡ alpha_ip)) ⊎ ((f ≡ codes "beta") × (ip ≡ beta_ip))

only_one : (ip x : ℕ) → Memᴰ ip (x ∷ []) → ip ≡ x
only_one ip x (Memᴰ.head e) = e
only_one ip x (Memᴰ.tail m) = elim m [ ]

pods-Owned : (f : Text) (ip : ℕ) → Memᴰ ip (ips_of pods f) → Owned f ip
unfolding ips_of HashMap.get
pods-Owned f ip m = elim (Bool-cases (str_eq (codes "alpha") f)) [
  | inl a ↦ inl (
    ground (arith, str_eq_iff (codes "alpha") f),
    only_one ip alpha_ip (rw (a, ips_of, HashMap.get) at m),
  )
  | inr na ↦ elim (Bool-cases (str_eq (codes "beta") f)) [
    | inl b ↦ inr (
      ground (arith, str_eq_iff (codes "beta") f),
      only_one ip beta_ip (rw (na, b, ips_of, HashMap.get) at m),
    )
    | inr nb ↦ elim (rw (na, nb, ips_of, HashMap.get) at m) [ ]
  ]
]

pods-IsBounded : IsBounded pods
pods-IsBounded f ip i = ground (arith, pods-Owned f ip i)

alpha-IsOwned : IsOwned pods (codes "alpha") alpha_ip
alpha-IsOwned g i = ground (arith, pods-Owned g alpha_ip i)

beta-IsOwned : IsOwned pods (codes "beta") beta_ip
beta-IsOwned g i = ground (arith, pods-Owned g beta_ip i)

pub alpha_has_ip : Memᴰ alpha_ip (ips_of pods (codes "alpha"))
unfolding ips_of HashMap.get str_eq
alpha_has_ip = Memᴰ.head refl

pub beta_has_ip : Memᴰ beta_ip (ips_of pods (codes "beta"))
unfolding ips_of HashMap.get str_eq
beta_has_ip = Memᴰ.head refl

pub beta-ne-alpha : codes "beta" ≢ codes "alpha"
beta-ne-alpha p = ground arith

pub syn_back-IsJudged : IsJudged syn_back (packet_of beta_ip alpha_ip 2)
unfolding parse_packet
syn_back-IsJudged = record { parsed = refl; from_pod = refl; to_pod = refl; opens = λ tcp. refl }

abbrev key_back : PacketKey
key_back = packet_key little beta_ip alpha_ip

sync_verdict_example :
    list_maps.get
      (sync list_maps little same_order one_way pods [] 1).0.verdicts
      (key_of little beta_ip alpha_ip)
    ≡ some (if is_allowed one_way (codes "beta") (codes "alpha") then 0 else 1)
unfolding VerdictSync.svc_names ips_of HashMap.get str_eq
sync_verdict_example =
    sync_verdict list_maps list_maps-IsAya little same_order same_order-IsIteration one_way pods []
      1 (codes "beta") (codes "alpha") beta_ip alpha_ip (omega arith) pods-IsBounded beta-IsOwned
      alpha-IsOwned beta-ne-alpha beta_has_ip alpha_has_ip

abbrev synced_maps : Maps
synced_maps =
    synced list_maps list_maps-IsAya little same_order same_order-IsIteration one_way pods [] 1

synced_enforces_example :
    (action little synced_maps syn_back ≡ tc_act_shot)
    ↔ (is_allowed one_way (codes "beta") (codes "alpha") ≡ false)
unfolding VerdictSync.svc_names ips_of HashMap.get str_eq
synced_enforces_example =
    synced_enforces list_maps list_maps-IsAya little same_order same_order-IsIteration one_way pods
      [] 1 (codes "beta") (codes "alpha") syn_back (frame_context little syn_back)
      (packet_of beta_ip alpha_ip 2) (omega arith) pods-IsBounded beta-IsOwned alpha-IsOwned
      beta-ne-alpha beta_has_ip alpha_has_ip (frame_context-IsFrame little syn_back (omega arith))
      syn_back-IsJudged

syn-IsJudged : IsJudged syn (packet_of alpha_ip beta_ip 2)
unfolding parse_packet
syn-IsJudged = record { parsed = refl; from_pod = refl; to_pod = refl; opens = λ tcp. refl }

-- The packet is of a pair that `one_way` allows.
sync_window_example :
    (action little (kernel_view list_maps (clear list_maps []) (write_flag list_maps one_way 1)) syn
      ≡ tc_act_shot)
    ↔ (one_way.default_allow ≡ false)
sync_window_example =
    sync_window list_maps list_maps-IsAya little same_order same_order-IsIteration one_way pods [] 1
      syn (frame_context little syn) (packet_of alpha_ip beta_ip 2) syn-IsFrame syn-IsJudged

-- After `sync` the map holds a refusal for the way back.
refused_back :
    list_maps.get (sync list_maps little same_order one_way pods [] 1).0.verdicts key_back ≡ some 1
unfolding is_allowed check_rules lists str_eq packet_key
refused_back = sync_verdict_example

sync-IsJustified_example : IsJustified little one_way pods key_back 1
sync-IsJustified_example =
    sync-IsJustified list_maps list_maps-IsAya little same_order same_order-IsIteration one_way pods
      [] 1 key_back 1 refused_back
