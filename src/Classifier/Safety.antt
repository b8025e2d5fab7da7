-- ===== src/Classifier/Safety.antt =====
-- Which packets kprobe/kprobe-ebpf/src/main.rs drops, and that the log tells what was done.
use meshlite.Base.{
  ℕ, ◌≡◌, refl, ap, sym, inl, inr, Option-cases, ◌∙◌, ◌↔◌, ◌⊎◌, Bool, true, false, Option, none,
  some, List, [], ◌∷◌, arith, ◌==◌, Bytes,
}
use meshlite.Word.{Endian}
use meshlite.Classifier.{
  tc_act_ok, tc_act_shot, PacketKey, PacketLog, TcContext, Maps, lookup_verdict, try_intercept,
  kprobe_egress,
}
use meshlite.Classifier.Frame.{IsFrame}
use meshlite.Classifier.Filter.{
  Packet, parse_packet, is_pod, opens_connection, key_of, filter, kprobe_egress-filter,
}

-- The maps deny a pair: by its entry, or by a flag of zero where there is none.
abbrev pub Denied : Maps → PacketKey → Type 0
Denied maps key =
    (maps.verdict_map key ≡ some 1)
    ⊎ ((maps.verdict_map key ≡ none) × (maps.policy_flags 0 ≡ some 0))

pub lookup_verdict-Denied :
    (maps : Maps) (key : PacketKey) → lookup_verdict maps key ≡ 1 → Denied maps key
unfolding lookup_verdict
lookup_verdict-Denied maps key h = elim (Option-cases (maps.verdict_map key)) [
  | inr (v, there) ↦ inl (ground arith)
  | inl absent ↦ elim (Option-cases (maps.policy_flags 0)) [
    | inr (flag, set) ↦ inr (ground arith)
    | inl unset ↦ absurd (ground arith)
  ]
]

pub Denied-lookup_verdict :
    (maps : Maps) (key : PacketKey) → Denied maps key → lookup_verdict maps key ≡ 1
unfolding lookup_verdict
Denied-lookup_verdict maps key (inl there) = ground arith
Denied-lookup_verdict maps key (inr (absent, zeroed)) = ground arith

-- Why a packet is dropped.
pub record Dropped (e : Endian) (maps : Maps) (bytes : Bytes) : Type 0 where
  pub packet : Packet
  pub parsed : parse_packet bytes ≡ some packet
  pub from_pod : is_pod packet.src ≡ true
  pub to_pod : is_pod packet.dst ≡ true
  pub denied : Denied maps (key_of e packet.src packet.dst)
  pub opens : packet.proto ≡ 6 → opens_connection packet.flags ≡ true

filter_drops :
    (e : Endian) (maps : Maps) (bytes : Bytes) (o : Option Packet)
    → parse_packet bytes ≡ o
    → (filter e maps o).0 ≡ tc_act_shot
    → Dropped e maps bytes
filter_drops e maps bytes none h d = absurd (omega arith)
filter_drops e maps bytes (some p) h d = record {
  packet = p;
  parsed = h;
  from_pod = ground arith;
  to_pod = ground arith;
  denied = lookup_verdict-Denied maps (key_of e p.src p.dst) (ground arith);
  opens = λ tcp. ground arith;
}

filter-Dropped :
    (e : Endian) (maps : Maps) (bytes : Bytes)
    → Dropped e maps bytes
    → (filter e maps (parse_packet bytes)).0 ≡ tc_act_shot
filter-Dropped e maps bytes d = rw d.parsed (go (d.packet.proto == 6) refl)
  where
    go : (b : Bool) → (d.packet.proto == 6) ≡ b → (filter e maps (some d.packet)).0 ≡ tc_act_shot
    go true tcp =
        let opens = d.opens (ground arith) in
        let denied = Denied-lookup_verdict maps (key_of e d.packet.src d.packet.dst) d.denied in
        rw (tcp, d.from_pod, d.to_pod, denied, opens) refl
    go false udp =
        let denied = Denied-lookup_verdict maps (key_of e d.packet.src d.packet.dst) d.denied in
        rw (udp, d.from_pod, d.to_pod, denied) refl

-- A frame is dropped exactly when it is IPv4 of TCP or UDP and reaches to the end of the two ports, both
-- addresses are in the pod CIDR, the verdict of the pair is one, or there is none and the default flag is
-- zero, and, if it is TCP, the frame reaches to the TCP flags and these have SYN without ACK.
pub kprobe_egress_drops_iff :
    (e : Endian) (maps : Maps) (bytes : Bytes) (ctx : TcContext)
    → IsFrame e bytes ctx
    → ((kprobe_egress e maps ctx).0 ≡ tc_act_shot) ↔ Dropped e maps bytes
kprobe_egress_drops_iff e maps bytes ctx frame =
    let same = ap (λ (r : ℕ × List PacketLog). r.0) (kprobe_egress-filter e maps bytes ctx frame) in
    (
      λ h. filter_drops e maps bytes (parse_packet bytes) refl (sym same ∙ h),
      λ d. same ∙ filter-Dropped e maps bytes d,
    )

-- A single record with verdict 1.
abbrev pub tells_deny : List PacketLog → Bool
tells_deny (log ∷ []) = log.verdict == 1
tells_deny _ = false

-- Whatever the loads and the maps return, the action is to pass or to drop, and it is to drop exactly
-- when one record with verdict 1 is logged.
pub kprobe_egress_logs :
    (e : Endian) (maps : Maps) (ctx : TcContext)
    → (((kprobe_egress e maps ctx).0 ≡ tc_act_ok) ⊎ ((kprobe_egress e maps ctx).0 ≡ tc_act_shot))
      × (((kprobe_egress e maps ctx).0 == tc_act_shot) ≡ tells_deny (kprobe_egress e maps ctx).1)
unfolding kprobe_egress try_intercept
kprobe_egress_logs e maps ctx = (ground arith, ground arith)
