-- ===== src/Classifier/Filter.antt =====
-- The filter that kprobe/kprobe-ebpf/src/main.rs describes, over addresses and ports as numbers, with
-- no byte order and no masks, and the proof that the classifier is this filter on either byte order.
use mathlib.Core.Option
use meshlite.Base.{
  ℕ, ◌/◌, ◌<◌, ◌≡◌, refl, ◌∙◌, inl, inr, Bool, false, not, ◌&&◌, Option, none, some, List, [], ◌∷◌,
  arith, ◌==◌, if◌then◌else◌, ◌>>=◌, Bytes, get_elem?,
}
use meshlite.Word.{Endian, little, big, to_be16, to_be32, from_be16-to_be16}
use meshlite.Word.Mask.{digit, bit_and_low16, bit_and_high16, bit_and_0x12}
use meshlite.Classifier.{
  tc_act_ok, tc_act_shot, PacketLog, PacketKey, TcContext, Maps, lookup_verdict, in_pod_cidr,
  pod_verdict, is_new_syn, tcp_verdict, try_intercept, kprobe_egress,
}
use meshlite.Classifier.Fields.{
  host16, host32, Fits, Fits-some, get_elem?-Fits, host16-Fits, host32-Fits,
}
use meshlite.Classifier.Frame.{IsFrame}

pub record Packet : Type 0 where
  pub proto : ℕ
  pub src : ℕ
  pub dst : ℕ
  pub src_port : ℕ
  pub dst_port : ℕ
  pub flags : Option ℕ

-- An IPv4 packet of TCP or UDP with whole addresses and ports.
abbrev pub assemble :
    Option ℕ → Option ℕ → Option ℕ → Option ℕ → Option ℕ → Option ℕ → Option ℕ → Option Packet
assemble ethertype protocol source destination sport dport flags = do
  kind ← ethertype
  if not (kind == 0x0800) then none else do
    proto ← protocol
    if not (proto == 6) && not (proto == 17) then none else do
      src ← source
      dst ← destination
      src_port ← sport
      dst_port ← dport
      some (record {
        proto = proto;
        src = src;
        dst = dst;
        src_port = src_port;
        dst_port = dst_port;
        flags = flags;
      })

unfoldable pub parse_packet : Bytes → Option Packet
parse_packet bytes =
    assemble (host16 bytes 12) (get_elem? bytes 23) (host32 bytes 26) (host32 bytes 30)
      (host16 bytes 34) (host16 bytes 36) (get_elem? bytes 47)

-- In 10.244.0.0/16.
abbrev pub is_pod : ℕ → Bool
is_pod ip = ip / 65536 == 0x0AF4

-- SYN is bit 1 of the TCP flags, ACK is bit 4.
abbrev pub opens_connection : Option ℕ → Bool
opens_connection none = false
opens_connection (some flags) = digit flags 2 == 1 && digit flags 16 == 0

abbrev pub key_of : Endian → ℕ → ℕ → PacketKey
key_of e src dst = record { src_ip = to_be32 e src; dst_ip = to_be32 e dst }

-- What the maps say of two addresses.
abbrev pub wanted : Endian → Maps → ℕ → ℕ → ℕ
wanted e maps src dst =
    if is_pod src && is_pod dst then lookup_verdict maps (key_of e src dst) else 0

abbrev pub verdict_of : Endian → Maps → Packet → ℕ
verdict_of e maps p =
    let v = wanted e maps p.src p.dst in
    if p.proto == 6 && v == 1 then (if opens_connection p.flags then 1 else 0) else v

abbrev pub log_of : Endian → Maps → Packet → PacketLog
log_of e maps p = record {
  src_ip = to_be32 e p.src;
  dst_ip = to_be32 e p.dst;
  src_port = p.src_port;
  dst_port = p.dst_port;
  proto = p.proto;
  verdict = verdict_of e maps p;
}

abbrev pub filter : Endian → Maps → Option Packet → ℕ × List PacketLog
filter e maps none = (tc_act_ok, [])
filter e maps (some p) =
    (if verdict_of e maps p == 1 then tc_act_shot else tc_act_ok, log_of e maps p ∷ [])

in_pod_cidr-to_be32 : (e : Endian) (x : ℕ) → x < 4294967296 → in_pod_cidr e (to_be32 e x) ≡ is_pod x
unfolding in_pod_cidr
in_pod_cidr-to_be32 little x h = ground (arith, bit_and_low16 (to_be32 little x))
in_pod_cidr-to_be32 big x h = ground (arith, bit_and_high16 x)

is_new_syn-opens : (x : ℕ) → x < 256 → is_new_syn x ≡ opens_connection (some x)
unfolding is_new_syn
is_new_syn-opens x h = ground (arith, bit_and_0x12 x)

-- The loads of a context, in terms of the fields.
record IsLoaded (e : Endian) (ctx : TcContext)
    (kind protocol source destination sport dport flags : Option ℕ) : Type 0 where
  kind_load : ctx.load16 12 ≡ Option.map (to_be16 e) kind
  protocol_load : ctx.load8 23 ≡ protocol
  source_load : ctx.load32 26 ≡ Option.map (to_be32 e) source
  destination_load : ctx.load32 30 ≡ Option.map (to_be32 e) destination
  sport_load : ctx.load16 34 ≡ Option.map (to_be16 e) sport
  dport_load : ctx.load16 36 ≡ Option.map (to_be16 e) dport
  flags_load : ctx.load8 47 ≡ flags

module _ (e : Endian) (maps : Maps) (ctx : TcContext) where
  verdicts_agree :
      (proto src dst : ℕ) (flags : Option ℕ)
      → src < 4294967296
      → dst < 4294967296
      → Fits 256 flags
      → ctx.load8 47 ≡ flags
      → tcp_verdict ctx proto (pod_verdict e maps (to_be32 e src) (to_be32 e dst)) ≡ (
          let v = wanted e maps src dst in
          if proto == 6 && v == 1 then (if opens_connection flags then 1 else 0) else v)
  unfolding tcp_verdict pod_verdict
  verdicts_agree proto src dst flags hs hd (inl p) load =
      rw (in_pod_cidr-to_be32 e src hs)
        (rw (in_pod_cidr-to_be32 e dst hd) (rw (load, p) (ground arith)))
  verdicts_agree proto src dst flags hs hd (inr (f, p, hf)) load =
      rw (in_pod_cidr-to_be32 e src hs) (
        rw (in_pod_cidr-to_be32 e dst hd)
          (rw (load, p) (rw (is_new_syn-opens f hf) (ground arith))))

  kind_test : (kind : ℕ) → kind < 65536 → (to_be16 e kind == to_be16 e 0x0800) ≡ (kind == 0x0800)
  kind_test kind h = go e
    where
      go : (e : Endian) → (to_be16 e kind == to_be16 e 0x0800) ≡ (kind == 0x0800)
      go little = ground arith
      go big = refl

  -- The rest of the program, once the frame is known to be IPv4 with protocol 6 or 17.
  egress_loaded :
      (kind protocol source destination sport dport flags : Option ℕ)
      → IsLoaded e ctx kind protocol source destination sport dport flags
      → Fits 65536 kind
      → Fits 4294967296 source
      → Fits 4294967296 destination
      → Fits 65536 sport
      → Fits 65536 dport
      → Fits 256 flags
      → kprobe_egress e maps ctx
        ≡ filter e maps (assemble kind protocol source destination sport dport flags)
  unfolding kprobe_egress try_intercept
  egress_loaded none protocol source destination sport dport flags l fk fs fd fsp fdp ff =
      ground arith
  egress_loaded (some k) none source destination sport dport flags l fk fs fd fsp fdp ff =
      ground (arith, kind_test k (Fits-some 65536 k fk))
  egress_loaded (some k) (some proto) none destination sport dport flags l fk fs fd fsp fdp ff =
      ground (arith, kind_test k (Fits-some 65536 k fk))
  egress_loaded (some k) (some proto) (some src) none sport dport flags l fk fs fd fsp fdp ff =
      ground (arith, kind_test k (Fits-some 65536 k fk))
  egress_loaded (some k) (some proto) (some src) (some dst) none dport flags l fk fs fd fsp fdp ff =
      ground (arith, kind_test k (Fits-some 65536 k fk))
  egress_loaded (some k) (some proto) (some src) (some dst) (some sp) none flags l fk fs fd fsp fdp
        ff =
      ground (arith, kind_test k (Fits-some 65536 k fk))
  egress_loaded (some k) (some proto) (some src) (some dst) (some sp) (some dp) flags l fk fs fd fsp
        fdp ff =
      ground (
        arith,
        kind_test k (Fits-some 65536 k fk),
        from_be16-to_be16 e sp (Fits-some 65536 sp fsp),
        from_be16-to_be16 e dp (Fits-some 65536 dp fdp),
        verdicts_agree proto src dst flags (Fits-some 4294967296 src fs)
            (Fits-some 4294967296 dst fd) ff l.flags_load,
      )

-- On either byte order and for every packet, the classifier acts and logs as the filter does on the
-- parsed packet: it passes what does not parse, without a record, and looks the verdict up by the two
-- addresses only if both are pod addresses, dropping of TCP only what opens a connection.
pub kprobe_egress-filter :
    (e : Endian) (maps : Maps) (bytes : Bytes) (ctx : TcContext)
    → IsFrame e bytes ctx
    → kprobe_egress e maps ctx ≡ filter e maps (parse_packet bytes)
unfolding parse_packet
kprobe_egress-filter e maps bytes ctx frame =
    let octets = frame.octets in
    let kind = host16-Fits e bytes octets 12 in
    let source = host32-Fits e bytes octets 26 in
    let destination = host32-Fits e bytes octets 30 in
    let sport = host16-Fits e bytes octets 34 in
    let dport = host16-Fits e bytes octets 36 in
    let loaded : IsLoaded e ctx (host16 bytes 12) (get_elem? bytes 23) (host32 bytes 26)
        (host32 bytes 30) (host16 bytes 34) (host16 bytes 36) (get_elem? bytes 47) =
      record {
        kind_load = frame.at16 12 ∙ kind.1;
        protocol_load = frame.at8 23;
        source_load = frame.at32 26 ∙ source.1;
        destination_load = frame.at32 30 ∙ destination.1;
        sport_load = frame.at16 34 ∙ sport.1;
        dport_load = frame.at16 36 ∙ dport.1;
        flags_load = frame.at8 47;
      } in
    egress_loaded e maps ctx (host16 bytes 12) (get_elem? bytes 23) (host32 bytes 26)
      (host32 bytes 30) (host16 bytes 34) (host16 bytes 36) (get_elem? bytes 47) loaded kind.0
      source.0 destination.0 sport.0 dport.0 (get_elem?-Fits e bytes octets 47)
