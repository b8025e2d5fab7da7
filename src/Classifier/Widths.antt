-- ===== src/Classifier/Widths.antt =====
-- The widths of what kprobe/kprobe-ebpf/src/main.rs reads from a packet.
use meshlite.Base.{ℕ, ◌<◌, ◌≡◌, ◌⊎◌, Option, none, some, arith, Bytes, All, get_elem?}
use meshlite.Classifier.Fields.{host16, host32, Fits, Fits-some, host16-Fits, host32-Fits}
use meshlite.Classifier.Filter.{Packet, assemble, parse_packet}
use meshlite.Word.{little}

pub record IsPacket (p : Packet) : Type 0 where
  pub protocol : (p.proto ≡ 6) ⊎ (p.proto ≡ 17)
  pub src_width : p.src < 4294967296
  pub dst_width : p.dst < 4294967296
  pub src_port_width : p.src_port < 65536
  pub dst_port_width : p.dst_port < 65536

assemble-IsPacket :
    (kind protocol source destination sport dport flags : Option ℕ) (p : Packet)
    → Fits 4294967296 source
    → Fits 4294967296 destination
    → Fits 65536 sport
    → Fits 65536 dport
    → assemble kind protocol source destination sport dport flags ≡ some p
    → IsPacket p
assemble-IsPacket none protocol source destination sport dport flags p fs fd fsp fdp h =
    absurd (ground arith)
assemble-IsPacket (some k) none source destination sport dport flags p fs fd fsp fdp h =
    absurd (ground arith)
assemble-IsPacket (some k) (some pr) none destination sport dport flags p fs fd fsp fdp h =
    absurd (ground arith)
assemble-IsPacket (some k) (some pr) (some sr) none sport dport flags p fs fd fsp fdp h =
    absurd (ground arith)
assemble-IsPacket (some k) (some pr) (some sr) (some d) none dport flags p fs fd fsp fdp h =
    absurd (ground arith)
assemble-IsPacket (some k) (some pr) (some sr) (some d) (some sp) none flags p fs fd fsp fdp h =
    absurd (ground arith)
assemble-IsPacket (some k) (some pr) (some sr) (some d) (some sp) (some dp) flags p fs fd fsp fdp
      h =
    let src_fits = Fits-some 4294967296 sr fs in
    let dst_fits = Fits-some 4294967296 d fd in
    let sport_fits = Fits-some 65536 sp fsp in
    let dport_fits = Fits-some 65536 dp fdp in
    record {
      protocol = ground arith;
      src_width = ground arith;
      dst_width = ground arith;
      src_port_width = ground arith;
      dst_port_width = ground arith;
    }

-- The fields of a packet that parses have their widths.
pub parse_packet-IsPacket :
    (bytes : Bytes) (p : Packet)
    → All (λ b. b < 256) bytes
    → parse_packet bytes ≡ some p
    → IsPacket p
unfolding parse_packet
parse_packet-IsPacket bytes p octets h =
    assemble-IsPacket (host16 bytes 12) (get_elem? bytes 23) (host32 bytes 26) (host32 bytes 30)
      (host16 bytes 34) (host16 bytes 36) (get_elem? bytes 47) p
      (host32-Fits little bytes octets 26).0 (host32-Fits little bytes octets 30).0
      (host16-Fits little bytes octets 34).0 (host16-Fits little bytes octets 36).0 h
