-- ===== src/Reader/Frames.antt =====
-- From a frame on the wire, through the perf buffer, to what the agent prints and sends:
-- kprobe/kprobe-ebpf/src/main.rs and kprobe/kprobe-userspace/src/main.rs together.
use meshlite.Base.{
  ℕ, zero, suc, ◌⊎◌, Bool-cases, ◌<◌, ◌≤◌, ◌≡◌, refl, ap, ◌∙◌, inl, inr, ◌||◌, some, List, [], ◌∷◌,
  ◌++◌, arith, Text, Bytes, codes, ◌==◌, if◌then◌else◌,
}
use mathlib.Core.List.{append-nil}
use meshlite.Word.{Endian, little, big, to_be32, from_be32-to_be32}
use meshlite.Classifier.{tc_act_ok, tc_act_shot, PacketLog, TcContext, Maps, kprobe_egress}
use meshlite.Classifier.Frame.{IsFrame}
use meshlite.Classifier.Filter.{
  Packet, parse_packet, verdict_of, log_of, filter, key_of, kprobe_egress-filter,
}
use meshlite.Classifier.Widths.{IsPacket, parse_packet-IsPacket}
use meshlite.VerdictSync.{PodSnapshot}
use meshlite.Reader.{Line, in_pod_net, proto_name, read_record, reported}
use meshlite.Reader.Layout.{IsLog, log_bytes, read_log-log_bytes}
use meshlite.Reader.Slots.{read_slot, read_slots}
use meshlite.Reader.Reports.{IsBinary, lookup_verdict-le, Says, reports_action}

to_be32-lt : (e : Endian) (x : ℕ) → x < 4294967296 → to_be32 e x < 4294967296
to_be32-lt little x h = omega arith
to_be32-lt big x h = h

log_of-IsLog : (e : Endian) (maps : Maps) (p : Packet) → IsPacket p → IsLog (log_of e maps p)
log_of-IsLog e maps p w = record {
  src_fits = to_be32-lt e p.src w.src_width;
  dst_fits = to_be32-lt e p.dst w.dst_width;
  sport_fits = w.src_port_width;
  dport_fits = w.dst_port_width;
}

-- The line for a packet, by its own fields.
abbrev pub line_of : Packet → ℕ → Line
line_of p action = record {
  src = p.src;
  src_port = p.src_port;
  dst = p.dst;
  dst_port = p.dst_port;
  proto = if p.proto == 6 then codes "TCP" else codes "UDP";
  verdict = if action == tc_act_shot then codes "DENY" else codes "ALLOW";
}

abbrev pub lines_of : Packet → ℕ → List Line
lines_of p action = if in_pod_net p.src || in_pod_net p.dst then line_of p action ∷ [] else []

module _ (e : Endian) (iter : PodSnapshot → PodSnapshot) (cluster_id : Text)
    (snapshot : PodSnapshot) where
  -- The slots that the records of a packet come in: with any padding, and with any bytes after them.
  abbrev pub slots_of : ℕ × ℕ → Bytes → List PacketLog → List (PodSnapshot × Bytes)
  slots_of pad rest [] = []
  slots_of pad rest (log ∷ logs) = (snapshot, log_bytes e pad log ++ rest) ∷ slots_of pad rest logs

  read_slot-log_bytes :
      (pad : ℕ × ℕ) (rest : Bytes) (log : PacketLog)
      → IsLog log
      → read_slot e iter cluster_id snapshot (log_bytes e pad log ++ rest)
        ≡ read_record e iter snapshot cluster_id log
  unfolding read_slot
  read_slot-log_bytes pad rest log fits =
      rw (read_log-log_bytes e pad log rest fits, read_slot) refl

  logged_line : PacketLog → ℕ → ℕ → Text → Line
  logged_line log src dst proto = record {
    src = src;
    src_port = log.src_port;
    dst = dst;
    dst_port = log.dst_port;
    proto = proto;
    verdict = if log.verdict == 0 then codes "ALLOW" else codes "DENY";
  }

  reported_lines :
      (log : PacketLog) (src dst : ℕ) (proto : Text)
      → (reported e iter snapshot cluster_id log src dst proto).0
        ≡ (if in_pod_net src || in_pod_net dst then logged_line log src dst proto ∷ [] else [])
  unfolding logged_line
  reported_lines log src dst proto = elim (Bool-cases (in_pod_net src || in_pod_net dst)) [
    | inl there ↦ rw there refl
    | inr other ↦ rw other refl
  ]

  words_agree :
      (v : ℕ)
      → v ≤ 1
      → (if v == 0 then codes "ALLOW" else codes "DENY") ≡ (
          if (if v == 1 then tc_act_shot else tc_act_ok) == tc_act_shot
          then codes "DENY"
          else codes "ALLOW")
  words_agree zero h = refl
  words_agree (suc zero) h = refl
  words_agree (suc (suc v)) h = absurd (omega arith)

  proto_named :
      (proto : ℕ)
      → (proto ≡ 6) ⊎ (proto ≡ 17)
      → proto_name proto ≡ some (if proto == 6 then codes "TCP" else codes "UDP")
  proto_named proto (inl h) = rw h refl
  proto_named proto (inr h) = rw h refl

  record_lines :
      (maps : Maps) (p : Packet)
      → IsPacket p
      → verdict_of e maps p ≤ 1
      → (read_record e iter snapshot cluster_id (log_of e maps p)).0
        ≡ lines_of p (filter e maps (some p)).0
  unfolding read_record logged_line
  record_lines maps p w binary =
      let named = proto_named p.proto w.protocol in
      let src = from_be32-to_be32 e p.src w.src_width in
      let dst = from_be32-to_be32 e p.dst w.dst_width in
      let words = words_agree (verdict_of e maps p) binary in
      let log = log_of e maps p in
      let proto : Text = if p.proto == 6 then codes "TCP" else codes "UDP" in
      rw (named, read_record, src, dst)
        (reported_lines log p.src p.dst proto
          ∙ ap
              (λ word.
                if in_pod_net p.src || in_pod_net p.dst
                then record (logged_line log p.src p.dst proto) { verdict = word } ∷ []
                else [])
              words)

  verdict_of-le : (maps : Maps) (p : Packet) → IsBinary maps → verdict_of e maps p ≤ 1
  verdict_of-le maps p binary =
      let v = lookup_verdict-le e maps binary (key_of e p.src p.dst) in ground arith

  pub frame_reported :
      (pad : ℕ × ℕ) (rest bytes : Bytes) (ctx : TcContext) (maps : Maps) (p : Packet)
      → IsFrame e bytes ctx
      → parse_packet bytes ≡ some p
      → IsBinary maps
      → let (action, logs) = kprobe_egress e maps ctx in
        let (lines, records) = read_slots e iter cluster_id (slots_of pad rest logs) in
        (lines ≡ lines_of p action)
        × Says e iter snapshot cluster_id (action == tc_act_shot) records
  frame_reported pad rest bytes ctx maps p frame parsed binary =
      let filtered = kprobe_egress-filter e maps bytes ctx frame ∙ ap (filter e maps) parsed in
      let w = parse_packet-IsPacket bytes p frame.octets parsed in
      let read = read_slot-log_bytes pad rest (log_of e maps p) (log_of-IsLog e maps p w) in
      let said = reports_action e iter snapshot cluster_id maps ctx binary in
      let says = rw filtered at said in
      let printed = (read_record e iter snapshot cluster_id (log_of e maps p)).0 in
      rw (filtered, read)
        (append-nil printed ∙ record_lines maps p w (verdict_of-le maps p binary), says)
