-- ===== src/Reader/Layout.antt =====
-- `PacketLog` in memory, `#[repr(C)]` on both sides: what kprobe/kprobe-ebpf/src/main.rs puts into the perf
-- buffer, and what kprobe/kprobe-userspace/src/main.rs reads from a slot of it.
use meshlite.Base.{
  ℕ, ◌<◌, ◌≡◌, refl, ap, Option, none, some, false, [], ◌∷◌, ◌++◌, arith, Bytes, ltb, length,
  length-append, get_elem?, ◌>>=◌, if◌then◌else◌,
}
use meshlite.Word.{Endian, little, big, bytes16, bytes32}
use meshlite.Classifier.{PacketLog}
use meshlite.Classifier.Frame.{read16, read32}

-- `size_of::<PacketLog>()`: the fields, and two bytes that bring the size to a multiple of four.
abbrev pub size_of_log : ℕ
size_of_log = 16

-- The fields in memory; the two bytes after them have no meaning.
abbrev pub log_bytes : Endian → ℕ × ℕ → PacketLog → Bytes
log_bytes e (p, q) log =
    bytes32 e log.src_ip
    ++ (bytes32 e log.dst_ip
        ++ (bytes16 e log.src_port
            ++ (bytes16 e log.dst_port ++ (log.proto ∷ log.verdict ∷ p ∷ q ∷ []))))

-- The `read_unaligned`.
abbrev read_fields : Endian → Bytes → Option PacketLog
read_fields e slot = do
  src_ip ← read32 e slot 0
  dst_ip ← read32 e slot 4
  src_port ← read16 e slot 8
  dst_port ← read16 e slot 10
  proto ← get_elem? slot 12
  verdict ← get_elem? slot 13
  some (record {
    src_ip = src_ip;
    dst_ip = dst_ip;
    src_port = src_port;
    dst_port = dst_port;
    proto = proto;
    verdict = verdict;
  })

-- `none` is an undersized slot.
unfoldable pub read_log : Endian → Bytes → Option PacketLog
read_log e slot = if ltb (length slot) size_of_log then none else read_fields e slot

-- The numbers are of the widths of their fields.
pub record IsLog (log : PacketLog) : Type 0 where
  pub src_fits : log.src_ip < 4294967296
  pub dst_fits : log.dst_ip < 4294967296
  pub sport_fits : log.src_port < 65536
  pub dport_fits : log.dst_port < 65536

with_fields :
    (log : PacketLog) (a b c d : ℕ)
    → a ≡ log.src_ip
    → b ≡ log.dst_ip
    → c ≡ log.src_port
    → d ≡ log.dst_port
    → record log { src_ip = a; dst_ip = b; src_port = c; dst_port = d } ≡ log
with_fields log a b c d h i j k = rw (h, i, j, k) refl

fields-log_bytes :
    (e : Endian) (pad : ℕ × ℕ) (log : PacketLog) (rest : Bytes)
    → IsLog log
    → read_fields e (log_bytes e pad log ++ rest) ≡ some log
fields-log_bytes little (p, q) log rest fits =
    ap some (with_fields log _ _ _ _ (omega arith) (omega arith) (omega arith) (omega arith))
fields-log_bytes big (p, q) log rest fits =
    ap some (with_fields log _ _ _ _ (omega arith) (omega arith) (omega arith) (omega arith))

length-log_bytes :
    (e : Endian) (pad : ℕ × ℕ) (log : PacketLog) → length (log_bytes e pad log) ≡ size_of_log
length-log_bytes little (p, q) log = refl
length-log_bytes big (p, q) log = refl

-- A record is read from a slot as it was written, whatever stands in its padding and after it.
pub read_log-log_bytes :
    (e : Endian) (pad : ℕ × ℕ) (log : PacketLog) (rest : Bytes)
    → IsLog log
    → read_log e (log_bytes e pad log ++ rest) ≡ some log
unfolding read_log
read_log-log_bytes e pad log rest fits =
    let whole = length-append (log_bytes e pad log) rest in
    let sixteen = length-log_bytes e pad log in
    let big_enough : ltb (length (log_bytes e pad log ++ rest)) size_of_log ≡ false =
      ground arith in
    rw big_enough (fields-log_bytes e pad log rest fits)
