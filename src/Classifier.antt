-- ===== src/Classifier.antt =====
-- kprobe/kprobe-ebpf/src/main.rs: the TC classifier, which passes or drops each outgoing packet.
-- The loads of `TcContext`, `HashMap::get` and `Array::get` of the aya crate are parameters; what
-- `PACKET_EVENTS.output` writes is the list of records beside the action.
pub mod Frame
mod Fields
pub mod Filter
pub mod Safety
pub mod Widths
use Prim.Native.Nat.{bit_and}
use meshlite.Base.{
  ℕ, Bool, not, ◌&&◌, Option, none, some, List, [], ◌∷◌, ◌==◌, if◌then◌else◌, ◌>>=◌,
}
use meshlite.Word.{Endian, to_be16, to_be32, from_be16}

abbrev pub tc_act_ok : ℕ
tc_act_ok = 0

abbrev pub tc_act_shot : ℕ
tc_act_shot = 2

abbrev pub pod_cidr_net : Endian → ℕ
pod_cidr_net e = to_be32 e 0x0AF40000

abbrev pub pod_cidr_mask : Endian → ℕ
pod_cidr_mask e = to_be32 e 0xFFFF0000

pub record PacketLog : Type 0 where
  pub src_ip : ℕ
  pub dst_ip : ℕ
  pub src_port : ℕ
  pub dst_port : ℕ
  pub proto : ℕ
  pub verdict : ℕ

-- Addresses in network byte order.
pub record PacketKey : Type 0 where
  pub src_ip : ℕ
  pub dst_ip : ℕ

-- `load(offset)` at the three widths; `none` is an error.
pub record TcContext : Type 0 where
  pub load8 : ℕ → Option ℕ
  pub load16 : ℕ → Option ℕ
  pub load32 : ℕ → Option ℕ

-- `VERDICT_MAP.get` and `POLICY_FLAGS.get`.
pub record Maps : Type 0 where
  pub verdict_map : PacketKey → Option ℕ
  pub policy_flags : ℕ → Option ℕ

-- The `match POLICY_FLAGS.get(0)`.
default_verdict : Option ℕ → ℕ
default_verdict (some flag) = if flag == 0 then 1 else 0
default_verdict none = 0

-- The `match VERDICT_MAP.get(&key)`.
unfoldable pub lookup_verdict : Maps → PacketKey → ℕ
unfolding default_verdict
lookup_verdict maps key = elim (maps.verdict_map key) [
  | some v ↦ v
  | none ↦ default_verdict (maps.policy_flags 0)
]

unfoldable pub in_pod_cidr : Endian → ℕ → Bool
in_pod_cidr e ip = bit_and ip (pod_cidr_mask e) == pod_cidr_net e

-- Step 5.
unfoldable pub pod_verdict : Endian → Maps → ℕ → ℕ → ℕ
pod_verdict e maps src_ip dst_ip =
    if in_pod_cidr e src_ip && in_pod_cidr e dst_ip
    then lookup_verdict maps (record { src_ip = src_ip; dst_ip = dst_ip })
    else 0

unfoldable pub is_new_syn : ℕ → Bool
is_new_syn tcp_flags = bit_and tcp_flags 0x12 == 0x02

-- Step 5b.
unfoldable pub tcp_verdict : TcContext → ℕ → ℕ → ℕ
tcp_verdict ctx proto verdict =
    if proto == 6 && verdict == 1
    then elim (ctx.load8 47) [ some flags ↦ if is_new_syn flags then 1 else 0 | none ↦ 0 ]
    else verdict

-- `none` is `Err(())`.
unfoldable pub try_intercept : Endian → Maps → TcContext → Option (ℕ × List PacketLog)
try_intercept e maps ctx = do
  ethertype ← ctx.load16 12
  if not (ethertype == to_be16 e 0x0800) then some (tc_act_ok, []) else do
    proto ← ctx.load8 23
    if not (proto == 6) && not (proto == 17) then some (tc_act_ok, []) else do
      src_ip ← ctx.load32 26
      dst_ip ← ctx.load32 30
      src_port_be ← ctx.load16 34
      dst_port_be ← ctx.load16 36
      let verdict = tcp_verdict ctx proto (pod_verdict e maps src_ip dst_ip)
      let action : ℕ = if verdict == 1 then tc_act_shot else tc_act_ok
      let log : PacketLog = record {
        src_ip = src_ip;
        dst_ip = dst_ip;
        src_port = from_be16 e src_port_be;
        dst_port = from_be16 e dst_port_be;
        proto = proto;
        verdict = verdict;
      }
      some (action, log ∷ [])

unfoldable pub kprobe_egress : Endian → Maps → TcContext → ℕ × List PacketLog
kprobe_egress e maps ctx = elim (try_intercept e maps ctx) [
  | some result ↦ result
  | none ↦ (tc_act_ok, [])
]
