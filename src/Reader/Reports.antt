-- ===== src/Reader/Reports.antt =====
-- What kprobe/kprobe-userspace/src/main.rs reports of a packet, against what the classifier of
-- kprobe/kprobe-ebpf/src/main.rs did with it.
use meshlite.Base.{
  ℕ, ◌≤◌, ◌≡◌, inl, inr, Bool, true, false, not, ◌&&◌, ◌||◌, Option, none, some, List, [], ◌∷◌,
  arith, Text, codes, str_eq, ◌==◌, leb, if◌then◌else◌, All, Bool-cases, ◌++◌, ◌>>=◌,
}
use meshlite.Word.{Endian, to_be16, from_be32}
use meshlite.Classifier.{
  PacketKey, PacketLog, TcContext, Maps, tc_act_ok, tc_act_shot, lookup_verdict, pod_verdict,
  tcp_verdict, try_intercept, kprobe_egress,
}
use meshlite.VerdictSync.{Ipv4Addr, PodSnapshot}
use meshlite.Telemetry.{TelemetryRecord}
use meshlite.Reader.{
  Line, unknown, resolve_service, in_pod_net, proto_name, emitted, reported, read_record,
}

-- The verdict map holds zeros and ones only.
abbrev pub IsBinary : Maps → Type 0
IsBinary maps =
    (k : PacketKey) → elim (maps.verdict_map k) [ some v ↦ leb v 1 | none ↦ true ] ≡ true

module _ (e : Endian) (maps : Maps) (binary : IsBinary maps) where
  pub lookup_verdict-le : (k : PacketKey) → lookup_verdict maps k ≤ 1
  unfolding lookup_verdict
  lookup_verdict-le k = let b = binary k in ground arith

  pod_verdict-le : (src dst : ℕ) → pod_verdict e maps src dst ≤ 1
  unfolding pod_verdict
  pod_verdict-le src dst =
      let b = lookup_verdict-le (record { src_ip = src; dst_ip = dst }) in ground arith

  tcp_verdict-le : (ctx : TcContext) (proto v : ℕ) → v ≤ 1 → tcp_verdict ctx proto v ≤ 1
  unfolding tcp_verdict
  tcp_verdict-le ctx proto v h = ground arith

  -- A log tells by its verdict, zero or one, whether the packet was dropped.
  Tells : ℕ → PacketLog → Type 0
  Tells action log = (log.verdict ≤ 1) × ((action == tc_act_shot) ≡ (log.verdict == 1))

  LogsTell : Option (ℕ × List PacketLog) → Type 0
  LogsTell none = Unit
  LogsTell (some (action, logs)) = All (Tells action) logs

  tell_under_bind :
      {A : Type 0} (o : Option A) (f : A → Option (ℕ × List PacketLog))
      → ((a : A) → LogsTell (f a))
      → LogsTell (o >>= f)
  unfolding LogsTell
  tell_under_bind none f h = tt
  tell_under_bind (some a) f h = h a

  tell_under_if :
      (b : Bool) (x y : Option (ℕ × List PacketLog))
      → LogsTell x
      → LogsTell y
      → LogsTell (if b then x else y)
  tell_under_if true x y h k = h
  tell_under_if false x y h k = k

  one_log :
      (log : PacketLog)
      → log.verdict ≤ 1
      → LogsTell (some ((if log.verdict == 1 then tc_act_shot else tc_act_ok), log ∷ []))
  unfolding LogsTell Tells
  one_log log h = ((h, ground arith), tt)

  intercept-LogsTell : (ctx : TcContext) → LogsTell (try_intercept e maps ctx)
  unfolding LogsTell try_intercept
  intercept-LogsTell ctx = tell_under_bind (ctx.load16 12) _ (λ ethertype.
      tell_under_if (not (ethertype == to_be16 e 0x0800)) (some (tc_act_ok, [])) _ tt (
        tell_under_bind (ctx.load8 23) _ (λ proto.
          tell_under_if (not (proto == 6) && not (proto == 17)) (some (tc_act_ok, [])) _ tt (
            tell_under_bind (ctx.load32 26) _ (λ src. tell_under_bind (ctx.load32 30) _ (λ dst.
              tell_under_bind (ctx.load16 34) _ (λ src_port.
                tell_under_bind (ctx.load16 36) _ (λ dst_port. one_log _ (
                  tcp_verdict-le ctx proto (pod_verdict e maps src dst)
                    (pod_verdict-le src dst))))))))))

module _ (e : Endian) (iter : PodSnapshot → PodSnapshot) (snapshot : PodSnapshot)
    (cluster_id : Text) where
  -- Each of the records says `deny` exactly if the packet was dropped.
  abbrev pub Says : Bool → List TelemetryRecord → Type 0
  Says dropped records = All (λ r. str_eq r.verdict (codes "deny") ≡ dropped) records

  emitted-Says :
      (dropped : Bool) (log : PacketLog) (src dst : Text)
      → log.verdict ≤ 1
      → dropped ≡ (log.verdict == 1)
      → Says dropped (emitted e iter snapshot cluster_id log src dst)
  unfolding str_eq
  emitted-Says dropped log src dst h d =
      elim (Bool-cases (not (str_eq src unknown) || not (str_eq dst unknown))) [
        | inl send ↦ rw send (ground arith, tt)
        | inr quiet ↦ rw quiet tt
      ]

  reported-Says :
      (dropped : Bool) (log : PacketLog) (src dst : Ipv4Addr) (proto : Text)
      → log.verdict ≤ 1
      → dropped ≡ (log.verdict == 1)
      → Says dropped (reported e iter snapshot cluster_id log src dst proto).1
  reported-Says dropped log src dst proto h d =
      elim (Bool-cases (in_pod_net src || in_pod_net dst)) [
        | inl pods ↦ rw pods (
            emitted-Says dropped log (resolve_service iter snapshot src)
              (resolve_service iter snapshot dst) h d)
        | inr other ↦ rw other tt
      ]

  read_record-Says :
      (dropped : Bool) (log : PacketLog)
      → log.verdict ≤ 1
      → dropped ≡ (log.verdict == 1)
      → Says dropped (read_record e iter snapshot cluster_id log).1
  unfolding read_record
  read_record-Says dropped log h d = go (proto_name log.proto)
    where
      go :
          (name : Option Text)
          → Says dropped
              (elim name as (λ x. List Line × List TelemetryRecord) [
                | some proto ↦
                    reported e iter snapshot cluster_id log
                      (from_be32 e log.src_ip)
                      (from_be32 e log.dst_ip)
                      proto
                | none ↦ ([], [])
              ]).1
      go none = tt
      go (some proto) =
          reported-Says dropped log (from_be32 e log.src_ip) (from_be32 e log.dst_ip) proto h d

  -- All that is sent for the logs of one packet.
  abbrev pub sent : List PacketLog → List TelemetryRecord
  sent [] = []
  sent (log ∷ logs) = (read_record e iter snapshot cluster_id log).1 ++ sent logs

  All_append :
      (dropped : Bool) (xs ys : List TelemetryRecord)
      → Says dropped xs
      → Says dropped ys
      → Says dropped (xs ++ ys)
  All_append dropped [] ys h k = k
  All_append dropped (x ∷ xs) ys h k = (h.0, All_append dropped xs ys h.1 k)

  sent-Says :
      (maps : Maps) (binary : IsBinary maps) (action : ℕ) (logs : List PacketLog)
      → All (Tells e maps binary action) logs
      → Says (action == tc_act_shot) (sent logs)
  unfolding Tells
  sent-Says maps binary action [] h = tt
  sent-Says maps binary action (log ∷ logs) h =
      All_append (action == tc_act_shot) (read_record e iter snapshot cluster_id log).1 (sent logs)
        (read_record-Says (action == tc_act_shot) log h.0.0 h.0.1)
        (sent-Says maps binary action logs h.1)

  -- Where the verdict map holds zeros and ones, as the reconciliation writes them, every telemetry
  -- record that the agent sends for a packet says `deny` exactly if the classifier dropped it.
  pub reports_action :
      (maps : Maps) (ctx : TcContext)
      → IsBinary maps
      → Says ((kprobe_egress e maps ctx).0 == tc_act_shot) (sent (kprobe_egress e maps ctx).1)
  unfolding kprobe_egress LogsTell
  reports_action maps ctx binary =
      go (try_intercept e maps ctx) (intercept-LogsTell e maps binary ctx)
    where
      go :
          (r : Option (ℕ × List PacketLog))
          → LogsTell e maps binary r
          → Says
              ((elim r as (λ x. ℕ × List PacketLog) [
                | some result ↦ result
                | none ↦ (tc_act_ok, [])
              ]).0
                == tc_act_shot)
              (sent
                (elim r as (λ x. ℕ × List PacketLog) [
                  | some result ↦ result
                  | none ↦ (tc_act_ok, [])
                ]).1)
      go none h = tt
      go (some (action, logs)) h = sent-Says maps binary action logs h
