-- ===== src/Reader.antt =====
-- kprobe/kprobe-userspace/src/main.rs: the services of the addresses of a packet record, and what the
-- reader of the perf buffers prints and sends for it.
pub mod Services
pub mod Reports
pub mod Layout
pub mod Slots
pub mod Frames
use meshlite.Base.{
  ℕ, ◌+◌, ◌*◌, ◌/◌, ◌%◌, Bool, true, false, not, ◌&&◌, ◌||◌, Option, none, some, List, [], ◌∷◌,
  Text, codes, str_eq, any, ◌==◌, if◌then◌else◌,
}
use meshlite.Word.{Endian, from_be32}
use meshlite.Classifier.{PacketLog}
use meshlite.VerdictSync.{Ipv4Addr, PodSnapshot}
use meshlite.Telemetry.{TelemetryRecord}

abbrev pub unknown : Text
unknown = codes "unknown"

-- The loop of `resolve_service`.
unfoldable pub first_service : PodSnapshot → Ipv4Addr → Text
first_service [] ip = unknown
first_service ((service, ips) ∷ snap) ip =
    let later = first_service snap ip in
    if any (λ candidate. candidate == ip) ips then service else later

unfoldable pub resolve_service : (PodSnapshot → PodSnapshot) → PodSnapshot → Ipv4Addr → Text
resolve_service iter snapshot ip = first_service (iter snapshot) ip

-- The `[INTERCEPT]` line, by its fields.
pub record Line : Type 0 where
  pub src : Ipv4Addr
  pub src_port : ℕ
  pub dst : Ipv4Addr
  pub dst_port : ℕ
  pub proto : Text
  pub verdict : Text

-- `octets()[0] == 10 && octets()[1] == 244`
unfoldable pub in_pod_net : Ipv4Addr → Bool
in_pod_net ip = ip / 16777216 % 256 == 10 && ip / 65536 % 256 == 244

abbrev pub proto_name : ℕ → Option Text
proto_name proto =
    if proto == 6 then some (codes "TCP") else if proto == 17 then some (codes "UDP") else none

module _ (e : Endian) (iter : PodSnapshot → PodSnapshot) (snapshot : PodSnapshot)
    (cluster_id : Text) where
  abbrev pub telemetry_of : PacketLog → Text → Text → TelemetryRecord
  telemetry_of log source_service destination_service = record {
    source_service = source_service;
    destination_service = destination_service;
    cluster_id = cluster_id;
    leg = codes "intra_cluster";
    verdict = if log.verdict == 0 then codes "allow" else codes "deny";
    latency_ms = 0;
    tls_verified = log.verdict == 0;
    status_code = if log.verdict == 0 then some 200 else none;
    error_reason = if log.verdict == 0 then none else some (codes "policy_denied");
    timestamp = none;
  }

  abbrev emitted : PacketLog → Text → Text → List TelemetryRecord
  emitted log source_service destination_service =
      if not (str_eq source_service unknown) || not (str_eq destination_service unknown)
      then telemetry_of log source_service destination_service ∷ []
      else []

  abbrev reported : PacketLog → Ipv4Addr → Ipv4Addr → Text → List Line × List TelemetryRecord
  reported log src dst proto =
      if in_pod_net src || in_pod_net dst
      then (
        record {
          src = src;
          src_port = log.src_port;
          dst = dst;
          dst_port = log.dst_port;
          proto = proto;
          verdict = if log.verdict == 0 then codes "ALLOW" else codes "DENY";
        }
            ∷ [],
        emitted log (resolve_service iter snapshot src) (resolve_service iter snapshot dst),
      )
      else ([], [])

  -- One turn of the loop over the records: what is printed and what is sent.
  unfoldable pub read_record : PacketLog → List Line × List TelemetryRecord
  read_record log = elim (proto_name log.proto) [
    | some proto ↦ reported log (from_be32 e log.src_ip) (from_be32 e log.dst_ip) proto
    | none ↦ ([], [])
  ]
