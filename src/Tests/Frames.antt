-- ===== src/Tests/Frames.antt =====
-- From the frame to the report: kprobe.
use meshlite.Base.{◌≡◌, refl, some, [], ◌∷◌, ◌++◌, Text, codes, arith}
use meshlite.Word.{little, big}
use meshlite.Results.{ok, err}
use meshlite.Classifier.{tc_act_shot, Maps, PacketLog}
use meshlite.Reader.{first_service, resolve_service, read_record, in_pod_net}
use meshlite.Reader.Layout.{log_bytes, read_log, read_log-log_bytes}
use meshlite.Reader.Slots.{read_slot, run_reader}
use meshlite.Reader.Frames.{line_of}
use meshlite.Tests.Packets.{alpha_ip, beta_ip, packet_of, pods, same_order}

abbrev refusing : Maps
refusing = record { verdict_map = λ k. some 1; policy_flags = λ i. some 0 }

abbrev dev : Text
dev = codes "dev"

abbrev some_log : PacketLog
some_log = record {
  src_ip = 84014090;
  dst_ip = 117634058;
  src_port = 8080;
  dst_port = 80;
  proto = 6;
  verdict = 1;
}

-- The addresses are in the order of the network, the ports in that of a little-endian machine.
some_log_bytes :
    log_bytes little (0, 0) some_log
    ≡ 10 ∷ 244 ∷ 1 ∷ 5 ∷ 10 ∷ 244 ∷ 2 ∷ 7 ∷ 144 ∷ 31 ∷ 80 ∷ 0 ∷ 6 ∷ 1 ∷ 0 ∷ 0 ∷ []
some_log_bytes = refl

read_log-log_bytes_example :
    read_log big (log_bytes big (7, 9) some_log ++ 1 ∷ 2 ∷ []) ≡ some some_log
read_log-log_bytes_example =
    read_log-log_bytes big (7, 9) some_log (1 ∷ 2 ∷ [])
      (record {
        src_fits = omega arith;
        dst_fits = omega arith;
        sport_fits = omega arith;
        dport_fits = omega arith;
      })

-- Of a slot that holds the record, one that is too short and one beyond the number read, the first gives
-- the line; after an error nothing is read.
slots_read :
    (run_reader little same_order dev (
      ok (
        2,
        (pods, log_bytes little (0, 0) some_log)
            ∷ (pods, 5 ∷ 1 ∷ [])
            ∷ (pods, log_bytes little (0, 0) some_log)
            ∷ [],
      )
      ∷ err (codes "lost")
      ∷ ok (1, (pods, log_bytes little (0, 0) some_log) ∷ [])
      ∷ [])).0
    ≡ line_of (packet_of alpha_ip beta_ip 2) tc_act_shot ∷ []
unfolding run_reader read_slot read_log read_record in_pod_net resolve_service first_service
slots_read = refl
