-- ===== src/Tests/Links.antt =====
-- The agent's link to Sigil and the one of both programs to Trace.
use meshlite.Base.{
  ◌≤◌, ◌≡◌, refl, ◌⊎◌, false, none, List, [], ◌∷◌, ◌++◌, Text, codes, drop, length, if◌then◌else◌,
}
use meshlite.Strings.{starts_with}
use meshlite.SigilClient
use meshlite.SigilClient.{
  State, bootstrap, connected_tls, start, subscribed, Channel, build_from, Attempt,
}
use meshlite.SigilClient.Recovery.{AllUsablePushes, reconnects}
use meshlite.SigilClient.Address.{bootstrap_uri, bootstrap_uri_lem}
use meshlite.Telemetry.{TelemetryRecord, Event, emitted, turn, run}
use meshlite.Telemetry
use meshlite.Telemetry.ListChannel.{list_channel, list_channel-IsMpsc}
use meshlite.Telemetry.Delivery.{IsSublist, all_emitted, kept, run_delivers}
use meshlite.Tests.Agents.{plain_tls, in_order, in_order-IsIteration, pushes, sigil}

pushes_usable : AllUsablePushes plain_tls in_order sigil pushes
unfolding build_from
pushes_usable = (tt, (tt, ((_, refl), (tt, tt))))

reconnects_example :
    ((SigilClient.turn plain_tls in_order sigil bootstrap start (subscribed pushes)).state
      ≡ connected_tls)
    ⊎ ((SigilClient.turn plain_tls in_order sigil
          (SigilClient.turn plain_tls in_order sigil bootstrap start (subscribed pushes)).state
          (SigilClient.turn plain_tls in_order sigil bootstrap start (subscribed pushes)).node
          (subscribed pushes)).state
        ≡ connected_tls)
reconnects_example =
    reconnects plain_tls in_order sigil in_order-IsIteration bootstrap start pushes pushes tt tt
      pushes_usable tt

bootstrap_uri_lem_example :
    bootstrap_uri (codes "sigil" ++ b':' ∷ codes "8443")
    ≡ codes "http://"
      ++ (codes "sigil"
          ++ (if starts_with (codes "8443") (codes "8443")
              then codes ":8444" ++ drop 4 (codes "8443")
              else b':' ∷ codes "8443"))
bootstrap_uri_lem_example = bootstrap_uri_lem (codes "sigil") (codes "8443") refl refl

abbrev to_service : Text → TelemetryRecord
to_service name = record {
  source_service = codes "alpha";
  destination_service = name;
  cluster_id = codes "dev";
  leg = codes "intra_cluster";
  verdict = codes "allow";
  latency_ms = 0;
  tls_verified = false;
  status_code = none;
  error_reason = none;
  timestamp = none;
}

-- A channel with room for one: the second record is lost.
abbrev events : List Event
events =
    emitted (to_service (codes "beta"))
    ∷ emitted (to_service (codes "gamma"))
    ∷ turn
    ∷ emitted (to_service (codes "delta"))
    ∷ []

run_delivers_example :
    IsSublist
      (kept list_channel list_channel-IsMpsc
        (run list_channel (Telemetry.start list_channel 1) events))
      (all_emitted events)
    × (length
          (list_channel.contents (run list_channel (Telemetry.start list_channel 1) events).channel)
        ≤ 1)
run_delivers_example = run_delivers list_channel list_channel-IsMpsc 1 events
