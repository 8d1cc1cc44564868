-- ===== src/Tests/ReliabilityRuns.antt =====
-- The lists of antarc-protocol/src/reliability.rs at concrete inputs.
use antarc.Base.Results.{ok}
use antarc.Shared.{arith, refl, ◌≡◌, [], ◌∷◌}
use antarc.Packets.Delivery.{Sent}
use antarc.Packets.Message.{Heartbeat, DataTransfer}
use antarc.Packets.Packet.{Packet, sent}
use antarc.Reliability.{ReliabilityHandler, poll_handler}
use antarc.Reliability.Lists.{polled, poll_handler_lem}
use antarc.Server.{poll_accepted, ServerReliabilityHandler, server_reliability}
use antarc.Tests.Data.{to_send, hello, beat}

abbrev sent_hello : Packet Sent DataTransfer
unfolding sent
sent_hello = sent (to_send hello) 150 30

abbrev sent_beat : Packet Sent Heartbeat
unfolding sent
sent_beat = sent (to_send beat) 150 30

abbrev handler : ReliabilityHandler ServerReliabilityHandler
unfolding sent_hello sent_beat
handler = record {
  list_sent_reliable_data_transfer = sent_hello ∷ [];
  list_sent_reliable_fragment = [];
  list_sent_reliable_heartbeat = sent_beat ∷ [];
  service = record { list_sent_connection_accepted = [] };
}

poll_handler_lem_example :
    poll_handler handler 500
    ≡ ok (
        polled handler handler.list_sent_reliable_data_transfer handler.list_sent_reliable_fragment
          handler.service)
unfolding handler poll_accepted
poll_handler_lem_example = poll_handler_lem handler 500 handler.service (omega arith) tt refl
