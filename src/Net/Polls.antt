-- ===== src/Net/Polls.antt =====
-- The `poll_` methods of antarc/src/lib.rs, which the loops of both sides call, and its two
-- methods for the user.
use antarc.Packets.Encode.{data_transfer_encoder, fragment_encoder, heartbeat_encoder}
use antarc.Packets.Packet.{Packet}
use antarc.Packets.Delivery.{ToSend, PacketId, Duration}
use antarc.Peers.{SendTo}
use antarc.Protocol.{create_packet, Protocol}
use antarc.Packets.Message.{Fragment, Heartbeat, Payload, DataTransfer, ConnectionId}
use antarc.Protocol.Drains.{
  fragment_sent, heartbeat_sent, data_transfer_sent, drain_reliable_data_transfer,
  retry_data_transfer, drain_unreliable_heartbeat, drain_reliable_heartbeat,
  drain_unreliable_data_transfer, drain_unreliable_fragment, drain_reliable_fragment,
  retry_fragment,
}
use antarc.Base.Words.{Build}
use antarc.Service.{Service}
use antarc.Base.Results.{Reply, Result}
use antarc.Packets.Scheduled.{Scheduled, ReliabilityType}
use antarc.Net.{AntarcNet, Host, send_drained, resend, now, around}
use antarc.Protocol

-- The `create_` function of a packet for a connected peer.
abbrev pub create :
    {S T H R M : Type 0}
    → Service S T H
    → (M → ConnectionId)
    → Protocol S
    → Scheduled R M
    → Duration
    → Result (Packet ToSend M)
create i connection_id p scheduled time =
    create_packet i p scheduled (connection_id scheduled.message) time

module _ {S T H K : Type 0} (i : Service S T H) (h : Host K) (b : Build) where
  unfoldable pub poll_reliable_fragment : AntarcNet S K → Result (AntarcNet S K)
  unfolding send_drained drain_reliable_fragment fragment_sent
  poll_reliable_fragment n =
      send_drained h b (λ p packet time. fragment_sent i b p packet ReliabilityType.reliable time)
        (drain_reliable_fragment i) (create i (λ (m : Fragment). m.connection_id)) n

  unfoldable pub poll_reliable_data_transfer : AntarcNet S K → Result (AntarcNet S K)
  unfolding send_drained drain_reliable_data_transfer data_transfer_sent
  poll_reliable_data_transfer n =
      send_drained h b
        (λ p packet time. data_transfer_sent i p packet ReliabilityType.reliable time)
        (drain_reliable_data_transfer i) (create i (λ (m : DataTransfer). m.connection_id)) n

  unfoldable pub poll_unreliable_fragment : AntarcNet S K → Result (AntarcNet S K)
  unfolding send_drained drain_unreliable_fragment fragment_sent
  poll_unreliable_fragment n =
      send_drained h b (λ p packet time. fragment_sent i b p packet ReliabilityType.unreliable time)
        (drain_unreliable_fragment i) (create i (λ (m : Fragment). m.connection_id)) n

  unfoldable pub poll_unreliable_data_transfer : AntarcNet S K → Result (AntarcNet S K)
  unfolding send_drained drain_unreliable_data_transfer data_transfer_sent
  poll_unreliable_data_transfer n =
      send_drained h b
        (λ p packet time. data_transfer_sent i p packet ReliabilityType.unreliable time)
        (drain_unreliable_data_transfer i) (create i (λ (m : DataTransfer). m.connection_id)) n

  unfoldable pub poll_unreliable_heartbeat : AntarcNet S K → Result (AntarcNet S K)
  unfolding send_drained drain_unreliable_heartbeat heartbeat_sent
  poll_unreliable_heartbeat n =
      send_drained h b (λ p packet time. heartbeat_sent i p packet ReliabilityType.unreliable time)
        (drain_unreliable_heartbeat i) (create i (λ (m : Heartbeat). m.connection_id)) n

  unfoldable pub poll_reliable_heartbeat : AntarcNet S K → Result (AntarcNet S K)
  unfolding send_drained drain_reliable_heartbeat heartbeat_sent
  poll_reliable_heartbeat n =
      send_drained h b (λ p packet time. heartbeat_sent i p packet ReliabilityType.reliable time)
        (drain_reliable_heartbeat i) (create i (λ (m : Heartbeat). m.connection_id)) n

  unfoldable pub poll_retry_data_transfer : AntarcNet S K → Result (AntarcNet S K)
  unfolding resend retry_data_transfer data_transfer_sent
  poll_retry_data_transfer n =
      resend h b (λ p packet time. data_transfer_sent i p packet ReliabilityType.reliable time)
        (retry_data_transfer i) n

  unfoldable pub poll_retry_fragment : AntarcNet S K → Result (AntarcNet S K)
  unfolding resend retry_fragment fragment_sent
  poll_retry_fragment n =
      resend h b (λ p packet time. fragment_sent i b p packet ReliabilityType.reliable time)
        (retry_fragment i) n

  -- `AntarcNet::schedule`
  unfoldable pub schedule :
      AntarcNet S K → ReliabilityType → SendTo → Payload → Reply (AntarcNet S K) PacketId
  unfolding Protocol.schedule now around
  schedule n reliability send_to payload =
      let (n', time) = now h n in
      around n' (Protocol.schedule i b n'.antarc reliability send_to payload time)

  -- `AntarcNet::heartbeat`
  unfoldable pub heartbeat :
      AntarcNet S K → ReliabilityType → SendTo → Reply (AntarcNet S K) PacketId
  unfolding Protocol.heartbeat now around
  heartbeat n reliability send_to =
      let (n', time) = now h n in
      around n' (Protocol.heartbeat i b n'.antarc reliability send_to time)
