-- ===== src/Packets/Decode.antt =====
-- antarc-protocol/src/packets/decode.rs.
use antarc.Shared.{ℕ, List}
use antarc.Base.Errors.{invalid_packet_type}
use antarc.Base.Results.{Result, ok, err}
use antarc.Packets.PacketType.{PacketType}
use antarc.Packets.Delivery.{Received}
use antarc.Packets.Message.{
  Sequence, Ack, ConnectionRequest, ConnectionAccepted, DataTransfer, Fragment, Heartbeat,
  connection_request_message, connection_accepted_message, data_transfer_message, fragment_message,
  heartbeat_message,
}
use antarc.Packets.Encode.{
  connection_request_encoder, connection_accepted_encoder, data_transfer_encoder, fragment_encoder,
  heartbeat_encoder,
}
use antarc.Packets.Packet.{Packet}

pub record PartialDecode : Type 0 where
  pub buffer : List ℕ
  pub buffer_position : ℕ
  pub packet_type : PacketType
  pub sequence : Sequence
  pub ack : Ack

pub data DecodedCommon : Type 0 where
  connection_request : Packet Received ConnectionRequest → DecodedCommon
  connection_accepted : Packet Received ConnectionAccepted → DecodedCommon
  data_transfer : Packet Received DataTransfer → DecodedCommon
  fragment : Packet Received Fragment → DecodedCommon
  heartbeat : Packet Received Heartbeat → DecodedCommon

pub data DecodedForServer : Type 0 where
  connection_request : Packet Received ConnectionRequest → DecodedForServer
  data_transfer : Packet Received DataTransfer → DecodedForServer
  fragment : Packet Received Fragment → DecodedForServer
  heartbeat : Packet Received Heartbeat → DecodedForServer

pub data DecodedForClient : Type 0 where
  connection_accepted : Packet Received ConnectionAccepted → DecodedForClient
  data_transfer : Packet Received DataTransfer → DecodedForClient
  fragment : Packet Received Fragment → DecodedForClient
  heartbeat : Packet Received Heartbeat → DecodedForClient

-- `TryFrom<DecodedCommon>` for each service.
unfoldable pub try_for_server : DecodedCommon → Result DecodedForServer
try_for_server (DecodedCommon.connection_request packet) =
    ok (DecodedForServer.connection_request packet)
try_for_server (DecodedCommon.connection_accepted packet) =
    err (invalid_packet_type packet.message.meta.packet_type)
try_for_server (DecodedCommon.data_transfer packet) = ok (DecodedForServer.data_transfer packet)
try_for_server (DecodedCommon.fragment packet) = ok (DecodedForServer.fragment packet)
try_for_server (DecodedCommon.heartbeat packet) = ok (DecodedForServer.heartbeat packet)

unfoldable pub try_for_client : DecodedCommon → Result DecodedForClient
try_for_client (DecodedCommon.connection_request packet) =
    err (invalid_packet_type packet.message.meta.packet_type)
try_for_client (DecodedCommon.connection_accepted packet) =
    ok (DecodedForClient.connection_accepted packet)
try_for_client (DecodedCommon.data_transfer packet) = ok (DecodedForClient.data_transfer packet)
try_for_client (DecodedCommon.fragment packet) = ok (DecodedForClient.fragment packet)
try_for_client (DecodedCommon.heartbeat packet) = ok (DecodedForClient.heartbeat packet)
