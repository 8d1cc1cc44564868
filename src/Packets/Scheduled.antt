-- ===== src/Packets/Scheduled.antt =====
-- antarc-protocol/src/packets/scheduled.rs. The marker types `Reliable` and `Unreliable` have
-- one value each; `into_packet` has the same body in its eight implementations.
use antarc.Shared.{ℕ}
use antarc.Base.Errors.{SocketAddr}
use antarc.Packets.PacketType.{connection_request_type}
use antarc.Packets.Delivery.{Duration, PacketId, ToSend}
use antarc.Packets.Message.{
  ConnectionId, Payload, Sequence, Ack, ConnectionRequest, DataTransfer, Fragment, Heartbeat,
  new_fragment, new_data_transfer, new_heartbeat,
}
use antarc.Packets.Packet.{Packet}

pub data Reliable : Type 0 where
  reliable : Reliable

pub data Unreliable : Type 0 where
  unreliable : Unreliable

pub data ReliabilityType : Type 0 where
  reliable unreliable : ReliabilityType

pub record Scheduled (R M : Type 0) : Type 0 where
  pub packet_id : PacketId
  pub address : SocketAddr
  pub time : Duration
  pub reliability : R
  pub message : M

unfoldable pub into_packet :
    {R M : Type 0} → Scheduled R M → Sequence → Ack → Duration → Packet ToSend M
into_packet scheduled sequence ack time = record {
  delivery = record {
    id = scheduled.packet_id;
    meta = record { time = time; address = scheduled.address };
  };
  sequence = sequence;
  ack = ack;
  message = scheduled.message;
}

-- `Scheduled::connection_request`
unfoldable pub new_connection_request :
    PacketId → SocketAddr → Duration → Scheduled Reliable ConnectionRequest
new_connection_request packet_id address time = record {
  packet_id = packet_id;
  address = address;
  time = time;
  reliability = Reliable.reliable;
  message = record { meta = record { packet_type = connection_request_type } };
}

unfoldable pub new_unreliable_fragment :
    PacketId
    → ConnectionId
    → Payload
    → ℕ
    → ℕ
    → Duration
    → SocketAddr
    → Scheduled Unreliable Fragment
unfolding new_fragment
new_unreliable_fragment packet_id connection_id payload fragment_index fragment_total time address =
    record {
      packet_id = packet_id;
      address = address;
      time = time;
      reliability = Unreliable.unreliable;
      message = new_fragment connection_id payload fragment_index fragment_total;
    }

unfoldable pub new_reliable_fragment :
    PacketId → ConnectionId → Payload → ℕ → ℕ → Duration → SocketAddr → Scheduled Reliable Fragment
unfolding new_fragment
new_reliable_fragment packet_id connection_id payload fragment_index fragment_total time address =
    record {
      packet_id = packet_id;
      address = address;
      time = time;
      reliability = Reliable.reliable;
      message = new_fragment connection_id payload fragment_index fragment_total;
    }

unfoldable pub new_unreliable_data_transfer :
    PacketId → ConnectionId → Payload → Duration → SocketAddr → Scheduled Unreliable DataTransfer
unfolding new_data_transfer
new_unreliable_data_transfer packet_id connection_id payload time address = record {
  packet_id = packet_id;
  address = address;
  time = time;
  reliability = Unreliable.unreliable;
  message = new_data_transfer connection_id payload;
}

unfoldable pub new_reliable_data_transfer :
    PacketId → ConnectionId → Payload → Duration → SocketAddr → Scheduled Reliable DataTransfer
unfolding new_data_transfer
new_reliable_data_transfer packet_id connection_id payload time address = record {
  packet_id = packet_id;
  address = address;
  time = time;
  reliability = Reliable.reliable;
  message = new_data_transfer connection_id payload;
}

unfoldable pub new_unreliable_heartbeat :
    PacketId → ConnectionId → Duration → SocketAddr → Scheduled Unreliable Heartbeat
unfolding new_heartbeat
new_unreliable_heartbeat packet_id connection_id time address = record {
  packet_id = packet_id;
  address = address;
  time = time;
  reliability = Unreliable.unreliable;
  message = new_heartbeat connection_id;
}

unfoldable pub new_reliable_heartbeat :
    PacketId → ConnectionId → Duration → SocketAddr → Scheduled Reliable Heartbeat
unfolding new_heartbeat
new_reliable_heartbeat packet_id connection_id time address = record {
  packet_id = packet_id;
  address = address;
  time = time;
  reliability = Reliable.reliable;
  message = new_heartbeat connection_id;
}
