-- ===== src/Packets/Message.antt =====
-- The message types of antarc-protocol/src/packets/message.rs. An `Arc<Payload>` is the list of
-- its bytes: no payload is changed after it is built.
use antarc.Shared.{ℕ, ◌%◌, List}
use antarc.Packets.PacketType.{
  PacketType, connection_request_type, connection_accepted_type, data_transfer_type, fragment_type,
  heartbeat_type,
}

abbrev pub Sequence : Type 0
Sequence = ℕ

abbrev pub ConnectionId : Type 0
ConnectionId = ℕ

abbrev pub Ack : Type 0
Ack = ℕ

abbrev pub Payload : Type 0
Payload = List ℕ

pub record MetaMessage : Type 0 where
  pub packet_type : PacketType

pub record ConnectionRequest : Type 0 where
  pub meta : MetaMessage

pub record ConnectionAccepted : Type 0 where
  pub meta : MetaMessage
  pub connection_id : ConnectionId

pub record DataTransfer : Type 0 where
  pub meta : MetaMessage
  pub connection_id : ConnectionId
  pub payload : Payload

pub record Fragment : Type 0 where
  pub meta : MetaMessage
  pub connection_id : ConnectionId
  pub index : ℕ
  pub total : ℕ
  pub payload : Payload

pub record Heartbeat : Type 0 where
  pub meta : MetaMessage
  pub connection_id : ConnectionId

-- `Fragment::new`: the casts to u8 keep the low eight bits.
unfoldable pub new_fragment : ConnectionId → Payload → ℕ → ℕ → Fragment
new_fragment connection_id payload fragment_index fragment_total = record {
  meta = record { packet_type = fragment_type };
  connection_id = connection_id;
  index = fragment_index % 256;
  total = fragment_total % 256;
  payload = payload;
}

-- `DataTransfer::new`
unfoldable pub new_data_transfer : ConnectionId → Payload → DataTransfer
new_data_transfer connection_id payload = record {
  meta = record { packet_type = data_transfer_type };
  connection_id = connection_id;
  payload = payload;
}

-- `Heartbeat::new`
unfoldable pub new_heartbeat : ConnectionId → Heartbeat
new_heartbeat connection_id = record {
  meta = record { packet_type = heartbeat_type };
  connection_id = connection_id;
}

-- The trait `Message`.
pub record Message (M : Type 0) : Type 0 where
  pub packet_type : PacketType

instance abbrev pub connection_request_message : Message ConnectionRequest
connection_request_message = record { packet_type = connection_request_type }

instance abbrev pub connection_accepted_message : Message ConnectionAccepted
connection_accepted_message = record { packet_type = connection_accepted_type }

instance abbrev pub data_transfer_message : Message DataTransfer
data_transfer_message = record { packet_type = data_transfer_type }

instance abbrev pub fragment_message : Message Fragment
fragment_message = record { packet_type = fragment_type }

instance abbrev pub heartbeat_message : Message Heartbeat
heartbeat_message = record { packet_type = heartbeat_type }
