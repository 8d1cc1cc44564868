-- ===== src/Packets/Encode.antt =====
-- antarc-protocol/src/packets/encode.rs: the trait `Encoder` and its five implementations. The
-- sizes are those of `ProtocolId`, `Sequence`, `Ack` (4), `PacketType`, u8 (1) and
-- `ConnectionId` (2).
use antarc.Shared.{ℕ, ◌+◌, List, ◌++◌}
use antarc.Base.Words.{u8_to_be_bytes, u16_to_be_bytes}
use antarc.Packets.PacketType.{
  connection_request_type, connection_accepted_type, data_transfer_type, fragment_type,
  heartbeat_type,
}
use antarc.Packets.Message.{
  ConnectionRequest, ConnectionAccepted, DataTransfer, Fragment, Heartbeat,
}

pub record Encoder (M : Type 0) : Type 0 where
  pub header_size : ℕ
  pub encoded : M → List ℕ

instance abbrev pub connection_request_encoder : Encoder ConnectionRequest
connection_request_encoder = record {
  header_size = 4 + 4 + 4 + 1;
  encoded = λ m. u8_to_be_bytes connection_request_type;
}

instance abbrev pub connection_accepted_encoder : Encoder ConnectionAccepted
connection_accepted_encoder = record {
  header_size = 4 + 4 + 4 + 1 + 2;
  encoded = λ m. u8_to_be_bytes connection_accepted_type ++ u16_to_be_bytes m.connection_id;
}

instance abbrev pub data_transfer_encoder : Encoder DataTransfer
data_transfer_encoder = record {
  header_size = 4 + 4 + 4 + 1 + 2;
  encoded =
      λ m. u8_to_be_bytes data_transfer_type ++ (u16_to_be_bytes m.connection_id ++ m.payload);
}

instance abbrev pub fragment_encoder : Encoder Fragment
fragment_encoder = record {
  header_size = 4 + 4 + 4 + 1 + 1 + 1 + 2;
  encoded = λ m.
      u8_to_be_bytes fragment_type
      ++ (u8_to_be_bytes m.index
          ++ (u8_to_be_bytes m.total ++ (u16_to_be_bytes m.connection_id ++ m.payload)));
}

instance abbrev pub heartbeat_encoder : Encoder Heartbeat
heartbeat_encoder = record {
  header_size = 4 + 4 + 4 + 1 + 2;
  encoded = λ m. u8_to_be_bytes heartbeat_type ++ u16_to_be_bytes m.connection_id;
}
