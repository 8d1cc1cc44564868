-- ===== src/Base/Errors.antt =====
-- antarc-protocol/src/errors.rs. Addresses, identifiers and packet types are numbers.
use antarc.Shared.{ℕ}

-- `std::net::SocketAddr`: the code only compares and copies addresses.
abbrev pub SocketAddr : Type 0
SocketAddr = ℕ

pub data ProtocolError : Type 0 where
  invalid_protocol_id : (got expected : ℕ) → ProtocolError
  invalid_crc32 : (got expected : ℕ) → ProtocolError
  array_conversion : ProtocolError
  bytes_conversion : ProtocolError
  int_conversion : ProtocolError
  packet_type_conversion : ℕ → ProtocolError
  invalid_packet_type : ℕ → ProtocolError
  scheduled_not_connected : (connection_id : ℕ) → ProtocolError
  scheduled_invalid_peer : (packet_id : ℕ) → ProtocolError
  not_found : (connection_id : ℕ) → ProtocolError
  no_peers_connected : ProtocolError
  banned : SocketAddr → ProtocolError
  already_connecting_to_peer : SocketAddr → ProtocolError
  peer_in_another_state : SocketAddr → ProtocolError
