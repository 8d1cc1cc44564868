-- ===== src/Packets/PacketType.antt =====
-- antarc-protocol/src/packets/packet_type.rs, and the packet types of packets.rs. A value of the
-- wrapper `PacketType(u8)` is its number.
use antarc.Shared.{ℕ, Option, none, some, ◌&&◌, ltb, if◌then◌else◌}
use antarc.Base.Errors.{packet_type_conversion}
use antarc.Base.Results.{Result, ok_or}

abbrev pub PacketType : Type 0
PacketType = ℕ

abbrev pub packet_type_sentinel_start : ℕ
packet_type_sentinel_start = 0x0

abbrev pub connection_request_type : PacketType
connection_request_type = 0x1

abbrev pub connection_accepted_type : PacketType
connection_accepted_type = 0x2

abbrev pub data_transfer_type : PacketType
data_transfer_type = 0x3

abbrev pub fragment_type : PacketType
fragment_type = 0x4

abbrev pub heartbeat_type : PacketType
heartbeat_type = 0x5

abbrev pub packet_type_sentinel_end : ℕ
packet_type_sentinel_end = 0x6

-- `PacketType::new`
unfoldable pub new : ℕ → Option PacketType
new n = if ltb packet_type_sentinel_start n && ltb n packet_type_sentinel_end then some n else none

-- `TryFrom<u8> for PacketType`
unfoldable pub try_from : ℕ → Result PacketType
unfolding new
try_from value = ok_or (new value) (packet_type_conversion value)
