-- ===== src/Packets.antt =====
-- antarc-protocol/src/packets.rs and the files below antarc-protocol/src/packets.
pub mod PacketType
pub mod Delivery
pub mod Message
pub mod Encode
pub mod Packet
pub mod Decode
pub mod Raw
pub mod Framing
pub mod RoundTrip
pub mod Sound
pub mod Size
pub mod Scheduled
pub mod Reassembly
