-- ===== src/Packets/Packet.antt =====
-- The packet of antarc-protocol/src/packets.rs and its datagram, `RawPacket` of raw.rs.
use antarc.Shared.{ℕ, List, ◌++◌, drop, not, ◌==◌}
use antarc.Base.Errors.{SocketAddr}
use antarc.Base.Results.{Result, ok, ◌>>◌}
use antarc.Base.Words.{Build, debug_assert, u32_to_be_bytes}
use antarc.Packets.Delivery.{Duration, ToSend, Sent}
use antarc.Packets.Message.{Sequence, Ack}
use antarc.Packets.Encode.{Encoder}

-- `PROTOCOL_ID`
abbrev pub protocol_id : ℕ
protocol_id = 0xbabedad

abbrev pub protocol_id_bytes : List ℕ
protocol_id_bytes = u32_to_be_bytes protocol_id

abbrev pub max_fragment_size : ℕ
max_fragment_size = 1500

pub record Packet (D M : Type 0) : Type 0 where
  pub delivery : D
  pub sequence : Sequence
  pub ack : Ack
  pub message : M

pub record RawPacket : Type 0 where
  pub address : SocketAddr
  pub bytes : List ℕ

module _ {M : Type 0} where
  -- `Packet::sent`
  unfoldable pub sent : Packet ToSend M → Duration → Duration → Packet Sent M
  sent packet time ttl = record {
    delivery = record {
      id = packet.delivery.id;
      ttl = ttl;
      meta = record { time = time; address = packet.delivery.meta.address };
    };
    sequence = packet.sequence;
    ack = packet.ack;
    message = packet.message;
  }

module _ {M : Type 0} ⦃e : Encoder M⦄ where
  -- The bytes over which `as_raw` takes the checksum.
  unfoldable pub checked_bytes : Packet ToSend M → List ℕ
  checked_bytes packet =
      protocol_id_bytes
      ++ (u32_to_be_bytes packet.sequence
          ++ (u32_to_be_bytes packet.ack ++ e.encoded packet.message))

  -- `Packet::as_raw`
  unfoldable pub as_raw : Build → Packet ToSend M → Result RawPacket
  unfolding checked_bytes
  as_raw b packet = do
    let bytes = checked_bytes packet
    let crc32 = b.crc32 bytes
    debug_assert b (not (crc32 == 0))
    ok (record {
      address = packet.delivery.meta.address;
      bytes = drop 4 (bytes ++ u32_to_be_bytes crc32);
    })
