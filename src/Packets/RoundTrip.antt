-- ===== src/Packets/RoundTrip.antt =====
-- Sending and receiving: `inner_decode` (raw.rs) on what `as_raw` (packets.rs) wrote.
use antarc.Base.Errors.{SocketAddr}
use antarc.Shared.{ℕ, ◌<◌, ◌≡◌, refl, List, ◌∷◌, ◌++◌, arith, All}
use antarc.Base.Results.{Result, ok, ◌>>=◌}
use antarc.Base.Words.{Build, IsCrc32, IsByte, u16_mod, from-u16_to_be_bytes, from-u8_to_be_bytes}
use antarc.Packets.PacketType.{
  connection_request_type, connection_accepted_type, data_transfer_type, fragment_type,
  heartbeat_type,
}
use antarc.Packets.Delivery.{Duration, ToSend, Received}
use antarc.Packets.Message.{
  ConnectionRequest, ConnectionAccepted, DataTransfer, Fragment, Heartbeat,
}
use antarc.Packets.Encode.{
  Encoder, connection_request_encoder, connection_accepted_encoder, data_transfer_encoder,
  fragment_encoder, heartbeat_encoder,
}
use antarc.Packets.Packet.{Packet, protocol_id_bytes, as_raw}
use antarc.Packets.Decode.{DecodedCommon}
use antarc.Packets.Raw.{common_decode, inner_decode}
use antarc.Packets.Framing.{
  Passes, HeaderFits, checksum, body, as_raw-framed, inner_decode-framed, decode_header-bytes,
}

-- Sending, and receiving the bytes at time `time` from the address `from`: a receiver makes its
-- `RawPacket` of the bytes and the address that its socket reports.
abbrev pub transmit :
    {M : Type 0} ⦃e : Encoder M⦄
    → Build
    → Packet ToSend M
    → SocketAddr
    → Duration
    → Result DecodedCommon
transmit b packet from time =
    as_raw b packet >>= λ raw. inner_decode b (record { address = from; bytes = raw.bytes }) time

-- The packet as it arrives from `from`.
abbrev pub arrived : {M : Type 0} → Packet ToSend M → SocketAddr → Duration → Packet Received M
arrived packet from time = record {
  delivery = record { meta = record { time = time; address = from } };
  sequence = packet.sequence;
  ack = packet.ack;
  message = packet.message;
}

abbrev pub IsConnectionId : ℕ → Type 0
IsConnectionId id = (0 < id) × (id < u16_mod)

-- The parts of a message fit their types, and it carries the packet type of its kind.
pub record IsData (m : DataTransfer) : Type 0 where
  pub typed : m.meta ≡ record { packet_type = data_transfer_type }
  pub id_range : IsConnectionId m.connection_id
  pub payload_range : All IsByte m.payload

pub record IsFragment (m : Fragment) : Type 0 where
  pub typed : m.meta ≡ record { packet_type = fragment_type }
  pub id_range : IsConnectionId m.connection_id
  pub index_range : IsByte m.index
  pub total_range : IsByte m.total
  pub payload_range : All IsByte m.payload

module _ {M : Type 0} ⦃e : Encoder M⦄ (b : Build) (packet : Packet ToSend M) (from : SocketAddr)
    (time : Duration) where
  transmit-decode :
      (packet_type : ℕ) (rest : List ℕ)
      → IsCrc32 b
      → Passes b (checksum b packet)
      → HeaderFits packet
      → e.encoded packet.message ≡ packet_type ∷ rest
      → 0 < packet_type
      → packet_type < 6
      → transmit b packet from time
        ≡ common_decode b from time (record {
          buffer = protocol_id_bytes ++ body packet;
          buffer_position = 13;
          packet_type = packet_type;
          sequence = packet.sequence;
          ack = packet.ack;
        })
  transmit-decode packet_type rest crc passes fits encoded lo hi =
      rw (as_raw-framed b packet passes, inner_decode-framed b from (body packet) time crc, encoded)
        (decode_header-bytes b from time packet.sequence packet.ack packet_type rest fits.0 fits.1
          fits.2 lo hi)

-- A data transfer whose parts fit their types is encoded, and the bytes that arrive are decoded
-- as the packet that was sent: the same sequence, ack, connection id and payload, with the
-- sender's address and the time of arrival, if the debug assertion on the checksum lets it pass.
pub transmit-data_transfer :
    (b : Build) (packet : Packet ToSend DataTransfer) (from : SocketAddr) (time : Duration)
    → IsCrc32 b
    → Passes b (checksum b packet)
    → HeaderFits packet
    → IsData packet.message
    → transmit b packet from time ≡ ok (DecodedCommon.data_transfer (arrived packet from time))
unfolding common_decode
transmit-data_transfer b packet from time crc passes fits m =
    rw
      (
        transmit-decode b packet from time data_transfer_type _ crc passes fits refl (omega arith)
            (omega arith),
        from-u16_to_be_bytes packet.message.connection_id m.id_range.1,
      )
      (ground arith)

-- A fragment whose parts fit their types is encoded, and the bytes that arrive are decoded as the
-- packet that was sent, with its index and its total, if the debug assertion on the checksum lets
-- it pass.
pub transmit-fragment :
    (b : Build) (packet : Packet ToSend Fragment) (from : SocketAddr) (time : Duration)
    → IsCrc32 b
    → Passes b (checksum b packet)
    → HeaderFits packet
    → IsFragment packet.message
    → transmit b packet from time ≡ ok (DecodedCommon.fragment (arrived packet from time))
unfolding common_decode
transmit-fragment b packet from time crc passes fits m =
    rw
      (
        transmit-decode b packet from time fragment_type _ crc passes fits refl (omega arith)
            (omega arith),
        from-u16_to_be_bytes packet.message.connection_id m.id_range.1,
        from-u8_to_be_bytes packet.message.index m.index_range,
        from-u8_to_be_bytes packet.message.total m.total_range,
      )
      (ground arith)

-- A heartbeat whose parts fit their types is encoded, and the bytes that arrive are decoded as the
-- packet that was sent, if the debug assertion on the checksum lets it pass.
pub transmit-heartbeat :
    (b : Build) (packet : Packet ToSend Heartbeat) (from : SocketAddr) (time : Duration)
    → IsCrc32 b
    → Passes b (checksum b packet)
    → HeaderFits packet
    → packet.message.meta ≡ record { packet_type = heartbeat_type }
    → IsConnectionId packet.message.connection_id
    → transmit b packet from time ≡ ok (DecodedCommon.heartbeat (arrived packet from time))
unfolding common_decode
transmit-heartbeat b packet from time crc passes fits typed range =
    rw
      (
        transmit-decode b packet from time heartbeat_type _ crc passes fits refl (omega arith)
            (omega arith),
        from-u16_to_be_bytes packet.message.connection_id range.1,
      )
      (ground arith)

-- A connection request whose header fits is encoded, and the bytes that arrive are decoded as the
-- packet that was sent, if the debug assertion on the checksum lets it pass.
pub transmit-connection_request :
    (b : Build) (packet : Packet ToSend ConnectionRequest) (from : SocketAddr) (time : Duration)
    → IsCrc32 b
    → Passes b (checksum b packet)
    → HeaderFits packet
    → packet.message.meta ≡ record { packet_type = connection_request_type }
    → transmit b packet from time ≡ ok (DecodedCommon.connection_request (arrived packet from time))
unfolding common_decode
transmit-connection_request b packet from time crc passes fits typed =
    rw
      (transmit-decode b packet from time connection_request_type _ crc passes fits refl
        (omega arith) (omega arith))
      (ground arith)

-- A packet that accepts a connection, with a header and an id that fit, is encoded, and the bytes
-- that arrive are decoded as the packet that was sent, if the debug assertion on the checksum
-- lets it pass.
pub transmit-connection_accepted :
    (b : Build) (packet : Packet ToSend ConnectionAccepted) (from : SocketAddr) (time : Duration)
    → IsCrc32 b
    → Passes b (checksum b packet)
    → HeaderFits packet
    → packet.message.meta ≡ record { packet_type = connection_accepted_type }
    → IsConnectionId packet.message.connection_id
    → transmit b packet from time
      ≡ ok (DecodedCommon.connection_accepted (arrived packet from time))
unfolding common_decode
transmit-connection_accepted b packet from time crc passes fits typed range =
    rw
      (
        transmit-decode b packet from time connection_accepted_type _ crc passes fits refl
            (omega arith) (omega arith),
        from-u16_to_be_bytes packet.message.connection_id range.1,
      )
      (ground arith)
