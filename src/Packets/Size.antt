-- ===== src/Packets/Size.antt =====
-- The size of a datagram (`HEADER_SIZE` of encode.rs, `as_raw` of packets.rs).
use antarc.Base.Results.{ok}
use antarc.Packets.Message.{Fragment, DataTransfer}
use antarc.Shared.{◌-◌, ◌≤◌, All-append, ℕ, All, ◌+◌, ◌≡◌, arith, length, length-append, ◌++◌}
use antarc.Base.Words.{IsByte, Build, u32_to_be_bytes}
use antarc.Packets.Delivery.{ToSend}
use antarc.Packets.Encode.{Encoder, data_transfer_encoder, fragment_encoder}
use antarc.Packets.Packet.{max_fragment_size, as_raw, RawPacket, Packet, protocol_id_bytes}
use antarc.Packets.Framing.{as_raw-framed, checksum, Passes, body, framed}

module _ {M : Type 0} ⦃e : Encoder M⦄ where
  length-framed :
      (b : Build) (packet : Packet ToSend M)
      → length (framed b packet.delivery.meta.address (body packet)).bytes
        ≡ 12 + length (e.encoded packet.message)
  length-framed b packet = omega (
    arith,
    length-append (body packet) (u32_to_be_bytes (b.crc32 (protocol_id_bytes ++ body packet))),
  )

u32_to_be_bytes-IsByte : (x : ℕ) → All IsByte (u32_to_be_bytes x)
u32_to_be_bytes-IsByte x = omega arith

module _ {M : Type 0} ⦃e : Encoder M⦄ where
  framed-IsByte :
      (b : Build) (packet : Packet ToSend M)
      → All IsByte (e.encoded packet.message)
      → All IsByte (framed b packet.delivery.meta.address (body packet)).bytes
  framed-IsByte b packet bytes =
      All-append IsByte (body packet) (u32_to_be_bytes (b.crc32 (protocol_id_bytes ++ body packet)))
        (All-append IsByte (u32_to_be_bytes packet.sequence)
          (u32_to_be_bytes packet.ack ++ e.encoded packet.message)
          (u32_to_be_bytes-IsByte packet.sequence)
          (All-append IsByte (u32_to_be_bytes packet.ack) (e.encoded packet.message)
            (u32_to_be_bytes-IsByte packet.ack) bytes))
        (u32_to_be_bytes-IsByte (b.crc32 (protocol_id_bytes ++ body packet)))

-- A data transfer whose payload is bytes is encoded, if the debug assertion lets it pass, in
-- bytes, `HEADER_SIZE` of them more than its payload has: the four of the protocol's number are not
-- sent, and the four of the checksum are.
pub as_raw-data_transfer :
    (b : Build) (packet : Packet ToSend DataTransfer)
    → Passes b (checksum b packet)
    → All IsByte packet.message.payload
    → (raw : RawPacket) × (as_raw b packet ≡ ok raw)
      × (length raw.bytes ≡ data_transfer_encoder.header_size + length packet.message.payload)
      × All IsByte raw.bytes
as_raw-data_transfer b packet passes bytes = (
  framed b packet.delivery.meta.address (body packet),
  as_raw-framed b packet passes,
  omega (arith, length-framed b packet),
  framed-IsByte b packet (omega arith, (omega arith, (omega arith, bytes))),
)

-- A fragment whose payload is bytes, no more than `schedule_helper` cuts, is encoded, if the debug
-- assertion lets it pass, in bytes, `HEADER_SIZE` of them more than its payload has and no more
-- than `MAX_FRAGMENT_SIZE`.
pub as_raw-fragment :
    (b : Build) (packet : Packet ToSend Fragment)
    → Passes b (checksum b packet)
    → All IsByte packet.message.payload
    → length packet.message.payload ≤ max_fragment_size - fragment_encoder.header_size
    → (raw : RawPacket) × (as_raw b packet ≡ ok raw)
      × (length raw.bytes ≡ fragment_encoder.header_size + length packet.message.payload)
      × (length raw.bytes ≤ max_fragment_size)
      × All IsByte raw.bytes
as_raw-fragment b packet passes bytes short = (
  framed b packet.delivery.meta.address (body packet),
  as_raw-framed b packet passes,
  omega (arith, length-framed b packet),
  omega (arith, length-framed b packet),
  framed-IsByte b packet
      (omega arith, (omega arith, (omega arith, (omega arith, (omega arith, bytes))))),
)
