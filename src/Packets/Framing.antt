-- ===== src/Packets/Framing.antt =====
-- The frame around a message: the protocol's number in front, which is not sent, and the
-- checksum behind (`as_raw` of packets.rs, `inner_decode` of raw.rs).
use antarc.Shared.{
  ℕ, ◌-◌, ◌<◌, ◌≡◌, ◌≢◌, ◌⊎◌, refl, List, [], ◌∷◌, ◌++◌, some, length, arith, length-append, le→ltb,
  false, not, ◌==◌, ltb,
}
use antarc.Base.Errors.{SocketAddr}
use antarc.Base.Results.{ok}
use antarc.Base.Words.{Build, IsCrc32, debug_assert, u32_mod, u32_to_be_bytes, from-u32_to_be_bytes}
use antarc.Packets.Delivery.{Duration, ToSend}
use antarc.Packets.Encode.{Encoder}
use antarc.Packets.Packet.{Packet, RawPacket, protocol_id_bytes, checked_bytes, as_raw}
use antarc.Packets.Raw.{common_decode, inner_decode, decode_header, slice_from, slice_to, to_array}

pub slice_from-append : (xs ys : List ℕ) → slice_from (length xs) (xs ++ ys) ≡ some ys
unfolding slice_from
slice_from-append [] ys = refl
slice_from-append (x ∷ xs) ys = slice_from-append xs ys

pub slice_to-append : (xs ys : List ℕ) → slice_to (length xs) (xs ++ ys) ≡ some xs
unfolding slice_to
slice_to-append [] ys = refl
slice_to-append (x ∷ xs) ys = rw (slice_to-append xs ys)

abbrev pub framed : Build → SocketAddr → List ℕ → RawPacket
framed b address body = record {
  address = address;
  bytes = body ++ u32_to_be_bytes (b.crc32 (protocol_id_bytes ++ body));
}

framed_position :
    (b : Build) (address : SocketAddr) (body : List ℕ)
    → length (framed b address body).bytes - 4 ≡ length body
framed_position b address body =
    omega (arith, length-append body (u32_to_be_bytes (b.crc32 (protocol_id_bytes ++ body))))

framed_long :
    (b : Build) (address : SocketAddr) (body : List ℕ)
    → ltb (length (framed b address body).bytes) 4 ≡ false
framed_long b address body =
    le→ltb _ 4
      (omega (arith, length-append body (u32_to_be_bytes (b.crc32 (protocol_id_bytes ++ body)))))

-- A frame with the right checksum is opened, whatever its body is.
pub inner_decode-framed :
    (b : Build) (address : SocketAddr) (body : List ℕ) (time : Duration)
    → IsCrc32 b
    → inner_decode b (framed b address body) time
      ≡ decode_header b address time (protocol_id_bytes ++ body)
unfolding inner_decode to_array
inner_decode-framed b address body time crc =
    rw
      (
        framed_long b address body,
        framed_position b address body,
        slice_from-append body,
        slice_to-append body,
      )
      (ground (arith, crc (protocol_id_bytes ++ body)))

-- The checksum of a packet.
abbrev pub checksum : {M : Type 0} ⦃e : Encoder M⦄ → Build → Packet ToSend M → ℕ
checksum b packet = b.crc32 (checked_bytes packet)

-- What `debug_assert!(crc32 != 0)` lets through.
abbrev pub Passes : Build → ℕ → Type 0
Passes b crc32 = (b.debug_assertions ≡ false) ⊎ (crc32 ≢ 0)

debug_assert-Passes :
    (b : Build) (crc32 : ℕ) → Passes b crc32 → debug_assert b (not (crc32 == 0)) ≡ ok tt
debug_assert-Passes b crc32 h = ground arith

-- The bytes of a packet between the protocol's number and the checksum.
abbrev pub body : {D M : Type 0} ⦃e : Encoder M⦄ → Packet D M → List ℕ
body ⦃e⦄ packet =
    u32_to_be_bytes packet.sequence ++ (u32_to_be_bytes packet.ack ++ e.encoded packet.message)

-- A packet of which the header fields fit their types.
abbrev pub HeaderFits : {D M : Type 0} → Packet D M → Type 0
HeaderFits packet = (0 < packet.sequence) × (packet.sequence < u32_mod) × (packet.ack < u32_mod)

module _ {M : Type 0} ⦃e : Encoder M⦄ where
  -- `as_raw` sends the frame of the body.
  pub as_raw-framed :
      (b : Build) (packet : Packet ToSend M)
      → Passes b (checksum b packet)
      → as_raw b packet ≡ ok (framed b packet.delivery.meta.address (body packet))
  unfolding as_raw checked_bytes
  as_raw-framed b packet h =
      rw (debug_assert-Passes b (b.crc32 (protocol_id_bytes ++ body packet)) h)

-- Behind the protocol's number, a sequence, an ack and a packet type, the branch of
-- `common_decode` for that type goes on at byte 13.
pub decode_header-bytes :
    (b : Build) (address : SocketAddr) (time : Duration) (sequence ack packet_type : ℕ)
    (rest : List ℕ)
    → 0 < sequence
    → sequence < u32_mod
    → ack < u32_mod
    → 0 < packet_type
    → packet_type < 6
    → let buffer =
        protocol_id_bytes
        ++ (u32_to_be_bytes sequence ++ (u32_to_be_bytes ack ++ (packet_type ∷ rest))) in
      decode_header b address time buffer
      ≡ common_decode b address time (record {
        buffer = buffer;
        buffer_position = 13;
        packet_type = packet_type;
        sequence = sequence;
        ack = ack;
      })
unfolding decode_header
decode_header-bytes b address time sequence ack packet_type rest hs hs' ha hp hp' =
    rw (from-u32_to_be_bytes sequence hs', from-u32_to_be_bytes ack ha) (ground arith)
