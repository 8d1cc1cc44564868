-- ===== src/Packets/Raw.antt =====
-- antarc-protocol/src/packets/raw.rs: decoding a datagram.
use antarc.Shared.{
  ℕ, ◌+◌, ◌-◌, List, [], ◌∷◌, ◌++◌, Option, none, some, length, not, ◌&&◌, ltb, ◌==◌, if◌then◌else◌,
  zero, suc,
}
use antarc.Base.Errors.{
  SocketAddr, array_conversion, invalid_protocol_id, invalid_crc32, invalid_packet_type,
}
use antarc.Base.Results.{Result, ok, err, panic, ◌>>=◌, ◌>>◌, unwrap}
use antarc.Base.Words.{Build, debug_assert, nonzero, from_be_bytes}
use antarc.Packets.PacketType.{
  try_from, packet_type_sentinel_start, packet_type_sentinel_end, connection_request_type,
  connection_accepted_type, data_transfer_type, fragment_type, heartbeat_type,
}
use antarc.Packets.Delivery.{Duration, Received}
use antarc.Packets.Encode.{
  connection_request_encoder, connection_accepted_encoder, data_transfer_encoder, fragment_encoder,
  heartbeat_encoder,
}
use antarc.Packets.Packet.{Packet, RawPacket, protocol_id, protocol_id_bytes}
use antarc.Packets.Decode.{
  PartialDecode, DecodedCommon, DecodedForServer, DecodedForClient, try_for_server, try_for_client,
}

-- `&bytes[n..]` and `&bytes[..n]`, which panic past the end.
unfoldable pub slice_from : ℕ → List ℕ → Option (List ℕ)
slice_from zero bytes = some bytes
slice_from (suc n) [] = none
slice_from (suc n) (x ∷ bytes) = slice_from n bytes

unfoldable pub slice_to : ℕ → List ℕ → Option (List ℕ)
slice_to zero bytes = some []
slice_to (suc n) [] = none
slice_to (suc n) (x ∷ bytes) = elim (slice_to n bytes) [
  | none ↦ none
  | some front ↦ some (x ∷ front)
]

-- `<&[u8; N]>::try_from(slice)`
unfoldable pub to_array : ℕ → List ℕ → Result (List ℕ)
to_array n bytes = if length bytes == n then ok bytes else err array_conversion

-- The macro `read_buffer_inc!`: the number at `start` in `size` bytes, and the end of it.
unfoldable pub read_buffer_inc : ℕ → List ℕ → ℕ → Result (ℕ × ℕ)
unfolding slice_from slice_to to_array
read_buffer_inc size buffer start = do
  tail ← unwrap (slice_from start buffer)
  bytes ← unwrap (slice_to size tail)
  array ← to_array size bytes
  ok (from_be_bytes array, start + size)

-- The packet that each branch of `common_decode` builds.
abbrev pub received : {M : Type 0} → SocketAddr → Duration → PartialDecode → M → Packet Received M
received address time partial message = record {
  delivery = record { meta = record { time = time; address = address } };
  sequence = partial.sequence;
  ack = partial.ack;
  message = message;
}

-- `RawPacket::common_decode`, a function for each branch.
unfoldable pub decode_connection_request :
    Build → SocketAddr → Duration → PartialDecode → Result DecodedCommon
decode_connection_request b address time partial = do
  debug_assert b (partial.buffer_position == connection_request_encoder.header_size)
  ok (
      DecodedCommon.connection_request (
        received address time partial
          (record { meta = record { packet_type = partial.packet_type } })))

unfoldable pub decode_connection_accepted :
    Build → SocketAddr → Duration → PartialDecode → Result DecodedCommon
unfolding read_buffer_inc nonzero
decode_connection_accepted b address time partial = do
  (read_connection_id, buffer_position) ← read_buffer_inc 2 partial.buffer partial.buffer_position
  debug_assert b (buffer_position == connection_accepted_encoder.header_size)
  connection_id ← nonzero read_connection_id
  ok (
      DecodedCommon.connection_accepted (
        received address time partial (record {
          meta = record { packet_type = partial.packet_type };
          connection_id = connection_id;
        })))

unfoldable pub decode_data_transfer :
    Build → SocketAddr → Duration → PartialDecode → Result DecodedCommon
unfolding read_buffer_inc nonzero slice_from
decode_data_transfer b address time partial = do
  (read_connection_id, buffer_position) ← read_buffer_inc 2 partial.buffer partial.buffer_position
  debug_assert b (buffer_position == data_transfer_encoder.header_size)
  read_payload ← unwrap (slice_from buffer_position partial.buffer)
  connection_id ← nonzero read_connection_id
  ok (
      DecodedCommon.data_transfer (
        received address time partial (record {
          meta = record { packet_type = partial.packet_type };
          connection_id = connection_id;
          payload = read_payload;
        })))

unfoldable pub decode_fragment :
    Build → SocketAddr → Duration → PartialDecode → Result DecodedCommon
unfolding read_buffer_inc nonzero slice_from
decode_fragment b address time partial = do
  (read_fragment_index, index_end) ← read_buffer_inc 1 partial.buffer partial.buffer_position
  (read_fragment_total, total_end) ← read_buffer_inc 1 partial.buffer index_end
  (read_connection_id, buffer_position) ← read_buffer_inc 2 partial.buffer total_end
  debug_assert b (buffer_position == fragment_encoder.header_size)
  read_payload ← unwrap (slice_from buffer_position partial.buffer)
  connection_id ← nonzero read_connection_id
  ok (
      DecodedCommon.fragment (
        received address time partial (record {
          meta = record { packet_type = partial.packet_type };
          connection_id = connection_id;
          index = read_fragment_index;
          total = read_fragment_total;
          payload = read_payload;
        })))

unfoldable pub decode_heartbeat :
    Build → SocketAddr → Duration → PartialDecode → Result DecodedCommon
unfolding read_buffer_inc nonzero
decode_heartbeat b address time partial = do
  (read_connection_id, buffer_position) ← read_buffer_inc 2 partial.buffer partial.buffer_position
  debug_assert b (buffer_position == heartbeat_encoder.header_size)
  connection_id ← nonzero read_connection_id
  ok (
      DecodedCommon.heartbeat (
        received address time partial (record {
          meta = record { packet_type = partial.packet_type };
          connection_id = connection_id;
        })))

unfoldable pub common_decode : Build → SocketAddr → Duration → PartialDecode → Result DecodedCommon
unfolding decode_connection_request decode_connection_accepted decode_data_transfer decode_fragment
    decode_heartbeat
common_decode b address time partial =
    if partial.packet_type == connection_request_type
    then decode_connection_request b address time partial
    else if partial.packet_type == connection_accepted_type
    then decode_connection_accepted b address time partial
    else if partial.packet_type == data_transfer_type
    then decode_data_transfer b address time partial
    else if partial.packet_type == fragment_type
    then decode_fragment b address time partial
    else if partial.packet_type == heartbeat_type
    then decode_heartbeat b address time partial
    else err (invalid_packet_type partial.packet_type)

-- The part of `inner_decode` behind the test of the checksum.
unfoldable pub decode_header : Build → SocketAddr → Duration → List ℕ → Result DecodedCommon
unfolding read_buffer_inc try_from nonzero
decode_header b address time buffer = do
  (read_protocol_id, protocol_id_end) ← read_buffer_inc 4 buffer 0
  if not (protocol_id == read_protocol_id)
      then err (invalid_protocol_id read_protocol_id protocol_id)
      else do
        (read_sequence, sequence_end) ← read_buffer_inc 4 buffer protocol_id_end
        debug_assert b (not (read_sequence == 0))
        (read_ack, ack_end) ← read_buffer_inc 4 buffer sequence_end
        (read_packet_type, buffer_position) ← read_buffer_inc 1 buffer ack_end
        debug_assert b (
            ltb packet_type_sentinel_start read_packet_type
            && ltb read_packet_type packet_type_sentinel_end)
        packet_type ← try_from read_packet_type
        sequence ← nonzero read_sequence
        common_decode b address time (record {
          buffer = buffer;
          buffer_position = buffer_position;
          packet_type = packet_type;
          sequence = sequence;
          ack = read_ack;
        })

-- `RawPacket::inner_decode`. With fewer than four bytes `length - 4` overflows: that panics
-- where overflow is checked, and the slice from the wrapped position panics where it is not.
unfoldable pub inner_decode : Build → RawPacket → Duration → Result DecodedCommon
unfolding slice_from slice_to to_array nonzero
inner_decode b raw time =
    let length = length raw.bytes in
    let crc32_position = length - 4 in
    if ltb length 4 then panic else do
      tail ← unwrap (slice_from crc32_position raw.bytes)
      crc32_bytes ← to_array 4 tail
      let read_crc32 = from_be_bytes crc32_bytes
      bytes_without_crc32 ← unwrap (slice_to crc32_position raw.bytes)
      let bytes_with_protocol_id = protocol_id_bytes ++ bytes_without_crc32
      let crc32 = b.crc32 bytes_with_protocol_id
      if crc32 == read_crc32
          then decode_header b raw.address time bytes_with_protocol_id
          else nonzero crc32 >>= λ expected. err (invalid_crc32 read_crc32 expected)

-- `RawPacket::decode` for each service.
unfoldable pub decode_for_server : Build → RawPacket → Duration → Result DecodedForServer
decode_for_server b raw time = inner_decode b raw time >>= try_for_server

unfoldable pub decode_for_client : Build → RawPacket → Duration → Result DecodedForClient
decode_for_client b raw time = inner_decode b raw time >>= try_for_client
