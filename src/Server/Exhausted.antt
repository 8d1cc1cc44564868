-- ===== src/Server/Exhausted.antt =====
-- What a connection request does to a server of antarc-protocol/src/server/service.rs that has given
-- out all its connection ids.
use antarc.Packets.Decode.{try_for_server, DecodedCommon}
use antarc.Packets.Raw.{decode_for_server, inner_decode}
use antarc.Packets.RoundTrip.{transmit-connection_request, arrived}
use antarc.Packets.Framing.{as_raw-framed, HeaderFits, framed, body}
use antarc.Packets.Encode.{connection_request_encoder}
use antarc.Packets.PacketType.{connection_request_type}
use antarc.Packets.Message.{ConnectionRequest}
use antarc.Packets.Packet.{Packet, RawPacket, as_raw}
use antarc.Packets.Delivery.{ToSend, Duration, PacketId}
use antarc.Base.Errors.{SocketAddr}
use antarc.Base.Results.{ok, panicked}
use antarc.Base.Words.{IsCrc32, Build, u16_mod}
use antarc.Shared.{any, ◌==◌, ◌≡◌, ◌+◌, false, inl, refl}
use antarc.Server.{unexpected_connection, Server, connection_request_another_state}
use antarc.Server.Handle.{on_received, handle}
use antarc.Server.Requests.{Inv, on_connection_request_full}

-- A connection request from an address that the server neither knows nor bans, in a build without
-- debug assertions and with a checksum of 32 bits, brings down a server in a state of the invariant
-- whose tracker is the last u16: the packet, whose header fits and which is of this kind, is encoded,
-- and `on_received` panics on the bytes.
pub connection_request_panics :
    (b : Build) (s : Server) (packet : Packet ToSend ConnectionRequest) (from : SocketAddr)
    (packet_id : PacketId) (time : Duration)
    → IsCrc32 b
    → b.debug_assertions ≡ false
    → HeaderFits packet
    → packet.message.meta ≡ record { packet_type = connection_request_type }
    → Inv s
    → connection_request_another_state s from ≡ false
    → any (λ other. other == from) s.ban_list ≡ false
    → s.connection_id_tracker + 1 ≡ u16_mod
    → (raw : RawPacket) × (as_raw b packet ≡ ok raw)
      × (on_received b s (record { address = from; bytes = raw.bytes }) packet_id time ≡ panicked)
unfolding on_received decode_for_server try_for_server handle unexpected_connection
connection_request_panics b s packet from packet_id time crc release fits typed inv unknown allowed
      full =
    let raw = framed b packet.delivery.meta.address (body packet) in
    let encoded : as_raw b packet ≡ ok raw = as_raw-framed b packet (inl release) in
    let sent = transmit-connection_request b packet from time crc (inl release) fits typed in
    let decoded : inner_decode b (record { address = from; bytes = raw.bytes }) time
        ≡ ok (DecodedCommon.connection_request (arrived packet from time)) =
      rw encoded at sent in
    let free : unexpected_connection s from ≡ ok tt = rw (unknown, allowed) refl in
    (
      raw,
      encoded,
      rw (decode_for_server, decoded)
          (on_connection_request_full b s (arrived packet from time) packet_id time inv free full),
    )
