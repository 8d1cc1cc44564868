-- ===== src/Net/LargePayload.antt =====
-- A payload that is longer than a datagram on its whole way: from `schedule` of a client
-- (antarc/src/lib.rs) to the event of the server.
use antarc.Packets.RoundTrip.{IsConnectionId}
use antarc.Protocol.Chunks.{length-enumerate, chunks, concat-chunks, chunks_several, chunks_short}
use antarc.Packets.Packet.{RawPacket}
use antarc.Events.{ProtocolEvent}
use antarc.Net.Polls.{poll_reliable_fragment}
use antarc.Peers.Groups.{GroupsFit}
use antarc.Base.Results.{ok, done}
use antarc.Protocol.{u64_mod, fragment_payload_size}
use antarc.Packets.Scheduled.{ReliabilityType}
use antarc.Packets.Delivery.{Duration, PacketId}
use antarc.Server.{Server}
use antarc.Service.{client_service}
use antarc.Base.Errors.{SocketAddr}
use antarc.Peers.{single, Connected, Peer}
use antarc.Packets.Message.{Payload, ConnectionId}
use antarc.Client.{Client}
use antarc.Shared.HashMap.{get}
use antarc.Base.Words.{u32_mod, IsCrc32, IsByte, Build}
use antarc.Net.Sending.{Sends}
use antarc.Shared.{
  ◌∷◌, false, ◌<◌, ◌≤◌, ◌+◌, All, [], none, arith, concat, subst, sym, ap, ◌∙◌, length, ◌++◌, ◌++◌,
  some, ◌++◌, ◌≡◌, ◌++◌, List, ◌++◌, ◌++◌, ◌++◌, ◌++◌, ◌++◌, ◌++◌,
}
use antarc.Net.{AntarcNet, Host}
use antarc.Net.Arrival.{receive_each}
use antarc.Net.Cut.{All-front, two_ends, All-concat, concat-append_single}
use antarc.Net.Polls
use antarc.Net.CutArrival.{with_cut, schedule-with_cut, cut_arrives}

abbrev IsShort : Payload → Type 0
IsShort chunk = (0 < length chunk) × (length chunk ≤ fragment_payload_size)

-- A payload that is cut arrives without its end. In a build without debug assertions, where the
-- checksum has 32 bits, a client is connected to a peer whose address awaits no ack, has no
-- reliable fragments scheduled, and its socket sends; where the connection id fits its type, the
-- payload is of bytes, longer than a fragment holds, and makes fewer than 256 chunks; where the
-- peer's next sequence is not zero, it and the packet ids last, and the ack fits its type; and
-- where a server is connected under the same id, its groups fit, and it has no fragment of this
-- sequence: `schedule` answers, the next round of the loop over reliable fragments sends
-- datagrams, and the server, when they come in, in order, reports one payload: the one that was
-- scheduled, less its last chunk, which is not empty and not longer than a fragment holds.
pub large_payload_arrives :
    {K : Type 0} {h : Host K} (sends : Sends h) (b : Build) (n : AntarcNet Client K)
    (id : ConnectionId) (peer : Peer Connected) (payload : Payload) (s : Server)
    (known : Peer Connected) (from : SocketAddr) (packet_id : PacketId) (time : Duration)
    → IsCrc32 b
    → b.debug_assertions ≡ false
    → get id n.antarc.service.connected ≡ some peer
    → get peer.address n.antarc.service.awaiting_connection_ack ≡ none
    → n.antarc.service.scheduler.list_scheduled_reliable_fragment ≡ []
    → IsConnectionId id
    → fragment_payload_size < length payload
    → length (chunks fragment_payload_size payload) < 256
    → All IsByte payload
    → n.antarc.packet_id_tracker + 1 < u64_mod
    → 0 < peer.sequence_tracker
    → peer.sequence_tracker + 1 < u32_mod
    → peer.remote_ack_tracker < u32_mod
    → get id s.connected ≡ some known
    → GroupsFit known
    → get peer.sequence_tracker known.connection.reassembler ≡ none
    → (n₁ : AntarcNet Client K) × (n₂ : AntarcNet Client K) × (datagrams : List RawPacket)
      × (s' : Server) × (reported : Payload) × (lost : Payload) × (Polls.schedule client_service h b
            n ReliabilityType.reliable
            (single id)
            payload
          ≡ done n₁ (n.antarc.packet_id_tracker + 1))
      × (poll_reliable_fragment client_service h b n₁ ≡ ok n₂)
      × (sends.log n₂.socket ≡ sends.log n.socket ++ datagrams)
      × (receive_each b s from packet_id time datagrams ≡ done s' tt)
      × (s'.api ≡ s.api ++ (ProtocolEvent.data_transfer id reported ∷ []))
      × (payload ≡ reported ++ lost)
      × (0 < length lost)
      × (length lost ≤ fragment_payload_size)
large_payload_arrives {h = h} sends b n id peer payload s known from packet_id time crc release
      found settled idle id_range long few bytes small pos room small_ack connected fit missing =
    let cut = chunks fragment_payload_size payload in
    let whole : concat cut ≡ payload = concat-chunks fragment_payload_size payload (omega arith) in
    let (first, middle, last, e) =
      two_ends cut (chunks_several fragment_payload_size payload (omega arith) long) in
    let (n₂, datagrams, s', polled, logged, received, events) =
      cut_arrives sends b n id peer cut first middle last e s known from packet_id time crc release
        found settled idle id_range (omega (arith, length-enumerate 0 cut, few))
        (subst (All (All IsByte)) e (All-concat IsByte cut (rw whole bytes))) pos room small_ack
        connected fit missing in
    let (front_short, last_short) =
      All-front IsShort (first ∷ middle) (last ∷ [])
        (subst (All IsShort) e (chunks_short fragment_payload_size payload (omega arith))) in
    (
      with_cut h n id peer.address cut,
      n₂,
      datagrams,
      s',
      concat (first ∷ middle),
      last,
      schedule-with_cut h b n id peer payload found long small,
      polled,
      logged,
      received,
      events,
      sym whole ∙ ap concat e ∙ concat-append_single (first ∷ middle) last,
      last_short.0.0,
      last_short.0.1,
    )
