-- ===== src/Net/Delivery.antt =====
-- A payload on its whole way: from `schedule` of a client (antarc/src/lib.rs) to the event of the
-- server.
use antarc.Events.{ProtocolEvent}
use antarc.Packets.Packet.{RawPacket}
use antarc.Net.Transfers.{IsTo}
use antarc.Packets.Delivery.{Duration, PacketId}
use antarc.Protocol.Targets.{with_data_transfers}
use antarc.Server.{Server}
use antarc.Service.{client_service}
use antarc.Protocol.{u64_mod, fragment_payload_size}
use antarc.Base.Errors.{SocketAddr}
use antarc.Base.Words.{u32_mod, IsByte, IsCrc32, Build}
use antarc.Client.{Client}
use antarc.Net.Sending.{Sends}
use antarc.Packets.Message.{DataTransfer, Payload, ConnectionId, new_data_transfer}
use antarc.Shared.HashMap.{is_empty, HashMap, get}
use antarc.Net.{around, AntarcNet, now, Host}
use antarc.Shared.{
  map-append, ℕ, refl, ap, ◌∙◌, List, [], ◌∷◌, ◌++◌, length, All, All-append, some, none, ◌≡◌, ◌<◌,
  ◌≤◌, ◌+◌, arith, length-append, false,
}
use antarc.Base.Results.{ok, done}
use antarc.Peers.{Connected, Peer, single}
use antarc.Packets.Scheduled.{ReliabilityType, Scheduled, Unreliable, new_unreliable_data_transfer}
use antarc.Packets.RoundTrip.{IsData, IsConnectionId}
use antarc.Protocol.Queued.{scheduled, schedule_data_transfer_queued}
use antarc.Net.Polls
use antarc.Net.Polls.{poll_unreliable_data_transfer}
use antarc.Net.Arrival.{data_transfers_arrive, receive_each, payload_events, IsKnown}

pub get-is_empty :
    {V : Type 0} (k : ℕ) (v : V) (m : HashMap V) → get k m ≡ some v → is_empty m ≡ false
unfolding get
get-is_empty k v [] found = cc
get-is_empty k v (e ∷ m) found = refl

-- The client after a payload was scheduled for one peer.
abbrev with_payload :
    {K : Type 0}
    → Host K
    → AntarcNet Client K
    → ConnectionId
    → SocketAddr
    → Payload
    → AntarcNet Client K
with_payload h n id address payload = record (now h n).0 {
  antarc = scheduled client_service n.antarc (
      client_service.with_scheduler n.antarc.service (
        with_data_transfers n.antarc.packet_id_tracker (now h n).1 ReliabilityType.unreliable
          ((id, address) ∷ []) payload n.antarc.service.scheduler));
}

schedule-with_payload :
    {K : Type 0} (h : Host K) (b : Build) (n : AntarcNet Client K) (id : ConnectionId)
    (peer : Peer Connected) (payload : Payload)
    → get id n.antarc.service.connected ≡ some peer
    → 0 < length payload
    → length payload ≤ fragment_payload_size
    → n.antarc.packet_id_tracker + 1 < u64_mod
    → Polls.schedule client_service h b n ReliabilityType.unreliable (single id) payload
      ≡ done (with_payload h n id peer.address payload) (n.antarc.packet_id_tracker + 1)
unfolding Polls.schedule now around get
schedule-with_payload h b n id peer payload found some_byte short small =
    rw
      (schedule_data_transfer_queued client_service b n.antarc ReliabilityType.unreliable
        (single id) payload (h.elapsed n.socket).1 {ts = (id, peer.address) ∷ []}
        (get-is_empty id peer n.antarc.service.connected found) (rw found refl) some_byte short
        small)
      refl

-- A payload that a client schedules for a server arrives. In a build without debug assertions,
-- where the checksum has 32 bits, the client is connected to a peer whose address awaits no ack,
-- the unreliable data transfers scheduled before are to the same peer and their parts fit their
-- types, and the socket sends; where the connection id fits its type, the payload is of bytes, not
-- empty, and fits one datagram; where the peer's next sequence is not zero, the sequence numbers
-- and the packet ids last, and the ack fits its type; and where the server knows the connection
-- id: `schedule` answers, the next round of the loop over unreliable data transfers sends all of
-- them, and the server, when the datagrams come in, in order, reports the payload of each, the new
-- one last.
pub payload_arrives :
    {K : Type 0} {h : Host K} (sends : Sends h) (b : Build) (n : AntarcNet Client K)
    (id : ConnectionId) (peer : Peer Connected) (payload : Payload) (s : Server) (from : SocketAddr)
    (packet_id : PacketId) (time : Duration)
    → let list = n.antarc.service.scheduler.list_scheduled_unreliable_data_transfer in
      IsCrc32 b
      → b.debug_assertions ≡ false
      → get id n.antarc.service.connected ≡ some peer
      → get peer.address n.antarc.service.awaiting_connection_ack ≡ none
      → All (IsTo id peer.address (λ (m : DataTransfer). m.connection_id)) list
      → All (λ (x : Scheduled Unreliable DataTransfer). IsData x.message) list
      → IsConnectionId id
      → 0 < length payload
      → length payload ≤ fragment_payload_size
      → All IsByte payload
      → n.antarc.packet_id_tracker + 1 < u64_mod
      → 0 < peer.sequence_tracker
      → peer.sequence_tracker + (length list + 1) < u32_mod
      → peer.remote_ack_tracker < u32_mod
      → IsKnown s id
      → (n₁ : AntarcNet Client K) × (n₂ : AntarcNet Client K) × (datagrams : List RawPacket)
        × (s' : Server) × (Polls.schedule client_service h b n ReliabilityType.unreliable
              (single id)
              payload
            ≡ done n₁ (n.antarc.packet_id_tracker + 1))
        × (poll_unreliable_data_transfer client_service h b n₁ ≡ ok n₂)
        × (sends.log n₂.socket ≡ sends.log n.socket ++ datagrams)
        × (receive_each b s from packet_id time datagrams ≡ done s' tt)
        × (s'.api ≡ s.api ++ (payload_events list ++ (ProtocolEvent.data_transfer id payload ∷ [])))
unfolding new_unreliable_data_transfer now new_data_transfer
payload_arrives {h = h} sends b n id peer payload s from packet_id time crc release found settled
      for_peer fit id_range some_byte short bytes small pos room small_ack known =
    let n₁ = with_payload h n id peer.address payload in
    let list = n.antarc.service.scheduler.list_scheduled_unreliable_data_transfer in
    let x =
      new_unreliable_data_transfer n.antarc.packet_id_tracker id payload (h.elapsed n.socket).1
        peer.address in
    let (n₂, datagrams, s', polled, logged, received, events) =
      data_transfers_arrive sends b id peer.address from n₁ peer s packet_id time crc release found
        settled
        (All-append _ list (x ∷ []) for_peer (record { same_id = refl; same_address = refl }, tt))
        (All-append _ list (x ∷ []) fit
          (record { typed = refl; id_range = id_range; payload_range = bytes }, tt))
        pos (omega (arith, length-append list (x ∷ []))) small_ack known in
    (
      n₁,
      n₂,
      datagrams,
      s',
      schedule-with_payload h b n id peer payload found some_byte short small,
      polled,
      logged ∙ ap (λ l. l ++ datagrams) (sends.log-elapsed n.socket),
      received,
      events ∙ ap (λ l. s.api ++ l) (map-append _ list (x ∷ [])),
    )
