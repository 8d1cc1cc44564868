-- ===== src/Net/Arrival.antt =====
-- Data transfers from the loop of a sender (antarc/src/lib.rs) to the events of a server
-- (antarc-protocol/src/server/service.rs).
use antarc.Net.Senders.{client_sending}
use antarc.Net.TransferPolls.{poll_unreliable_data_transfer_sends}
use antarc.Service.{client_service}
use antarc.Net.Polls.{poll_unreliable_data_transfer}
use antarc.Net.Transfers.{IsTo}
use antarc.Client.{Client}
use antarc.Net.{AntarcNet, Host}
use antarc.Server.Tables.{address_of}
use antarc.Shared.HashMap.{get}
use antarc.Peers.{Connected, Peer}
use antarc.Packets.Packet.{Packet, RawPacket}
use antarc.Packets.Delivery.{ToSend, Duration, PacketId}
use antarc.Packets.Message.{Ack, Sequence, ConnectionId, DataTransfer}
use antarc.Base.Errors.{SocketAddr}
use antarc.Server.{Server}
use antarc.Base.Words.{u32_mod, IsCrc32, Build}
use antarc.Packets.Scheduled.{into_packet, Unreliable, Scheduled}
use antarc.Shared.{
  All-zip, false, refl, ◌∙◌, List, [], ◌∷◌, ◌++◌, length, map, All, some, none, ◌≡◌, ◌≢◌, ◌<◌, ◌+◌,
  arith, inl, inr, subst, sym, append_assoc, append-nil,
}
use antarc.Base.Results.{ok, Reply, done, and_then}
use antarc.Packets.Encode.{data_transfer_encoder}
use antarc.Packets.Framing.{as_raw-framed, HeaderFits}
use antarc.Packets.RoundTrip.{transmit-data_transfer, arrived, IsData}
use antarc.Packets.Raw.{decode_for_server, inner_decode}
use antarc.Packets.Decode.{try_for_server, DecodedCommon}
use antarc.Server.Handle.{on_received, handle, on_data_transfer}
use antarc.Server.Reports.{known_connected, on_data_transfer_reports}
use antarc.Events.{ServerEvent, ProtocolEvent}
use antarc.Net.Sending.{Sends, datagram, numbered}

-- Datagrams that arrive at a server from an address, one after another.
unfoldable pub receive_each :
    Build → Server → SocketAddr → PacketId → Duration → List RawPacket → Reply Server (Unit {0})
unfolding on_received
receive_each b s from packet_id time [] = done s tt
receive_each b s from packet_id time (raw ∷ raws) =
    and_then (on_received b s (record { address = from; bytes = raw.bytes }) packet_id time)
      (λ s' more. receive_each b s' from packet_id time raws)

-- The events of the payloads of data transfers.
abbrev pub payload_events :
    {R : Type 0} → List (Scheduled R DataTransfer) → List (ProtocolEvent ServerEvent)
payload_events = map λ scheduled.
    ProtocolEvent.data_transfer scheduled.message.connection_id scheduled.message.payload

-- The server knows the peer with a connection id.
abbrev pub IsKnown : Server → ConnectionId → Type 0
IsKnown s id = address_of s.awaiting_connection_ack s.connected id ≢ none

module _ (b : Build) (crc : IsCrc32 b) (release : b.debug_assertions ≡ false) (from : SocketAddr)
    (packet_id : PacketId) (time : Duration) where
  -- The bytes of a data transfer are handled as the packet that was sent.
  on_received-datagram :
      (s : Server) (packet : Packet ToSend DataTransfer)
      → HeaderFits packet
      → IsData packet.message
      → on_received b s
          (record { address = from; bytes = (datagram b packet).bytes })
          packet_id
          time
        ≡ on_data_transfer s (arrived packet from time) time
  unfolding on_received decode_for_server try_for_server handle
  on_received-datagram s packet fits fits_message =
      let sent = transmit-data_transfer b packet from time crc (inl release) fits fits_message in
      let decoded : inner_decode b (record { address = from; bytes = (datagram b packet).bytes })
            time
          ≡ ok (DecodedCommon.data_transfer (arrived packet from time)) =
        rw (as_raw-framed b packet (inl release)) at sent in
      rw (decode_for_server, decoded) refl

  -- A data transfer from a peer that the server knows is reported, and the peer stays known.
  receive_one :
      (s : Server) (packet : Packet ToSend DataTransfer)
      → HeaderFits packet
      → IsData packet.message
      → IsKnown s packet.message.connection_id
      → (s' : Server) × (on_received b s
            (record { address = from; bytes = (datagram b packet).bytes })
            packet_id
            time
          ≡ done s' false)
        × (s'.api
            ≡ s.api
              ++ (ProtocolEvent.data_transfer packet.message.connection_id packet.message.payload
                  ∷ []))
        × IsKnown s' packet.message.connection_id
  receive_one s packet fits fits_message known =
      let id = packet.message.connection_id in
      elim (on_data_transfer_reports s (arrived packet from time) time) [
        | inl (unknown, e) ↦ absurd (known unknown)
        | inr (was_known, s', peer, e, events, found, tracks) ↦ (
          s',
          on_received-datagram s packet fits fits_message ∙ e,
          events,
          known_connected s' id peer found,
        )
      ]

  -- A list of data transfers to the peer that are numbered and sent is reported, in order.
  pub receive_each_reports :
      {R : Type 0} (s : Server) (id : ConnectionId) (first : Sequence) (ack : Ack)
      (list : List (Scheduled R DataTransfer))
      → 0 < first
      → first + length list < u32_mod
      → ack < u32_mod
      → All
          (λ (x : Scheduled R DataTransfer). (x.message.connection_id ≡ id) × IsData x.message)
          list
      → IsKnown s id
      → (s' : Server) × (receive_each b s from packet_id time
            (map (datagram b) (numbered first ack list))
          ≡ done s' tt)
        × (s'.api ≡ s.api ++ payload_events list)
  unfolding receive_each into_packet
  receive_each_reports s id first ack [] pos room small fit known =
      (s, refl, sym (append-nil s.api))
  receive_each_reports s id first ack (x ∷ list) pos room small fit known =
      let packet = into_packet x first ack 0 in
      let (s₁, one, events₁, known₁) =
        receive_one s packet (pos, omega arith, small) fit.0.1
          (subst (IsKnown s) (sym fit.0.0) known) in
      let (s₂, rest, events₂) =
        receive_each_reports s₁ id (first + 1) ack list (omega arith) (omega arith) small fit.1
          (subst (IsKnown s₁) fit.0.0 known₁) in
      (
        s₂,
        rw one rest,
        rw (events₂, events₁)
            (append_assoc s.api
              (ProtocolEvent.data_transfer x.message.connection_id x.message.payload ∷ [])
              (payload_events list)),
      )

-- Data transfers that a client scheduled for one server arrive. In a build without debug
-- assertions, where the checksum has 32 bits, the peer is connected and its address awaits no ack,
-- its next sequence is not zero, its sequence numbers last, the ack and the parts of the messages
-- fit their types, the client's socket sends, and the server knows the connection id, a call of
-- the client's loop sends datagrams of which the server, when they come in, in order and from
-- whatever address, makes one event for each message, with its payload and in its order.
pub data_transfers_arrive :
    {K : Type 0} {h : Host K} (sends : Sends h) (b : Build) (id : ConnectionId)
    (address from : SocketAddr) (n : AntarcNet Client K) (peer : Peer Connected) (s : Server)
    (packet_id : PacketId) (time : Duration)
    → let list = n.antarc.service.scheduler.list_scheduled_unreliable_data_transfer in
      IsCrc32 b
      → b.debug_assertions ≡ false
      → get id n.antarc.service.connected ≡ some peer
      → get address n.antarc.service.awaiting_connection_ack ≡ none
      → All (IsTo id address (λ (m : DataTransfer). m.connection_id)) list
      → All (λ (x : Scheduled Unreliable DataTransfer). IsData x.message) list
      → 0 < peer.sequence_tracker
      → peer.sequence_tracker + length list < u32_mod
      → peer.remote_ack_tracker < u32_mod
      → IsKnown s id
      → (n' : AntarcNet Client K) × (datagrams : List RawPacket) × (s' : Server)
        × (poll_unreliable_data_transfer client_service h b n ≡ ok n')
        × (sends.log n'.socket ≡ sends.log n.socket ++ datagrams)
        × (receive_each b s from packet_id time datagrams ≡ done s' tt)
        × (s'.api ≡ s.api ++ payload_events list)
data_transfers_arrive sends b id address from n peer s packet_id time crc release found settled
      for_peer fit pos room small known =
    let list = n.antarc.service.scheduler.list_scheduled_unreliable_data_transfer in
    let (n', polled, has_sent) =
      poll_unreliable_data_transfer_sends client_sending sends b release id address n peer found
        settled for_peer room in
    let (s', received, events) =
      receive_each_reports b crc release from packet_id time s id peer.sequence_tracker
        peer.remote_ack_tracker list pos room small
        (All-zip (IsTo id address (λ (m : DataTransfer). m.connection_id))
          (λ (x : Scheduled Unreliable DataTransfer). IsData x.message)
          (λ (x : Scheduled Unreliable DataTransfer).
            (x.message.connection_id ≡ id) × IsData x.message)
          list (λ x to data_fits. (to.same_id, data_fits)) for_peer fit)
        known in
    (n', _, s', polled, has_sent.sent_packets, received, events)
