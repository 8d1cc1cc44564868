-- ===== src/Net/Unreported.antt =====
-- Data transfers from the loop of a server (antarc/src/lib.rs) to a client that is connected
-- (antarc-protocol/src/client/service.rs), which does not report them.
use antarc.Peers.{Connected, Peer, track}
use antarc.Shared.HashMap.{get, insert, get-insert_self}
use antarc.Server.{Server}
use antarc.Service.{server_service}
use antarc.Net.Polls.{poll_unreliable_data_transfer}
use antarc.Net.TransferPolls.{poll_unreliable_data_transfer_sends}
use antarc.Net.{AntarcNet, Host}
use antarc.Net.Transfers.{IsTo}
use antarc.Net.Sending.{Sends, datagram, numbered}
use antarc.Packets.Decode.{try_for_client, DecodedCommon}
use antarc.Packets.Raw.{decode_for_client, inner_decode}
use antarc.Packets.RoundTrip.{transmit-data_transfer, arrived, IsData}
use antarc.Packets.Framing.{as_raw-framed, HeaderFits}
use antarc.Packets.Encode.{data_transfer_encoder}
use antarc.Packets.Scheduled.{into_packet, Unreliable, Scheduled}
use antarc.Packets.Message.{Ack, Sequence, ConnectionId, DataTransfer}
use antarc.Packets.Packet.{Packet, RawPacket}
use antarc.Packets.Delivery.{Received, ToSend, Duration}
use antarc.Base.Errors.{SocketAddr}
use antarc.Base.Results.{ok, Reply, done, and_then}
use antarc.Base.Words.{u32_mod, IsCrc32, Build}
use antarc.Shared.{
  All-zip, suc, ap, false, refl, ◌∙◌, List, [], ◌∷◌, ◌++◌, length, map, All, some, ◌≡◌, ◌<◌, ◌+◌,
  arith, inl,
}
use antarc.Client.Handle.{on_received, handle, on_data_transfer}
use antarc.Client.{Client}
use antarc.Net.Senders.{server_sending}

-- Datagrams that arrive at a client from an address, one after another.
unfoldable pub client_receives :
    Build → Client → SocketAddr → Duration → List RawPacket → Reply Client (Unit {0})
unfolding on_received
client_receives b c from time [] = done c tt
client_receives b c from time (raw ∷ raws) =
    and_then (on_received b c (record { address = from; bytes = raw.bytes }) time)
      (λ c' _. client_receives b c' from time raws)

abbrev on_data_transfer_answer : Client → ConnectionId → Peer Connected → Reply Client (Unit {0})
on_data_transfer_answer c id peer = done (record c { connected = insert id peer c.connected }) tt

-- A data transfer from a connected peer is recorded, and not reported.
on_data_transfer_connected :
    (c : Client) (packet : Packet Received DataTransfer) (time : Duration) (peer : Peer Connected)
    → get packet.message.connection_id c.connected ≡ some peer
    → on_data_transfer c packet time
      ≡ done
          (record c {
            connected =
                insert packet.message.connection_id
                  (track peer packet.sequence packet.ack)
                  c.connected;
          })
          tt
unfolding on_data_transfer
on_data_transfer_connected c packet time peer found = rw (on_data_transfer, found) refl

length_datagrams :
    {R : Type 0} (b : Build) (first : Sequence) (ack : Ack) (list : List (Scheduled R DataTransfer))
    → length (map (datagram b) (numbered first ack list)) ≡ length list
length_datagrams b first ack [] = refl
length_datagrams b first ack (x ∷ list) = ap suc (length_datagrams b (first + 1) ack list)

module _ (b : Build) (crc : IsCrc32 b) (release : b.debug_assertions ≡ false) (from : SocketAddr)
    (time : Duration) where
  -- The bytes of a data transfer are handled as the packet that was sent.
  client_received-datagram :
      (c : Client) (packet : Packet ToSend DataTransfer)
      → HeaderFits packet
      → IsData packet.message
      → on_received b c (record { address = from; bytes = (datagram b packet).bytes }) time
        ≡ on_data_transfer c (arrived packet from time) time
  unfolding on_received decode_for_client try_for_client handle
  client_received-datagram c packet fits fits_message =
      let sent = transmit-data_transfer b packet from time crc (inl release) fits fits_message in
      let decoded : inner_decode b (record { address = from; bytes = (datagram b packet).bytes })
            time
          ≡ ok (DecodedCommon.data_transfer (arrived packet from time)) =
        rw (as_raw-framed b packet (inl release)) at sent in
      rw (decode_for_client, decoded) refl

  -- A list of data transfers from a connected peer is received, and nothing is reported.
  pub client_receives-numbered :
      {R : Type 0} (c : Client) (id : ConnectionId) (peer : Peer Connected) (first : Sequence)
      (ack : Ack) (list : List (Scheduled R DataTransfer))
      → 0 < first
      → first + length list < u32_mod
      → ack < u32_mod
      → All
          (λ (x : Scheduled R DataTransfer). (x.message.connection_id ≡ id) × IsData x.message)
          list
      → get id c.connected ≡ some peer
      → (c' : Client) × (peer' : Peer Connected) × (client_receives b c from time
            (map (datagram b) (numbered first ack list))
          ≡ done c' tt)
        × (c'.api ≡ c.api)
        × (get id c'.connected ≡ some peer')
  unfolding client_receives into_packet on_data_transfer track
  client_receives-numbered c id peer first ack [] pos room small fit known =
      (c, peer, refl, refl, known)
  client_receives-numbered c id peer first ack (x ∷ list) pos room small fit known =
      let packet = into_packet x first ack 0 in
      let now = track peer first ack in
      let c₁ : Client = record c { connected = insert id now c.connected } in
      let handled =
        on_data_transfer_connected c (arrived packet from time) time peer (rw fit.0.0 known)
        ∙ ap (λ (i : ConnectionId). on_data_transfer_answer c i now) fit.0.0 in
      let one = client_received-datagram c packet (pos, omega arith, small) fit.0.1 ∙ handled in
      let known₁ = get-insert_self id now c.connected in
      let (c₂, peer', rest, events, known₂) =
        client_receives-numbered c₁ id now (first + 1) ack list (omega arith) (omega arith) small
          fit.1 known₁ in
      (c₂, peer', rw one rest, events, known₂)

-- Data transfers from a server are lost on a client that is connected. In a build without debug
-- assertions, where the checksum has 32 bits, the server's peer is connected, its next sequence is
-- not zero, its sequence numbers last, the ack and the parts of the messages fit their types, the
-- scheduled unreliable data transfers are all to this peer, and the server's socket sends, a call of
-- the server's loop sends a datagram for each; a client that is connected under the same id
-- takes all of them, in order and from whatever address, without an error and without an event, and
-- stays connected.
pub data_transfers_unreported :
    {K : Type 0} {h : Host K} (sends : Sends h) (b : Build) (id : ConnectionId)
    (address from : SocketAddr) (n : AntarcNet Server K) (peer known : Peer Connected) (c : Client)
    (time : Duration)
    → let list = n.antarc.service.scheduler.list_scheduled_unreliable_data_transfer in
      IsCrc32 b
      → b.debug_assertions ≡ false
      → get id n.antarc.service.connected ≡ some peer
      → All (IsTo id address (λ (m : DataTransfer). m.connection_id)) list
      → All (λ (x : Scheduled Unreliable DataTransfer). IsData x.message) list
      → 0 < peer.sequence_tracker
      → peer.sequence_tracker + length list < u32_mod
      → peer.remote_ack_tracker < u32_mod
      → get id c.connected ≡ some known
      → (n' : AntarcNet Server K) × (datagrams : List RawPacket) × (c' : Client) × (known' : Peer
          Connected)
        × (poll_unreliable_data_transfer server_service h b n ≡ ok n')
        × (sends.log n'.socket ≡ sends.log n.socket ++ datagrams)
        × (length datagrams ≡ length list)
        × (client_receives b c from time datagrams ≡ done c' tt)
        × (c'.api ≡ c.api)
        × (get id c'.connected ≡ some known')
data_transfers_unreported sends b id address from n peer known c time crc release found for_peer fit
      pos room small connected =
    let list = n.antarc.service.scheduler.list_scheduled_unreliable_data_transfer in
    let (n', polled, has_sent) =
      poll_unreliable_data_transfer_sends server_sending sends b release id address n peer found tt
        for_peer room in
    let (c', known', received, events, stays) =
      client_receives-numbered b crc release from time c id known peer.sequence_tracker
        peer.remote_ack_tracker list pos room small
        (All-zip (IsTo id address (λ (m : DataTransfer). m.connection_id))
          (λ (x : Scheduled Unreliable DataTransfer). IsData x.message)
          (λ (x : Scheduled Unreliable DataTransfer).
            (x.message.connection_id ≡ id) × IsData x.message)
          list (λ x to data_fits. (to.same_id, data_fits)) for_peer fit)
        connected in
    (
      n',
      _,
      c',
      known',
      polled,
      has_sent.sent_packets,
      length_datagrams b peer.sequence_tracker peer.remote_ack_tracker list,
      received,
      events,
      stays,
    )
