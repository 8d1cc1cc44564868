-- ===== src/Net/FragmentDelivery.antt =====
-- A payload in fragments on its way: from the loop of a client (antarc/src/lib.rs) to the event of
-- the server.
use antarc.Packets.Packet.{RawPacket}
use antarc.Events.{ProtocolEvent}
use antarc.Net.Polls.{poll_reliable_fragment}
use antarc.Net.Senders.{client_sending}
use antarc.Service.{client_service}
use antarc.Net.Fragments.{IsPart, IsLast}
use antarc.Peers.Groups.{GroupsFit}
use antarc.Shared.HashMap.{get}
use antarc.Base.Results.{ok, done}
use antarc.Shared.{◌++◌, ◌<◌, ◌+◌, All, length, [], some, none, arith, ◌∷◌, false, ◌≡◌, List}
use antarc.Packets.Scheduled.{Reliable, Scheduled}
use antarc.Packets.Delivery.{Duration, PacketId}
use antarc.Server.{Server}
use antarc.Peers.{Connected, Peer}
use antarc.Client.{Client}
use antarc.Base.Errors.{SocketAddr}
use antarc.Packets.Message.{Fragment, ConnectionId}
use antarc.Base.Words.{u32_mod, IsCrc32, Build}
use antarc.Net.Sending.{Sends}
use antarc.Net.{AntarcNet, Host}
use antarc.Net.Arrival.{receive_each}
use antarc.Net.FragmentArrival.{IsOf, carried, receive_group}
use antarc.Net.FragmentPolls.{poll_reliable_fragment_sends}
use antarc.Net.FragmentSenders.{client-FragmentSending}

-- The fragments of a payload that a client scheduled for a server arrive, less the last: where the
-- list holds two fragments or more, all of one payload to one connected peer, each with the
-- group's number of fragments and with parts that fit their types, the sequence numbers last, the client's
-- socket sends, and the server is connected to the peer and has no fragment of this sequence,
-- a call of the client's loop sends datagrams of which the server, when they come in,
-- in order, makes one event: its payload is that of the fragments in order, without that of the
-- last one.
pub fragments_arrive :
    {K : Type 0} {h : Host K} (sends : Sends h) (b : Build) (id : ConnectionId)
    (address from : SocketAddr) (n : AntarcNet Client K) (peer : Peer Connected) (s : Server)
    (known : Peer Connected) (packet_id : PacketId) (time : Duration)
    (part : Scheduled Reliable Fragment) (middle : List (Scheduled Reliable Fragment))
    (last : Scheduled Reliable Fragment)
    → IsCrc32 b
    → b.debug_assertions ≡ false
    → n.antarc.service.scheduler.list_scheduled_reliable_fragment ≡ part ∷ (middle ++ (last ∷ []))
    → get id n.antarc.service.connected ≡ some peer
    → get address n.antarc.service.awaiting_connection_ack ≡ none
    → All (IsPart id address) (part ∷ middle)
    → IsLast id address last
    → All (IsOf id (length middle + 2)) (part ∷ middle)
    → IsOf id (length middle + 2) last
    → 0 < peer.sequence_tracker
    → peer.sequence_tracker + 1 < u32_mod
    → peer.remote_ack_tracker < u32_mod
    → get id s.connected ≡ some known
    → GroupsFit known
    → get peer.sequence_tracker known.connection.reassembler ≡ none
    → (n' : AntarcNet Client K) × (datagrams : List RawPacket) × (s' : Server)
      × (poll_reliable_fragment client_service h b n ≡ ok n')
      × (sends.log n'.socket ≡ sends.log n.socket ++ datagrams)
      × (receive_each b s from packet_id time datagrams ≡ done s' tt)
      × (s'.api ≡ s.api ++ (ProtocolEvent.data_transfer id (carried (part ∷ middle)) ∷ []))
fragments_arrive sends b id address from n peer s known packet_id time part middle last crc release
      listed found settled are_parts is_last all_of last_of pos room small connected fit missing =
    let (n', polled, has_sent) =
      poll_reliable_fragment_sends client_sending sends b (client-FragmentSending b) release id
        address n peer found settled room (part ∷ middle) last listed are_parts is_last in
    let (s', received, events) =
      receive_group b crc release from packet_id time id peer.sequence_tracker
        peer.remote_ack_tracker (pos, omega arith, small) s known part middle last connected fit
        missing all_of last_of in
    (n', _, s', polled, has_sent.sent_packets, received, events)
