-- ===== src/Client/Connects.antt =====
-- Connecting a client of antarc-protocol/src/client/service.rs to a server: from `connect` to the
-- packet that accepts the connection.
use antarc.Base.Words.{checked_succ}
use antarc.Packets.Message.{ConnectionAccepted, ConnectionRequest}
use antarc.Client.Handle.{on_connection_accepted}
use antarc.Peers
use antarc.Shared.{◌≡◌, refl, false, [], ◌∷◌, ◌++◌, none, some}
use antarc.Shared.HashMap.{get-remove_self, get-insert_self, get, insert, remove}
use antarc.Base.Errors.{SocketAddr, already_connecting_to_peer}
use antarc.Base.Results.{ok, done, failed}
use antarc.Packets.Delivery.{Received, Sent, ToSend, Duration, PacketId}
use antarc.Packets.Packet.{Packet, sent}
use antarc.Peers.{track, Peer, new_peer, next_sequence, await_connection_ack, Connected}
use antarc.Packets.Scheduled.{into_packet, new_connection_request}
use antarc.Client.{create_connection_request, sent_connection_request, Client, connect, known_peer}
use antarc.Scheduler.{push}

-- A client that has asked for a connection to `address`.
abbrev pub requesting : Client → SocketAddr → PacketId → Duration → Client
requesting c address packet_id time = record c {
  scheduler = record c.scheduler {
    service = record {
      list_scheduled_connection_request =
          c.scheduler.service.list_scheduled_connection_request
          ++ (new_connection_request packet_id address time ∷ []);
    };
  };
  requesting_connection = insert address (new_peer time address 0) c.requesting_connection;
}

-- A first `connect` to an address that no table knows queues one connection request and makes
-- the address a requesting peer; a second one is refused and changes nothing.
pub connect_once :
    (c : Client) (address : SocketAddr) (packet_id packet_id' : PacketId) (time later : Duration)
    → known_peer c address ≡ false
    → (connect c address packet_id time ≡ done (requesting c address packet_id time) tt)
      × (connect (requesting c address packet_id time) address packet_id' later
          ≡ failed (requesting c address packet_id time) (already_connecting_to_peer address))
unfolding connect known_peer
connect_once c address packet_id packet_id' time later unknown = (
  rw unknown refl,
  rw (get-insert_self address (new_peer time address 0) c.requesting_connection) refl,
)

-- A client whose request was sent: the peer awaits an ack and will send sequence 2 next.
abbrev pub awaiting :
    Client → SocketAddr → Packet Sent ConnectionRequest → Duration → Duration → Client
awaiting c address packet time later = record c {
  requesting_connection = remove address c.requesting_connection;
  reliability_handler = record c.reliability_handler {
    service = record {
      list_sent_connection_request =
          push c.reliability_handler.service.list_sent_connection_request packet;
    };
  };
  awaiting_connection_ack =
      insert address
        (await_connection_ack (record (new_peer time address 0) { sequence_tracker = 2 }) later)
        c.awaiting_connection_ack;
}

-- The handshake of a client with a server at an address that it did not know: the connection
-- request is made with sequence 1 and ack 0; once it was sent, a packet from the address that
-- accepts the connection makes the peer connected under the id in the packet, which no peer had:
-- it has the address, it will send sequence 2 next, and it records the sequence and the ack of the
-- packet that accepted it; no other table knows the address then.
pub handshake :
    (c : Client) (address : SocketAddr) (packet_id : PacketId) (t₀ t₁ t₂ t₃ ttl : Duration)
    (accepted : Packet Received ConnectionAccepted)
    → known_peer c address ≡ false
    → accepted.delivery.meta.address ≡ address
    → get accepted.message.connection_id c.connected ≡ none
    → (c₁ : Client) × (packet : Packet ToSend ConnectionRequest) × (c₂ : Client) × (c₃ : Client)
      × (peer : Peer Connected) × (connect c address packet_id t₀ ≡ done c₁ tt)
      × (create_connection_request c₁ (new_connection_request packet_id address t₀) t₁ ≡ ok packet)
      × ((packet.sequence ≡ 1) × (packet.ack ≡ 0) × (packet.delivery.meta.address ≡ address))
      × (sent_connection_request c₁ packet t₂ ttl ≡ ok c₂)
      × (on_connection_accepted c₂ accepted t₃ ≡ done c₃ tt)
      × (get accepted.message.connection_id c₃.connected ≡ some peer)
      × ((peer.address ≡ address)
          × (peer.sequence_tracker ≡ 2)
          × (peer.remote_ack_tracker ≡ accepted.sequence)
          × (peer.local_ack_tracker ≡ accepted.ack)
          × (peer.connection.connection_id ≡ accepted.message.connection_id))
      × (get address c₃.requesting_connection ≡ none)
      × (get address c₃.awaiting_connection_ack ≡ none)
unfolding create_connection_request sent_connection_request on_connection_accepted into_packet sent
    track Peers.connected await_connection_ack new_peer next_sequence new_connection_request
    checked_succ
handshake c address packet_id t₀ t₁ t₂ t₃ ttl accepted unknown same fresh =
    let c₁ = requesting c address packet_id t₀ in
    let packet = into_packet (new_connection_request packet_id address t₀) 1 0 t₁ in
    let c₂ = awaiting c₁ address (sent packet t₂ ttl) t₀ t₂ in
    let found = get-insert_self address (new_peer t₀ address 0) c.requesting_connection in
    let waits =
      get-insert_self address
        (await_connection_ack (record (new_peer t₀ address 0) { sequence_tracker = 2 }) t₂)
        c.awaiting_connection_ack in
    let id = accepted.message.connection_id in
    let peer₂ = await_connection_ack (record (new_peer t₀ address 0) { sequence_tracker = 2 }) t₂ in
    let peer = track (Peers.connected peer₂ t₃ id) accepted.sequence accepted.ack in
    let c₃ : Client = record c₂ {
      awaiting_connection_ack = remove address c₂.awaiting_connection_ack;
      connected = insert id peer c₂.connected;
    } in
    (
      c₁,
      packet,
      c₂,
      c₃,
      peer,
      (connect_once c address packet_id packet_id t₀ t₁ unknown).0,
      rw found refl,
      (refl, refl, refl),
      rw found refl,
      rw
          (
            same,
            get-remove_self address
                (insert address (new_peer t₀ address 0) c.requesting_connection),
            fresh,
            waits,
          )
          (rw same refl),
      get-insert_self accepted.message.connection_id _ _,
      (refl, refl, refl, refl, refl),
      get-remove_self address _,
      get-remove_self address _,
    )
