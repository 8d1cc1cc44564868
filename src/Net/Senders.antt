-- ===== src/Net/Senders.antt =====
-- What the `sent_` methods of both services (server/service.rs and client/service.rs of
-- antarc-protocol/src) promise to the loops.
use antarc.Base.Errors.{SocketAddr}
use antarc.Base.Words.{u32_mod}
use antarc.Packets.Message.{ConnectionId, Heartbeat, DataTransfer}
use antarc.Packets.Delivery.{Duration, ToSend}
use antarc.Packets.Packet.{Packet}
use antarc.Shared.{ap, ◌∙◌, refl, some, none, ◌≡◌, ◌<◌, ◌+◌}
use antarc.Shared.HashMap.{get, get-insert_self}
use antarc.Base.Results.{Result, ok, ◌>>=◌}
use antarc.Service.{server_service, client_service}
use antarc.Peers.{Peer, Connected, advance}
use antarc.Peers.Advance.{advance_found}
use antarc.Net.Transfers.{Sending, IsSent, sent_to}
use antarc.Server
use antarc.Server.{Server}
use antarc.Client
use antarc.Client.{Client}
use antarc.Packets.Scheduled.{ReliabilityType}

-- A chain whose first call succeeds returns what the rest returns.
pub chain {κ} :
    {A B : Type 0} (call : Result A) (value : A) (continue : A → Result B) {Q : B → Type κ}
    → call ≡ ok value
    → (answer : B) × (continue value ≡ ok answer) × Q answer
    → (answer : B) × (call >>= continue ≡ ok answer) × Q answer
chain call value continue succeeds (answer, returns, q) =
    (answer, ap (λ c. c >>= continue) succeeds ∙ returns, q)

-- A server sends to an address in any state.
abbrev pub ServerIsSettled : Server → SocketAddr → Type 0
ServerIsSettled s address = Unit {0}

pub server_data_transfer :
    (s : Server) (packet : Packet ToSend DataTransfer) (time : Duration)
    (reliability : ReliabilityType) (ttl : Duration) (peer : Peer Connected)
    → ServerIsSettled s packet.delivery.meta.address
    → get packet.message.connection_id s.connected ≡ some peer
    → peer.sequence_tracker + 1 < u32_mod
    → (s' : Server) × (Server.sent_data_transfer s packet time reliability ttl ≡ ok s')
      × IsSent server_service ServerIsSettled packet.message.connection_id
          packet.delivery.meta.address s s'
          (sent_to peer)
unfolding Server.sent_data_transfer
server_data_transfer s packet time ReliabilityType.reliable ttl peer settled found room =
    let moved = get-insert_self packet.message.connection_id (sent_to peer) s.connected in
    chain (advance packet.message.connection_id s.connected) _ _
      (advance_found packet.message.connection_id s.connected peer found room)
      (_, refl, record { connected = moved; settled = settled; scheduler = refl })
server_data_transfer s packet time ReliabilityType.unreliable ttl peer settled found room =
    let moved = get-insert_self packet.message.connection_id (sent_to peer) s.connected in
    chain (advance packet.message.connection_id s.connected) _ _
      (advance_found packet.message.connection_id s.connected peer found room)
      (_, refl, record { connected = moved; settled = settled; scheduler = refl })

pub server_heartbeat :
    (s : Server) (packet : Packet ToSend Heartbeat) (time : Duration)
    (reliability : ReliabilityType) (ttl : Duration) (peer : Peer Connected)
    → ServerIsSettled s packet.delivery.meta.address
    → get packet.message.connection_id s.connected ≡ some peer
    → peer.sequence_tracker + 1 < u32_mod
    → (s' : Server) × (Server.sent_heartbeat s packet time reliability ttl ≡ ok s')
      × IsSent server_service ServerIsSettled packet.message.connection_id
          packet.delivery.meta.address s s'
          (sent_to peer)
unfolding Server.sent_heartbeat
server_heartbeat s packet time ReliabilityType.reliable ttl peer settled found room =
    let moved = get-insert_self packet.message.connection_id (sent_to peer) s.connected in
    chain (advance packet.message.connection_id s.connected) _ _
      (advance_found packet.message.connection_id s.connected peer found room)
      (_, refl, record { connected = moved; settled = settled; scheduler = refl })
server_heartbeat s packet time ReliabilityType.unreliable ttl peer settled found room =
    let moved = get-insert_self packet.message.connection_id (sent_to peer) s.connected in
    chain (advance packet.message.connection_id s.connected) _ _
      (advance_found packet.message.connection_id s.connected peer found room)
      (_, refl, record { connected = moved; settled = settled; scheduler = refl })

-- The loops over data transfers and heartbeats send on a server.
abbrev pub server_sending : Sending server_service
server_sending = record {
  IsSettled = ServerIsSettled;
  settled_scheduler = λ s x address settled. settled;
  data_transfer_moves_on = server_data_transfer;
  heartbeat_moves_on = server_heartbeat;
}

-- On a client, no peer at the address awaits an ack: it would be connected anew.
abbrev pub ClientIsSettled : Client → SocketAddr → Type 0
ClientIsSettled c address = get address c.awaiting_connection_ack ≡ none

pub connect_awaiting_settled :
    (c : Client) (address : SocketAddr) (connection_id : ConnectionId) (time : Duration)
    → ClientIsSettled c address
    → Client.connect_awaiting c address connection_id time ≡ c
unfolding Client.connect_awaiting
connect_awaiting_settled c address connection_id time settled =
    rw (Client.connect_awaiting, settled) refl

pub client_data_transfer :
    (s : Client) (packet : Packet ToSend DataTransfer) (time : Duration)
    (reliability : ReliabilityType) (ttl : Duration) (peer : Peer Connected)
    → ClientIsSettled s packet.delivery.meta.address
    → get packet.message.connection_id s.connected ≡ some peer
    → peer.sequence_tracker + 1 < u32_mod
    → (s' : Client) × (Client.sent_data_transfer s packet time reliability ttl ≡ ok s')
      × IsSent client_service ClientIsSettled packet.message.connection_id
          packet.delivery.meta.address s s'
          (sent_to peer)
unfolding Client.sent_data_transfer
client_data_transfer s packet time ReliabilityType.reliable ttl peer settled found room =
    let moved = get-insert_self packet.message.connection_id (sent_to peer) s.connected in
    rw
      (connect_awaiting_settled s packet.delivery.meta.address packet.message.connection_id time
        settled)
      (chain (advance packet.message.connection_id s.connected) _ _
        (advance_found packet.message.connection_id s.connected peer found room)
        (_, refl, record { connected = moved; settled = settled; scheduler = refl }))
client_data_transfer s packet time ReliabilityType.unreliable ttl peer settled found room =
    let moved = get-insert_self packet.message.connection_id (sent_to peer) s.connected in
    rw
      (connect_awaiting_settled s packet.delivery.meta.address packet.message.connection_id time
        settled)
      (chain (advance packet.message.connection_id s.connected) _ _
        (advance_found packet.message.connection_id s.connected peer found room)
        (_, refl, record { connected = moved; settled = settled; scheduler = refl }))

pub client_heartbeat :
    (s : Client) (packet : Packet ToSend Heartbeat) (time : Duration)
    (reliability : ReliabilityType) (ttl : Duration) (peer : Peer Connected)
    → ClientIsSettled s packet.delivery.meta.address
    → get packet.message.connection_id s.connected ≡ some peer
    → peer.sequence_tracker + 1 < u32_mod
    → (s' : Client) × (Client.sent_heartbeat s packet time reliability ttl ≡ ok s')
      × IsSent client_service ClientIsSettled packet.message.connection_id
          packet.delivery.meta.address s s'
          (sent_to peer)
unfolding Client.sent_heartbeat
client_heartbeat s packet time ReliabilityType.reliable ttl peer settled found room =
    let moved = get-insert_self packet.message.connection_id (sent_to peer) s.connected in
    rw
      (connect_awaiting_settled s packet.delivery.meta.address packet.message.connection_id time
        settled)
      (chain (advance packet.message.connection_id s.connected) _ _
        (advance_found packet.message.connection_id s.connected peer found room)
        (_, refl, record { connected = moved; settled = settled; scheduler = refl }))
client_heartbeat s packet time ReliabilityType.unreliable ttl peer settled found room =
    let moved = get-insert_self packet.message.connection_id (sent_to peer) s.connected in
    rw
      (connect_awaiting_settled s packet.delivery.meta.address packet.message.connection_id time
        settled)
      (chain (advance packet.message.connection_id s.connected) _ _
        (advance_found packet.message.connection_id s.connected peer found room)
        (_, refl, record { connected = moved; settled = settled; scheduler = refl }))

-- They send on a client.
abbrev pub client_sending : Sending client_service
client_sending = record {
  IsSettled = ClientIsSettled;
  settled_scheduler = λ c x address settled. settled;
  data_transfer_moves_on = client_data_transfer;
  heartbeat_moves_on = client_heartbeat;
}
