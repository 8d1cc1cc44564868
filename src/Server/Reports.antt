-- ===== src/Server/Reports.antt =====
-- What the server of antarc-protocol/src/server/service.rs reports to its user of a data transfer.
use antarc.Scheduler.{push}
use antarc.Shared.{◌≢◌, ◌≡◌, ◌⊎◌, refl, inl, inr, Option-cases, none, some, false, ◌++◌, [], ◌∷◌}
use antarc.Shared.HashMap.{insert, remove, get, get-insert_self}
use antarc.Base.Errors.{no_peers_connected}
use antarc.Base.Results.{done, failed}
use antarc.Packets.Delivery.{Duration, Received}
use antarc.Packets.Message.{ConnectionId, DataTransfer}
use antarc.Packets.Packet.{Packet}
use antarc.Peers
use antarc.Peers.{Peer, Connected, track}
use antarc.Events.{ProtocolEvent}
use antarc.Server.{Server}
use antarc.Server.Handle.{on_data_transfer, receive_from_peer}
use antarc.Server.Tables.{address_of}

-- A connected peer has an address in the tables.
pub known_connected :
    (s : Server) (id : ConnectionId) (peer : Peer Connected)
    → get id s.connected ≡ some peer
    → address_of s.awaiting_connection_ack s.connected id ≢ none
known_connected s id peer found unknown = elim (Option-cases (get id s.awaiting_connection_ack)) [
  | inl e ↦
      let address : address_of s.awaiting_connection_ack s.connected id ≡ some peer.address =
        rw (address_of, e, found) refl in
      cc
  | inr (other, e) ↦
      let address : address_of s.awaiting_connection_ack s.connected id ≡ some other.address =
        rw (address_of, e) refl in
      cc
]

-- A data transfer from a peer that is connected or awaits an ack is reported, behind the events
-- that were there; the peer is connected then and has the sequence and the ack of
-- the packet. From any other peer it is refused, and the server is as it was.
pub on_data_transfer_reports :
    (s : Server) (packet : Packet Received DataTransfer) (time : Duration)
    → let id = packet.message.connection_id in
      ((address_of s.awaiting_connection_ack s.connected id ≡ none)
        × (on_data_transfer s packet time ≡ failed s no_peers_connected))
      ⊎ ((address_of s.awaiting_connection_ack s.connected id ≢ none)
          × (s' : Server) × (peer : Peer Connected) × (on_data_transfer s packet time
              ≡ done s' false)
          × (s'.api ≡ s.api ++ (ProtocolEvent.data_transfer id packet.message.payload ∷ []))
          × (get id s'.connected ≡ some peer)
          × ((peer.remote_ack_tracker ≡ packet.sequence) × (peer.local_ack_tracker ≡ packet.ack)))
unfolding on_data_transfer receive_from_peer track Peers.connected
on_data_transfer_reports s packet time =
    let id = packet.message.connection_id in
    elim (Option-cases (get id s.connected)) [
      | inl e ↦ elim (Option-cases (get id s.awaiting_connection_ack)) [
        | inl e' ↦
            inl (rw (address_of, e', e) refl, rw (on_data_transfer, receive_from_peer, e, e') refl)
        | inr (peer, e') ↦
            let now : Peer Connected =
              Peers.connected (track peer packet.sequence packet.ack) time id in
            let known : Server = record s {
              awaiting_connection_ack = remove id s.awaiting_connection_ack;
              connected = insert id now s.connected;
              api = push s.api (ProtocolEvent.data_transfer id packet.message.payload);
            } in
            inr (
              (λ unknown.
                  let is_known : address_of s.awaiting_connection_ack s.connected id
                      ≡ some peer.address =
                    rw (address_of, e') refl in
                  cc),
              known,
              now,
              rw (on_data_transfer, receive_from_peer, e, e') refl,
              refl,
              get-insert_self id now s.connected,
              (refl, refl),
            )
      ]
      | inr (peer, e) ↦
          let now : Peer Connected = track peer packet.sequence packet.ack in
          let known : Server = record s {
            connected = insert id now s.connected;
            api = push s.api (ProtocolEvent.data_transfer id packet.message.payload);
          } in
          inr (
            known_connected s id peer e,
            known,
            now,
            rw (on_data_transfer, receive_from_peer, e) refl,
            refl,
            get-insert_self id now s.connected,
            (refl, refl),
          )
    ]
