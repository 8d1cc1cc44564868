-- ===== src/Server/Handle.antt =====
-- `Server::on_received` of antarc-protocol/src/server/service.rs, a function for each kind of
-- packet.
use antarc.Shared.{
  false, ℕ, ◌+◌, Bool, true, false, List, [], ◌∷◌, Option, none, some, ltb, ◌==◌, if◌then◌else◌,
}
use antarc.Shared.HashMap.{HashMap, get, insert, remove}
use antarc.Base.Errors.{SocketAddr, no_peers_connected}
use antarc.Base.Results.{Result, ok, panic, Reply, done, failed, unwrap, lift, and_then}
use antarc.Base.Words.{Build, checked_sum, u32_mod, u16_mod}
use antarc.Packets.Delivery.{Duration, PacketId, Received}
use antarc.Packets.Message.{
  ConnectionId, Sequence, Ack, ConnectionRequest, DataTransfer, Fragment, Heartbeat,
}
use antarc.Packets.Packet.{Packet, RawPacket}
use antarc.Packets.Decode.{DecodedForServer}
use antarc.Packets.Raw.{decode_for_server}
use antarc.Peers
use antarc.Peers.{Peer, RequestingConnection, new_peer, track}
use antarc.Peers.Reassemble.{reassemble}
use antarc.Events.{ProtocolEvent}
use antarc.Scheduler.{push}
use antarc.Server.{Server, unexpected_connection, accept_connection}

-- `iter_mut().find(|(_, peer)| peer.address == address)`
unfoldable pub find_peer : {C : Type 0} → SocketAddr → HashMap (Peer C) → Option (ℕ × Peer C)
find_peer address [] = none
find_peer address ((connection_id, peer) ∷ peers) =
    if peer.address == address then some (connection_id, peer) else find_peer address peers

-- `ConnectionId::new(connection_id.get() + 1).unwrap()`: at the last u16 the sum overflows, or
-- wraps to zero, which no `ConnectionId` is.
unfoldable pub next_connection_id : ConnectionId → Result ConnectionId
next_connection_id connection_id =
    if ltb (connection_id + 1) u16_mod then ok (connection_id + 1) else panic

-- The connection id of the requesting peer, which is new or has asked before.
unfoldable pub request_id :
    Build → Server → Packet Received ConnectionRequest → Duration → Reply Server ConnectionId
unfolding find_peer next_connection_id new_peer checked_sum
request_id b s packet time = elim (find_peer packet.delivery.meta.address s.requesting_connection) [
  | some (connection_id, peer) ↦
      lift s (checked_sum b u32_mod peer.connection.attempts 1) (λ attempts.
        done
          (record s {
            requesting_connection =
                insert connection_id
                  (record peer { connection = record peer.connection { attempts = attempts } })
                  s.requesting_connection;
          })
          connection_id)
  | none ↦ lift s (next_connection_id s.connection_id_tracker) (λ next.
      done
        (record s {
          requesting_connection =
              insert s.connection_id_tracker
                (new_peer time packet.delivery.meta.address packet.sequence)
                s.requesting_connection;
          connection_id_tracker = next;
        })
        s.connection_id_tracker)
]

unfoldable pub on_connection_request :
    Build → Server → Packet Received ConnectionRequest → PacketId → Duration → Reply Server Bool
unfolding unexpected_connection request_id accept_connection
on_connection_request b s packet packet_id time =
    lift s (unexpected_connection s packet.delivery.meta.address) (λ _.
      and_then (request_id b s packet time)
        (λ s' connection_id. done (accept_connection s' connection_id packet_id time) true))

-- The test at the head of the three other branches: a connected peer records the packet, a
-- peer that awaited an ack does so too and becomes connected, and there is no third.
unfoldable pub receive_from_peer : Server → ConnectionId → Sequence → Ack → Duration → Option Server
unfolding track Peers.connected
receive_from_peer s connection_id sequence ack time = elim (get connection_id s.connected) [
  | some peer ↦
      some (record s { connected = insert connection_id (track peer sequence ack) s.connected })
  | none ↦ elim (get connection_id s.awaiting_connection_ack) [
    | some peer ↦ some (record s {
      awaiting_connection_ack = remove connection_id s.awaiting_connection_ack;
      connected =
          insert connection_id (Peers.connected (track peer sequence ack) time connection_id)
            s.connected;
    })
    | none ↦ none
  ]
]

unfoldable pub on_data_transfer :
    Server → Packet Received DataTransfer → Duration → Reply Server Bool
unfolding receive_from_peer
on_data_transfer s packet time =
    elim (receive_from_peer s packet.message.connection_id packet.sequence packet.ack time) [
      | none ↦ failed s no_peers_connected
      | some s' ↦
          done
            (record s' {
              api =
                  push s'.api (
                    ProtocolEvent.data_transfer packet.message.connection_id
                      packet.message.payload);
            })
            false
    ]

-- Reporting a payload, if there is one.
unfoldable pub report : Server → ConnectionId → Option (List ℕ) → Server
report s connection_id none = s
report s connection_id (some payload) = record s {
  api = push s.api (ProtocolEvent.data_transfer connection_id payload);
}

unfoldable pub on_fragment : Server → Packet Received Fragment → Duration → Reply Server Bool
unfolding receive_from_peer reassemble report
on_fragment s packet time =
    elim (receive_from_peer s packet.message.connection_id packet.sequence packet.ack time) [
      | none ↦ failed s no_peers_connected
      | some s' ↦ lift s' (unwrap (get packet.message.connection_id s'.connected)) (λ peer.
          lift s' (reassemble peer packet) (λ outcome.
            done
              (report
                (record s' {
                  connected = insert packet.message.connection_id outcome.0 s'.connected;
                })
                packet.message.connection_id outcome.1)
              false))
    ]

unfoldable pub on_heartbeat : Server → Packet Received Heartbeat → Duration → Reply Server Bool
unfolding receive_from_peer
on_heartbeat s packet time =
    elim (receive_from_peer s packet.message.connection_id packet.sequence packet.ack time) [
      | none ↦ done s false
      | some s' ↦ done s' false
    ]

unfoldable pub handle : Build → Server → DecodedForServer → PacketId → Duration → Reply Server Bool
unfolding on_connection_request on_data_transfer on_fragment on_heartbeat
handle b s (DecodedForServer.connection_request packet) packet_id time =
    on_connection_request b s packet packet_id time
handle b s (DecodedForServer.data_transfer packet) packet_id time = on_data_transfer s packet time
handle b s (DecodedForServer.fragment packet) packet_id time = on_fragment s packet time
handle b s (DecodedForServer.heartbeat packet) packet_id time = on_heartbeat s packet time

-- `Server::on_received`
unfoldable pub on_received : Build → Server → RawPacket → PacketId → Duration → Reply Server Bool
unfolding decode_for_server handle
on_received b s raw packet_id time =
    lift s (decode_for_server b raw time) (λ decoded. handle b s decoded packet_id time)
