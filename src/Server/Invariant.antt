-- ===== src/Server/Invariant.antt =====
-- The other packets that the server of antarc-protocol/src/server/service.rs receives: every
-- handler keeps the invariant of the tables.
use antarc.Packets.Decode.{DecodedForServer}
use antarc.Peers.Reassemble.{reassemble}
use antarc.Peers.Groups.{reassemble-GroupsFit, Reassembled}
use antarc.Peers
use antarc.Server.Handle.{
  handle, report, on_data_transfer, on_heartbeat, on_fragment, receive_from_peer,
}
use antarc.Shared.{◌⊎◌, refl, ◌∙◌, none, ◌≡◌, some, inl, inr, Option-cases}
use antarc.Shared.HashMap.{All-get, get-insert_self, get}
use antarc.Base.Words.{Build}
use antarc.Packets.Message.{DataTransfer, Heartbeat, Fragment, Ack, Sequence, ConnectionId}
use antarc.Peers.{new_peer, await_connection_ack, track, Connected, Peer}
use antarc.Server.{PacketId, Duration, Received, Packet, Option, Server}
use antarc.Server.Tables.{IsConnected, update_connected, promote}
use antarc.Server.Requests.{Inv, Keeps, on_connection_request-Keeps}

-- What the head of the three other handlers answers: no such peer, or a server that keeps the
-- invariant and knows the peer as connected.
abbrev pub Receives : Server → ConnectionId → Option Server → Type 0
Receives s id none = (get id s.connected ≡ none) × (get id s.awaiting_connection_ack ≡ none)
Receives s id (some s') = Inv s' × ((peer : Peer Connected) × (get id s'.connected ≡ some peer))

receive_from_peer-Receives :
    (s : Server) (id : ConnectionId) (sequence : Sequence) (ack : Ack) (time : Duration)
    → Inv s
    → Receives s id (receive_from_peer s id sequence ack time)
unfolding receive_from_peer track
receive_from_peer-Receives s id sequence ack time inv = elim (Option-cases (get id s.connected)) [
  | inl e ↦ elim (Option-cases (get id s.awaiting_connection_ack)) [
    | inl e' ↦ rw (e, receive_from_peer, e') (e, e')
    | inr (peer, e') ↦
        let peer' : Peer Connected = Peers.connected (track peer sequence ack) time id in
        rw (e, receive_from_peer, e')
          (
            unfold Peers.connected in promote inv id peer peer' e' refl refl tt,
            (peer', get-insert_self id peer' s.connected),
          )
  ]
  | inr (peer, e) ↦
      let peer' : Peer Connected = track peer sequence ack in
      let fit : IsConnected (id, peer) = All-get IsConnected id peer s.connected inv.peers_fit e in
      rw (e, receive_from_peer)
        (
          update_connected inv id peer peer' e refl fit.own_id fit.groups,
          (peer', get-insert_self id peer' s.connected),
        )
]

Receives-cases :
    (s : Server) (id : ConnectionId) (answer : Option Server)
    → Receives s id answer
    → (answer ≡ none)
      ⊎ ((s' : Server) × (answer ≡ some s')
          × Inv s'
          × ((peer : Peer Connected) × (get id s'.connected ≡ some peer)))
Receives-cases s id none h = inl refl
Receives-cases s id (some s') h = inr (s', refl, h.0, h.1)

module _ (s : Server) (time : Duration) (inv : Inv s) where
  on_data_transfer-Keeps :
      (packet : Packet Received DataTransfer) → Keeps s (on_data_transfer s packet time)
  unfolding on_data_transfer
  on_data_transfer-Keeps packet =
      elim (Receives-cases s packet.message.connection_id _ (
        receive_from_peer-Receives s packet.message.connection_id packet.sequence packet.ack time
          inv)) [
            | inl e ↦ rw (e, on_data_transfer) refl
            | inr (s', e, inv', _) ↦ rw (e, on_data_transfer) inv'
          ]

  on_heartbeat-Keeps : (packet : Packet Received Heartbeat) → Keeps s (on_heartbeat s packet time)
  unfolding on_heartbeat
  on_heartbeat-Keeps packet =
      elim (Receives-cases s packet.message.connection_id _ (
        receive_from_peer-Receives s packet.message.connection_id packet.sequence packet.ack time
          inv)) [
            | inl e ↦ rw (e, on_heartbeat) inv
            | inr (s', e, inv', _) ↦ rw (e, on_heartbeat) inv'
          ]

  keep_fragment :
      (packet : Packet Received Fragment) (s' : Server)
      → Inv s'
      → (peer : Peer Connected) → get packet.message.connection_id s'.connected ≡ some peer
      → receive_from_peer s packet.message.connection_id packet.sequence packet.ack time ≡ some s'
      → Reassembled peer (reassemble peer packet)
      → Keeps s (on_fragment s packet time)
  unfolding on_fragment report
  keep_fragment packet s' inv' peer known e (peer', none, found, same, own, fit) =
      rw (e, on_fragment, known, found)
        (update_connected inv' packet.message.connection_id peer peer' known same
          (own
            ∙ (All-get IsConnected packet.message.connection_id peer s'.connected inv'.peers_fit
                known).own_id)
          fit)
  keep_fragment packet s' inv' peer known e (peer', some payload, found, same, own, fit) =
      rw (e, on_fragment, known, found)
        (update_connected inv' packet.message.connection_id peer peer' known same
          (own
            ∙ (All-get IsConnected packet.message.connection_id peer s'.connected inv'.peers_fit
                known).own_id)
          fit)

  on_fragment-Keeps : (packet : Packet Received Fragment) → Keeps s (on_fragment s packet time)
  unfolding on_fragment
  on_fragment-Keeps packet =
      elim (Receives-cases s packet.message.connection_id _ (
        receive_from_peer-Receives s packet.message.connection_id packet.sequence packet.ack time
          inv)) [
            | inl e ↦ rw (e, on_fragment) refl
            | inr (s', e, inv', (peer, known)) ↦ keep_fragment packet s' inv' peer known e (
                reassemble-GroupsFit peer packet
                  (All-get IsConnected packet.message.connection_id peer s'.connected inv'.peers_fit
                    known).groups)
          ]

-- Every packet that was decoded keeps the invariant of the tables, except that a reply with an
-- error leaves the whole server as it was; the handler panics only where the tracker is the last
-- u16.
pub handle-Keeps :
    (b : Build) (s : Server) (decoded : DecodedForServer) (packet_id : PacketId) (time : Duration)
    → Inv s
    → Keeps s (handle b s decoded packet_id time)
unfolding handle
handle-Keeps b s (DecodedForServer.connection_request packet) packet_id time inv =
    on_connection_request-Keeps b s packet packet_id time inv
handle-Keeps b s (DecodedForServer.data_transfer packet) packet_id time inv =
    on_data_transfer-Keeps s time inv packet
handle-Keeps b s (DecodedForServer.fragment packet) packet_id time inv =
    on_fragment-Keeps s time inv packet
handle-Keeps b s (DecodedForServer.heartbeat packet) packet_id time inv =
    on_heartbeat-Keeps s time inv packet
