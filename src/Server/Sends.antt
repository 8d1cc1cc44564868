-- ===== src/Server/Sends.antt =====
-- The `sent_` methods of antarc-protocol/src/server/service.rs keep the invariant of the tables.
use antarc.Peers.Advance.{advance_ok}
use antarc.Shared.{subst, if◌then◌else◌, ◌==◌, ◌+◌, ◌≡◌, refl, Bool, false, true, inl, inr}
use antarc.Shared.HashMap.{All-get}
use antarc.Base.Results.{ok-injective, >>=-eq-ok, ok}
use antarc.Base.Words.{checked_difference, Build}
use antarc.Packets.Delivery.{Duration, ToSend}
use antarc.Packets.Message.{ConnectionId, ConnectionAccepted, DataTransfer, Fragment, Heartbeat}
use antarc.Packets.Packet.{Packet}
use antarc.Packets.Scheduled.{ReliabilityType}
use antarc.Peers.{advance}
use antarc.Server.{
  Server, sent_data_transfer, sent_fragment, sent_heartbeat, sent_connection_accepted,
}
use antarc.Server.Tables.{IsConnected, update_connected, update_awaiting, Awaiting, Connections}
use antarc.Server.Requests.{Inv}

advance_connected-Inv :
    (s : Server) (id : ConnectionId) (connected : Connections)
    → Inv s
    → advance id s.connected ≡ ok connected
    → Inv (record s { connected = connected })
advance_connected-Inv s id connected inv h = elim (advance_ok id s.connected connected h) [
  | inl same ↦ rw same inv
  | inr (peer, found, e) ↦
      let fit : IsConnected (id, peer) =
        All-get IsConnected id peer s.connected inv.peers_fit found in
      rw e (
        update_connected inv id peer (record peer { sequence_tracker = peer.sequence_tracker + 1 })
          found refl fit.own_id fit.groups)
]

advance_awaiting-Inv :
    (s : Server) (id : ConnectionId) (awaiting : Awaiting)
    → Inv s
    → advance id s.awaiting_connection_ack ≡ ok awaiting
    → Inv (record s { awaiting_connection_ack = awaiting })
advance_awaiting-Inv s id awaiting inv h =
    elim (advance_ok id s.awaiting_connection_ack awaiting h) [
      | inl same ↦ rw same inv
      | inr (peer, found, e) ↦ rw e (update_awaiting inv id peer _ found refl)
    ]

module _ (s : Server) (time ttl : Duration) (inv : Inv s) where
  pub sent_data_transfer-Inv :
      (packet : Packet ToSend DataTransfer) (reliability : ReliabilityType) (s' : Server)
      → sent_data_transfer s packet time reliability ttl ≡ ok s'
      → Inv s'
  unfolding sent_data_transfer
  sent_data_transfer-Inv packet ReliabilityType.reliable s' h =
      let (connected, found, e) =
        >>=-eq-ok (advance packet.message.connection_id s.connected) _ h in
      subst Inv (ok-injective e)
        (advance_connected-Inv s packet.message.connection_id connected inv found)
  sent_data_transfer-Inv packet ReliabilityType.unreliable s' h =
      let (connected, found, e) =
        >>=-eq-ok (advance packet.message.connection_id s.connected) _ h in
      subst Inv (ok-injective e)
        (advance_connected-Inv s packet.message.connection_id connected inv found)

  pub sent_heartbeat-Inv :
      (packet : Packet ToSend Heartbeat) (reliability : ReliabilityType) (s' : Server)
      → sent_heartbeat s packet time reliability ttl ≡ ok s'
      → Inv s'
  unfolding sent_heartbeat
  sent_heartbeat-Inv packet ReliabilityType.reliable s' h =
      let (connected, found, e) =
        >>=-eq-ok (advance packet.message.connection_id s.connected) _ h in
      subst Inv (ok-injective e)
        (advance_connected-Inv s packet.message.connection_id connected inv found)
  sent_heartbeat-Inv packet ReliabilityType.unreliable s' h =
      let (connected, found, e) =
        >>=-eq-ok (advance packet.message.connection_id s.connected) _ h in
      subst Inv (ok-injective e)
        (advance_connected-Inv s packet.message.connection_id connected inv found)

  advance_if-Inv :
      (test : Bool) (id : ConnectionId) (connected : Connections)
      → (if test then advance id s.connected else ok s.connected) ≡ ok connected
      → Inv (record s { connected = connected })
  advance_if-Inv true id connected h = advance_connected-Inv s id connected inv h
  advance_if-Inv false id connected h =
      subst (λ (m : Connections). Inv (record s { connected = m })) (ok-injective h) inv

  pub sent_fragment-Inv :
      (b : Build) (packet : Packet ToSend Fragment) (reliability : ReliabilityType) (s' : Server)
      → sent_fragment b s packet time reliability ttl ≡ ok s'
      → Inv s'
  unfolding sent_fragment
  sent_fragment-Inv b packet ReliabilityType.reliable s' h =
      let (last_index, e0, h1) = >>=-eq-ok (checked_difference b 256 packet.message.total 1) _ h in
      let (connected, found, e) =
        >>=-eq-ok
          (if packet.message.index == last_index
            then advance packet.message.connection_id s.connected
            else ok s.connected)
          _ h1 in
      subst Inv (ok-injective e) (advance_if-Inv _ packet.message.connection_id connected found)
  sent_fragment-Inv b packet ReliabilityType.unreliable s' h =
      let (last_index, e0, h1) = >>=-eq-ok (checked_difference b 256 packet.message.total 1) _ h in
      let (connected, found, e) =
        >>=-eq-ok
          (if packet.message.index == last_index
            then advance packet.message.connection_id s.connected
            else ok s.connected)
          _ h1 in
      subst Inv (ok-injective e) (advance_if-Inv _ packet.message.connection_id connected found)

  pub sent_connection_accepted-Inv :
      (packet : Packet ToSend ConnectionAccepted) (s' : Server)
      → sent_connection_accepted s packet time ttl ≡ ok s'
      → Inv s'
  unfolding sent_connection_accepted
  sent_connection_accepted-Inv packet s' h =
      let (awaiting, found, e) =
        >>=-eq-ok (advance packet.message.connection_id s.awaiting_connection_ack) _ h in
      subst Inv (ok-injective e)
        (advance_awaiting-Inv s packet.message.connection_id awaiting inv found)
