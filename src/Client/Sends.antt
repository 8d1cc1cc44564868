-- ===== src/Client/Sends.antt =====
-- The `sent_` methods of antarc-protocol/src/client/service.rs keep the invariant of the tables.
use antarc.Shared.{
  ap, subst, sym, ◌+◌, ◌≡◌, refl, Bool, false, true, none, some, inl, inr, Option-cases, Option,
  if◌then◌else◌, ◌==◌,
}
use antarc.Shared.HashMap.{HashMap, get, All-get}
use antarc.Base.Errors.{SocketAddr}
use antarc.Base.Results.{ok-injective, >>=-eq-ok, ok, unwrap}
use antarc.Base.Words.{checked_succ, Build, checked_difference}
use antarc.Packets.Delivery.{Duration, ToSend}
use antarc.Packets.Message.{ConnectionId, ConnectionRequest, DataTransfer, Fragment, Heartbeat}
use antarc.Packets.Packet.{Packet}
use antarc.Packets.Scheduled.{ReliabilityType}
use antarc.Peers
use antarc.Peers.{
  Peer, Connected, RequestingConnection, advance, next_sequence, new_peer, await_connection_ack,
}
use antarc.Peers.Advance.{advance_ok}
use antarc.Server.Tables.{IsConnected}
use antarc.Client.{
  Client, connect_awaiting, sent_data_transfer, sent_fragment, sent_heartbeat,
  sent_connection_request,
}
use antarc.Client.Tables.{update_connected, promote, await}
use antarc.Client.Invariant.{ClientInv}

connect_awaiting-ClientInv :
    (c : Client) (address : SocketAddr) (id : ConnectionId) (time : Duration)
    → ClientInv c
    → ClientInv (connect_awaiting c address id time)
unfolding connect_awaiting Peers.connected
connect_awaiting-ClientInv c address id time inv =
    elim (Option-cases (get address c.awaiting_connection_ack)) [
      | inl missing ↦ rw (missing, connect_awaiting) inv
      | inr (peer, found) ↦
          rw (found, connect_awaiting)
            (promote inv address id peer (Peers.connected peer time id) found refl refl tt)
    ]

advance_connected-ClientInv :
    (c : Client) (id : ConnectionId) (connected : HashMap (Peer Connected))
    → ClientInv c
    → advance id c.connected ≡ ok connected
    → ClientInv (record c { connected = connected })
advance_connected-ClientInv c id connected inv h = elim (advance_ok id c.connected connected h) [
  | inl same ↦ rw same inv
  | inr (peer, found, e) ↦
      let fit : IsConnected (id, peer) =
        All-get IsConnected id peer c.connected inv.peers_fit found in
      rw e (
        update_connected inv id peer (record peer { sequence_tracker = peer.sequence_tracker + 1 })
          found refl fit.own_id fit.groups)
]

unwrap-eq-ok : {A : Type 0} (o : Option A) {a : A} → unwrap o ≡ ok a → o ≡ some a
unwrap-eq-ok none h = cc
unwrap-eq-ok (some b) h = cc

next_sequence_address :
    (peer peer' : Peer RequestingConnection)
    → next_sequence peer ≡ ok peer'
    → peer'.address ≡ peer.address
unfolding next_sequence
next_sequence_address peer peer' h =
    let (sequence, e, same) = >>=-eq-ok (unwrap (checked_succ peer.sequence_tracker)) _ h in
    sym (ap (λ (p : Peer RequestingConnection). p.address) (ok-injective same))

module _ (c : Client) (time ttl : Duration) (inv : ClientInv c) where
  sent_data-advance :
      (address : SocketAddr) (id : ConnectionId) (connected : HashMap (Peer Connected))
      → advance id (connect_awaiting c address id time).connected ≡ ok connected
      → ClientInv (record (connect_awaiting c address id time) { connected = connected })
  sent_data-advance address id connected h =
      advance_connected-ClientInv (connect_awaiting c address id time) id connected
        (connect_awaiting-ClientInv c address id time inv) h

  pub sent_data_transfer-ClientInv :
      (packet : Packet ToSend DataTransfer) (reliability : ReliabilityType) (c' : Client)
      → sent_data_transfer c packet time reliability ttl ≡ ok c'
      → ClientInv c'
  unfolding sent_data_transfer
  sent_data_transfer-ClientInv packet ReliabilityType.reliable c' h =
      let (connected, found, e) =
        >>=-eq-ok
          (advance packet.message.connection_id
            (connect_awaiting c packet.delivery.meta.address packet.message.connection_id
              time).connected)
          _ h in
      subst ClientInv (ok-injective e) (
        sent_data-advance packet.delivery.meta.address packet.message.connection_id connected found)
  sent_data_transfer-ClientInv packet ReliabilityType.unreliable c' h =
      let (connected, found, e) =
        >>=-eq-ok
          (advance packet.message.connection_id
            (connect_awaiting c packet.delivery.meta.address packet.message.connection_id
              time).connected)
          _ h in
      subst ClientInv (ok-injective e) (
        sent_data-advance packet.delivery.meta.address packet.message.connection_id connected found)

  pub sent_heartbeat-ClientInv :
      (packet : Packet ToSend Heartbeat) (reliability : ReliabilityType) (c' : Client)
      → sent_heartbeat c packet time reliability ttl ≡ ok c'
      → ClientInv c'
  unfolding sent_heartbeat
  sent_heartbeat-ClientInv packet ReliabilityType.reliable c' h =
      let (connected, found, e) =
        >>=-eq-ok
          (advance packet.message.connection_id
            (connect_awaiting c packet.delivery.meta.address packet.message.connection_id
              time).connected)
          _ h in
      subst ClientInv (ok-injective e) (
        sent_data-advance packet.delivery.meta.address packet.message.connection_id connected found)
  sent_heartbeat-ClientInv packet ReliabilityType.unreliable c' h =
      let (connected, found, e) =
        >>=-eq-ok
          (advance packet.message.connection_id
            (connect_awaiting c packet.delivery.meta.address packet.message.connection_id
              time).connected)
          _ h in
      subst ClientInv (ok-injective e) (
        sent_data-advance packet.delivery.meta.address packet.message.connection_id connected found)

  advance_if-ClientInv :
      (test : Bool) (address : SocketAddr) (id : ConnectionId)
      (connected : HashMap (Peer Connected))
      → (if test
          then advance id (connect_awaiting c address id time).connected
          else ok (connect_awaiting c address id time).connected)
        ≡ ok connected
      → ClientInv (record (connect_awaiting c address id time) { connected = connected })
  advance_if-ClientInv true address id connected h = sent_data-advance address id connected h
  advance_if-ClientInv false address id connected h =
      subst
        (λ (m : HashMap (Peer Connected)).
          ClientInv (record (connect_awaiting c address id time) { connected = m }))
        (ok-injective h) (connect_awaiting-ClientInv c address id time inv)

  pub sent_fragment-ClientInv :
      (b : Build) (packet : Packet ToSend Fragment) (reliability : ReliabilityType) (c' : Client)
      → sent_fragment b c packet time reliability ttl ≡ ok c'
      → ClientInv c'
  unfolding sent_fragment
  sent_fragment-ClientInv b packet ReliabilityType.reliable c' h =
      let (last_index, e0, h1) = >>=-eq-ok (checked_difference b 256 packet.message.total 1) _ h in
      let (connected, found, e) =
        >>=-eq-ok
          (if packet.message.index == last_index
            then advance packet.message.connection_id
                (connect_awaiting c packet.delivery.meta.address packet.message.connection_id
                  time).connected
            else ok
                (connect_awaiting c packet.delivery.meta.address packet.message.connection_id
                  time).connected)
          _ h1 in
      subst ClientInv (ok-injective e) (
        advance_if-ClientInv _ packet.delivery.meta.address packet.message.connection_id connected
          found)
  sent_fragment-ClientInv b packet ReliabilityType.unreliable c' h =
      let (last_index, e0, h1) = >>=-eq-ok (checked_difference b 256 packet.message.total 1) _ h in
      let (connected, found, e) =
        >>=-eq-ok
          (if packet.message.index == last_index
            then advance packet.message.connection_id
                (connect_awaiting c packet.delivery.meta.address packet.message.connection_id
                  time).connected
            else ok
                (connect_awaiting c packet.delivery.meta.address packet.message.connection_id
                  time).connected)
          _ h1 in
      subst ClientInv (ok-injective e) (
        advance_if-ClientInv _ packet.delivery.meta.address packet.message.connection_id connected
          found)

  pub sent_connection_request-ClientInv :
      (packet : Packet ToSend ConnectionRequest) (c' : Client)
      → sent_connection_request c packet time ttl ≡ ok c'
      → ClientInv c'
  unfolding sent_connection_request await_connection_ack
  sent_connection_request-ClientInv packet c' h =
      let (peer, found, h1) =
        >>=-eq-ok (unwrap (get packet.delivery.meta.address c.requesting_connection)) _ h in
      let (peer', moved, e) = >>=-eq-ok (next_sequence peer) _ h1 in
      subst ClientInv (ok-injective e) (
        await inv packet.delivery.meta.address peer (await_connection_ack peer' time)
          (unwrap-eq-ok (get packet.delivery.meta.address c.requesting_connection) found)
          (next_sequence_address peer peer' moved))
