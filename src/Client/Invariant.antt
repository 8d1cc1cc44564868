-- ===== src/Client/Invariant.antt =====
-- Every packet that the client of antarc-protocol/src/client/service.rs receives keeps the
-- invariant of its tables.
use antarc.Shared.{
  subst, sym, refl, ◌≡◌, ◌∙◌, true, false, none, some, inl, inr, Option-cases, Bool-cases, ◌||◌,
}
use antarc.Shared.HashMap.{get, All-get, contains_key, get-insert_self}
use antarc.Base.Results.{Reply, done, failed, panicked}
use antarc.Packets.Delivery.{Duration, Received}
use antarc.Packets.Message.{ConnectionId, ConnectionAccepted, DataTransfer, Fragment, Heartbeat}
use antarc.Packets.Packet.{Packet}
use antarc.Packets.Decode.{DecodedForClient}
use antarc.Peers
use antarc.Peers.{Peer, Connected, AwaitingConnectionAck, track}
use antarc.Client.Reassemble.{reassemble, reassemble_alike}
use antarc.Peers.Groups.{reassemble-GroupsFit, Reassembled}
use antarc.Server.Tables.{IsConnected}
use antarc.Client.{Client}
use antarc.Client.Handle.{
  handle, on_connection_accepted, on_data_transfer, on_fragment, on_heartbeat, report,
}
use antarc.Client.Tables.{Addresses, update_connected, promote}

abbrev pub ClientInv : Client → Type 0
ClientInv c = Addresses c.requesting_connection c.awaiting_connection_ack c.connected

-- A reply keeps the invariant, an error leaves the client as it was, and there is no panic.
abbrev pub Retains : {A : Type 0} → Client → Reply Client A → Type 0
Retains c (done c' a) = ClientInv c'
Retains c (failed c' e) = c' ≡ c
Retains c panicked = true ≡ false

module _ (c : Client) (time : Duration) (inv : ClientInv c) where
  connected_fit :
      (id : ConnectionId) (peer : Peer Connected)
      → get id c.connected ≡ some peer
      → IsConnected (id, peer)
  connected_fit id peer found = All-get IsConnected id peer c.connected inv.peers_fit found

  on_connection_accepted-Retains :
      (packet : Packet Received ConnectionAccepted)
      → Retains c (on_connection_accepted c packet time)
  unfolding on_connection_accepted track Peers.connected
  on_connection_accepted-Retains packet =
      let address = packet.delivery.meta.address in
      let id = packet.message.connection_id in
      elim (Bool-cases
        (contains_key address c.requesting_connection || contains_key id c.connected)) [
          | inl busy ↦ rw busy refl
          | inr free ↦ elim (Option-cases (get address c.awaiting_connection_ack)) [
            | inl missing ↦ rw (free, missing) inv
            | inr (peer, found) ↦
                let peer' : Peer Connected =
                  track (Peers.connected peer time id) packet.sequence packet.ack in
                rw (free, found) (promote inv address id peer peer' found refl refl tt)
          ]
        ]

  on_data_transfer-Retains :
      (packet : Packet Received DataTransfer) → Retains c (on_data_transfer c packet time)
  unfolding on_data_transfer track Peers.connected
  on_data_transfer-Retains packet =
      let address = packet.delivery.meta.address in
      let id = packet.message.connection_id in
      elim (Option-cases (get id c.connected)) [
        | inl unknown ↦ elim (Option-cases (get address c.awaiting_connection_ack)) [
          | inl missing ↦ rw (unknown, on_data_transfer, missing) inv
          | inr (peer, found) ↦
              let peer' : Peer Connected =
                Peers.connected (track peer packet.sequence packet.ack) time id in
              rw (unknown, on_data_transfer, found)
                (promote inv address id peer peer' found refl refl tt)
        ]
        | inr (peer, known) ↦
            let fit = connected_fit id peer known in
            rw (known, on_data_transfer)
              (update_connected inv id peer (track peer packet.sequence packet.ack) known refl
                fit.own_id fit.groups)
      ]

  on_heartbeat-Retains :
      (packet : Packet Received Heartbeat) → Retains c (on_heartbeat c packet time)
  unfolding on_heartbeat track Peers.connected
  on_heartbeat-Retains packet =
      let address = packet.delivery.meta.address in
      let id = packet.message.connection_id in
      elim (Option-cases (get id c.connected)) [
        | inl unknown ↦ elim (Option-cases (get address c.awaiting_connection_ack)) [
          | inl missing ↦ rw (unknown, on_heartbeat, missing) inv
          | inr (peer, found) ↦
              let peer' : Peer Connected =
                Peers.connected (track peer packet.sequence packet.ack) time id in
              rw (unknown, on_heartbeat, found)
                (promote inv address id peer peer' found refl refl tt)
        ]
        | inr (peer, known) ↦
            let fit = connected_fit id peer known in
            rw (known, on_heartbeat)
              (update_connected inv id peer (track peer packet.sequence packet.ack) known refl
                fit.own_id fit.groups)
      ]

  keep_fragment :
      (packet : Packet Received Fragment) (known : Peer Connected)
      → get packet.message.connection_id c.connected ≡ some known
      → Reassembled
          (track known packet.sequence packet.ack)
          (reassemble (track known packet.sequence packet.ack) packet)
      → Retains c (on_fragment c packet time)
  unfolding on_fragment report track
  keep_fragment packet known found (peer', none, e, same, own, fit) =
      let id = packet.message.connection_id in
      let now : Peer Connected = track known packet.sequence packet.ack in
      let stored = get-insert_self id now c.connected in
      let before = connected_fit id known found in
      rw (found, on_fragment, stored, e)
        (update_connected (update_connected inv id known now found refl before.own_id before.groups)
          id now peer' stored same (own ∙ before.own_id) fit)
  keep_fragment packet known found (peer', some payload, e, same, own, fit) =
      let id = packet.message.connection_id in
      let now : Peer Connected = track known packet.sequence packet.ack in
      let stored = get-insert_self id now c.connected in
      let before = connected_fit id known found in
      rw (found, on_fragment, stored, e)
        (update_connected (update_connected inv id known now found refl before.own_id before.groups)
          id now peer' stored same (own ∙ before.own_id) fit)

  on_fragment-Retains : (packet : Packet Received Fragment) → Retains c (on_fragment c packet time)
  unfolding on_fragment track
  on_fragment-Retains packet = elim (Option-cases (get packet.message.connection_id c.connected)) [
    | inl unknown ↦ rw (unknown, on_fragment) refl
    | inr (peer, known) ↦ keep_fragment packet peer known (
        subst (Reassembled (track peer packet.sequence packet.ack))
          (sym (reassemble_alike (track peer packet.sequence packet.ack) packet))
          (reassemble-GroupsFit (track peer packet.sequence packet.ack) packet
            (connected_fit packet.message.connection_id peer known).groups))
  ]

-- A client never panics on a packet that was decoded, and every such packet keeps the invariant of
-- its tables, but for an error, which leaves the whole client as it was.
pub handle-Retains :
    (c : Client) (decoded : DecodedForClient) (time : Duration)
    → ClientInv c
    → Retains c (handle c decoded time)
unfolding handle
handle-Retains c (DecodedForClient.connection_accepted packet) time inv =
    on_connection_accepted-Retains c time inv packet
handle-Retains c (DecodedForClient.data_transfer packet) time inv =
    on_data_transfer-Retains c time inv packet
handle-Retains c (DecodedForClient.fragment packet) time inv = on_fragment-Retains c time inv packet
handle-Retains c (DecodedForClient.heartbeat packet) time inv =
    on_heartbeat-Retains c time inv packet
