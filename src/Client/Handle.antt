-- ===== src/Client/Handle.antt =====
-- `Client::on_received` of antarc-protocol/src/client/service.rs, a function for each kind of
-- packet, and `Protocol::<Client>::poll` of antarc-protocol/src/client.rs.
use antarc.Shared.{ℕ, List, [], Option, none, some, ◌||◌, if◌then◌else◌}
use antarc.Shared.HashMap.{get, insert, remove, contains_key}
use antarc.Base.Errors.{SocketAddr, no_peers_connected, peer_in_another_state}
use antarc.Base.Results.{ok, Result, ◌>>=◌, Reply, done, failed, unwrap, lift}
use antarc.Base.Words.{Build}
use antarc.Packets.Delivery.{Duration, Received}
use antarc.Packets.Message.{
  ConnectionId, Sequence, Ack, ConnectionAccepted, DataTransfer, Fragment, Heartbeat,
}
use antarc.Packets.Packet.{Packet, RawPacket}
use antarc.Packets.Decode.{DecodedForClient}
use antarc.Packets.Raw.{decode_for_client}
use antarc.Peers
use antarc.Peers.{Peer, AwaitingConnectionAck, Connected, track}
use antarc.Client.Reassemble.{reassemble}
use antarc.Events.{ProtocolEvent, ClientEvent}
use antarc.Reliability.{poll_handler}
use antarc.Scheduler.{push}
use antarc.Client.{Client, client_reliability}

-- A peer that awaited an ack at `address` becomes connected, with the packet recorded.
abbrev pub connect_tracked :
    Client
    → SocketAddr
    → Peer AwaitingConnectionAck
    → ConnectionId
    → Sequence
    → Ack
    → Duration
    → Client
connect_tracked c address peer connection_id sequence ack time = record c {
  awaiting_connection_ack = remove address c.awaiting_connection_ack;
  connected =
      insert connection_id (Peers.connected (track peer sequence ack) time connection_id)
        c.connected;
}

unfoldable pub on_connection_accepted :
    Client → Packet Received ConnectionAccepted → Duration → Reply Client (Unit {0})
unfolding track Peers.connected
on_connection_accepted c packet time =
    let address = packet.delivery.meta.address in
    let connection_id = packet.message.connection_id in
    if contains_key address c.requesting_connection || contains_key connection_id c.connected
    then failed c (peer_in_another_state address)
    else elim (get address c.awaiting_connection_ack) [
      | some peer ↦
          done
            (record c {
              awaiting_connection_ack = remove address c.awaiting_connection_ack;
              connected =
                  insert connection_id
                    (track (Peers.connected peer time connection_id) packet.sequence packet.ack)
                    c.connected;
            })
            tt
      | none ↦ done c tt
    ]

unfoldable pub on_data_transfer :
    Client → Packet Received DataTransfer → Duration → Reply Client (Unit {0})
unfolding track Peers.connected
on_data_transfer c packet time =
    let address = packet.delivery.meta.address in
    let connection_id = packet.message.connection_id in
    elim (get connection_id c.connected) [
      | some peer ↦
          done
            (record c {
              connected = insert connection_id (track peer packet.sequence packet.ack) c.connected;
            })
            tt
      | none ↦ elim (get address c.awaiting_connection_ack) [
        | some peer ↦
            let c' = connect_tracked c address peer connection_id packet.sequence packet.ack time in
            done
              (record c' {
                api =
                    push c'.api (ProtocolEvent.data_transfer connection_id packet.message.payload);
              })
              tt
        | none ↦ done c tt
      ]
    ]

-- Reporting a payload, if there is one.
unfoldable pub report : Client → ConnectionId → Option (List ℕ) → Client
report c connection_id none = c
report c connection_id (some payload) = record c {
  api = push c.api (ProtocolEvent.data_transfer connection_id payload);
}

unfoldable pub on_fragment : Client → Packet Received Fragment → Duration → Reply Client (Unit {0})
unfolding track reassemble report
on_fragment c packet time =
    let connection_id = packet.message.connection_id in
    elim (get connection_id c.connected) [
      | none ↦ failed c no_peers_connected
      | some known ↦
          let c' : Client = record c {
            connected = insert connection_id (track known packet.sequence packet.ack) c.connected;
          } in
          lift c' (unwrap (get connection_id c'.connected)) (λ peer.
            lift c' (reassemble peer packet) (λ outcome.
              done
                (report (record c' { connected = insert connection_id outcome.0 c'.connected })
                  connection_id outcome.1)
                tt))
    ]

unfoldable pub on_heartbeat :
    Client → Packet Received Heartbeat → Duration → Reply Client (Unit {0})
unfolding track Peers.connected
on_heartbeat c packet time =
    let address = packet.delivery.meta.address in
    let connection_id = packet.message.connection_id in
    elim (get connection_id c.connected) [
      | some peer ↦
          done
            (record c {
              connected = insert connection_id (track peer packet.sequence packet.ack) c.connected;
            })
            tt
      | none ↦ elim (get address c.awaiting_connection_ack) [
        | some peer ↦
            done (connect_tracked c address peer connection_id packet.sequence packet.ack time) tt
        | none ↦ done c tt
      ]
    ]

unfoldable pub handle : Client → DecodedForClient → Duration → Reply Client (Unit {0})
unfolding on_connection_accepted on_data_transfer on_fragment on_heartbeat
handle c (DecodedForClient.connection_accepted packet) time = on_connection_accepted c packet time
handle c (DecodedForClient.data_transfer packet) time = on_data_transfer c packet time
handle c (DecodedForClient.fragment packet) time = on_fragment c packet time
handle c (DecodedForClient.heartbeat packet) time = on_heartbeat c packet time

-- `Client::on_received`
unfoldable pub on_received : Build → Client → RawPacket → Duration → Reply Client (Unit {0})
unfolding decode_for_client handle
on_received b c raw time = lift c (decode_for_client b raw time) (λ decoded. handle c decoded time)

-- `Protocol::<Client>::poll`: the connected peers are not polled.
unfoldable pub poll : Client → Duration → Result (Client × List (ProtocolEvent ClientEvent))
unfolding poll_handler
poll c now = do
  handler ← poll_handler c.reliability_handler now
  ok (record c { reliability_handler = handler; api = [] }, c.api)
