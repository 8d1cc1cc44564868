-- ===== src/Service/Agreement.antt =====
-- `on_received` of antarc-protocol/src/server/service.rs and of client/service.rs write out the
-- same steps for a fragment and for a heartbeat of a connected peer.
use antarc.Peers.Reassemble.{reassemble}
use antarc.Client.Reassemble as ClientReassemble
use antarc.Base.Errors.{ProtocolError}
use antarc.Packets.Delivery.{Duration, Received}
use antarc.Client.Handle.{on_received}
use antarc.Packets.Packet.{Packet}
use antarc.Peers.{Connected, Peer, track}
use antarc.Packets.Message.{Heartbeat, Fragment, Payload, ConnectionId}
use antarc.Shared.{
  ap, ◌∙◌, false, Bool, refl, List, [], ◌∷◌, ◌++◌, map, some, none, ◌≡◌, Option, sym, append-nil,
}
use antarc.Shared.HashMap.{HashMap, get, insert, get-insert_self}
use antarc.Base.Results.{Result, ok, err, panic, Reply, done, failed, panicked, lift}
use antarc.Events.{ProtocolEvent}
use antarc.Server.{Server}
use antarc.Server.Handle
use antarc.Client.{Client}
use antarc.Client.Handle as ClientHandle

-- The events of payloads, with the connection ids of their senders.
abbrev payloads : {S : Type 0} → List (ConnectionId × Payload) → List (ProtocolEvent S)
payloads = map λ p. ProtocolEvent.data_transfer p.0 p.1

-- Both calls panic, or both return with the same connected peers and after reporting the
-- same payloads, or both fail with the same error.
pub data Agree (s : Server) (c : Client)
    : Reply Server Bool → Reply Client (Unit {0}) → Type 0 where
  both_panicked : Agree s c panicked panicked
  both_done :
      {s' : Server} {more : Bool} {c' : Client} (reported : List (ConnectionId × Payload))
      → s'.connected ≡ c'.connected
      → s'.api ≡ s.api ++ payloads reported
      → c'.api ≡ c.api ++ payloads reported
      → Agree s c (done s' more) (done c' tt)
  both_failed :
      {s' : Server} {c' : Client} (problem : ProtocolError)
      → s'.connected ≡ c'.connected
      → Agree s c (failed s' problem) (failed c' problem)

module _ (s : Server) (c : Client) (id : ConnectionId) where
  reported_alike :
      (ours theirs : HashMap (Peer Connected)) (payload : Option Payload)
      → ours ≡ theirs
      → Agree s c
          (done (Handle.report (record s { connected = ours }) id payload) false)
          (done (ClientHandle.report (record c { connected = theirs }) id payload) tt)
  unfolding Handle.report ClientHandle.report
  reported_alike ours theirs none same =
      both_done [] same (sym (append-nil s.api)) (sym (append-nil c.api))
  reported_alike ours theirs (some payload) same = both_done ((id, payload) ∷ []) same refl refl

  reassembled_alike :
      (ours theirs : HashMap (Peer Connected)) (result : Result (Peer Connected × Option Payload))
      → ours ≡ theirs
      → Agree s c
          (lift
            (record s { connected = ours })
            result
            (λ outcome.
              done
                (Handle.report (record s { connected = insert id outcome.0 ours }) id outcome.1)
                false))
          (lift
            (record c { connected = theirs })
            result
            (λ outcome.
              done
                (ClientHandle.report
                  (record c { connected = insert id outcome.0 theirs })
                  id
                  outcome.1)
                tt))
  reassembled_alike ours theirs (ok outcome) same =
      reported_alike (insert id outcome.0 ours) (insert id outcome.0 theirs) outcome.1
        (ap (insert id outcome.0) same)
  reassembled_alike ours theirs (err problem) same = both_failed problem same
  reassembled_alike ours theirs panic same = both_panicked

-- A fragment from a peer that is connected, with the same state on both sides, is handled alike by
-- a server and by a client: the calls panic together, or they leave the same connected peers
-- and report the same payloads, if any.
pub on_fragment_alike :
    (s : Server) (c : Client) (packet : Packet Received Fragment) (time : Duration)
    (peer : Peer Connected)
    → get packet.message.connection_id s.connected ≡ some peer
    → c.connected ≡ s.connected
    → Agree s c (Handle.on_fragment s packet time) (ClientHandle.on_fragment c packet time)
unfolding Handle.on_fragment Handle.receive_from_peer ClientHandle.on_fragment track
on_fragment_alike s c packet time peer found same =
    let id = packet.message.connection_id in
    let now = track peer packet.sequence packet.ack in
    let on_server : Handle.on_fragment s packet time
        ≡ lift (record s { connected = insert id now s.connected }) (reassemble now packet)
            (λ outcome.
              done
                (Handle.report
                  (record s { connected = insert id outcome.0 (insert id now s.connected) }) id
                  outcome.1)
                false) =
      rw (Handle.on_fragment, Handle.receive_from_peer, found, get-insert_self id now s.connected)
        refl in
    let on_client : ClientHandle.on_fragment c packet time
        ≡ lift (record c { connected = insert id now c.connected })
            (ClientReassemble.reassemble now packet)
            (λ outcome.
              done
                (ClientHandle.report
                  (record c { connected = insert id outcome.0 (insert id now c.connected) }) id
                  outcome.1)
                tt) =
      rw (ClientHandle.on_fragment, ap (get id) same ∙ found, get-insert_self id now c.connected)
        refl in
    rw (on_server, on_client, ClientReassemble.reassemble_alike now packet)
      (reassembled_alike s c id (insert id now s.connected) (insert id now c.connected)
        (reassemble now packet) (ap (insert id now) (sym same)))

-- So is a heartbeat.
pub on_heartbeat_alike :
    (s : Server) (c : Client) (packet : Packet Received Heartbeat) (time : Duration)
    (peer : Peer Connected)
    → get packet.message.connection_id s.connected ≡ some peer
    → c.connected ≡ s.connected
    → Agree s c (Handle.on_heartbeat s packet time) (ClientHandle.on_heartbeat c packet time)
unfolding Handle.on_heartbeat Handle.receive_from_peer ClientHandle.on_heartbeat track
on_heartbeat_alike s c packet time peer found same =
    let id = packet.message.connection_id in
    let connected = insert id (track peer packet.sequence packet.ack) s.connected in
    let on_server : Handle.on_heartbeat s packet time
        ≡ done (record s { connected = connected }) false =
      rw (Handle.on_heartbeat, Handle.receive_from_peer, found) refl in
    let on_client : ClientHandle.on_heartbeat c packet time
        ≡ done
            (record c { connected = insert id (track peer packet.sequence packet.ack) c.connected })
            tt =
      rw (ClientHandle.on_heartbeat, ap (get id) same ∙ found) refl in
    rw (on_server, on_client)
      (both_done [] (ap (insert id (track peer packet.sequence packet.ack)) (sym same))
        (sym (append-nil s.api)) (sym (append-nil c.api)))
