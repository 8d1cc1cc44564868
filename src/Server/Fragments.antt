-- ===== src/Server/Fragments.antt =====
-- `Server::on_received` of antarc-protocol/src/server/service.rs on a fragment from a connected peer.
use antarc.Packets.Delivery.{Duration, Received}
use antarc.Packets.Packet.{Packet}
use antarc.Server.{Server}
use antarc.Packets.Message.{Fragment, Payload, ConnectionId}
use antarc.Shared.{
  refl, ap, ◌∙◌, List, [], ◌∷◌, ◌++◌, some, none, Option, ◌≡◌, sym, append-nil, false,
}
use antarc.Shared.HashMap.{get, insert, get-insert_self}
use antarc.Base.Results.{ok, done}
use antarc.Packets.Encode.{fragment_encoder}
use antarc.Peers.{Peer, Connected, track}
use antarc.Peers.Reassemble.{reassemble}
use antarc.Server.Handle
use antarc.Server.Handle.{on_received, handle, on_fragment}
use antarc.Events.{ServerEvent, ProtocolEvent}

-- The event of a payload, if there is one.
abbrev pub events : ConnectionId → Option Payload → List (ProtocolEvent ServerEvent)
events id none = []
events id (some payload) = ProtocolEvent.data_transfer id payload ∷ []

report_after :
    (s : Server) (id : ConnectionId) (payload : Option Payload)
    → (s' : Server) × (Handle.report s id payload ≡ s')
      × (s'.connected ≡ s.connected)
      × (s'.api ≡ s.api ++ events id payload)
unfolding Handle.report
report_after s id none = (s, refl, refl, sym (append-nil s.api))
report_after s id (some payload) = (_, refl, refl, refl)

-- A fragment from a connected peer leaves the peer as its reassembly does, and reports what
-- it reports.
pub on_fragment_step :
    (s : Server) (packet : Packet Received Fragment) (time : Duration) (peer after : Peer Connected)
    (payload : Option Payload)
    → get packet.message.connection_id s.connected ≡ some peer
    → reassemble (track peer packet.sequence packet.ack) packet ≡ ok (after, payload)
    → (s' : Server) × (on_fragment s packet time ≡ done s' false)
      × (get packet.message.connection_id s'.connected ≡ some after)
      × (s'.api ≡ s.api ++ events packet.message.connection_id payload)
unfolding on_fragment Handle.receive_from_peer
on_fragment_step s packet time peer after payload found reassembled =
    let id = packet.message.connection_id in
    let now = track peer packet.sequence packet.ack in
    let tracked = insert id now s.connected in
    let (s', reports, same, told) =
      report_after (record s { connected = insert id after tracked }) id payload in
    let returns : on_fragment s packet time ≡ done s' false =
      rw
        (
          on_fragment,
          Handle.receive_from_peer,
          found,
          get-insert_self id now s.connected,
          reassembled,
          reports,
        )
        refl in
    (s', returns, ap (get id) same ∙ get-insert_self id after tracked, told)
