-- ===== src/Tests/ServerRuns.antt =====
-- The server of antarc-protocol/src/server/service.rs at concrete inputs.
use antarc.Server.Exhausted.{connection_request_panics}
use antarc.Server.Tables.{address_of}
use antarc.Peers.{Peer, Connected}
use antarc.Events.{ProtocolEvent}
use antarc.Base.Errors.{no_peers_connected}
use antarc.Server.Reports.{on_data_transfer_reports}
use antarc.Packets.Raw.{inner_decode, decode_for_server}
use antarc.Packets.RoundTrip.{arrived, transmit-connection_request}
use antarc.Packets.Framing.{framed, body, as_raw-framed}
use antarc.Packets.Encode.{connection_request_encoder, fragment_encoder}
use antarc.Shared.{◌≢◌, some, false, ◌⊎◌, ◌++◌, none, ◌≡◌, refl, inl, true, [], ◌∷◌, arith}
use antarc.Shared.HashMap.{get}
use antarc.Base.Results.{failed, ok, done, panicked}
use antarc.Packets.Delivery.{Received}
use antarc.Packets.Message.{ConnectionRequest}
use antarc.Packets.Packet.{as_raw, Packet, RawPacket}
use antarc.Packets.Decode.{try_for_server, DecodedCommon, DecodedForServer}
use antarc.Server.{Server, new_server, unexpected_connection, connection_request_another_state}
use antarc.Server.Handle.{on_data_transfer, handle, on_connection_request, on_received}
use antarc.Server.Requests.{Inv, Keeps, accepted, on_connection_request-accepted}
use antarc.Server.Invariant.{handle-Keeps}
use antarc.Server.Reach.{new_server-Inv, Step, Reach, start, next, on_received-Keeps, Reach-Inv}
use antarc.Tests.Data
use antarc.Tests.Data.{release-IsCrc32, release, request, part, hello, peer, waiting_peer}
use antarc.Tests.PeerRuns.{peer-GroupsFit}

abbrev request_packet : Packet Received ConnectionRequest
request_packet = record (Data.received 1 request) {
  delivery = record { meta = record { time = 200; address = 99 } };
}

-- One peer is connected, and one awaits an ack.
abbrev busy_server : Server
unfolding new_server
busy_server = record (new_server 8) {
  connection_id_tracker = 8;
  connected = (6, peer) ∷ [];
  awaiting_connection_ack = (7, waiting_peer) ∷ [];
}

busy_server-Inv : Inv busy_server
unfolding get busy_server
busy_server-Inv = record {
  tracker_pos = omega arith;
  tracker_range = omega arith;
  idle = refl;
  awaiting_range = λ k h. ground arith;
  connected_range = λ k h. ground arith;
  apart = λ k. ground arith;
  own_address = λ i j address hi hj. ground arith;
  peers_fit = (record { own_id = refl; groups = peer-GroupsFit }, tt);
}

on_connection_request-accepted_example :
    on_connection_request release busy_server request_packet 40 300
    ≡ done (accepted busy_server request_packet 40 300) true
unfolding busy_server unexpected_connection connection_request_another_state
on_connection_request-accepted_example =
    on_connection_request-accepted release busy_server request_packet 40 300 busy_server-Inv refl
      (omega arith)

-- Every id was given out.
abbrev full_server : Server
unfolding busy_server
full_server = record busy_server { connection_id_tracker = 65_535 }

full_server-Inv : Inv full_server
unfolding get full_server
full_server-Inv = record {
  tracker_pos = omega arith;
  tracker_range = omega arith;
  idle = refl;
  awaiting_range = λ k h. ground arith;
  connected_range = λ k h. ground arith;
  apart = λ k. ground arith;
  own_address = λ i j address hi hj. ground arith;
  peers_fit = (record { own_id = refl; groups = peer-GroupsFit }, tt);
}

connection_request_panics_example :
    (raw : RawPacket) × (as_raw release (Data.to_send request) ≡ ok raw)
    × (on_received release full_server (record { address = 99; bytes = raw.bytes }) 40 300
        ≡ panicked)
unfolding full_server connection_request_another_state
connection_request_panics_example =
    connection_request_panics release full_server (Data.to_send request) 99 40 300 release-IsCrc32
      refl (omega arith, omega arith, omega arith) refl full_server-Inv refl refl refl

handle-Keeps_example : Keeps busy_server (
    handle release busy_server
      (DecodedForServer.fragment (Data.received 4 (part 2 (9 ∷ []))))
      40
      300)
handle-Keeps_example =
    handle-Keeps release busy_server (DecodedForServer.fragment (Data.received 4 (part 2 (9 ∷ []))))
      40 300 busy_server-Inv

abbrev part_raw : RawPacket
part_raw = framed release 77 (body (Data.to_send (part 2 (9 ∷ []))))

on_received-Keeps_example : Keeps busy_server (on_received release busy_server part_raw 40 300)
on_received-Keeps_example =
    on_received-Keeps release busy_server part_raw 40 300 refl (omega arith) busy_server-Inv

abbrev request_raw : RawPacket
request_raw = framed release 77 (body (Data.to_send request))

abbrev arrived_request : Packet Received ConnectionRequest
arrived_request = arrived (Data.to_send request) 77 300

request_received :
    inner_decode release request_raw 300 ≡ ok (DecodedCommon.connection_request arrived_request)
request_received =
    let sent =
      transmit-connection_request release (Data.to_send request) 77 300 release-IsCrc32 (inl refl)
        (omega arith, omega arith, omega arith) refl in
    rw (as_raw-framed release (Data.to_send request) (inl refl)) at sent

first_request :
    on_received release (new_server 8) request_raw 0 300
    ≡ done (accepted (new_server 8) arrived_request 0 300) true
unfolding on_received decode_for_server try_for_server handle new_server unexpected_connection
    connection_request_another_state
first_request = rw request_received (
    on_connection_request-accepted release (new_server 8) arrived_request 0 300 (new_server-Inv 8)
      refl (omega arith))

-- A new server that has received one connection request.
one_request : Reach release 8 (accepted (new_server 8) arrived_request 0 300)
one_request = next start (Step.received request_raw 0 300 true first_request)

Reach-Inv_example : Inv (accepted (new_server 8) arrived_request 0 300)
Reach-Inv_example = Reach-Inv release one_request

on_data_transfer_reports_example :
    ((address_of busy_server.awaiting_connection_ack busy_server.connected 6 ≡ none)
      × (on_data_transfer busy_server (Data.received 4 hello) 300
          ≡ failed busy_server no_peers_connected))
    ⊎ ((address_of busy_server.awaiting_connection_ack busy_server.connected 6 ≢ none)
        × (s' : Server) × (peer : Peer Connected) × (on_data_transfer busy_server
              (Data.received 4 hello)
              300
            ≡ done s' false)
        × (s'.api ≡ busy_server.api ++ (ProtocolEvent.data_transfer 6 (104 ∷ 105 ∷ []) ∷ []))
        × (get 6 s'.connected ≡ some peer)
        × ((peer.remote_ack_tracker ≡ 4) × (peer.local_ack_tracker ≡ 1)))
on_data_transfer_reports_example = on_data_transfer_reports busy_server (Data.received 4 hello) 300
