-- ===== src/Tests/ClientRuns.antt =====
-- The client of antarc-protocol/src/client/service.rs at concrete inputs.
use antarc.Shared.{◌≡◌, refl, inl, some, none, false, [], ◌∷◌, arith}
use antarc.Shared.HashMap.{get}
use antarc.Base.Results.{ok, done}
use antarc.Packets.Delivery.{Received, ToSend}
use antarc.Packets.Message.{ConnectionRequest, ConnectionAccepted}
use antarc.Packets.Packet.{Packet}
use antarc.Packets.Decode.{DecodedForClient}
use antarc.Packets.Scheduled.{new_connection_request}
use antarc.Peers.{Peer, Connected}
use antarc.Client.{
  Client, new_client, connect, known_peer, create_connection_request, sent_connection_request,
}
use antarc.Client.Handle.{handle, on_connection_accepted}
use antarc.Client.Connects.{requesting, connect_once, handshake}
use antarc.Client.Invariant.{ClientInv, Retains, handle-Retains}
use antarc.Client.Reach.{ClientStep, start, next, ClientReach-Inv}
use antarc.Tests.Data
use antarc.Tests.Data.{hello, part, peer, waiting_peer, acceptance}
use antarc.Tests.PeerRuns.{peer-GroupsFit}

new_client-unknown : known_peer new_client 77 ≡ false
unfolding known_peer new_client get
new_client-unknown = refl

abbrev accepted : Packet Received ConnectionAccepted
accepted = Data.received 1 acceptance

handshake_example :
    (c₁ : Client) × (packet : Packet ToSend ConnectionRequest) × (c₂ : Client) × (c₃ : Client)
    × (peer : Peer Connected) × (connect new_client 77 1 100 ≡ done c₁ tt)
    × (create_connection_request c₁ (new_connection_request 1 77 100) 110 ≡ ok packet)
    × ((packet.sequence ≡ 1) × (packet.ack ≡ 0) × (packet.delivery.meta.address ≡ 77))
    × (sent_connection_request c₁ packet 120 30 ≡ ok c₂)
    × (on_connection_accepted c₂ accepted 130 ≡ done c₃ tt)
    × (get 6 c₃.connected ≡ some peer)
    × ((peer.address ≡ 77)
        × (peer.sequence_tracker ≡ 2)
        × (peer.remote_ack_tracker ≡ 1)
        × (peer.local_ack_tracker ≡ 1)
        × (peer.connection.connection_id ≡ 6))
    × (get 77 c₃.requesting_connection ≡ none)
    × (get 77 c₃.awaiting_connection_ack ≡ none)
unfolding new_client get
handshake_example =
    handshake new_client 77 1 100 110 120 130 30 accepted new_client-unknown refl refl

-- One peer is connected, and one awaits an ack.
abbrev busy_client : Client
unfolding new_client
busy_client = record new_client {
  connected = (6, peer) ∷ [];
  awaiting_connection_ack = (88, waiting_peer) ∷ [];
}

busy_client-ClientInv : ClientInv busy_client
unfolding get busy_client
busy_client-ClientInv = record {
  requesting_own = λ a p h. cc;
  awaiting_own = λ a p h. ground arith;
  apart = λ a. inl refl;
  fresh = λ k p h. ground arith;
  distinct = λ i j p q hi hj e. ground arith;
  peers_fit = (record { own_id = refl; groups = peer-GroupsFit }, tt);
}

handle-Retains_example :
    Retains busy_client
      (handle busy_client (DecodedForClient.fragment (Data.received 4 (part 2 (9 ∷ [])))) 300)
handle-Retains_example =
    handle-Retains busy_client (DecodedForClient.fragment (Data.received 4 (part 2 (9 ∷ [])))) 300
      busy_client-ClientInv

ClientReach-Inv_example : ClientInv (requesting new_client 77 1 100)
ClientReach-Inv_example = ClientReach-Inv Data.release (
    next start (
      ClientStep.connecting 77 1 100 (connect_once new_client 77 1 2 100 200 new_client-unknown).0))
