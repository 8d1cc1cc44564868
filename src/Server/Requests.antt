-- ===== src/Server/Requests.antt =====
-- Connection requests to the server of antarc-protocol/src/server/service.rs, and the
-- invariant of its tables.
use antarc.Scheduler.{push}
use antarc.Packets.PacketType.{connection_accepted_type}
use antarc.Packets.Scheduled.{Reliable}
use antarc.Server.Handle.{next_connection_id, on_connection_request, find_peer, request_id}
use antarc.Shared.{
  dec_lt, Bool-cases, refl, ◌<◌, lt→ltb, true, ◌+◌, ◌≡◌, ◌≢◌, [], ◌∷◌, some, arith, inl, inr, false,
  ◌==◌, any, Option-cases,
}
use antarc.Shared.HashMap.{remove, insert, HashMap, get, values}
use antarc.Base.Errors.{ProtocolError, peer_in_another_state, banned, SocketAddr}
use antarc.Base.Results.{Result, ok, err, Reply, done, failed, panicked}
use antarc.Base.Words.{Build, u16_mod}
use antarc.Packets.Message.{ConnectionRequest, ConnectionId}
use antarc.Peers.{new_peer, await_connection_ack, Peer}
use antarc.Server.{
  accept_connection, unexpected_connection, PacketId, Duration, insert, Received, Packet, Server,
  connection_request_another_state,
}
use antarc.Server.Tables.{admit, Tables, address_of}

abbrev pub Inv : Server → Type 0
Inv s = Tables s.connection_id_tracker s.requesting_connection s.awaiting_connection_ack s.connected

-- A reply keeps the invariant, an error leaves the server as it was, and only a server that
-- has given out the last connection id may panic.
abbrev pub Keeps : {A : Type 0} → Server → Reply Server A → Type 0
Keeps s (done s' a) = Inv s'
Keeps s (failed s' e) = s' ≡ s
Keeps s panicked = s.connection_id_tracker + 1 ≡ u16_mod

any_address-get :
    {C : Type 0} (address : SocketAddr) (peers : HashMap (Peer C)) (k : ConnectionId)
    (peer : Peer C)
    → any (λ (p : Peer C). p.address == address) (values peers) ≡ false
    → get k peers ≡ some peer
    → peer.address ≢ address
unfolding get
any_address-get address [] k peer h e = cc
any_address-get address ((j, other) ∷ peers) k peer h e =
    ground (arith, any_address-get address peers k peer)

-- The peer of an address that the server does not know is in neither table.
unknown_address :
    (s : Server) (address : SocketAddr)
    → connection_request_another_state s address ≡ false
    → (k : ConnectionId) → address_of s.awaiting_connection_ack s.connected k ≢ some address
unfolding connection_request_another_state
unknown_address s address h k = elim (Option-cases (get k s.awaiting_connection_ack)) [
  | inl e ↦ elim (Option-cases (get k s.connected)) [
    | inl e' ↦ ground (arith, e, e')
    | inr (peer, e') ↦ ground (arith, e, e', any_address-get address s.connected k peer)
  ]
  | inr (peer, e) ↦ ground (arith, e, any_address-get address s.awaiting_connection_ack k peer)
]

-- The server after it accepted a peer at a new address: the peer awaits an ack under the id
-- of the tracker, its connection accepted packet is scheduled, and the tracker moves on.
abbrev pub accepted : Server → Packet Received ConnectionRequest → PacketId → Duration → Server
accepted s packet packet_id time =
    let id = s.connection_id_tracker in
    let address = packet.delivery.meta.address in
    record s {
      connection_id_tracker = id + 1;
      requesting_connection = [];
      awaiting_connection_ack =
          insert id (await_connection_ack (new_peer time address packet.sequence) time)
            s.awaiting_connection_ack;
      scheduler = record s.scheduler {
        service = record {
          list_scheduled_connection_accepted =
              push s.scheduler.service.list_scheduled_connection_accepted (record {
                packet_id = packet_id;
                address = address;
                time = time;
                reliability = Reliable.reliable;
                message = record {
                  meta = record { packet_type = connection_accepted_type };
                  connection_id = id;
                };
              });
        };
      };
    }

-- In a state of the invariant, a connection request from an address that is neither known nor
-- banned is accepted while ids are left: the next id is given out, its peer awaits an ack and the
-- packet that accepts it is scheduled, and no peer is left requesting.
pub on_connection_request-accepted :
    (b : Build) (s : Server) (packet : Packet Received ConnectionRequest) (packet_id : PacketId)
    (time : Duration)
    → Inv s
    → unexpected_connection s packet.delivery.meta.address ≡ ok tt
    → s.connection_id_tracker + 1 < u16_mod
    → on_connection_request b s packet packet_id time ≡ done (accepted s packet packet_id time) true
unfolding on_connection_request request_id find_peer next_connection_id accept_connection insert get
    remove new_peer
on_connection_request-accepted b s packet packet_id time inv free room =
    rw (free, inv.idle, lt→ltb _ _ room) (ground arith)

-- In a state of the invariant in which the tracker is the last u16, a connection request from an
-- address that is neither known nor banned panics.
pub on_connection_request_full :
    (b : Build) (s : Server) (packet : Packet Received ConnectionRequest) (packet_id : PacketId)
    (time : Duration)
    → Inv s
    → unexpected_connection s packet.delivery.meta.address ≡ ok tt
    → s.connection_id_tracker + 1 ≡ u16_mod
    → on_connection_request b s packet packet_id time ≡ panicked
unfolding on_connection_request request_id find_peer next_connection_id
on_connection_request_full b s packet packet_id time inv free full =
    rw (free, inv.idle) (ground arith)

-- `unexpected_connection` has three answers.
pub data Expected (s : Server) (address : SocketAddr) (answer : Result (Unit {0})) : Type 0 where
  known_address :
      connection_request_another_state s address ≡ true
      → answer ≡ err (peer_in_another_state address)
      → Expected s address answer
  banned_address :
      connection_request_another_state s address ≡ false
      → any (λ other. other == address) s.ban_list ≡ true
      → answer ≡ err (banned address)
      → Expected s address answer
  new_address :
      connection_request_another_state s address ≡ false
      → any (λ other. other == address) s.ban_list ≡ false
      → answer ≡ ok tt
      → Expected s address answer

pub unexpected_connection-Expected :
    (s : Server) (address : SocketAddr) → Expected s address (unexpected_connection s address)
unfolding unexpected_connection
unexpected_connection-Expected s address =
    elim (Bool-cases (connection_request_another_state s address)) [
      | inl old ↦ known_address old (rw old)
      | inr new ↦ elim (Bool-cases (any (λ other. other == address) s.ban_list)) [
        | inl bad ↦ banned_address new bad (rw (new, bad))
        | inr good ↦ new_address new good (rw (new, good))
      ]
    ]

on_connection_request_failed :
    (b : Build) (s : Server) (packet : Packet Received ConnectionRequest) (packet_id : PacketId)
    (time : Duration) {e : ProtocolError}
    → unexpected_connection s packet.delivery.meta.address ≡ err e
    → on_connection_request b s packet packet_id time ≡ failed s e
unfolding on_connection_request
on_connection_request_failed b s packet packet_id time h = rw h

module _ (b : Build) (s : Server) (packet : Packet Received ConnectionRequest)
    (packet_id : PacketId) (time : Duration) (inv : Inv s) where
  on_connection_request_cases :
      Expected s packet.delivery.meta.address (unexpected_connection s packet.delivery.meta.address)
      → Keeps s (on_connection_request b s packet packet_id time)
  on_connection_request_cases (known_address old e) =
      rw (on_connection_request_failed b s packet packet_id time e) refl
  on_connection_request_cases (banned_address new bad e) =
      rw (on_connection_request_failed b s packet packet_id time e) refl
  on_connection_request_cases (new_address new good e) =
      elim (dec_lt (s.connection_id_tracker + 1) u16_mod) [
        | yes room ↦ rw (on_connection_request-accepted b s packet packet_id time inv e room) (
            unfold await_connection_ack new_peer in
            admit inv _ room (unknown_address s packet.delivery.meta.address new))
        | no full ↦
            let last : s.connection_id_tracker + 1 ≡ u16_mod = omega (arith, inv.tracker_range) in
            rw (on_connection_request_full b s packet packet_id time inv e last) last
      ]

pub on_connection_request-Keeps :
    (b : Build) (s : Server) (packet : Packet Received ConnectionRequest) (packet_id : PacketId)
    (time : Duration)
    → Inv s
    → Keeps s (on_connection_request b s packet packet_id time)
on_connection_request-Keeps b s packet packet_id time inv =
    on_connection_request_cases b s packet packet_id time inv
      (unexpected_connection-Expected s packet.delivery.meta.address)
