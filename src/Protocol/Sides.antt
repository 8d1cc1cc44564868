-- ===== src/Protocol/Sides.antt =====
-- `Protocol<Server>` of antarc-protocol/src/server.rs and `Protocol<Client>` of
-- antarc-protocol/src/client.rs: the service with its packet ids. `time` is the elapsed time of the
-- timer; `poll` of both stands with the services.
use antarc.Client.Connects.{requesting, connect_once}
use antarc.Shared.{◌++◌, ◌+◌, ◌<◌, ◌≡◌, refl, ℕ, Bool, true, false, [], ◌∷◌, arith}
use antarc.Base.Errors.{SocketAddr}
use antarc.Base.Results.{Result, ok, ◌>>=◌, Reply, done, failed, panicked, lift}
use antarc.Base.Words.{Build, checked_sum, checked_sum_ok}
use antarc.Packets.Delivery.{Duration, ToSend, from_secs}
use antarc.Packets.Message.{ConnectionRequest, ConnectionAccepted}
use antarc.Packets.Packet.{Packet, RawPacket}
use antarc.Packets.Scheduled.{new_connection_request}
use antarc.Server.{Server, new_server, sent_connection_accepted}
use antarc.Server.Handle
use antarc.Client.{known_peer, Client, new_client, connect, sent_connection_request}
use antarc.Protocol.{Protocol, u64_mod}

-- `Protocol::new_server`
unfoldable pub new_server_protocol : ℕ → Duration → Protocol Server
unfolding new_server
new_server_protocol capacity reliable_ttl = record {
  packet_id_tracker = 0;
  service = new_server capacity;
  receiver_pipe = [];
  reliable_ttl = reliable_ttl;
}

-- What `Protocol::<Server>::on_received` does with the answer of the service.
unfoldable pub count_received :
    Build → Protocol Server → Reply Server Bool → Reply (Protocol Server) (Unit {0})
unfolding checked_sum
count_received b p panicked = Reply.panicked
count_received b p (failed service e) = failed (record p { service = service }) e
count_received b p (done service true) =
    let p' : Protocol Server = record p { service = service } in
    lift p' (checked_sum b u64_mod p.packet_id_tracker 1)
      (λ tracker. done (record p' { packet_id_tracker = tracker }) tt)
count_received b p (done service false) = done (record p { service = service }) tt

-- `Protocol::<Server>::on_received`
unfoldable pub server_received :
    Build → Protocol Server → RawPacket → Duration → Reply (Protocol Server) (Unit {0})
unfolding count_received Handle.on_received
server_received b p raw time =
    count_received b p (Handle.on_received b p.service raw p.packet_id_tracker time)

-- `Protocol::<Server>::sent_connection_accepted`
unfoldable pub server_accepted_sent :
    Protocol Server → Packet ToSend ConnectionAccepted → Duration → Result (Protocol Server)
unfolding sent_connection_accepted
server_accepted_sent p packet time = do
  service ← sent_connection_accepted p.service packet time p.reliable_ttl
  ok (record p { service = service })

-- `Protocol::new_client`
unfoldable pub new_client_protocol : Protocol Client
unfolding new_client
new_client_protocol = record {
  packet_id_tracker = 0;
  service = new_client;
  receiver_pipe = [];
  reliable_ttl = from_secs 2;
}

-- What `Protocol::<Client>::connect` does with the answer of the service.
unfoldable pub count_connect :
    Build → Protocol Client → Reply Client (Unit {0}) → Reply (Protocol Client) (Unit {0})
unfolding checked_sum
count_connect b p panicked = Reply.panicked
count_connect b p (failed service e) = failed (record p { service = service }) e
count_connect b p (done service answer) =
    let p' : Protocol Client = record p { service = service } in
    lift p' (checked_sum b u64_mod p.packet_id_tracker 1)
      (λ tracker. done (record p' { packet_id_tracker = tracker }) answer)

-- `Protocol::<Client>::connect`
unfoldable pub client_connect :
    Build → Protocol Client → SocketAddr → Duration → Reply (Protocol Client) (Unit {0})
unfolding count_connect connect
client_connect b p remote_address time =
    count_connect b p (connect p.service remote_address p.packet_id_tracker time)

-- `Protocol::<Client>::sent_connection_request`
unfoldable pub client_request_sent :
    Protocol Client → Packet ToSend ConnectionRequest → Duration → Result (Protocol Client)
unfolding sent_connection_request
client_request_sent p packet time = do
  service ← sent_connection_request p.service packet time p.reliable_ttl
  ok (record p { service = service })

-- Two `connect`s of a client to addresses, the first unknown and the second unknown after it, queue
-- two connection requests with different packet ids, one after the other.
pub client_connect_twice :
    (b : Build) (p : Protocol Client) (first second : SocketAddr) (time later : Duration)
    → known_peer p.service first ≡ false
    → known_peer (requesting p.service first p.packet_id_tracker time) second ≡ false
    → p.packet_id_tracker + 2 < u64_mod
    → (p₁ : Protocol Client) × (p₂ : Protocol Client) × (client_connect b p first time ≡ done p₁ tt)
      × (client_connect b p₁ second later ≡ done p₂ tt)
      × (p₂.service.scheduler.service.list_scheduled_connection_request
          ≡ (p.service.scheduler.service.list_scheduled_connection_request
              ++ (new_connection_request p.packet_id_tracker first time ∷ []))
            ++ (new_connection_request (p.packet_id_tracker + 1) second later ∷ []))
      × (p₂.packet_id_tracker ≡ p.packet_id_tracker + 2)
unfolding client_connect count_connect
client_connect_twice b p first second time later unknown unknown' room =
    let c₁ = requesting p.service first p.packet_id_tracker time in
    let c₂ = requesting c₁ second (p.packet_id_tracker + 1) later in
    let p₁ : Protocol Client = record p {
      service = c₁;
      packet_id_tracker = p.packet_id_tracker + 1;
    } in
    let p₂ : Protocol Client = record p {
      service = c₂;
      packet_id_tracker = p.packet_id_tracker + 1 + 1;
    } in
    (
      p₁,
      p₂,
      rw
          (
            (connect_once p.service first p.packet_id_tracker 0 time 0 unknown).0,
            checked_sum_ok b u64_mod p.packet_id_tracker 1 (omega arith),
          )
          refl,
      rw
          (
            (connect_once c₁ second (p.packet_id_tracker + 1) 0 later 0 unknown').0,
            checked_sum_ok b u64_mod (p.packet_id_tracker + 1) 1 (omega arith),
          )
          refl,
      refl,
      omega arith,
    )
