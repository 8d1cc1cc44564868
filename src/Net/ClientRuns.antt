-- ===== src/Net/ClientRuns.antt =====
-- The life of a client with its socket (antarc/src/client.rs and lib.rs).
use antarc.Service.{client_service}
use antarc.Packets.Message.{Payload}
use antarc.Peers.{SendTo}
use antarc.Packets.Scheduled.{ReliabilityType}
use antarc.Packets.Delivery.{PacketId}
use antarc.Base.Errors.{ProtocolError, SocketAddr}
use antarc.Client.{Client}
use antarc.Base.Words.{Build}
use antarc.Net.{now, AntarcNet, Host}
use antarc.Base.Results.{
  ok, done, failed, ok-injective, Leaves, Leaves-done, Leaves-failed, >>=-eq-ok, unwrap,
}
use antarc.Shared.{List, ◌≡◌, subst}
use antarc.Events.{ClientEvent, ProtocolEvent}
use antarc.Client.Reach.{ClientReach, ClientReach-Inv, start}
use antarc.Client.Invariant.{ClientInv}
use antarc.Net.ClientLoop
use antarc.Net.Polls
use antarc.Net.KeptSchedule.{schedule-Leaves, heartbeat-Leaves, around-Leaves}
use antarc.Net.ClientReach.{poll-ClientReach, ClientReach-Kept, client_connect-ClientReach}
use antarc.Protocol.Sides.{new_client_protocol, client_connect}

-- A client from its first breath: it is made, it is polled, and its user connects to servers and
-- schedules payloads and heartbeats, in any order, as long as every call returns.
pub data ClientRun {K : Type 0} (h : Host K) (b : Build) : AntarcNet Client K → Type 0 where
  opened :
      {n : AntarcNet Client K} (k : K) (address : SocketAddr)
      → ClientLoop.new_client h k address ≡ ok n
      → ClientRun h b n
  polled :
      {n n' : AntarcNet Client K} (events : List (ProtocolEvent ClientEvent))
      → ClientRun h b n
      → ClientLoop.poll h b n ≡ ok (n', events)
      → ClientRun h b n'
  scheduled :
      {n n' : AntarcNet Client K} {packet_id : PacketId} (reliability : ReliabilityType)
      (send_to : SendTo) (payload : Payload)
      → ClientRun h b n
      → Polls.schedule client_service h b n reliability send_to payload ≡ done n' packet_id
      → ClientRun h b n'
  schedule_failed :
      {n n' : AntarcNet Client K} {problem : ProtocolError} (reliability : ReliabilityType)
      (send_to : SendTo) (payload : Payload)
      → ClientRun h b n
      → Polls.schedule client_service h b n reliability send_to payload ≡ failed n' problem
      → ClientRun h b n'
  heartbeat_scheduled :
      {n n' : AntarcNet Client K} {packet_id : PacketId} (reliability : ReliabilityType)
      (send_to : SendTo)
      → ClientRun h b n
      → Polls.heartbeat client_service h b n reliability send_to ≡ done n' packet_id
      → ClientRun h b n'
  heartbeat_failed :
      {n n' : AntarcNet Client K} {problem : ProtocolError} (reliability : ReliabilityType)
      (send_to : SendTo)
      → ClientRun h b n
      → Polls.heartbeat client_service h b n reliability send_to ≡ failed n' problem
      → ClientRun h b n'
  connecting :
      {n n' : AntarcNet Client K} (remote_address : SocketAddr)
      → ClientRun h b n
      → ClientLoop.connect h b n remote_address ≡ done n' tt
      → ClientRun h b n'
  connect_failed :
      {n n' : AntarcNet Client K} {problem : ProtocolError} (remote_address : SocketAddr)
      → ClientRun h b n
      → ClientLoop.connect h b n remote_address ≡ failed n' problem
      → ClientRun h b n'

module _ {K : Type 0} (h : Host K) (b : Build) where
  connect-Leaves :
      (n : AntarcNet Client K) (remote_address : SocketAddr)
      → ClientReach b n.antarc.service
      → Leaves
          (λ (m : AntarcNet Client K). ClientReach b m.antarc.service)
          (ClientLoop.connect h b n remote_address)
  unfolding ClientLoop.connect now
  connect-Leaves n remote_address r =
      around-Leaves (ClientReach-Kept b) (now h n).0
        (client_connect b n.antarc remote_address (now h n).1)
        (client_connect-ClientReach b n.antarc remote_address (now h n).1 r)

  -- Every change that a run makes to the service is one of the steps of `Client.Reach`.
  pub ClientRun-ClientReach :
      {n : AntarcNet Client K} → ClientRun h b n → ClientReach b n.antarc.service
  unfolding ClientLoop.new_client new_client_protocol
  ClientRun-ClientReach (opened k address made) =
      let (socket, bound, answer) = >>=-eq-ok (unwrap (h.bind k address)) _ made in
      subst (λ (m : AntarcNet Client K). ClientReach b m.antarc.service) (ok-injective answer) start
  ClientRun-ClientReach (polled {n = n} {n' = n'} events run returns) =
      poll-ClientReach b h n n' events (ClientRun-ClientReach run) returns
  ClientRun-ClientReach (scheduled reliability send_to payload run returns) =
      Leaves-done
        (schedule-Leaves (ClientReach-Kept b) h _ (ClientRun-ClientReach run) reliability send_to
          payload)
        returns
  ClientRun-ClientReach (schedule_failed reliability send_to payload run returns) =
      Leaves-failed
        (schedule-Leaves (ClientReach-Kept b) h _ (ClientRun-ClientReach run) reliability send_to
          payload)
        returns
  ClientRun-ClientReach (heartbeat_scheduled reliability send_to run returns) =
      Leaves-done
        (heartbeat-Leaves (ClientReach-Kept b) h _ (ClientRun-ClientReach run) reliability send_to)
        returns
  ClientRun-ClientReach (heartbeat_failed reliability send_to run returns) =
      Leaves-failed
        (heartbeat-Leaves (ClientReach-Kept b) h _ (ClientRun-ClientReach run) reliability send_to)
        returns
  ClientRun-ClientReach (connecting {n = n} remote_address run returns) =
      Leaves-done (connect-Leaves n remote_address (ClientRun-ClientReach run)) returns
  ClientRun-ClientReach (connect_failed {n = n} remote_address run returns) =
      Leaves-failed (connect-Leaves n remote_address (ClientRun-ClientReach run)) returns

  -- On every run of a client with its socket, whatever the socket delivers and the clock says, and
  -- in whatever order the client is polled and its user connects and schedules payloads and
  -- heartbeats, as long as every call returns, the invariant of the tables holds: a peer that
  -- requests a connection or awaits an ack is at its own address, no address is in two tables, no
  -- two connected peers share an address, a connected peer carries its own id, and the groups of
  -- fragments fit.
  pub ClientRun-ClientInv : {n : AntarcNet Client K} → ClientRun h b n → ClientInv n.antarc.service
  ClientRun-ClientInv run = ClientReach-Inv b (ClientRun-ClientReach run)
