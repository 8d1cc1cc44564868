-- ===== src/Net/ServerRuns.antt =====
-- The life of a server with its socket (antarc/src/server.rs and lib.rs).
use antarc.Service.{server_service}
use antarc.Packets.Message.{Payload}
use antarc.Peers.{SendTo}
use antarc.Packets.Scheduled.{ReliabilityType}
use antarc.Events.{ServerEvent, ProtocolEvent}
use antarc.Net.KeptSchedule.{heartbeat-Leaves, schedule-Leaves}
use antarc.Packets.Delivery.{PacketId, Duration}
use antarc.Base.Errors.{ProtocolError, SocketAddr}
use antarc.Server.Requests.{Inv}
use antarc.Server.{Server}
use antarc.Protocol.Sides.{new_server_protocol}
use antarc.Base.Words.{Build}
use antarc.Net.{AntarcNet, Host}
use antarc.Base.Results.{
  unwrap, >>=-eq-ok, Leaves-done, Leaves-failed, ok, done, failed, ok-injective,
}
use antarc.Shared.{List, ◌≡◌, ℕ, subst}
use antarc.Server.Reach.{Reach, Reach-Inv}
use antarc.Net.ServerLoop
use antarc.Net.Polls
use antarc.Net.ServerReach.{poll-Reach, Reach-Kept}

-- A server from its first breath: it is made, it is polled, and its user schedules payloads and
-- heartbeats, in any order, as long as every call returns.
pub data ServerRun {K : Type 0} (h : Host K) (b : Build) (capacity : ℕ)
    : AntarcNet Server K → Type 0 where
  opened :
      {n : AntarcNet Server K} (k : K) (address : SocketAddr) (reliable_ttl : Duration)
      → ServerLoop.new_server h k address capacity reliable_ttl ≡ ok n
      → ServerRun h b capacity n
  polled :
      {n n' : AntarcNet Server K} (events : List (ProtocolEvent ServerEvent))
      → ServerRun h b capacity n
      → ServerLoop.poll h b n ≡ ok (n', events)
      → ServerRun h b capacity n'
  scheduled :
      {n n' : AntarcNet Server K} {packet_id : PacketId} (reliability : ReliabilityType)
      (send_to : SendTo) (payload : Payload)
      → ServerRun h b capacity n
      → Polls.schedule server_service h b n reliability send_to payload ≡ done n' packet_id
      → ServerRun h b capacity n'
  schedule_failed :
      {n n' : AntarcNet Server K} {problem : ProtocolError} (reliability : ReliabilityType)
      (send_to : SendTo) (payload : Payload)
      → ServerRun h b capacity n
      → Polls.schedule server_service h b n reliability send_to payload ≡ failed n' problem
      → ServerRun h b capacity n'
  heartbeat_scheduled :
      {n n' : AntarcNet Server K} {packet_id : PacketId} (reliability : ReliabilityType)
      (send_to : SendTo)
      → ServerRun h b capacity n
      → Polls.heartbeat server_service h b n reliability send_to ≡ done n' packet_id
      → ServerRun h b capacity n'
  heartbeat_failed :
      {n n' : AntarcNet Server K} {problem : ProtocolError} (reliability : ReliabilityType)
      (send_to : SendTo)
      → ServerRun h b capacity n
      → Polls.heartbeat server_service h b n reliability send_to ≡ failed n' problem
      → ServerRun h b capacity n'

module _ {K : Type 0} (h : Host K) (b : Build) {capacity : ℕ} where
  -- Every change that a run makes to the service is one of the steps of `Server.Reach`.
  pub ServerRun-Reach :
      {n : AntarcNet Server K} → ServerRun h b capacity n → Reach b capacity n.antarc.service
  unfolding ServerLoop.new_server new_server_protocol
  ServerRun-Reach (opened k address reliable_ttl made) =
      let (socket, bound, answer) = >>=-eq-ok (unwrap (h.bind k address)) _ made in
      subst (λ (m : AntarcNet Server K). Reach b capacity m.antarc.service) (ok-injective answer)
        Reach.start
  ServerRun-Reach (polled {n = n} {n' = n'} events run returns) =
      poll-Reach b capacity h n n' events (ServerRun-Reach run) returns
  ServerRun-Reach (scheduled reliability send_to payload run returns) =
      Leaves-done
        (schedule-Leaves (Reach-Kept b capacity) h _ (ServerRun-Reach run) reliability send_to
          payload)
        returns
  ServerRun-Reach (schedule_failed reliability send_to payload run returns) =
      Leaves-failed
        (schedule-Leaves (Reach-Kept b capacity) h _ (ServerRun-Reach run) reliability send_to
          payload)
        returns
  ServerRun-Reach (heartbeat_scheduled reliability send_to run returns) =
      Leaves-done
        (heartbeat-Leaves (Reach-Kept b capacity) h _ (ServerRun-Reach run) reliability send_to)
        returns
  ServerRun-Reach (heartbeat_failed reliability send_to run returns) =
      Leaves-failed
        (heartbeat-Leaves (Reach-Kept b capacity) h _ (ServerRun-Reach run) reliability send_to)
        returns

  -- On every run of a server with its socket, whatever the socket delivers and the clock says, and
  -- in whatever order the server is polled and its user schedules payloads and heartbeats, as long
  -- as every call returns, the invariant of the tables holds: no peer is left requesting,
  -- connection ids stay between 1 and the tracker, no id awaits an ack and is connected, no two
  -- ids share an address, and the groups of fragments fit.
  pub ServerRun-Inv : {n : AntarcNet Server K} → ServerRun h b capacity n → Inv n.antarc.service
  ServerRun-Inv run = Reach-Inv b (ServerRun-Reach run)
