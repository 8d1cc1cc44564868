-- ===== src/Net/ServerLoop.antt =====
-- A server with its socket: antarc/src/server.rs.
use antarc.Scheduler.{push}
use antarc.Service.{server_service}
use antarc.Packets.Encode.{connection_request_encoder, connection_accepted_encoder}
use antarc.Protocol.{Protocol}
use antarc.Events.{fail, ServerEvent, ProtocolEvent}
use antarc.Packets.Delivery.{Duration, Duration}
use antarc.Server.{Server}
use antarc.Base.Errors.{SocketAddr}
use antarc.Packets.Message.{ConnectionAccepted}
use antarc.Packets.Scheduled.{Scheduled, Reliable}
use antarc.Protocol.Calls.{create_accepted, server_poll, retry_accepted, drain_connection_accepted}
use antarc.Shared.{◌*◌, List, ℕ}
use antarc.Protocol.Sides.{server_accepted_sent, server_received, new_server_protocol}
use antarc.Base.Words.{Build}
use antarc.Net
use antarc.Net.{zeroed, AntarcNet, Host, send_drained, resend, now}
use antarc.Net.Polls.{
  poll_retry_data_transfer, poll_retry_fragment, poll_unreliable_data_transfer,
  poll_reliable_data_transfer, poll_unreliable_fragment, poll_reliable_fragment,
  poll_unreliable_heartbeat, poll_reliable_heartbeat,
}
use antarc.Base.Results.{unwrap, ok, ◌>>=◌, Result}

-- `drain_connection_accepted` on the service of the protocol.
abbrev pub drain_accepted :
    Protocol Server → Protocol Server × List (Scheduled Reliable ConnectionAccepted)
drain_accepted p =
    let (service, list) = drain_connection_accepted p.service in
    (record p { service = service }, list)

module _ {K : Type 0} (h : Host K) where
  -- `AntarcNet::new_server`, on a host whose socket and timer are not in use yet.
  unfoldable pub new_server : K → SocketAddr → ℕ → Duration → Result (AntarcNet Server K)
  unfolding new_server_protocol
  new_server k address capacity reliable_ttl = do
    socket ← unwrap (h.bind k address)
    ok (record {
      antarc = new_server_protocol capacity reliable_ttl;
      address = address;
      socket = socket;
      recv_buffer = zeroed (1500 * 5);
    })

  module _ (b : Build) where
    unfoldable pub poll_retry_connection_accepted : AntarcNet Server K → Result (AntarcNet Server K)
    unfolding resend retry_accepted server_accepted_sent
    poll_retry_connection_accepted = resend h b server_accepted_sent retry_accepted

    unfoldable pub poll_connection_accepted : AntarcNet Server K → Result (AntarcNet Server K)
    unfolding send_drained drain_connection_accepted server_accepted_sent create_accepted
    poll_connection_accepted = send_drained h b server_accepted_sent drain_accepted create_accepted

    -- The ten calls at the head of `poll`.
    unfoldable pub send_scheduled : AntarcNet Server K → Result (AntarcNet Server K)
    unfolding poll_retry_connection_accepted poll_connection_accepted poll_retry_data_transfer
        poll_retry_fragment poll_unreliable_data_transfer poll_reliable_data_transfer
        poll_unreliable_fragment poll_reliable_fragment poll_unreliable_heartbeat
        poll_reliable_heartbeat
    send_scheduled n₀ = do
      n₁ ← poll_retry_connection_accepted n₀
      n₂ ← poll_retry_data_transfer server_service h b n₁
      n₃ ← poll_retry_fragment server_service h b n₂
      n₄ ← poll_connection_accepted n₃
      n₅ ← poll_unreliable_data_transfer server_service h b n₄
      n₆ ← poll_reliable_data_transfer server_service h b n₅
      n₇ ← poll_unreliable_fragment server_service h b n₆
      n₈ ← poll_reliable_fragment server_service h b n₇
      n₉ ← poll_unreliable_heartbeat server_service h b n₈
      poll_reliable_heartbeat server_service h b n₉

    -- `recv_from`, `on_received`, and `api.push(ProtocolEvent::Fail(fail))` on an error.
    unfoldable pub receive : AntarcNet Server K → Result (AntarcNet Server K)
    unfolding Net.receive server_received
    receive =
        Net.receive h (server_received b)
          (λ s problem. record s { api = push s.api (fail problem) })

    -- `AntarcNet::<Server>::poll`
    unfoldable pub poll :
        AntarcNet Server K → Result (AntarcNet Server K × List (ProtocolEvent ServerEvent))
    unfolding send_scheduled receive now server_poll
    poll n = do
      n₁ ← send_scheduled n
      n₂ ← receive n₁
      let (n₃, time) = now h n₂
      answer ← server_poll n₃.antarc time
      ok (record n₃ { antarc = answer.0 }, answer.1)
