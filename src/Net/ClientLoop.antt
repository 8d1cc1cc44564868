-- ===== src/Net/ClientLoop.antt =====
-- A client with its socket: antarc/src/client.rs.
use antarc.Scheduler.{push}
use antarc.Packets.Encode.{connection_request_encoder, connection_accepted_encoder}
use antarc.Protocol.{Protocol}
use antarc.Packets.Message.{ConnectionRequest}
use antarc.Packets.Scheduled.{Scheduled, Reliable}
use antarc.Events.{fail, ClientEvent, ProtocolEvent}
use antarc.Shared.{◌*◌, List}
use antarc.Base.Errors.{SocketAddr}
use antarc.Protocol.Calls.{
  create_request, client_poll, drain_connection_request, resend_request, client_received,
}
use antarc.Client.{Client}
use antarc.Protocol.Sides.{client_request_sent, client_connect, new_client_protocol}
use antarc.Service.{client_service}
use antarc.Base.Words.{Build, Build}
use antarc.Net
use antarc.Net.{zeroed, AntarcNet, Host, send_drained, resend, now, around}
use antarc.Net.Polls.{
  poll_retry_data_transfer, poll_unreliable_data_transfer, poll_reliable_data_transfer,
  poll_unreliable_fragment, poll_reliable_fragment, poll_unreliable_heartbeat,
  poll_reliable_heartbeat,
}
use antarc.Base.Results.{unwrap, ok, ◌>>=◌, Reply, Reply, Result}

-- `drain_connection_request` on the service of the protocol.
abbrev pub drain_request :
    Protocol Client → Protocol Client × List (Scheduled Reliable ConnectionRequest)
drain_request p =
    let (service, list) = drain_connection_request p.service in
    (record p { service = service }, list)

module _ {K : Type 0} (h : Host K) where
  -- `AntarcNet::new_client`, on a host whose socket and timer are not in use yet.
  unfoldable pub new_client : K → SocketAddr → Result (AntarcNet Client K)
  unfolding new_client_protocol
  new_client k address = do
    socket ← unwrap (h.bind k address)
    ok (record {
      antarc = new_client_protocol;
      address = address;
      socket = socket;
      recv_buffer = zeroed (1500 * 5);
    })

  module _ (b : Build) where
    -- `AntarcNet::connect`
    unfoldable pub connect : AntarcNet Client K → SocketAddr → Reply (AntarcNet Client K) (Unit {0})
    unfolding now around client_connect
    connect n remote_address =
        let (n', time) = now h n in around n' (client_connect b n'.antarc remote_address time)

    unfoldable pub poll_connection_request : AntarcNet Client K → Result (AntarcNet Client K)
    unfolding send_drained drain_connection_request client_request_sent create_request
    poll_connection_request = send_drained h b client_request_sent drain_request create_request

    unfoldable pub poll_retry_connection_request : AntarcNet Client K → Result (AntarcNet Client K)
    unfolding resend resend_request client_request_sent
    poll_retry_connection_request = resend h b client_request_sent resend_request

    -- The nine calls at the head of `poll`.
    unfoldable pub send_scheduled : AntarcNet Client K → Result (AntarcNet Client K)
    unfolding poll_retry_connection_request poll_connection_request poll_retry_data_transfer
        poll_unreliable_data_transfer poll_reliable_data_transfer poll_unreliable_fragment
        poll_reliable_fragment poll_unreliable_heartbeat poll_reliable_heartbeat
    send_scheduled n₀ = do
      n₁ ← poll_retry_connection_request n₀
      n₂ ← poll_retry_data_transfer client_service h b n₁
      n₃ ← poll_connection_request n₂
      n₄ ← poll_unreliable_data_transfer client_service h b n₃
      n₅ ← poll_reliable_data_transfer client_service h b n₄
      n₆ ← poll_unreliable_fragment client_service h b n₅
      n₇ ← poll_reliable_fragment client_service h b n₆
      n₈ ← poll_unreliable_heartbeat client_service h b n₇
      poll_reliable_heartbeat client_service h b n₈

    -- `recv_from`, `on_received`, and `api.push(ProtocolEvent::Fail(fail))` on an error.
    unfoldable pub receive : AntarcNet Client K → Result (AntarcNet Client K)
    unfolding Net.receive client_received
    receive =
        Net.receive h (client_received b)
          (λ s problem. record s { api = push s.api (fail problem) })

    -- `AntarcNet::<Client>::poll`
    unfoldable pub poll :
        AntarcNet Client K → Result (AntarcNet Client K × List (ProtocolEvent ClientEvent))
    unfolding send_scheduled receive now client_poll
    poll n = do
      n₁ ← send_scheduled n
      n₂ ← receive n₁
      let (n₃, time) = now h n₂
      answer ← client_poll n₃.antarc time
      ok (record n₃ { antarc = answer.0 }, answer.1)
