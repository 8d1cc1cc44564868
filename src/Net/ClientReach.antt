-- ===== src/Net/ClientReach.antt =====
-- The loop of antarc/src/client.rs runs a client through its operations only.
use antarc.Client.Asks.{connect_refused}
use antarc.Net.Kept.{send_drained_kept, resend_kept, receive_kept}
use antarc.Packets.Message.{ConnectionRequest}
use antarc.Packets.Delivery.{Duration, ToSend}
use antarc.Net.{now, AntarcNet, Host}
use antarc.Base.Errors.{SocketAddr}
use antarc.Packets.Packet.{Packet, RawPacket}
use antarc.Client.{Client}
use antarc.Base.Words.{Build, checked_sum}
use antarc.Shared.{Option, sym, ◌≡◌, subst, refl, List}
use antarc.Base.Results.{
  lift-Leaves, ok, >>=-eq-ok, ok-injective, panicked, done, failed, Reply, Leaves, left_done,
  left_failed, left_panicked,
}
use antarc.Client.Reach.{
  ClientReach, next, connecting, request_sent, data_sent, fragment_sent, heartbeat_sent, resent,
  polled, received, refused, scheduler_mut, reliability_handler_mut, reported,
}
use antarc.Service.{client_service}
use antarc.Net.KeptPolls.{
  Kept, poll_retry_data_transfer_kept, poll_unreliable_data_transfer_kept,
  poll_reliable_data_transfer_kept, poll_unreliable_fragment_kept, poll_reliable_fragment_kept,
  poll_unreliable_heartbeat_kept, poll_reliable_heartbeat_kept,
}
use antarc.Net.Polls.{
  poll_retry_data_transfer, poll_unreliable_data_transfer, poll_reliable_data_transfer,
  poll_unreliable_fragment, poll_reliable_fragment, poll_unreliable_heartbeat,
}
use antarc.Net.ClientLoop
use antarc.Client.Handle
use antarc.Client
use antarc.Protocol.Calls.{
  client_received, client_poll, create_request, drain_connection_request, resend_request,
}
use antarc.Protocol.Sides.{client_connect, count_connect, client_request_sent}
use antarc.Protocol.{Protocol, u64_mod}
use antarc.Packets.Encode.{connection_request_encoder}
use antarc.Events.{ProtocolEvent, ClientEvent}

module _ (b : Build) where
  pub ClientReach-Kept : Kept client_service b (ClientReach b)
  ClientReach-Kept = record {
    scheduler_kept = λ c x r. next r (scheduler_mut x refl);
    handler_kept = λ c x r. next r (reliability_handler_mut x refl);
    data_transfer_kept =
        λ c c' packet time reliability ttl e r. next r (data_sent packet time reliability ttl e);
    fragment_kept = λ c c' packet time reliability ttl e r.
        next r (fragment_sent packet time reliability ttl e);
    heartbeat_kept = λ c c' packet time reliability ttl e r.
        next r (heartbeat_sent packet time reliability ttl e);
  }

  request_sent-ClientReach :
      (p p' : Protocol Client) (packet : Packet ToSend ConnectionRequest) (time : Duration)
      → client_request_sent p packet time ≡ ok p'
      → ClientReach b p.service
      → ClientReach b p'.service
  unfolding client_request_sent
  request_sent-ClientReach p p' packet time returns r =
      let (service, was_sent, answer) =
        >>=-eq-ok (Client.sent_connection_request p.service packet time p.reliable_ttl) _ returns in
      subst (λ (q : Protocol Client). ClientReach b q.service) (ok-injective answer)
        (next r (request_sent packet time p.reliable_ttl was_sent))

  client_received-ClientReach :
      (p : Protocol Client) (raw : RawPacket) (time : Duration)
      → ClientReach b p.service
      → Leaves (λ (q : Protocol Client). ClientReach b q.service) (client_received b p raw time)
  unfolding client_received
  client_received-ClientReach p raw time r = by_cases (Handle.on_received b p.service raw time) refl
    where
      by_cases :
          (reply : Reply Client (Unit {0}))
          → Handle.on_received b p.service raw time ≡ reply
          → Leaves
              (λ (q : Protocol Client). ClientReach b q.service)
              (elim reply [
                | Reply.panicked ↦ Reply.panicked
                | failed service problem ↦ failed (record p { service = service }) problem
                | done service answer ↦ done (record p { service = service }) answer
              ])
      by_cases panicked e = left_panicked
      by_cases (failed c problem) e = left_failed (next r (refused raw time problem e))
      by_cases (done c answer) e = left_done (next r (received raw time e))

  pub client_connect-ClientReach :
      (p : Protocol Client) (address : SocketAddr) (time : Duration)
      → ClientReach b p.service
      → Leaves (λ (q : Protocol Client). ClientReach b q.service) (client_connect b p address time)
  unfolding client_connect count_connect
  client_connect-ClientReach p address time r =
      by_cases (Client.connect p.service address p.packet_id_tracker time) refl
    where
      by_cases :
          (reply : Reply Client (Unit {0}))
          → Client.connect p.service address p.packet_id_tracker time ≡ reply
          → Leaves (λ (q : Protocol Client). ClientReach b q.service) (count_connect b p reply)
      by_cases panicked e = left_panicked
      by_cases (failed c problem) e = left_failed (
          subst (ClientReach b)
            (sym (connect_refused p.service c address p.packet_id_tracker time problem e)) r)
      by_cases (done c answer) e =
          let r' = next r (connecting address p.packet_id_tracker time e) in
          lift-Leaves (λ (q : Protocol Client). ClientReach b q.service) (record p { service = c })
            (checked_sum b u64_mod p.packet_id_tracker 1) r' (λ tracker. left_done r')

  module _ {K : Type 0} (h : Host K) where
    send_scheduled-ClientReach :
        (n n' : AntarcNet Client K)
        → ClientLoop.send_scheduled h b n ≡ ok n'
        → ClientReach b n.antarc.service
        → ClientReach b n'.antarc.service
    unfolding ClientLoop.send_scheduled ClientLoop.poll_retry_connection_request
        ClientLoop.poll_connection_request drain_connection_request resend_request
    send_scheduled-ClientReach n n' returns r =
        let kept = ClientReach-Kept in
        let (n₁, e₁, rest₁) =
          >>=-eq-ok (ClientLoop.poll_retry_connection_request h b n) _ returns in
        let (n₂, e₂, rest₂) = >>=-eq-ok (poll_retry_data_transfer client_service h b n₁) _ rest₁ in
        let (n₃, e₃, rest₃) = >>=-eq-ok (ClientLoop.poll_connection_request h b n₂) _ rest₂ in
        let (n₄, e₄, rest₄) =
          >>=-eq-ok (poll_unreliable_data_transfer client_service h b n₃) _ rest₃ in
        let (n₅, e₅, rest₅) =
          >>=-eq-ok (poll_reliable_data_transfer client_service h b n₄) _ rest₄ in
        let (n₆, e₆, rest₆) = >>=-eq-ok (poll_unreliable_fragment client_service h b n₅) _ rest₅ in
        let (n₇, e₇, rest₇) = >>=-eq-ok (poll_reliable_fragment client_service h b n₆) _ rest₆ in
        let (n₈, e₈, rest₈) = >>=-eq-ok (poll_unreliable_heartbeat client_service h b n₇) _ rest₇ in
        let r₁ =
          resend_kept h b (ClientReach b) client_request_sent request_sent-ClientReach
            resend_request n n₁
            (λ time q packet found.
              let (answer, e, rest) =
                >>=-eq-ok (Client.resend_reliable_connection_request n.antarc.service time) _
                  found in
              subst
                (λ (a : Protocol Client × Option (Packet ToSend ConnectionRequest)).
                  ClientReach b a.0.service)
                (ok-injective rest) (next r (resent time answer.1 e)))
            e₁ in
        let r₂ = poll_retry_data_transfer_kept kept h n₁ n₂ r₁ e₂ in
        let drained = (drain_connection_request n₂.antarc.service).0.scheduler in
        let r₃ =
          send_drained_kept h b (ClientReach b) client_request_sent request_sent-ClientReach
            create_request ClientLoop.drain_request n₂ n₃ (next r₂ (scheduler_mut drained refl))
            e₃ in
        let r₄ = poll_unreliable_data_transfer_kept kept h n₃ n₄ r₃ e₄ in
        let r₅ = poll_reliable_data_transfer_kept kept h n₄ n₅ r₄ e₅ in
        let r₆ = poll_unreliable_fragment_kept kept h n₅ n₆ r₅ e₆ in
        let r₇ = poll_reliable_fragment_kept kept h n₆ n₇ r₆ e₇ in
        let r₈ = poll_unreliable_heartbeat_kept kept h n₇ n₈ r₇ e₈ in
        poll_reliable_heartbeat_kept kept h n₈ n' r₈ rest₈

    -- A poll of the client that returns is a run of its operations: from a client that operations
    -- of the service reach, in whatever state the socket is, it comes to such a client.
    pub poll-ClientReach :
        (n n' : AntarcNet Client K) (events : List (ProtocolEvent ClientEvent))
        → ClientReach b n.antarc.service
        → ClientLoop.poll h b n ≡ ok (n', events)
        → ClientReach b n'.antarc.service
    unfolding ClientLoop.poll ClientLoop.receive client_poll now
    poll-ClientReach n n' events r returns =
        let (n₁, e₁, rest₁) = >>=-eq-ok (ClientLoop.send_scheduled h b n) _ returns in
        let (n₂, e₂, rest₂) = >>=-eq-ok (ClientLoop.receive h b n₁) _ rest₁ in
        let (answer, e₃, rest₃) =
          >>=-eq-ok (client_poll (now h n₂).0.antarc (now h n₂).1) _ rest₂ in
        let (polled_service, e₄, rest₄) =
          >>=-eq-ok (Handle.poll n₂.antarc.service (now h n₂).1) _ e₃ in
        let r₂ =
          receive_kept h (ClientReach b) (client_received b) _ client_received-ClientReach
            (λ c problem x. next x (reported problem refl)) n₁ n₂
            (send_scheduled-ClientReach n n₁ e₁ r) e₂ in
        let r₃ = next r₂ (polled (now h n₂).1 polled_service.1 e₄) in
        let told =
          subst
            (λ (a : Protocol Client × List (ProtocolEvent ClientEvent)). ClientReach b a.0.service)
            (ok-injective rest₄) r₃ in
        subst
          (λ (a : AntarcNet Client K × List (ProtocolEvent ClientEvent)).
            ClientReach b a.0.antarc.service)
          (ok-injective rest₃) told
