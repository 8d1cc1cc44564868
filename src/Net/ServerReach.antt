-- ===== src/Net/ServerReach.antt =====
-- The loop of antarc/src/server.rs runs a server through its operations only.
use antarc.Events.{ServerEvent, ProtocolEvent}
use antarc.Packets.Message.{ConnectionAccepted}
use antarc.Net.Polls.{
  poll_unreliable_fragment, poll_reliable_fragment, poll_unreliable_heartbeat,
  poll_reliable_data_transfer, poll_unreliable_data_transfer, poll_retry_fragment,
  poll_retry_data_transfer,
}
use antarc.Packets.Delivery.{Duration, ToSend}
use antarc.Net.Kept.{receive_kept, resend_kept, send_drained_kept}
use antarc.Protocol.Calls.{server_poll, create_accepted, drain_connection_accepted, retry_accepted}
use antarc.Packets.Packet.{RawPacket, Packet}
use antarc.Server.{retry_reliable_connection_accepted, sent_connection_accepted, Server}
use antarc.Protocol.{u64_mod, Protocol}
use antarc.Net.{now, AntarcNet, Host}
use antarc.Protocol.Sides.{server_received, count_received, server_accepted_sent}
use antarc.Base.Words.{checked_sum, Build}
use antarc.Shared.{Option, List, true, false, Bool, ◌≡◌, ℕ, subst, refl}
use antarc.Base.Results.{
  left_panicked, left_done, left_failed, Leaves, lift-Leaves, Reply, ok, >>=-eq-ok, ok-injective,
  panicked, done, failed,
}
use antarc.Server.Reach.{
  Reach, next, accepted_sent, data_sent, fragment_sent, heartbeat_sent, retried, polled, received,
  refused, scheduler_mut, reliability_handler_mut, reported,
}
use antarc.Service.{server_service}
use antarc.Net.KeptPolls.{
  poll_reliable_heartbeat_kept, poll_unreliable_heartbeat_kept, poll_reliable_fragment_kept,
  poll_unreliable_fragment_kept, poll_reliable_data_transfer_kept,
  poll_unreliable_data_transfer_kept, poll_retry_fragment_kept, poll_retry_data_transfer_kept, Kept,
}
use antarc.Net.ServerLoop
use antarc.Server.Handle
use antarc.Server.Poll
use antarc.Packets.Encode.{connection_accepted_encoder}

module _ (b : Build) (capacity : ℕ) where
  pub Reach-Kept : Kept server_service b (Reach b capacity)
  Reach-Kept = record {
    scheduler_kept = λ s x r. next r (scheduler_mut x refl);
    handler_kept = λ s x r. next r (reliability_handler_mut x refl);
    data_transfer_kept =
        λ s s' packet time reliability ttl e r. next r (data_sent packet time reliability ttl e);
    fragment_kept = λ s s' packet time reliability ttl e r.
        next r (fragment_sent packet time reliability ttl e);
    heartbeat_kept = λ s s' packet time reliability ttl e r.
        next r (heartbeat_sent packet time reliability ttl e);
  }

  accepted_sent-Reach :
      (p p' : Protocol Server) (packet : Packet ToSend ConnectionAccepted) (time : Duration)
      → server_accepted_sent p packet time ≡ ok p'
      → Reach b capacity p.service
      → Reach b capacity p'.service
  unfolding server_accepted_sent
  accepted_sent-Reach p p' packet time returns r =
      let (service, was_sent, answer) =
        >>=-eq-ok (sent_connection_accepted p.service packet time p.reliable_ttl) _ returns in
      subst (λ (q : Protocol Server). Reach b capacity q.service) (ok-injective answer)
        (next r (accepted_sent packet time p.reliable_ttl was_sent))

  module _ {K : Type 0} (h : Host K) (n n' : AntarcNet Server K)
      (r : Reach b capacity n.antarc.service) where
    poll_connection_accepted-Reach :
        ServerLoop.poll_connection_accepted h b n ≡ ok n' → Reach b capacity n'.antarc.service
    unfolding ServerLoop.poll_connection_accepted drain_connection_accepted
    poll_connection_accepted-Reach returns =
        send_drained_kept h b (Reach b capacity) server_accepted_sent accepted_sent-Reach
          create_accepted ServerLoop.drain_accepted n n'
          (next r (scheduler_mut (drain_connection_accepted n.antarc.service).0.scheduler refl))
          returns

    poll_retry_connection_accepted-Reach :
        ServerLoop.poll_retry_connection_accepted h b n ≡ ok n' → Reach b capacity n'.antarc.service
    unfolding ServerLoop.poll_retry_connection_accepted retry_accepted
    poll_retry_connection_accepted-Reach returns =
        resend_kept h b (Reach b capacity) server_accepted_sent accepted_sent-Reach retry_accepted n
          n'
          (λ time q packet found.
            let (answer, e, rest) =
              >>=-eq-ok (retry_reliable_connection_accepted n.antarc.service time) _ found in
            subst
              (λ (a : Protocol Server × Option (Packet ToSend ConnectionAccepted)).
                Reach b capacity a.0.service)
              (ok-injective rest) (next r (retried time answer.1 e)))
          returns

  module _ {K : Type 0} (h : Host K) where
    send_scheduled-Reach :
        (n n' : AntarcNet Server K)
        → ServerLoop.send_scheduled h b n ≡ ok n'
        → Reach b capacity n.antarc.service
        → Reach b capacity n'.antarc.service
    unfolding ServerLoop.send_scheduled
    send_scheduled-Reach n n' returns r₀ =
        let (n₁, e₁, rest₁) =
          >>=-eq-ok (ServerLoop.poll_retry_connection_accepted h b n) _ returns in
        let (n₂, e₂, rest₂) = >>=-eq-ok (poll_retry_data_transfer server_service h b n₁) _ rest₁ in
        let (n₃, e₃, rest₃) = >>=-eq-ok (poll_retry_fragment server_service h b n₂) _ rest₂ in
        let (n₄, e₄, rest₄) = >>=-eq-ok (ServerLoop.poll_connection_accepted h b n₃) _ rest₃ in
        let (n₅, e₅, rest₅) =
          >>=-eq-ok (poll_unreliable_data_transfer server_service h b n₄) _ rest₄ in
        let (n₆, e₆, rest₆) =
          >>=-eq-ok (poll_reliable_data_transfer server_service h b n₅) _ rest₅ in
        let (n₇, e₇, rest₇) = >>=-eq-ok (poll_unreliable_fragment server_service h b n₆) _ rest₆ in
        let (n₈, e₈, rest₈) = >>=-eq-ok (poll_reliable_fragment server_service h b n₇) _ rest₇ in
        let (n₉, e₉, rest₉) = >>=-eq-ok (poll_unreliable_heartbeat server_service h b n₈) _ rest₈ in
        let r₁ = poll_retry_connection_accepted-Reach h n n₁ r₀ e₁ in
        let r₂ = poll_retry_data_transfer_kept Reach-Kept h n₁ n₂ r₁ e₂ in
        let r₃ = poll_retry_fragment_kept Reach-Kept h n₂ n₃ r₂ e₃ in
        let r₄ = poll_connection_accepted-Reach h n₃ n₄ r₃ e₄ in
        let r₅ = poll_unreliable_data_transfer_kept Reach-Kept h n₄ n₅ r₄ e₅ in
        let r₆ = poll_reliable_data_transfer_kept Reach-Kept h n₅ n₆ r₅ e₆ in
        let r₇ = poll_unreliable_fragment_kept Reach-Kept h n₆ n₇ r₆ e₇ in
        let r₈ = poll_reliable_fragment_kept Reach-Kept h n₇ n₈ r₇ e₈ in
        let r₉ = poll_unreliable_heartbeat_kept Reach-Kept h n₈ n₉ r₈ e₉ in
        poll_reliable_heartbeat_kept Reach-Kept h n₉ n' r₉ rest₉

    server_received-Reach :
        (p : Protocol Server) (raw : RawPacket) (time : Duration)
        → Reach b capacity p.service
        → Leaves
            (λ (q : Protocol Server). Reach b capacity q.service)
            (server_received b p raw time)
    unfolding server_received count_received
    server_received-Reach p raw time r =
        by_cases (Handle.on_received b p.service raw p.packet_id_tracker time) refl
      where
        by_cases :
            (reply : Reply Server Bool)
            → Handle.on_received b p.service raw p.packet_id_tracker time ≡ reply
            → Leaves
                (λ (q : Protocol Server). Reach b capacity q.service)
                (count_received b p reply)
        by_cases panicked e = left_panicked
        by_cases (failed s problem) e =
            left_failed (next r (refused raw p.packet_id_tracker time problem e))
        by_cases (done s true) e =
            let r' = next r (received raw p.packet_id_tracker time true e) in
            lift-Leaves (λ (q : Protocol Server). Reach b capacity q.service)
              (record p { service = s }) (checked_sum b u64_mod p.packet_id_tracker 1) r'
              (λ tracker. left_done r')
        by_cases (done s false) e =
            left_done (next r (received raw p.packet_id_tracker time false e))

    -- A poll of the server that returns is a run of its operations: from a server that operations
    -- of the service reach, in whatever state the socket is, it comes to such a server.
    pub poll-Reach :
        (n n' : AntarcNet Server K) (events : List (ProtocolEvent ServerEvent))
        → Reach b capacity n.antarc.service
        → ServerLoop.poll h b n ≡ ok (n', events)
        → Reach b capacity n'.antarc.service
    unfolding ServerLoop.poll ServerLoop.receive server_poll now
    poll-Reach n n' events r returns =
        let (n₁, e₁, rest₁) = >>=-eq-ok (ServerLoop.send_scheduled h b n) _ returns in
        let (n₂, e₂, rest₂) = >>=-eq-ok (ServerLoop.receive h b n₁) _ rest₁ in
        let (answer, e₃, rest₃) =
          >>=-eq-ok (server_poll (now h n₂).0.antarc (now h n₂).1) _ rest₂ in
        let (polled_service, e₄, rest₄) =
          >>=-eq-ok (Poll.poll n₂.antarc.service (now h n₂).1) _ e₃ in
        let r₂ =
          receive_kept h (Reach b capacity) (server_received b) _ server_received-Reach
            (λ s problem x. next x (reported problem refl)) n₁ n₂ (send_scheduled-Reach n n₁ e₁ r)
            e₂ in
        let r₃ = next r₂ (polled (now h n₂).1 polled_service.1 e₄) in
        let told =
          subst
            (λ (a : Protocol Server × List (ProtocolEvent ServerEvent)).
              Reach b capacity a.0.service)
            (ok-injective rest₄) r₃ in
        subst
          (λ (a : AntarcNet Server K × List (ProtocolEvent ServerEvent)).
            Reach b capacity a.0.antarc.service)
          (ok-injective rest₃) told
