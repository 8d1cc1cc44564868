-- ===== src/Net/KeptPolls.antt =====
-- What the `poll_` methods of antarc/src/lib.rs keep.
use antarc.Packets.Scheduled.{ReliabilityType}
use antarc.Net.Kept.{resend_kept, send_drained_kept}
use antarc.Packets.Message.{Heartbeat, DataTransfer, Fragment}
use antarc.Packets.Packet.{Packet}
use antarc.Net.Polls.{
  create, poll_reliable_fragment, poll_unreliable_heartbeat, poll_retry_fragment,
  poll_unreliable_data_transfer, poll_reliable_heartbeat, poll_reliable_data_transfer,
  poll_retry_data_transfer, poll_unreliable_fragment,
}
use antarc.Reliability.{retry_reliable_data_transfer, retry_reliable_fragment, ReliabilityHandler}
use antarc.Packets.Delivery.{ToSend, Duration}
use antarc.Scheduler.{Scheduler}
use antarc.Net.{AntarcNet, Host}
use antarc.Protocol.{Protocol}
use antarc.Base.Words.{Build}
use antarc.Service.{Service}
use antarc.Base.Results.{ok, >>=-eq-ok, ok-injective}
use antarc.Shared.{Option, ◌≡◌, subst}
use antarc.Packets.Encode.{data_transfer_encoder, fragment_encoder, heartbeat_encoder}
use antarc.Protocol.Drains.{
  drain_reliable_heartbeat, retry_data_transfer, drain_unreliable_fragment,
  drain_reliable_data_transfer, drain_unreliable_heartbeat, drain_reliable_fragment,
  drain_unreliable_data_transfer, retry_fragment, fragment_sent, heartbeat_sent, data_transfer_sent,
}

-- `P` is kept by what the loops do with a service.
pub record Kept {S T H : Type 0} (i : Service S T H) (b : Build) (P : S → Type 0) : Type 0 where
  pub scheduler_kept : (s : S) (x : Scheduler T) → P s → P (i.with_scheduler s x)
  pub handler_kept : (s : S) (x : ReliabilityHandler H) → P s → P (i.with_reliability_handler s x)
  pub data_transfer_kept :
      (s s' : S) (packet : Packet ToSend DataTransfer) (time : Duration)
      (reliability : ReliabilityType) (ttl : Duration)
      → i.sent_data_transfer s packet time reliability ttl ≡ ok s'
      → P s
      → P s'
  pub fragment_kept :
      (s s' : S) (packet : Packet ToSend Fragment) (time : Duration) (reliability : ReliabilityType)
      (ttl : Duration)
      → i.sent_fragment b s packet time reliability ttl ≡ ok s'
      → P s
      → P s'
  pub heartbeat_kept :
      (s s' : S) (packet : Packet ToSend Heartbeat) (time : Duration)
      (reliability : ReliabilityType) (ttl : Duration)
      → i.sent_heartbeat s packet time reliability ttl ≡ ok s'
      → P s
      → P s'

module _ {S T H : Type 0} {i : Service S T H} {b : Build} {P : S → Type 0} (kept : Kept i b P)
    (p p' : Protocol S) (time : Duration) where
  data_transfer_sent_kept :
      (packet : Packet ToSend DataTransfer) (reliability : ReliabilityType)
      → data_transfer_sent i p packet reliability time ≡ ok p'
      → P p.service
      → P p'.service
  unfolding data_transfer_sent
  data_transfer_sent_kept packet reliability returns before =
      let (service, was_sent, answer) =
        >>=-eq-ok (i.sent_data_transfer p.service packet time reliability p.reliable_ttl) _
          returns in
      subst (λ (q : Protocol S). P q.service) (ok-injective answer)
        (kept.data_transfer_kept p.service service packet time reliability p.reliable_ttl was_sent
          before)

  fragment_sent_kept :
      (packet : Packet ToSend Fragment) (reliability : ReliabilityType)
      → fragment_sent i b p packet reliability time ≡ ok p'
      → P p.service
      → P p'.service
  unfolding fragment_sent
  fragment_sent_kept packet reliability returns before =
      let (service, was_sent, answer) =
        >>=-eq-ok (i.sent_fragment b p.service packet time reliability p.reliable_ttl) _ returns in
      subst (λ (q : Protocol S). P q.service) (ok-injective answer)
        (kept.fragment_kept p.service service packet time reliability p.reliable_ttl was_sent
          before)

  heartbeat_sent_kept :
      (packet : Packet ToSend Heartbeat) (reliability : ReliabilityType)
      → heartbeat_sent i p packet reliability time ≡ ok p'
      → P p.service
      → P p'.service
  unfolding heartbeat_sent
  heartbeat_sent_kept packet reliability returns before =
      let (service, was_sent, answer) =
        >>=-eq-ok (i.sent_heartbeat p.service packet time reliability p.reliable_ttl) _ returns in
      subst (λ (q : Protocol S). P q.service) (ok-injective answer)
        (kept.heartbeat_kept p.service service packet time reliability p.reliable_ttl was_sent
          before)

-- The `poll_` methods of antarc/src/lib.rs, and its two methods for the user.
module _ {S T H K : Type 0} {i : Service S T H} {b : Build} {P : S → Type 0} (kept : Kept i b P)
    (h : Host K) (n n' : AntarcNet S K) (p : P n.antarc.service) where
  pub poll_reliable_fragment_kept : poll_reliable_fragment i h b n ≡ ok n' → P n'.antarc.service
  unfolding poll_reliable_fragment drain_reliable_fragment
  poll_reliable_fragment_kept returns =
      send_drained_kept h b P _
        (λ q q' packet time. fragment_sent_kept kept q q' time packet ReliabilityType.reliable)
        (create i (λ (m : Fragment). m.connection_id)) (drain_reliable_fragment i) n n'
        (kept.scheduler_kept n.antarc.service _ p) returns

  pub poll_reliable_data_transfer_kept :
      poll_reliable_data_transfer i h b n ≡ ok n' → P n'.antarc.service
  unfolding poll_reliable_data_transfer drain_reliable_data_transfer
  poll_reliable_data_transfer_kept returns =
      send_drained_kept h b P _
        (λ q q' packet time. data_transfer_sent_kept kept q q' time packet ReliabilityType.reliable)
        (create i (λ (m : DataTransfer). m.connection_id)) (drain_reliable_data_transfer i) n n'
        (kept.scheduler_kept n.antarc.service _ p) returns

  pub poll_unreliable_fragment_kept : poll_unreliable_fragment i h b n ≡ ok n' → P n'.antarc.service
  unfolding poll_unreliable_fragment drain_unreliable_fragment
  poll_unreliable_fragment_kept returns =
      send_drained_kept h b P _
        (λ q q' packet time. fragment_sent_kept kept q q' time packet ReliabilityType.unreliable)
        (create i (λ (m : Fragment). m.connection_id)) (drain_unreliable_fragment i) n n'
        (kept.scheduler_kept n.antarc.service _ p) returns

  pub poll_unreliable_data_transfer_kept :
      poll_unreliable_data_transfer i h b n ≡ ok n' → P n'.antarc.service
  unfolding poll_unreliable_data_transfer drain_unreliable_data_transfer
  poll_unreliable_data_transfer_kept returns =
      send_drained_kept h b P _
        (λ q q' packet time.
          data_transfer_sent_kept kept q q' time packet ReliabilityType.unreliable)
        (create i (λ (m : DataTransfer). m.connection_id)) (drain_unreliable_data_transfer i) n n'
        (kept.scheduler_kept n.antarc.service _ p) returns

  pub poll_unreliable_heartbeat_kept :
      poll_unreliable_heartbeat i h b n ≡ ok n' → P n'.antarc.service
  unfolding poll_unreliable_heartbeat drain_unreliable_heartbeat
  poll_unreliable_heartbeat_kept returns =
      send_drained_kept h b P _
        (λ q q' packet time. heartbeat_sent_kept kept q q' time packet ReliabilityType.unreliable)
        (create i (λ (m : Heartbeat). m.connection_id)) (drain_unreliable_heartbeat i) n n'
        (kept.scheduler_kept n.antarc.service _ p) returns

  pub poll_reliable_heartbeat_kept : poll_reliable_heartbeat i h b n ≡ ok n' → P n'.antarc.service
  unfolding poll_reliable_heartbeat drain_reliable_heartbeat
  poll_reliable_heartbeat_kept returns =
      send_drained_kept h b P _
        (λ q q' packet time. heartbeat_sent_kept kept q q' time packet ReliabilityType.reliable)
        (create i (λ (m : Heartbeat). m.connection_id)) (drain_reliable_heartbeat i) n n'
        (kept.scheduler_kept n.antarc.service _ p) returns

  pub poll_retry_data_transfer_kept : poll_retry_data_transfer i h b n ≡ ok n' → P n'.antarc.service
  unfolding poll_retry_data_transfer retry_data_transfer
  poll_retry_data_transfer_kept returns =
      resend_kept h b P _
        (λ q q' packet time. data_transfer_sent_kept kept q q' time packet ReliabilityType.reliable)
        (retry_data_transfer i) n n'
        (λ time q packet found.
          let (answer, e, rest) =
            >>=-eq-ok (retry_reliable_data_transfer (i.reliability_handler n.antarc.service) time) _
              found in
          subst (λ (a : Protocol S × Option (Packet ToSend DataTransfer)). P a.0.service)
            (ok-injective rest) (kept.handler_kept n.antarc.service answer.0 p))
        returns

  pub poll_retry_fragment_kept : poll_retry_fragment i h b n ≡ ok n' → P n'.antarc.service
  unfolding poll_retry_fragment retry_fragment
  poll_retry_fragment_kept returns =
      resend_kept h b P _
        (λ q q' packet time. fragment_sent_kept kept q q' time packet ReliabilityType.reliable)
        (retry_fragment i) n n'
        (λ time q packet found.
          let (answer, e, rest) =
            >>=-eq-ok (retry_reliable_fragment (i.reliability_handler n.antarc.service) time) _
              found in
          subst (λ (a : Protocol S × Option (Packet ToSend Fragment)). P a.0.service)
            (ok-injective rest) (kept.handler_kept n.antarc.service answer.0 p))
        returns
