-- ===== src/Net/KeptSchedule.antt =====
-- What `schedule` and `heartbeat` of antarc-protocol/src/lib.rs and antarc/src/lib.rs keep.
use antarc.Protocol.Chunks.{enumerate, chunks}
use antarc.Scheduler.{schedule_for_connected_peer, heartbeat_for_connected_peer}
use antarc.Base.Errors.{scheduled_not_connected, SocketAddr}
use antarc.Shared.HashMap.{is_empty}
use antarc.Packets.Delivery.{Duration, PacketId}
use antarc.Packets.Message.{Payload}
use antarc.Packets.Scheduled.{ReliabilityType}
use antarc.Protocol.{
  u64_mod, heartbeat_for_all, fragment_payload_size, Protocol, schedule_fragments, heartbeat_helper,
  schedule_round, schedule_helper, next_packet_id,
}
use antarc.Net.{now, AntarcNet, Host, around}
use antarc.Net.KeptPolls.{Kept}
use antarc.Base.Words.{checked_sum, Build}
use antarc.Service.{Service}
use antarc.Base.Results.{
  ok_or, lift, if-Leaves, left_panicked, left_done, left_failed, Reply, Leaves, lift-Leaves,
  and_then-Leaves, done, failed, panicked,
}
use antarc.Peers.{SendTo, single, broadcast}
use antarc.Shared.{length, List, ℕ, [], ◌∷◌}
use antarc.Protocol
use antarc.Net.Polls

module _ {S T H : Type 0} {i : Service S T H} {b : Build} {P : S → Type 0} (kept : Kept i b P) where
  schedule_round-Leaves :
      (s : S) (send_to : SendTo) (reliability : ReliabilityType) (packet_id : PacketId)
      (time : Duration) (total index : ℕ) (payload : Payload)
      → P s
      → Leaves P (schedule_round i s send_to reliability packet_id time total index payload)
  unfolding schedule_round
  schedule_round-Leaves s (single connection_id) reliability packet_id time total index payload p =
      lift-Leaves P s
        (ok_or (Protocol.address_of connection_id (i.connected s))
          (scheduled_not_connected connection_id))
        {continue = λ address.
          done
            (i.with_scheduler s (
              schedule_for_connected_peer (i.scheduler s) address payload reliability connection_id
                packet_id time index total))
            tt}
        p (λ address. left_done (kept.scheduler_kept s _ p))
  schedule_round-Leaves s broadcast reliability packet_id time total index payload p =
      left_done (kept.scheduler_kept s _ p)

  schedule_fragments-Leaves :
      (s : S) (send_to : SendTo) (reliability : ReliabilityType) (packet_id : PacketId)
      (time : Duration) (total : ℕ) (fragments : List (ℕ × Payload))
      → P s
      → Leaves P (schedule_fragments i s send_to reliability packet_id time total fragments)
  unfolding schedule_fragments
  schedule_fragments-Leaves s send_to reliability packet_id time total [] p = left_done p
  schedule_fragments-Leaves s send_to reliability packet_id time total
        ((index, payload) ∷ fragments) p =
      and_then-Leaves P
        (schedule_round-Leaves s send_to reliability packet_id time total index payload p)
        (λ s' answer p'.
          schedule_fragments-Leaves s' send_to reliability packet_id time total fragments p')

  -- The last line of both helpers.
  counted-Leaves :
      (s : S) (packet_id : PacketId)
      → P s
      → Leaves P (lift s (checked_sum b u64_mod packet_id 1) (λ result. done s result))
  counted-Leaves s packet_id p =
      lift-Leaves P s (checked_sum b u64_mod packet_id 1) {continue = λ result. done s result} p
        (λ result. left_done p)

  schedule_helper-Leaves :
      (s : S) (reliability : ReliabilityType) (send_to : SendTo) (payload : Payload)
      (packet_id : PacketId) (time : Duration)
      → P s
      → Leaves P (schedule_helper i b s reliability send_to payload packet_id time)
  unfolding schedule_helper
  schedule_helper-Leaves s reliability send_to payload packet_id time p =
      let fragments = enumerate 0 (chunks fragment_payload_size payload) in
      if-Leaves P (is_empty (i.connected s)) (left_failed p) (
        and_then-Leaves P
          {continue = λ s' answer.
            lift s' (checked_sum b u64_mod packet_id 1) (λ result. done s' result)}
          (schedule_fragments-Leaves s send_to reliability packet_id time (length fragments)
            fragments p)
          (λ s' answer p'. counted-Leaves s' packet_id p'))

  heartbeat_helper-Leaves :
      (s : S) (reliability : ReliabilityType) (send_to : SendTo) (packet_id : PacketId)
      (time : Duration)
      → P s
      → Leaves P (heartbeat_helper i b s reliability send_to packet_id time)
  unfolding heartbeat_helper
  heartbeat_helper-Leaves s reliability (single connection_id) packet_id time p =
      let after : SocketAddr → S = λ address. i.with_scheduler s (
        heartbeat_for_connected_peer (i.scheduler s) address reliability connection_id packet_id
          time) in
      if-Leaves P (is_empty (i.connected s)) (left_failed p) (
        lift-Leaves P s
          (ok_or (Protocol.address_of connection_id (i.connected s))
            (scheduled_not_connected connection_id))
          {continue = λ address.
            lift (after address) (checked_sum b u64_mod packet_id 1)
              (λ result. done (after address) result)}
          p (λ address. counted-Leaves (after address) packet_id (kept.scheduler_kept s _ p)))
  heartbeat_helper-Leaves s reliability broadcast packet_id time p =
      if-Leaves P (is_empty (i.connected s)) (left_failed p) (
        counted-Leaves _ packet_id (
          kept.scheduler_kept s
            (heartbeat_for_all (i.scheduler s) (i.connected s) reliability packet_id time) p))

  next_packet_id-Leaves :
      (p : Protocol S) (reply : Reply S PacketId)
      → Leaves P reply
      → Leaves (λ (q : Protocol S). P q.service) (next_packet_id i b p reply)
  unfolding next_packet_id
  next_packet_id-Leaves p (done service packet_id) (left_done before) =
      lift-Leaves (λ (q : Protocol S). P q.service) (record p { service = service })
        (checked_sum b u64_mod p.packet_id_tracker 1)
        {continue = λ tracker.
          done (record p { service = service; packet_id_tracker = tracker }) packet_id}
        before (λ tracker. left_done before)
  next_packet_id-Leaves p (failed service problem) (left_failed before) = left_failed before
  next_packet_id-Leaves p panicked left_panicked = left_panicked

  pub around-Leaves :
      {K A : Type 0} (n : AntarcNet S K) (reply : Reply (Protocol S) A)
      → Leaves (λ (q : Protocol S). P q.service) reply
      → Leaves (λ (m : AntarcNet S K). P m.antarc.service) (around n reply)
  unfolding around
  around-Leaves n (done antarc answer) (left_done before) = left_done before
  around-Leaves n (failed antarc problem) (left_failed before) = left_failed before
  around-Leaves n panicked left_panicked = left_panicked

  module _ {K : Type 0} (h : Host K) (n : AntarcNet S K) (p : P n.antarc.service) where
    pub schedule-Leaves :
        (reliability : ReliabilityType) (send_to : SendTo) (payload : Payload)
        → Leaves
            (λ (m : AntarcNet S K). P m.antarc.service)
            (Polls.schedule i h b n reliability send_to payload)
    unfolding Polls.schedule Protocol.schedule now
    schedule-Leaves reliability send_to payload = around-Leaves (now h n).0 _ (
        next_packet_id-Leaves n.antarc _
          (schedule_helper-Leaves n.antarc.service reliability send_to payload _ _ p))

    pub heartbeat-Leaves :
        (reliability : ReliabilityType) (send_to : SendTo)
        → Leaves
            (λ (m : AntarcNet S K). P m.antarc.service)
            (Polls.heartbeat i h b n reliability send_to)
    unfolding Polls.heartbeat Protocol.heartbeat now
    heartbeat-Leaves reliability send_to = around-Leaves (now h n).0 _ (
        next_packet_id-Leaves n.antarc _
          (heartbeat_helper-Leaves n.antarc.service reliability send_to _ _ p))
