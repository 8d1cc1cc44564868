-- ===== src/Net/Fragments.antt =====
-- The loops over fragments of antarc/src/lib.rs, for the fragments of one payload to a peer.
use antarc.Shared.HashMap.{get}
use antarc.Peers.{Connected, Peer}
use antarc.Net.{AntarcNet, Host, send_all}
use antarc.Packets.Delivery.{Duration, ToSend}
use antarc.Scheduler.{Scheduler}
use antarc.Protocol.{Protocol}
use antarc.Packets.Scheduled.{into_packet, ReliabilityType, Scheduled}
use antarc.Packets.Packet.{Packet}
use antarc.Base.Errors.{SocketAddr}
use antarc.Base.Words.{u32_mod, Build}
use antarc.Packets.Message.{Fragment, Ack, Sequence, ConnectionId}
use antarc.Service.{Service}
use antarc.Shared.{
  refl, ap, List, [], ◌∷◌, ◌++◌, map, All, some, ◌≡◌, ◌≢◌, ◌<◌, ◌+◌, ◌-◌, subst, sym, false,
  append_assoc,
}
use antarc.Base.Results.{ok}
use antarc.Packets.Encode.{fragment_encoder}
use antarc.Protocol.Drains.{fragment_sent}
use antarc.Net.Polls.{create}
use antarc.Net.Sending.{Sends, send_one_logs, datagram}
use antarc.Net.Transfers.{Sending, IsSent, IsTo, IsReady, create-IsReady, sent-IsReady, sent_to}

-- What the loops need of `sent_fragment`: a fragment that is not the last of its group leaves
-- the peer as it was, and the last one moves its sequence on.
pub record FragmentSending {S T H : Type 0} {i : Service S T H} (sending : Sending i) (b : Build)
    : Type 0 where
  pub part_stays :
      (s : S) (packet : Packet ToSend Fragment) (time : Duration) (reliability : ReliabilityType)
      (ttl : Duration) (peer : Peer Connected)
      → 0 < packet.message.total
      → packet.message.index ≢ packet.message.total - 1
      → sending.IsSettled s packet.delivery.meta.address
      → get packet.message.connection_id (i.connected s) ≡ some peer
      → (s' : S) × (i.sent_fragment b s packet time reliability ttl ≡ ok s')
        × IsSent i sending.IsSettled packet.message.connection_id packet.delivery.meta.address s s'
            peer
  pub last_moves_on :
      (s : S) (packet : Packet ToSend Fragment) (time : Duration) (reliability : ReliabilityType)
      (ttl : Duration) (peer : Peer Connected)
      → 0 < packet.message.total
      → packet.message.index ≡ packet.message.total - 1
      → sending.IsSettled s packet.delivery.meta.address
      → get packet.message.connection_id (i.connected s) ≡ some peer
      → peer.sequence_tracker + 1 < u32_mod
      → (s' : S) × (i.sent_fragment b s packet time reliability ttl ≡ ok s')
        × IsSent i sending.IsSettled packet.message.connection_id packet.delivery.meta.address s s'
            (sent_to peer)

-- A fragment to a peer that is not the last of its group, and the last one.
pub record IsPart {R : Type 0} (id : ConnectionId) (address : SocketAddr)
    (scheduled : Scheduled R Fragment) : Type 0 where
  pub to : IsTo id address (λ (m : Fragment). m.connection_id) scheduled
  pub some_total : 0 < scheduled.message.total
  pub not_last : scheduled.message.index ≢ scheduled.message.total - 1

pub record IsLast {R : Type 0} (id : ConnectionId) (address : SocketAddr)
    (scheduled : Scheduled R Fragment) : Type 0 where
  pub to : IsTo id address (λ (m : Fragment). m.connection_id) scheduled
  pub some_total : 0 < scheduled.message.total
  pub last : scheduled.message.index ≡ scheduled.message.total - 1

-- The packets of a group: one sequence number for all.
abbrev pub group_packets :
    {R : Type 0} → Sequence → Ack → List (Scheduled R Fragment) → List (Packet ToSend Fragment)
group_packets sequence ack = map λ scheduled. into_packet scheduled sequence ack 0

module _ {S T H : Type 0} {i : Service S T H} {sending : Sending i} (b : Build)
    (fragments : FragmentSending sending b) (id : ConnectionId) (address : SocketAddr) {R : Type 0}
    (reliability : ReliabilityType) (queues : Scheduler T) (ack : Ack) where
  part_sent-IsReady :
      (p : Protocol S) (first : Sequence) (scheduled : Scheduled R Fragment) (time later : Duration)
      → IsReady sending id address queues ack p first
      → IsPart id address scheduled
      → (p' : Protocol S) × (fragment_sent i b p
            (into_packet scheduled first ack time)
            reliability
            later
          ≡ ok p')
        × IsReady sending id address queues ack p' first
  unfolding fragment_sent into_packet
  part_sent-IsReady p first scheduled time later ready part =
      let packet = into_packet scheduled first ack time in
      let (s', e, is_sent) =
        fragments.part_stays p.service packet later reliability p.reliable_ttl ready.peer
          part.some_total part.not_last
          (subst (λ a. sending.IsSettled p.service a) (sym part.to.same_address) ready.settled)
          (rw part.to.same_id ready.found) in
      (
        record p { service = s' },
        rw e refl,
        sent-IsReady sending id address queues ack p first s' ready.peer
            scheduled.message.connection_id scheduled.address part.to.same_id part.to.same_address
            is_sent ready.next_sequence ready.next_ack ready.queues,
      )

  last_sent-IsReady :
      (p : Protocol S) (first : Sequence) (scheduled : Scheduled R Fragment) (time later : Duration)
      → IsReady sending id address queues ack p first
      → IsLast id address scheduled
      → first + 1 < u32_mod
      → (p' : Protocol S) × (fragment_sent i b p
            (into_packet scheduled first ack time)
            reliability
            later
          ≡ ok p')
        × IsReady sending id address queues ack p' (first + 1)
  unfolding fragment_sent into_packet
  last_sent-IsReady p first scheduled time later ready last room =
      let packet = into_packet scheduled first ack time in
      let (s', e, is_sent) =
        fragments.last_moves_on p.service packet later reliability p.reliable_ttl ready.peer
          last.some_total last.last
          (subst (λ a. sending.IsSettled p.service a) (sym last.to.same_address) ready.settled)
          (rw last.to.same_id ready.found) (rw ready.next_sequence room) in
      (
        record p { service = s' },
        rw e refl,
        sent-IsReady sending id address queues ack p (first + 1) s' (sent_to ready.peer)
            scheduled.message.connection_id scheduled.address last.to.same_id last.to.same_address
            is_sent (ap (λ n. n + 1) ready.next_sequence) ready.next_ack ready.queues,
      )

  -- A loop over the fragments of a payload sends them all with one sequence number.
  pub send_all-group_packets :
      {K : Type 0} {h : Host K} (sends : Sends h) (release : b.debug_assertions ≡ false)
      (n : AntarcNet S K) (first : Sequence) (parts : List (Scheduled R Fragment))
      (last : Scheduled R Fragment)
      → IsReady sending id address queues ack n.antarc first
      → All (IsPart id address) parts
      → IsLast id address last
      → first + 1 < u32_mod
      → (n' : AntarcNet S K) × (send_all h b
            (λ p packet time. fragment_sent i b p packet reliability time)
            (create i (λ (m : Fragment). m.connection_id))
            n
            (parts ++ (last ∷ []))
          ≡ ok n')
        × IsReady sending id address queues ack n'.antarc (first + 1)
        × (sends.log n'.socket
            ≡ sends.log n.socket
              ++ map (datagram b) (group_packets first ack (parts ++ (last ∷ []))))
  unfolding send_all
  send_all-group_packets sends release n first [] last ready are_parts is_last room =
      let (n₁, one, ready₁, log₁) =
        send_one_logs sends b release (create i (λ (m : Fragment). m.connection_id))
          (λ p packet time. fragment_sent i b p packet reliability time)
          (λ p. IsReady sending id address queues ack p (first + 1)) n last first ack
          (λ time.
            create-IsReady sending id address (λ (m : Fragment). m.connection_id) queues ack
              n.antarc first last time ready is_last.to)
          (λ time later. last_sent-IsReady n.antarc first last time later ready is_last room) in
      (n₁, rw one refl, ready₁, log₁)
  send_all-group_packets sends release n first (part ∷ parts) last ready are_parts is_last room =
      let (n₁, one, ready₁, log₁) =
        send_one_logs sends b release (create i (λ (m : Fragment). m.connection_id))
          (λ p packet time. fragment_sent i b p packet reliability time)
          (λ p. IsReady sending id address queues ack p first) n part first ack
          (λ time.
            create-IsReady sending id address (λ (m : Fragment). m.connection_id) queues ack
              n.antarc first part time ready are_parts.0.to)
          (λ time later. part_sent-IsReady n.antarc first part time later ready are_parts.0) in
      let (n₂, all, ready₂, log₂) =
        send_all-group_packets sends release n₁ first parts last ready₁ are_parts.1 is_last room in
      (
        n₂,
        rw one all,
        ready₂,
        rw (log₂, log₁)
            (append_assoc (sends.log n.socket) (datagram b (into_packet part first ack 0) ∷ [])
              (map (datagram b) (group_packets first ack (parts ++ (last ∷ []))))),
      )
