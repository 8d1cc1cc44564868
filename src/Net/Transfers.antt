-- ===== src/Net/Transfers.antt =====
-- The loops over data transfers and heartbeats of antarc/src/lib.rs, for messages to one connected
-- peer: what they need of a service, and what they send.
use antarc.Packets.Delivery.{Duration, ToSend}
use antarc.Protocol.{Protocol, create_packet}
use antarc.Base.Words.{u32_mod}
use antarc.Packets.Packet.{Packet}
use antarc.Shared.HashMap.{get}
use antarc.Packets.Message.{Heartbeat, Sequence, DataTransfer, Ack, ConnectionId}
use antarc.Packets.Scheduled.{ReliabilityType, into_packet, Scheduled}
use antarc.Scheduler.{Scheduler}
use antarc.Base.Errors.{SocketAddr}
use antarc.Service.{Service}
use antarc.Peers.{Connected, Peer}
use antarc.Shared.{refl, ap, ◌∙◌, some, ◌≡◌, ◌<◌, ◌+◌, subst, sym}
use antarc.Base.Results.{ok}
use antarc.Packets.Encode.{data_transfer_encoder, heartbeat_encoder}
use antarc.Protocol.Drains.{data_transfer_sent, heartbeat_sent}
use antarc.Net.Polls.{create}

-- A peer after a packet to it was sent.
abbrev pub sent_to : Peer Connected → Peer Connected
sent_to peer = record peer { sequence_tracker = peer.sequence_tracker + 1 }

-- A peer is connected, its address is settled, and the scheduler is as it was.
pub record IsSent {S T H : Type 0} (i : Service S T H) (IsSettled : S → SocketAddr → Type 0)
    (id : ConnectionId) (address : SocketAddr) (before after : S) (peer : Peer Connected)
    : Type 0 where
  pub connected : get id (i.connected after) ≡ some peer
  pub settled : IsSettled after address
  pub scheduler : i.scheduler after ≡ i.scheduler before

-- What the loops need of a service: the `sent_` methods move the sequence of a connected peer on,
-- if it is not the last u32 and the peer's address is settled, and leave the scheduler alone.
pub record Sending {S T H : Type 0} (i : Service S T H) : Type 1 where
  pub IsSettled : S → SocketAddr → Type 0
  pub settled_scheduler :
      (s : S) (x : Scheduler T) (address : SocketAddr)
      → IsSettled s address
      → IsSettled (i.with_scheduler s x) address
  pub data_transfer_moves_on :
      (s : S) (packet : Packet ToSend DataTransfer) (time : Duration)
      (reliability : ReliabilityType) (ttl : Duration) (peer : Peer Connected)
      → IsSettled s packet.delivery.meta.address
      → get packet.message.connection_id (i.connected s) ≡ some peer
      → peer.sequence_tracker + 1 < u32_mod
      → (s' : S) × (i.sent_data_transfer s packet time reliability ttl ≡ ok s')
        × IsSent i IsSettled packet.message.connection_id packet.delivery.meta.address s s'
            (sent_to peer)
  pub heartbeat_moves_on :
      (s : S) (packet : Packet ToSend Heartbeat) (time : Duration) (reliability : ReliabilityType)
      (ttl : Duration) (peer : Peer Connected)
      → IsSettled s packet.delivery.meta.address
      → get packet.message.connection_id (i.connected s) ≡ some peer
      → peer.sequence_tracker + 1 < u32_mod
      → (s' : S) × (i.sent_heartbeat s packet time reliability ttl ≡ ok s')
        × IsSent i IsSettled packet.message.connection_id packet.delivery.meta.address s s'
            (sent_to peer)

-- A message to a peer.
pub record IsTo {R M : Type 0} (id : ConnectionId) (address : SocketAddr)
    (connection_id : M → ConnectionId) (scheduled : Scheduled R M) : Type 0 where
  pub same_id : connection_id scheduled.message ≡ id
  pub same_address : scheduled.address ≡ address

module _ {S T H : Type 0} {i : Service S T H} (sending : Sending i) (id : ConnectionId)
    (address : SocketAddr) where
  -- The peer is connected, and its next sequence number and the ack are as given.
  pub record IsReady (scheduler : Scheduler T) (ack : Ack) (p : Protocol S) (first : Sequence)
      : Type 0 where
    pub peer : Peer Connected
    pub found : get id (i.connected p.service) ≡ some peer
    pub next_sequence : peer.sequence_tracker ≡ first
    pub next_ack : peer.remote_ack_tracker ≡ ack
    pub settled : sending.IsSettled p.service address
    pub queues : i.scheduler p.service ≡ scheduler

  pub create-IsReady :
      {R M : Type 0} (connection_id : M → ConnectionId) (queues : Scheduler T) (ack : Ack)
      (p : Protocol S) (first : Sequence) (scheduled : Scheduled R M) (time : Duration)
      → IsReady queues ack p first
      → IsTo id address connection_id scheduled
      → create i connection_id p scheduled time ≡ ok (into_packet scheduled first ack time)
  unfolding create_packet
  create-IsReady connection_id queues ack p first scheduled time ready to =
      rw (to.same_id, ready.found, ready.next_sequence, ready.next_ack) refl

  -- After a packet to the peer was sent.
  pub sent-IsReady :
      (queues : Scheduler T) (ack : Ack) (p : Protocol S) (next : Sequence) (s' : S)
      (peer : Peer Connected) (to_id : ConnectionId) (to_address : SocketAddr)
      → to_id ≡ id
      → to_address ≡ address
      → IsSent i sending.IsSettled to_id to_address p.service s' peer
      → peer.sequence_tracker ≡ next
      → peer.remote_ack_tracker ≡ ack
      → i.scheduler p.service ≡ queues
      → IsReady queues ack (record p { service = s' }) next
  sent-IsReady queues ack p next s' peer to_id to_address same_id same_address is_sent next_sequence
        next_ack before =
      record {
        peer = peer;
        found = subst (λ k. get k (i.connected s') ≡ some peer) same_id is_sent.connected;
        next_sequence = next_sequence;
        next_ack = next_ack;
        settled = subst (sending.IsSettled s') same_address is_sent.settled;
        queues = is_sent.scheduler ∙ before;
      }

  pub data_transfer_sent-IsReady :
      {R : Type 0} (reliability : ReliabilityType) (queues : Scheduler T) (ack : Ack)
      (p : Protocol S) (first : Sequence) (scheduled : Scheduled R DataTransfer)
      (time later : Duration)
      → IsReady queues ack p first
      → IsTo id address (λ (m : DataTransfer). m.connection_id) scheduled
      → first + 1 < u32_mod
      → (p' : Protocol S) × (data_transfer_sent i p
            (into_packet scheduled first ack time)
            reliability
            later
          ≡ ok p')
        × IsReady queues ack p' (first + 1)
  unfolding data_transfer_sent into_packet
  data_transfer_sent-IsReady reliability queues ack p first scheduled time later ready to room =
      let packet = into_packet scheduled first ack time in
      let (s', e, is_sent) =
        sending.data_transfer_moves_on p.service packet later reliability p.reliable_ttl ready.peer
          (subst (λ a. sending.IsSettled p.service a) (sym to.same_address) ready.settled)
          (rw to.same_id ready.found) (rw ready.next_sequence room) in
      (
        record p { service = s' },
        rw e refl,
        sent-IsReady queues ack p (first + 1) s' (sent_to ready.peer)
            scheduled.message.connection_id scheduled.address to.same_id to.same_address is_sent
            (ap (λ n. n + 1) ready.next_sequence) ready.next_ack ready.queues,
      )

  pub heartbeat_sent-IsReady :
      {R : Type 0} (reliability : ReliabilityType) (queues : Scheduler T) (ack : Ack)
      (p : Protocol S) (first : Sequence) (scheduled : Scheduled R Heartbeat)
      (time later : Duration)
      → IsReady queues ack p first
      → IsTo id address (λ (m : Heartbeat). m.connection_id) scheduled
      → first + 1 < u32_mod
      → (p' : Protocol S) × (heartbeat_sent i p
            (into_packet scheduled first ack time)
            reliability
            later
          ≡ ok p')
        × IsReady queues ack p' (first + 1)
  unfolding heartbeat_sent into_packet
  heartbeat_sent-IsReady reliability queues ack p first scheduled time later ready to room =
      let packet = into_packet scheduled first ack time in
      let (s', e, is_sent) =
        sending.heartbeat_moves_on p.service packet later reliability p.reliable_ttl ready.peer
          (subst (λ a. sending.IsSettled p.service a) (sym to.same_address) ready.settled)
          (rw to.same_id ready.found) (rw ready.next_sequence room) in
      (
        record p { service = s' },
        rw e refl,
        sent-IsReady queues ack p (first + 1) s' (sent_to ready.peer)
            scheduled.message.connection_id scheduled.address to.same_id to.same_address is_sent
            (ap (λ n. n + 1) ready.next_sequence) ready.next_ack ready.queues,
      )
