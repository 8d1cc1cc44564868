-- ===== src/Net/Sent.antt =====
-- What the loops of antarc/src/lib.rs leave behind that send to one connected peer.
use antarc.Packets.Delivery.{ToSend}
use antarc.Scheduler.{Scheduler}
use antarc.Packets.Packet.{Packet}
use antarc.Peers.{Connected, Peer}
use antarc.Protocol.{Protocol}
use antarc.Base.Errors.{SocketAddr}
use antarc.Base.Words.{Build}
use antarc.Net.{AntarcNet, Host}
use antarc.Packets.Message.{ConnectionId}
use antarc.Service.{Service}
use antarc.Shared.{ℕ, refl, List, ◌++◌, map, some, ◌≡◌, ◌+◌}
use antarc.Shared.HashMap.{get}
use antarc.Packets.Encode.{Encoder}
use antarc.Net.Sending.{Sends, datagram}
use antarc.Net.Transfers.{Sending, IsReady}

module _ {S T H K : Type 0} {i : Service S T H} (sending : Sending i) {h : Host K} (sends : Sends h)
    (b : Build) (id : ConnectionId) (address : SocketAddr) (n : AntarcNet S K)
    (peer : Peer Connected) where
  -- The host was given the datagrams of `packets`, in order; the scheduler has `queues`; and the
  -- sequence tracker of the peer has moved on by `moved`.
  pub record HasSent {M : Type 0} ⦃e : Encoder M⦄ (packets : List (Packet ToSend M)) (moved : ℕ)
      (queues : Scheduler T) (n' : AntarcNet S K) : Type 0 where
    pub sent_packets : sends.log n'.socket ≡ sends.log n.socket ++ map (datagram b) packets
    pub sent_queues : i.scheduler n'.antarc.service ≡ queues
    pub sent_peer : Peer Connected
    pub sent_found : get id (i.connected n'.antarc.service) ≡ some sent_peer
    pub sent_tracker : sent_peer.sequence_tracker ≡ peer.sequence_tracker + moved
    pub sent_settled : sending.IsSettled n'.antarc.service address

  pub ready-HasSent :
      {M : Type 0} ⦃e : Encoder M⦄ (packets : List (Packet ToSend M)) (moved : ℕ)
      (n' : AntarcNet S K) (queues : Scheduler T)
      → sends.log n'.socket ≡ sends.log n.socket ++ map (datagram b) packets
      → IsReady sending id address queues peer.remote_ack_tracker n'.antarc
          (peer.sequence_tracker + moved)
      → HasSent packets moved queues n'
  ready-HasSent packets moved n' queues logged ready = record {
    sent_packets = logged;
    sent_queues = ready.queues;
    sent_peer = ready.peer;
    sent_found = ready.found;
    sent_tracker = ready.next_sequence;
    sent_settled = ready.settled;
  }

-- The protocol once a list was drained, which leaves `queues`.
pub drained-IsReady :
    {S T H : Type 0} {i : Service S T H} (sending : Sending i) (id : ConnectionId)
    (address : SocketAddr) (p : Protocol S) (peer : Peer Connected) (queues : Scheduler T)
    → get id (i.connected p.service) ≡ some peer
    → sending.IsSettled p.service address
    → IsReady sending id address queues peer.remote_ack_tracker
        (record p { service = i.with_scheduler p.service queues })
        peer.sequence_tracker
drained-IsReady {i = i} sending id address p peer queues found settled = record {
  peer = peer;
  found = rw (i.connected-with_scheduler p.service queues) found;
  next_sequence = refl;
  next_ack = refl;
  settled = sending.settled_scheduler p.service queues address settled;
  queues = i.scheduler-with_scheduler p.service queues;
}
