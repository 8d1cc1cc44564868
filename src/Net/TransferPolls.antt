-- ===== src/Net/TransferPolls.antt =====
-- What the loops over data transfers and heartbeats of antarc/src/lib.rs send.
use antarc.Net.Sent.{HasSent, ready-HasSent, drained-IsReady}
use antarc.Protocol.{Protocol}
use antarc.Packets.Packet.{Packet}
use antarc.Packets.Delivery.{ToSend, Duration}
use antarc.Protocol.Drains.{
  drain_reliable_heartbeat, drain_reliable_data_transfer, drain_unreliable_heartbeat,
  drain_unreliable_data_transfer, data_transfer_sent, heartbeat_sent,
}
use antarc.Packets.Scheduled.{into_packet, Scheduled, ReliabilityType}
use antarc.Scheduler.{Scheduler}
use antarc.Shared.HashMap.{get}
use antarc.Peers.{Connected, Peer}
use antarc.Base.Errors.{SocketAddr}
use antarc.Packets.Message.{Sequence, Heartbeat, DataTransfer, ConnectionId}
use antarc.Base.Words.{u32_mod, Build}
use antarc.Net.Sending.{send_all-numbered, numbered, Sends}
use antarc.Net.{send_all, send_drained, AntarcNet, Host}
use antarc.Service.{Service}
use antarc.Shared.{List, [], length, All, some, ◌≡◌, ◌<◌, ◌+◌, false}
use antarc.Base.Results.{Result, ok}
use antarc.Packets.Encode.{Encoder, data_transfer_encoder, heartbeat_encoder}
use antarc.Net.Polls.{
  poll_unreliable_data_transfer, poll_reliable_data_transfer, poll_unreliable_heartbeat,
  poll_reliable_heartbeat, create,
}
use antarc.Net.Transfers.{
  Sending, IsTo, IsReady, create-IsReady, data_transfer_sent-IsReady, heartbeat_sent-IsReady,
}

module _ {S T H K : Type 0} {i : Service S T H} (sending : Sending i) {h : Host K} (sends : Sends h)
    (b : Build) (release : b.debug_assertions ≡ false) (id : ConnectionId) (address : SocketAddr)
    (n : AntarcNet S K) (peer : Peer Connected) where
  module _ (found : get id (i.connected n.antarc.service) ≡ some peer)
      (settled : sending.IsSettled n.antarc.service address) where
    -- Any of the four loops, after draining its list.
    loop_sends :
        {R M : Type 0} ⦃e : Encoder M⦄ (connection_id : M → ConnectionId)
        (sent : Protocol S → Packet ToSend M → Duration → Result (Protocol S))
        (queues : Scheduler T) (list : List (Scheduled R M))
        (sent_ready : (p : Protocol S) (first : Sequence) (scheduled : Scheduled R M)
            (time later : Duration)
          → IsReady sending id address queues peer.remote_ack_tracker p first
          → IsTo id address connection_id scheduled
          → first + 1 < u32_mod
          → (p' : Protocol S) × (sent p
                (into_packet scheduled first peer.remote_ack_tracker time)
                later
              ≡ ok p')
            × IsReady sending id address queues peer.remote_ack_tracker p' (first + 1))
        → All (IsTo id address connection_id) list
        → peer.sequence_tracker + length list < u32_mod
        → (n' : AntarcNet S K) × (send_all h b sent
              (create i connection_id)
              (record n {
                antarc = record n.antarc { service = i.with_scheduler n.antarc.service queues };
              })
              list
            ≡ ok n')
          × HasSent sending sends b id address n peer
              (numbered peer.sequence_tracker peer.remote_ack_tracker list)
              (length list)
              queues
              n'
    loop_sends connection_id sent queues list sent_ready for_peer room =
        let ack = peer.remote_ack_tracker in
        let (n', all, ready, logged) =
          send_all-numbered sends b release (create i connection_id) sent ack
            (IsReady sending id address queues ack) (IsTo id address connection_id)
            (create-IsReady sending id address connection_id queues ack) sent_ready _
            peer.sequence_tracker list
            (drained-IsReady sending id address n.antarc peer queues found settled) for_peer room in
        (
          n',
          all,
          ready-HasSent sending sends b id address n peer _ (length list) n' queues logged ready,
        )

    -- In a build without debug assertions, where the scheduled unreliable data transfers are all
    -- for one connected peer, whose sequence numbers last for them, no peer of a client awaits an
    -- ack at the address, and the socket sends, the loop returns: it sends each of them once, in
    -- order, with sequence numbers that count on from the tracker of the peer and with its ack,
    -- moves the tracker past them, and leaves this list empty and the others alone.
    pub poll_unreliable_data_transfer_sends :
        let queues = i.scheduler n.antarc.service in
        let list = queues.list_scheduled_unreliable_data_transfer in
        All (IsTo id address (λ (m : DataTransfer). m.connection_id)) list
        → peer.sequence_tracker + length list < u32_mod
        → (n' : AntarcNet S K) × (poll_unreliable_data_transfer i h b n ≡ ok n')
          × HasSent sending sends b id address n peer
              (numbered peer.sequence_tracker peer.remote_ack_tracker list)
              (length list)
              (record queues { list_scheduled_unreliable_data_transfer = [] })
              n'
    unfolding poll_unreliable_data_transfer send_drained drain_unreliable_data_transfer
    poll_unreliable_data_transfer_sends for_peer room =
        let queues = i.scheduler n.antarc.service in
        loop_sends (λ m. m.connection_id)
          (λ p packet time. data_transfer_sent i p packet ReliabilityType.unreliable time)
          (record queues { list_scheduled_unreliable_data_transfer = [] })
          queues.list_scheduled_unreliable_data_transfer
          (data_transfer_sent-IsReady sending id address ReliabilityType.unreliable _
            peer.remote_ack_tracker)
          for_peer room

    -- In a build without debug assertions, where the scheduled reliable data transfers are all for
    -- one connected peer, whose sequence numbers last for them, no peer of a client awaits an ack
    -- at the address, and the socket sends, the loop returns: it sends each of them once, in
    -- order, with sequence numbers that count on from the tracker of the peer and with its ack,
    -- moves the tracker past them, and leaves this list empty and the others alone.
    pub poll_reliable_data_transfer_sends :
        let queues = i.scheduler n.antarc.service in
        let list = queues.list_scheduled_reliable_data_transfer in
        All (IsTo id address (λ (m : DataTransfer). m.connection_id)) list
        → peer.sequence_tracker + length list < u32_mod
        → (n' : AntarcNet S K) × (poll_reliable_data_transfer i h b n ≡ ok n')
          × HasSent sending sends b id address n peer
              (numbered peer.sequence_tracker peer.remote_ack_tracker list)
              (length list)
              (record queues { list_scheduled_reliable_data_transfer = [] })
              n'
    unfolding poll_reliable_data_transfer send_drained drain_reliable_data_transfer
    poll_reliable_data_transfer_sends for_peer room =
        let queues = i.scheduler n.antarc.service in
        loop_sends (λ m. m.connection_id)
          (λ p packet time. data_transfer_sent i p packet ReliabilityType.reliable time)
          (record queues { list_scheduled_reliable_data_transfer = [] })
          queues.list_scheduled_reliable_data_transfer
          (data_transfer_sent-IsReady sending id address ReliabilityType.reliable _
            peer.remote_ack_tracker)
          for_peer room

    -- In a build without debug assertions, where the scheduled unreliable heartbeats are all for
    -- one connected peer, whose sequence numbers last for them, no peer of a client awaits an ack
    -- at the address, and the socket sends, the loop returns: it sends each of them once, in
    -- order, with sequence numbers that count on from the tracker of the peer and with its ack,
    -- moves the tracker past them, and leaves this list empty and the others alone.
    pub poll_unreliable_heartbeat_sends :
        let queues = i.scheduler n.antarc.service in
        let list = queues.list_scheduled_unreliable_heartbeat in
        All (IsTo id address (λ (m : Heartbeat). m.connection_id)) list
        → peer.sequence_tracker + length list < u32_mod
        → (n' : AntarcNet S K) × (poll_unreliable_heartbeat i h b n ≡ ok n')
          × HasSent sending sends b id address n peer
              (numbered peer.sequence_tracker peer.remote_ack_tracker list)
              (length list)
              (record queues { list_scheduled_unreliable_heartbeat = [] })
              n'
    unfolding poll_unreliable_heartbeat send_drained drain_unreliable_heartbeat
    poll_unreliable_heartbeat_sends for_peer room =
        let queues = i.scheduler n.antarc.service in
        loop_sends (λ m. m.connection_id)
          (λ p packet time. heartbeat_sent i p packet ReliabilityType.unreliable time)
          (record queues { list_scheduled_unreliable_heartbeat = [] })
          queues.list_scheduled_unreliable_heartbeat
          (heartbeat_sent-IsReady sending id address ReliabilityType.unreliable _
            peer.remote_ack_tracker)
          for_peer room

    -- In a build without debug assertions, where the scheduled reliable heartbeats are all for one
    -- connected peer, whose sequence numbers last for them, no peer of a client awaits an ack at
    -- the address, and the socket sends, the loop returns: it sends each of them once, in order,
    -- with sequence numbers that count on from the tracker of the peer and with its ack, moves the
    -- tracker past them, and leaves this list empty and the others alone.
    pub poll_reliable_heartbeat_sends :
        let queues = i.scheduler n.antarc.service in
        let list = queues.list_scheduled_reliable_heartbeat in
        All (IsTo id address (λ (m : Heartbeat). m.connection_id)) list
        → peer.sequence_tracker + length list < u32_mod
        → (n' : AntarcNet S K) × (poll_reliable_heartbeat i h b n ≡ ok n')
          × HasSent sending sends b id address n peer
              (numbered peer.sequence_tracker peer.remote_ack_tracker list)
              (length list)
              (record queues { list_scheduled_reliable_heartbeat = [] })
              n'
    unfolding poll_reliable_heartbeat send_drained drain_reliable_heartbeat
    poll_reliable_heartbeat_sends for_peer room =
        let queues = i.scheduler n.antarc.service in
        loop_sends (λ m. m.connection_id)
          (λ p packet time. heartbeat_sent i p packet ReliabilityType.reliable time)
          (record queues { list_scheduled_reliable_heartbeat = [] })
          queues.list_scheduled_reliable_heartbeat
          (heartbeat_sent-IsReady sending id address ReliabilityType.reliable _
            peer.remote_ack_tracker)
          for_peer room
