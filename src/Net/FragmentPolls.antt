-- ===== src/Net/FragmentPolls.antt =====
-- What the loops over fragments of antarc/src/lib.rs send.
use antarc.Scheduler.{Scheduler}
use antarc.Protocol.Drains.{drain_unreliable_fragment, drain_reliable_fragment}
use antarc.Shared.HashMap.{get}
use antarc.Peers.{Connected, Peer}
use antarc.Base.Errors.{SocketAddr}
use antarc.Packets.Message.{Fragment, ConnectionId}
use antarc.Base.Words.{u32_mod, Build}
use antarc.Net.Sending.{Sends}
use antarc.Net.{send_drained, AntarcNet, Host}
use antarc.Net.Transfers.{Sending}
use antarc.Service.{Service}
use antarc.Shared.{List, [], ◌∷◌, ◌++◌, All, some, ◌≡◌, ◌<◌, ◌+◌, false}
use antarc.Base.Results.{ok}
use antarc.Packets.Encode.{fragment_encoder}
use antarc.Net.Polls.{poll_reliable_fragment, poll_unreliable_fragment}
use antarc.Net.Fragments.{FragmentSending, IsPart, IsLast, group_packets, send_all-group_packets}
use antarc.Net.Sent.{HasSent, ready-HasSent, drained-IsReady}
use antarc.Packets.Scheduled.{ReliabilityType, Reliable, Unreliable, Scheduled}

module _ {S T H K : Type 0} {i : Service S T H} (sending : Sending i) {h : Host K} (sends : Sends h)
    (b : Build) (fragments : FragmentSending sending b) (release : b.debug_assertions ≡ false)
    (id : ConnectionId) (address : SocketAddr) (n : AntarcNet S K) (peer : Peer Connected)
    (found : get id (i.connected n.antarc.service) ≡ some peer)
    (settled : sending.IsSettled n.antarc.service address)
    (room : peer.sequence_tracker + 1 < u32_mod) where
  -- In a build without debug assertions, where the scheduled unreliable fragments are all for one
  -- connected peer and the last of them, and no other, has the last index of its group, the
  -- sequence numbers last, no peer of a client awaits an ack at the address, and the socket sends,
  -- the loop returns: it sends each of them once, in order, all of them with the sequence number
  -- of the peer's tracker and with its ack, moves the tracker on by one, and leaves this list
  -- empty and the others alone.
  pub poll_unreliable_fragment_sends :
      let queues = i.scheduler n.antarc.service in
      (parts : List (Scheduled Unreliable Fragment)) (last : Scheduled Unreliable Fragment)
      → queues.list_scheduled_unreliable_fragment ≡ parts ++ (last ∷ [])
      → All (IsPart id address) parts
      → IsLast id address last
      → (n' : AntarcNet S K) × (poll_unreliable_fragment i h b n ≡ ok n')
        × HasSent sending sends b id address n peer
            (group_packets peer.sequence_tracker peer.remote_ack_tracker (parts ++ (last ∷ [])))
            1
            (record queues { list_scheduled_unreliable_fragment = [] })
            n'
  unfolding poll_unreliable_fragment send_drained drain_unreliable_fragment
  poll_unreliable_fragment_sends parts last listed are_parts is_last =
      let queues : Scheduler T = record (i.scheduler n.antarc.service) {
        list_scheduled_unreliable_fragment = [];
      } in
      let (n', all, ready, logged) =
        send_all-group_packets b fragments id address ReliabilityType.unreliable queues
          peer.remote_ack_tracker sends release
          (record n {
            antarc = record n.antarc { service = i.with_scheduler n.antarc.service queues };
          })
          peer.sequence_tracker parts last
          (drained-IsReady sending id address n.antarc peer queues found settled) are_parts is_last
          room in
      (
        n',
        rw listed all,
        ready-HasSent sending sends b id address n peer
            (group_packets peer.sequence_tracker peer.remote_ack_tracker (parts ++ (last ∷ []))) 1
            n' queues logged ready,
      )

  -- In a build without debug assertions, where the scheduled reliable fragments are all for one
  -- connected peer and the last of them, and no other, has the last index of its group, the
  -- sequence numbers last, no peer of a client awaits an ack at the address, and the socket sends,
  -- the loop returns: it sends each of them once, in order, all of them with the sequence number
  -- of the peer's tracker and with its ack, moves the tracker on by one, and leaves this list
  -- empty and the others alone.
  pub poll_reliable_fragment_sends :
      let queues = i.scheduler n.antarc.service in
      (parts : List (Scheduled Reliable Fragment)) (last : Scheduled Reliable Fragment)
      → queues.list_scheduled_reliable_fragment ≡ parts ++ (last ∷ [])
      → All (IsPart id address) parts
      → IsLast id address last
      → (n' : AntarcNet S K) × (poll_reliable_fragment i h b n ≡ ok n')
        × HasSent sending sends b id address n peer
            (group_packets peer.sequence_tracker peer.remote_ack_tracker (parts ++ (last ∷ [])))
            1
            (record queues { list_scheduled_reliable_fragment = [] })
            n'
  unfolding poll_reliable_fragment send_drained drain_reliable_fragment
  poll_reliable_fragment_sends parts last listed are_parts is_last =
      let queues : Scheduler T = record (i.scheduler n.antarc.service) {
        list_scheduled_reliable_fragment = [];
      } in
      let (n', all, ready, logged) =
        send_all-group_packets b fragments id address ReliabilityType.reliable queues
          peer.remote_ack_tracker sends release
          (record n {
            antarc = record n.antarc { service = i.with_scheduler n.antarc.service queues };
          })
          peer.sequence_tracker parts last
          (drained-IsReady sending id address n.antarc peer queues found settled) are_parts is_last
          room in
      (
        n',
        rw listed all,
        ready-HasSent sending sends b id address n peer
            (group_packets peer.sequence_tracker peer.remote_ack_tracker (parts ++ (last ∷ []))) 1
            n' queues logged ready,
      )
