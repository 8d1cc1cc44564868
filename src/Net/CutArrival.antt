-- ===== src/Net/CutArrival.antt =====
-- The fragments of a cut payload, from the scheduler of a client (antarc/src/lib.rs) to the event
-- of the server.
use antarc.Packets.RoundTrip.{IsConnectionId}
use antarc.Protocol.Chunks.{enumerate, length-enumerate, chunks}
use antarc.Packets.Packet.{RawPacket}
use antarc.Events.{ProtocolEvent}
use antarc.Net.Polls.{poll_reliable_fragment}
use antarc.Peers.Groups.{GroupsFit}
use antarc.Base.Results.{ok, done}
use antarc.Protocol.{u64_mod, fragment_payload_size}
use antarc.Packets.Scheduled.{Scheduled, Reliable, new_reliable_fragment, ReliabilityType}
use antarc.Packets.Delivery.{Duration, PacketId}
use antarc.Server.{Server}
use antarc.Service.{client_service}
use antarc.Base.Errors.{SocketAddr}
use antarc.Peers.{single, Connected, Peer}
use antarc.Packets.Message.{Fragment, Payload, ConnectionId}
use antarc.Client.{Client}
use antarc.Shared.HashMap.{get}
use antarc.Base.Words.{u32_mod, IsCrc32, IsByte, Build}
use antarc.Net.Sending.{Sends}
use antarc.Shared.{
  ℕ, ◌∷◌, false, ◌<◌, ◌+◌, All, [], none, arith, concat, subst, refl, ap, ◌∙◌, length-append,
  length, ◌++◌, ◌++◌, some, ◌++◌, ◌≡◌, ◌++◌, List, ◌++◌, ◌++◌, ◌++◌, ◌++◌, ◌++◌, ◌++◌,
}
use antarc.Net.{AntarcNet, around, now, Host}
use antarc.Net.Arrival.{receive_each}
use antarc.Net.Cut.{
  All-front, fragment_of, fragments_of, for_each-enumerate, fragments_of-append,
  length-fragments_of, carried-fragments_of, fragments_of-IsPart, fragment_of-IsLast,
  fragment_of-IsOf, fragments_of-IsOf,
}
use antarc.Net.Delivery.{get-is_empty}
use antarc.Net.FragmentArrival.{IsOf}
use antarc.Net.FragmentDelivery.{fragments_arrive}
use antarc.Net.Polls
use antarc.Protocol.Queued.{scheduled, schedule-chunks}
use antarc.Protocol.Targets.{for_each, with_fragments}

-- The client after a payload was scheduled in fragments for one peer.
abbrev pub with_cut :
    {K : Type 0}
    → Host K
    → AntarcNet Client K
    → ConnectionId
    → SocketAddr
    → List Payload
    → AntarcNet Client K
with_cut h n id address cut = record (now h n).0 {
  antarc = scheduled client_service n.antarc (
      client_service.with_scheduler n.antarc.service (
        with_fragments n.antarc.packet_id_tracker (now h n).1 ReliabilityType.reliable
          (length (enumerate 0 cut)) ((id, address) ∷ []) (enumerate 0 cut)
          n.antarc.service.scheduler));
}

pub schedule-with_cut :
    {K : Type 0} (h : Host K) (b : Build) (n : AntarcNet Client K) (id : ConnectionId)
    (peer : Peer Connected) (payload : Payload)
    → get id n.antarc.service.connected ≡ some peer
    → fragment_payload_size < length payload
    → n.antarc.packet_id_tracker + 1 < u64_mod
    → Polls.schedule client_service h b n ReliabilityType.reliable (single id) payload
      ≡ done
          (with_cut h n id peer.address (chunks fragment_payload_size payload))
          (n.antarc.packet_id_tracker + 1)
unfolding Polls.schedule now around get
schedule-with_cut h b n id peer payload found long small =
    rw
      (schedule-chunks client_service b n.antarc ReliabilityType.reliable (single id) payload
        (h.elapsed n.socket).1 {ts = (id, peer.address) ∷ []}
        (get-is_empty id peer n.antarc.service.connected found) (rw found refl) long small)
      refl

module _ {K : Type 0} {h : Host K} (sends : Sends h) (b : Build) (n : AntarcNet Client K)
    (id : ConnectionId) (peer : Peer Connected) (cut : List Payload) (first : Payload)
    (middle : List Payload) (last : Payload) (e : cut ≡ (first ∷ middle) ++ (last ∷ [])) where
  abbrev number : PacketId
  number = n.antarc.packet_id_tracker

  abbrev clock : Duration
  clock = (h.elapsed n.socket).1

  abbrev pub total : ℕ
  total = length (enumerate 0 cut)

  abbrev queue : ℕ → List Payload → List (Scheduled Reliable Fragment)
  queue = fragments_of number clock id peer.address total

  abbrev end : Scheduled Reliable Fragment
  end = fragment_of number clock id peer.address total (0 + length (first ∷ middle)) last

  -- The list of the scheduler is the cut payload.
  listed :
      n.antarc.service.scheduler.list_scheduled_reliable_fragment ≡ []
      → (with_cut h n id peer.address cut).antarc.service.scheduler.list_scheduled_reliable_fragment
        ≡ queue 0 (first ∷ middle) ++ (end ∷ [])
  unfolding now
  listed idle =
      ap
        (λ l.
          l
          ++ for_each
              (λ fragment t. new_reliable_fragment number t.0 fragment.1 fragment.0 total clock t.1)
              ((id, peer.address) ∷ []) (enumerate 0 cut))
        idle
      ∙ for_each-enumerate number clock id peer.address total 0 cut
      ∙ ap (queue 0) e
      ∙ fragments_of-append number clock id peer.address total 0 (first ∷ middle) last

  total_size : total ≡ length middle + 2
  total_size =
      length-enumerate 0 cut ∙ ap length e ∙ omega (arith, length-append middle (last ∷ []))

  queue_size : total ≡ length (queue 1 middle) + 2
  queue_size =
      omega (arith, total_size, length-fragments_of number clock id peer.address total 1 middle)

  -- The fragments that are scheduled arrive, less the last.
  pub cut_arrives :
      (s : Server) (known : Peer Connected) (from : SocketAddr) (packet_id : PacketId)
      (time : Duration)
      → IsCrc32 b
      → b.debug_assertions ≡ false
      → get id n.antarc.service.connected ≡ some peer
      → get peer.address n.antarc.service.awaiting_connection_ack ≡ none
      → n.antarc.service.scheduler.list_scheduled_reliable_fragment ≡ []
      → IsConnectionId id
      → total < 256
      → All (All IsByte) ((first ∷ middle) ++ (last ∷ []))
      → 0 < peer.sequence_tracker
      → peer.sequence_tracker + 1 < u32_mod
      → peer.remote_ack_tracker < u32_mod
      → get id s.connected ≡ some known
      → GroupsFit known
      → get peer.sequence_tracker known.connection.reassembler ≡ none
      → (n₂ : AntarcNet Client K) × (datagrams : List RawPacket) × (s' : Server)
        × (poll_reliable_fragment client_service h b (with_cut h n id peer.address cut) ≡ ok n₂)
        × (sends.log n₂.socket ≡ sends.log n.socket ++ datagrams)
        × (receive_each b s from packet_id time datagrams ≡ done s' tt)
        × (s'.api ≡ s.api ++ (ProtocolEvent.data_transfer id (concat (first ∷ middle)) ∷ []))
  unfolding now
  cut_arrives s known from packet_id time crc release found settled idle id_range few bytes pos room
        small_ack connected fit missing =
      let some_total : 0 < total = omega (arith, total_size) in
      let (front_bytes, last_bytes) = All-front (All IsByte) (first ∷ middle) (last ∷ []) bytes in
      let (n₂, datagrams, s', polled, logged, received, events) =
        fragments_arrive sends b id peer.address from (with_cut h n id peer.address cut) peer s
          known packet_id time (fragment_of number clock id peer.address total 0 first)
          (queue 1 middle) end crc release (listed idle) found settled
          (fragments_of-IsPart number clock id peer.address total few some_total 0 (first ∷ middle)
            (omega (arith, total_size)))
          (fragment_of-IsLast number clock id peer.address total few some_total
            (0 + length (first ∷ middle)) last (omega (arith, total_size)))
          (subst (λ t. All (IsOf id t) (queue 0 (first ∷ middle))) queue_size
            (fragments_of-IsOf number clock id peer.address total few some_total 0 (first ∷ middle)
              id_range front_bytes))
          (subst (λ t. IsOf id t end) queue_size
            (fragment_of-IsOf number clock id peer.address total few some_total
              (0 + length (first ∷ middle)) last id_range last_bytes.0))
          pos room small_ack connected fit missing in
      (
        n₂,
        datagrams,
        s',
        polled,
        logged ∙ ap (λ l. l ++ datagrams) (sends.log-elapsed n.socket),
        received,
        events
            ∙ ap (λ p. s.api ++ (ProtocolEvent.data_transfer id p ∷ []))
                (carried-fragments_of number clock id peer.address total 0 (first ∷ middle)),
      )
