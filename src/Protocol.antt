-- ===== src/Protocol.antt =====
-- The generic half of `Protocol` in antarc-protocol/src/lib.rs: scheduling for one peer or for
-- all. The clock is an argument: `time` is `self.timer.elapsed()`.
pub mod Chunks
pub mod Targets
pub mod Schedule
pub mod Queued
pub mod Heartbeats
pub mod Sides
pub mod Drains
pub mod Calls
use antarc.Shared.{
  ℕ, zero, suc, ◌+◌, ◌-◌, ◌^◌, ◌≡◌, Bool, true, false, List, [], ◌∷◌, Option, none, some, map,
  length, if◌then◌else◌,
}
use antarc.Shared.HashMap.{HashMap, get, is_empty}
use antarc.Base.Errors.{SocketAddr, no_peers_connected, scheduled_not_connected}
use antarc.Base.Results.{
  unwrap, panicked, Result, ok, ok_or, Reply, done, failed, lift, and_then, ◌>>=◌,
}
use antarc.Base.Words.{Build, checked_sum}
use antarc.Packets.Delivery.{Duration, PacketId, ToSend}
use antarc.Packets.Message.{ConnectionId, Payload}
use antarc.Packets.Encode.{fragment_encoder}
use antarc.Packets.Packet.{RawPacket, Packet, max_fragment_size}
use antarc.Packets.Scheduled.{ReliabilityType, Scheduled, into_packet}
use antarc.Peers.{Peer, Connected, SendTo, single, broadcast}
use antarc.Scheduler.{Scheduler, schedule_for_connected_peer, heartbeat_for_connected_peer}
use antarc.Service.{Service}
use antarc.Protocol.Chunks.{chunks, enumerate}
use mathlib.Core.Option

pub record Protocol (S : Type 0) : Type 0 where
  pub packet_id_tracker : PacketId
  pub service : S
  pub receiver_pipe : List RawPacket
  pub reliable_ttl : Duration

abbrev pub fragment_payload_size : ℕ
fragment_payload_size = max_fragment_size - fragment_encoder.header_size

abbrev pub u64_mod : ℕ
u64_mod = 2 ^ 64

-- `connected().get(&connection_id).map(|peer| peer.address)`
abbrev pub address_of : ConnectionId → HashMap (Peer Connected) → Option SocketAddr
address_of connection_id connected = elim (get connection_id connected) [
  | none ↦ none
  | some peer ↦ some peer.address
]

module _ {T : Type 0} where
  -- The body of the loop over the connected peers.
  unfoldable pub schedule_for_all :
      Scheduler T
      → HashMap (Peer Connected)
      → Payload
      → ReliabilityType
      → PacketId
      → Duration
      → ℕ
      → ℕ
      → Scheduler T
  unfolding schedule_for_connected_peer
  schedule_for_all scheduler [] payload reliability packet_id time fragment_index fragment_total =
      scheduler
  schedule_for_all scheduler ((connection_id, peer) ∷ connected) payload reliability packet_id time
        fragment_index fragment_total =
      schedule_for_all
        (schedule_for_connected_peer scheduler peer.address payload reliability connection_id
          packet_id time fragment_index fragment_total)
        connected payload reliability packet_id time fragment_index fragment_total

  unfoldable pub heartbeat_for_all :
      Scheduler T → HashMap (Peer Connected) → ReliabilityType → PacketId → Duration → Scheduler T
  unfolding heartbeat_for_connected_peer
  heartbeat_for_all scheduler [] reliability packet_id time = scheduler
  heartbeat_for_all scheduler ((connection_id, peer) ∷ connected) reliability packet_id time =
      heartbeat_for_all
        (heartbeat_for_connected_peer scheduler peer.address reliability connection_id packet_id
          time)
        connected reliability packet_id time

module _ {S T H : Type 0} (i : Service S T H) where
  -- One round of the loop over the fragments.
  unfoldable pub schedule_round :
      S → SendTo → ReliabilityType → PacketId → Duration → ℕ → ℕ → Payload → Reply S (Unit {0})
  unfolding schedule_for_connected_peer schedule_for_all
  schedule_round service (single connection_id) reliability packet_id time fragment_total
        fragment_index payload =
      lift service
        (ok_or (address_of connection_id (i.connected service))
          (scheduled_not_connected connection_id))
        (λ address.
          done
            (i.with_scheduler service (
              schedule_for_connected_peer (i.scheduler service) address payload reliability
                connection_id packet_id time fragment_index fragment_total))
            tt)
  schedule_round service broadcast reliability packet_id time fragment_total fragment_index
        payload =
      done
        (i.with_scheduler service (
          schedule_for_all (i.scheduler service) (i.connected service) payload reliability packet_id
            time fragment_index fragment_total))
        tt

  unfoldable pub schedule_fragments :
      S
      → SendTo
      → ReliabilityType
      → PacketId
      → Duration
      → ℕ
      → List (ℕ × Payload)
      → Reply S (Unit {0})
  unfolding schedule_round
  schedule_fragments service send_to reliability packet_id time fragment_total [] = done service tt
  schedule_fragments service send_to reliability packet_id time fragment_total
        ((fragment_index, payload) ∷ fragments) =
      and_then
        (schedule_round service send_to reliability packet_id time fragment_total fragment_index
          payload)
        (λ service' _.
          schedule_fragments service' send_to reliability packet_id time fragment_total fragments)

  -- `schedule_helper`
  unfoldable pub schedule_helper :
      Build → S → ReliabilityType → SendTo → Payload → PacketId → Duration → Reply S PacketId
  unfolding schedule_fragments checked_sum
  schedule_helper b service reliability send_to payload packet_id time =
      if is_empty (i.connected service)
      then failed service no_peers_connected
      else let fragments = enumerate 0 (chunks fragment_payload_size payload) in
        and_then
          (schedule_fragments service send_to reliability packet_id time (length fragments)
            fragments)
          (λ service' _.
            lift service' (checked_sum b u64_mod packet_id 1) (λ result. done service' result))

  -- `heartbeat_helper`
  unfoldable pub heartbeat_helper :
      Build → S → ReliabilityType → SendTo → PacketId → Duration → Reply S PacketId
  unfolding heartbeat_for_connected_peer heartbeat_for_all checked_sum
  heartbeat_helper b service reliability (single connection_id) packet_id time =
      if is_empty (i.connected service)
      then failed service no_peers_connected
      else lift service
          (ok_or (address_of connection_id (i.connected service))
            (scheduled_not_connected connection_id))
          (λ address.
            let service' = i.with_scheduler service (
              heartbeat_for_connected_peer (i.scheduler service) address reliability connection_id
                packet_id time) in
            lift service' (checked_sum b u64_mod packet_id 1) (λ result. done service' result))
  heartbeat_helper b service reliability broadcast packet_id time =
      if is_empty (i.connected service)
      then failed service no_peers_connected
      else let service' = i.with_scheduler service (
          heartbeat_for_all (i.scheduler service) (i.connected service) reliability packet_id
            time) in
        lift service' (checked_sum b u64_mod packet_id 1) (λ result. done service' result)

  -- What `schedule` and `heartbeat` do with the answer of their helper.
  unfoldable pub next_packet_id :
      Build → Protocol S → Reply S PacketId → Reply (Protocol S) PacketId
  unfolding checked_sum
  next_packet_id b p (done service packet_id) =
      let p' : Protocol S = record p { service = service } in
      lift p' (checked_sum b u64_mod p.packet_id_tracker 1)
        (λ tracker. done (record p' { packet_id_tracker = tracker }) packet_id)
  next_packet_id b p (failed service e) = failed (record p { service = service }) e
  next_packet_id b p panicked = Reply.panicked

  -- `Protocol::schedule`
  unfoldable pub schedule :
      Build
      → Protocol S
      → ReliabilityType
      → SendTo
      → Payload
      → Duration
      → Reply (Protocol S) PacketId
  unfolding schedule_helper next_packet_id
  schedule b p reliability send_to payload time =
      next_packet_id b p
        (schedule_helper b p.service reliability send_to payload p.packet_id_tracker time)

  -- `Protocol::heartbeat`
  unfoldable pub heartbeat :
      Build → Protocol S → ReliabilityType → SendTo → Duration → Reply (Protocol S) PacketId
  unfolding heartbeat_helper next_packet_id
  heartbeat b p reliability send_to time =
      next_packet_id b p (heartbeat_helper b p.service reliability send_to p.packet_id_tracker time)

  -- The six `create_` functions, which differ in the type of the packet alone. The connection id
  -- is that of the scheduled message.
  unfoldable pub create_packet :
      {R M : Type 0}
      → Protocol S
      → Scheduled R M
      → ConnectionId
      → Duration
      → Result (Packet ToSend M)
  unfolding into_packet
  create_packet p scheduled connection_id time = do
    peer ← unwrap (get connection_id (i.connected p.service))
    ok (into_packet scheduled peer.sequence_tracker peer.remote_ack_tracker time)
