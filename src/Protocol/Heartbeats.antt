-- ===== src/Protocol/Heartbeats.antt =====
-- What `Protocol::heartbeat` of antarc-protocol/src/lib.rs queues.
use antarc.Scheduler.{heartbeat_for_connected_peer, schedule_heartbeat}
use antarc.Shared.{◌+◌, ◌<◌, ◌≡◌, refl, sym, ◌∙◌, false, List, [], ◌∷◌, some, map}
use antarc.Shared.HashMap.{HashMap, is_empty}
use antarc.Base.Results.{done}
use antarc.Base.Words.{Build}
use antarc.Packets.Delivery.{Duration, PacketId}
use antarc.Packets.Scheduled.{ReliabilityType}
use antarc.Peers.{Peer, Connected, SendTo, single, broadcast}
use antarc.Service.{Service}
use antarc.Protocol.Targets.{
  with_heartbeats_target, with_heartbeats_no_target, peer_target, targets_broadcast, targets_single,
  Target, targets, with_heartbeats,
}
use antarc.Protocol.Queued.{scheduled, answered}
use antarc.Protocol.{Scheduler, heartbeat_helper, heartbeat_for_all, Protocol, heartbeat, u64_mod}

module _ {S T H : Type 0} (i : Service S T H) where
  heartbeat_for_all_lem :
      (packet_id : PacketId) (time : Duration) (connected : HashMap (Peer Connected))
      (s : Scheduler T) (reliability : ReliabilityType)
      → heartbeat_for_all s connected reliability packet_id time
        ≡ with_heartbeats packet_id time reliability (map peer_target connected) s
  unfolding heartbeat_for_all heartbeat_for_connected_peer schedule_heartbeat
  heartbeat_for_all_lem packet_id time [] s reliability =
      sym (with_heartbeats_no_target packet_id time reliability s)
  heartbeat_for_all_lem packet_id time ((connection_id, peer) ∷ connected) s
        ReliabilityType.reliable =
      heartbeat_for_all_lem packet_id time connected _ ReliabilityType.reliable
      ∙ with_heartbeats_target packet_id time ReliabilityType.reliable (connection_id, peer.address)
          (map peer_target connected) s
  heartbeat_for_all_lem packet_id time ((connection_id, peer) ∷ connected) s
        ReliabilityType.unreliable =
      heartbeat_for_all_lem packet_id time connected _ ReliabilityType.unreliable
      ∙ with_heartbeats_target packet_id time ReliabilityType.unreliable
          (connection_id, peer.address) (map peer_target connected) s

  heartbeat_one :
      (packet_id : PacketId) (time : Duration) (t : Target) (s : Scheduler T)
      (reliability : ReliabilityType)
      → heartbeat_for_connected_peer s t.1 reliability t.0 packet_id time
        ≡ with_heartbeats packet_id time reliability (t ∷ []) s
  unfolding heartbeat_for_connected_peer schedule_heartbeat
  heartbeat_one packet_id time t s ReliabilityType.reliable = refl
  heartbeat_one packet_id time t s ReliabilityType.unreliable = refl

  -- A heartbeat is queued once for each target that is connected, behind what the scheduler held;
  -- nothing else changes but the packet id, which grows by one and is the answer.
  pub heartbeat_queued :
      (b : Build) (p : Protocol S) (reliability : ReliabilityType) (send_to : SendTo)
      (time : Duration) {ts : List Target}
      → is_empty (i.connected p.service) ≡ false
      → targets send_to (i.connected p.service) ≡ some ts
      → p.packet_id_tracker + 1 < u64_mod
      → heartbeat i b p reliability send_to time
        ≡ done
            (scheduled i p (
              i.with_scheduler p.service
                (with_heartbeats p.packet_id_tracker time reliability ts (i.scheduler p.service))))
            (p.packet_id_tracker + 1)
  unfolding heartbeat heartbeat_helper
  heartbeat_queued b p reliability (single connection_id) time some_peer known small =
      let (address, found, same) = targets_single connection_id (i.connected p.service) known in
      rw
        (
          some_peer,
          found,
          same,
          heartbeat_one p.packet_id_tracker time (connection_id, address) (i.scheduler p.service)
              reliability,
        )
        (answered i b p _ small)
  heartbeat_queued b p reliability broadcast time {ts} some_peer known small =
      rw
        (
          some_peer,
          sym (targets_broadcast (i.connected p.service) known),
          heartbeat_for_all_lem p.packet_id_tracker time (i.connected p.service)
              (i.scheduler p.service) reliability,
        )
        (answered i b p _ small)
