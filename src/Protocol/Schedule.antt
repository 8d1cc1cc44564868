-- ===== src/Protocol/Schedule.antt =====
-- What `Protocol::schedule` of antarc-protocol/src/lib.rs queues, for which peers, and when it
-- refuses.
use antarc.Shared.{ℕ, ◌<◌, ◌≡◌, refl, sym, ap, ◌∙◌, List, [], ◌∷◌, some, map, arith}
use antarc.Shared.HashMap.{HashMap}
use antarc.Base.Results.{done}
use antarc.Packets.Delivery.{Duration, PacketId}
use antarc.Packets.Message.{Payload}
use antarc.Packets.Scheduled.{ReliabilityType}
use antarc.Peers.{Peer, Connected, SendTo, single, broadcast}
use antarc.Scheduler.{
  Scheduler, schedule_fragment, schedule_data_transfer, schedule_for_connected_peer,
}
use antarc.Service.{Service}
use antarc.Protocol.Targets.{
  targets_broadcast, targets_single, with_data_transfers_target, with_fragments_target,
  with_data_transfers_no_target, with_fragments_no_target, peer_target, Target, targets,
  with_fragments, with_data_transfers, with_fragments_nil, with_fragments_cons,
}
use antarc.Protocol.{schedule_for_all, schedule_round, schedule_fragments}

module _ {T : Type 0} (packet_id : PacketId) (time : Duration) where
  schedule_for_connected_peer-fragments :
      (s : Scheduler T) (t : Target) (payload : Payload) (reliability : ReliabilityType)
      (index total : ℕ)
      → 1 < total
      → schedule_for_connected_peer s t.1 payload reliability t.0 packet_id time index total
        ≡ with_fragments packet_id time reliability total (t ∷ []) ((index, payload) ∷ []) s
  unfolding schedule_for_connected_peer schedule_fragment
  schedule_for_connected_peer-fragments s t payload ReliabilityType.reliable index total several =
      ground arith
  schedule_for_connected_peer-fragments s t payload ReliabilityType.unreliable index total several =
      ground arith

  schedule_for_connected_peer-data_transfer :
      (s : Scheduler T) (t : Target) (payload : Payload) (reliability : ReliabilityType) (index : ℕ)
      → schedule_for_connected_peer s t.1 payload reliability t.0 packet_id time index 1
        ≡ with_data_transfers packet_id time reliability (t ∷ []) payload s
  unfolding schedule_for_connected_peer schedule_data_transfer
  schedule_for_connected_peer-data_transfer s t payload ReliabilityType.reliable index = refl
  schedule_for_connected_peer-data_transfer s t payload ReliabilityType.unreliable index = refl

  schedule_for_all-fragments :
      (connected : HashMap (Peer Connected)) (s : Scheduler T) (payload : Payload)
      (reliability : ReliabilityType) (index total : ℕ)
      → 1 < total
      → schedule_for_all s connected payload reliability packet_id time index total
        ≡ with_fragments packet_id time reliability total
            (map peer_target connected)
            ((index, payload) ∷ [])
            s
  unfolding schedule_for_all
  schedule_for_all-fragments [] s payload reliability index total several =
      sym (with_fragments_no_target packet_id time reliability total (index, payload) s)
  schedule_for_all-fragments ((connection_id, peer) ∷ connected) s payload reliability index total
        several =
      schedule_for_all-fragments connected _ payload reliability index total several
      ∙ (ap
            (with_fragments packet_id time reliability total (map peer_target connected)
              ((index, payload) ∷ []))
            (schedule_for_connected_peer-fragments s (connection_id, peer.address) payload
              reliability index total several)
          ∙ with_fragments_target packet_id time reliability total (connection_id, peer.address)
              (map peer_target connected) (index, payload) s)

  schedule_for_all-data_transfer :
      (connected : HashMap (Peer Connected)) (s : Scheduler T) (payload : Payload)
      (reliability : ReliabilityType) (index : ℕ)
      → schedule_for_all s connected payload reliability packet_id time index 1
        ≡ with_data_transfers packet_id time reliability (map peer_target connected) payload s
  unfolding schedule_for_all
  schedule_for_all-data_transfer [] s payload reliability index =
      sym (with_data_transfers_no_target packet_id time reliability payload s)
  schedule_for_all-data_transfer ((connection_id, peer) ∷ connected) s payload reliability index =
      schedule_for_all-data_transfer connected _ payload reliability index
      ∙ (ap (with_data_transfers packet_id time reliability (map peer_target connected) payload) (
            schedule_for_connected_peer-data_transfer s (connection_id, peer.address) payload
              reliability index)
          ∙ with_data_transfers_target packet_id time reliability (connection_id, peer.address)
              (map peer_target connected) payload s)

module _ {S T H : Type 0} (i : Service S T H) where
  schedule_round-fragments :
      (service : S) (send_to : SendTo) (reliability : ReliabilityType) (packet_id : PacketId)
      (time : Duration) (total index : ℕ) (payload : Payload) {ts : List Target}
      → targets send_to (i.connected service) ≡ some ts
      → 1 < total
      → schedule_round i service send_to reliability packet_id time total index payload
        ≡ done
            (i.with_scheduler service (
              with_fragments packet_id time reliability total ts
                ((index, payload) ∷ [])
                (i.scheduler service)))
            tt
  unfolding schedule_round
  schedule_round-fragments service (single connection_id) reliability packet_id time total index
        payload known several =
      let (address, found, same) = targets_single connection_id (i.connected service) known in
      rw (found, same)
        (ap (λ x. done (i.with_scheduler service x) tt)
          (schedule_for_connected_peer-fragments packet_id time (i.scheduler service)
            (connection_id, address) payload reliability index total several))
  schedule_round-fragments service broadcast reliability packet_id time total index payload known
        several =
      ap (λ x. done (i.with_scheduler service x) tt)
        (schedule_for_all-fragments packet_id time (i.connected service) (i.scheduler service)
            payload reliability index total several
          ∙ ap
              (λ ts.
                with_fragments packet_id time reliability total ts ((index, payload) ∷ [])
                  (i.scheduler service))
              (targets_broadcast (i.connected service) known))

  pub schedule_round-data_transfer :
      (service : S) (send_to : SendTo) (reliability : ReliabilityType) (packet_id : PacketId)
      (time : Duration) (index : ℕ) (payload : Payload) {ts : List Target}
      → targets send_to (i.connected service) ≡ some ts
      → schedule_round i service send_to reliability packet_id time 1 index payload
        ≡ done
            (i.with_scheduler service
              (with_data_transfers packet_id time reliability ts payload (i.scheduler service)))
            tt
  unfolding schedule_round
  schedule_round-data_transfer service (single connection_id) reliability packet_id time index
        payload known =
      let (address, found, same) = targets_single connection_id (i.connected service) known in
      rw (found, same)
        (ap (λ x. done (i.with_scheduler service x) tt)
          (schedule_for_connected_peer-data_transfer packet_id time (i.scheduler service)
            (connection_id, address) payload reliability index))
  schedule_round-data_transfer service broadcast reliability packet_id time index payload known =
      ap (λ x. done (i.with_scheduler service x) tt)
        (schedule_for_all-data_transfer packet_id time (i.connected service) (i.scheduler service)
            payload reliability index
          ∙ ap
              (λ ts.
                with_data_transfers packet_id time reliability ts payload (i.scheduler service))
              (targets_broadcast (i.connected service) known))

  pub schedule_fragments-fragments :
      (fragments : List (ℕ × Payload)) (service : S) (send_to : SendTo)
      (reliability : ReliabilityType) (packet_id : PacketId) (time : Duration) (total : ℕ)
      {ts : List Target}
      → targets send_to (i.connected service) ≡ some ts
      → 1 < total
      → schedule_fragments i service send_to reliability packet_id time total fragments
        ≡ done
            (i.with_scheduler service
              (with_fragments packet_id time reliability total ts fragments (i.scheduler service)))
            tt
  unfolding schedule_fragments
  schedule_fragments-fragments [] service send_to reliability packet_id time total {ts} known
        several =
      rw
        (
          with_fragments_nil packet_id time reliability total ts (i.scheduler service),
          i.with_scheduler_same service,
        )
        refl
  schedule_fragments-fragments ((index, payload) ∷ fragments) service send_to reliability packet_id
        time total {ts} known several =
      let now =
        with_fragments packet_id time reliability total ts ((index, payload) ∷ [])
          (i.scheduler service) in
      let now_known : targets send_to (i.connected (i.with_scheduler service now)) ≡ some ts =
        rw (i.connected-with_scheduler service now) known in
      rw
        (
          schedule_round-fragments service send_to reliability packet_id time total index payload
              known several,
          schedule_fragments-fragments fragments (i.with_scheduler service now) send_to reliability
              packet_id time total now_known several,
          i.scheduler-with_scheduler service now,
          with_fragments_cons packet_id time reliability total ts (index, payload) fragments
              (i.scheduler service),
        )
        (ap (λ s. done s tt) (i.with_scheduler_twice service now _))
