-- ===== src/Protocol/Queued.antt =====
-- `Protocol::schedule` of antarc-protocol/src/lib.rs as a whole: what it queues, what it answers,
-- and when it and `Protocol::heartbeat` refuse.
use antarc.Shared.{
  ℕ, ◌+◌, ◌≤◌, ◌<◌, ◌≡◌, refl, sym, ap, false, List, [], ◌∷◌, none, some, map, length, arith,
  concat, All,
}
use antarc.Shared.HashMap.{get, is_empty}
use antarc.Base.Errors.{scheduled_not_connected}
use antarc.Base.Results.{lift, done, failed}
use antarc.Base.Words.{checked_sum_ok, Build, checked_sum}
use antarc.Packets.Delivery.{Duration}
use antarc.Packets.Message.{ConnectionId, Payload}
use antarc.Packets.Scheduled.{ReliabilityType}
use antarc.Peers.{SendTo, single}
use antarc.Service.{Service}
use antarc.Protocol.Chunks.{
  chunks_fuel, chunks, enumerate, chunks_single, chunks_several, concat-chunks, chunks_short,
  length-enumerate, map-enumerate,
}
use antarc.Protocol.Targets.{Target, targets, with_fragments, with_data_transfers}
use antarc.Protocol.Schedule.{schedule_fragments-fragments, schedule_round-data_transfer}
use antarc.Protocol.{
  heartbeat_helper, schedule_round, Protocol, address_of, schedule_fragments, schedule_helper,
  schedule, heartbeat, next_packet_id, fragment_payload_size, u64_mod,
}

module _ {S T H : Type 0} (i : Service S T H) where
  -- The protocol after a packet was scheduled.
  abbrev pub scheduled : Protocol S → S → Protocol S
  scheduled p service = record p { service = service; packet_id_tracker = p.packet_id_tracker + 1 }

  pub answered :
      (b : Build) (p : Protocol S) (service : S)
      → p.packet_id_tracker + 1 < u64_mod
      → next_packet_id i b p (
          lift service
            (checked_sum b u64_mod p.packet_id_tracker 1)
            (λ result. done service result))
        ≡ done (scheduled p service) (p.packet_id_tracker + 1)
  unfolding next_packet_id
  answered b p service small =
      let sum = checked_sum_ok b u64_mod p.packet_id_tracker 1 small in rw sum (rw sum refl)

  -- What is queued of a payload that is longer than a fragment holds are its chunks.
  pub schedule-chunks :
      (b : Build) (p : Protocol S) (reliability : ReliabilityType) (send_to : SendTo)
      (payload : Payload) (time : Duration) {ts : List Target}
      → let cut = chunks fragment_payload_size payload in
        is_empty (i.connected p.service) ≡ false
        → targets send_to (i.connected p.service) ≡ some ts
        → fragment_payload_size < length payload
        → p.packet_id_tracker + 1 < u64_mod
        → schedule i b p reliability send_to payload time
          ≡ done
              (scheduled p (
                i.with_scheduler p.service (
                  with_fragments p.packet_id_tracker time reliability
                    (length (enumerate 0 cut))
                    ts
                    (enumerate 0 cut)
                    (i.scheduler p.service))))
              (p.packet_id_tracker + 1)
  unfolding schedule schedule_helper next_packet_id checked_sum
  schedule-chunks b p reliability send_to payload time some_peer known long small =
      let cut = chunks fragment_payload_size payload in
      rw
        (
          some_peer,
          schedule_fragments-fragments i (enumerate 0 cut) p.service send_to reliability
              p.packet_id_tracker time (length (enumerate 0 cut)) known
              (omega (
                arith,
                length-enumerate 0 cut,
                chunks_several fragment_payload_size payload (omega arith) long,
              )),
        )
        (answered b p _ small)

  -- A payload longer than a fragment holds, to targets that are connected, is cut into numbered
  -- fragments that are together the payload, none empty and none longer than a fragment holds;
  -- the scheduler then holds, behind what it held, each fragment once for each target, and
  -- nothing else changes but the packet id, which grows by one and is the answer.
  pub schedule_fragments_queued :
      (b : Build) (p : Protocol S) (reliability : ReliabilityType) (send_to : SendTo)
      (payload : Payload) (time : Duration) {ts : List Target}
      → is_empty (i.connected p.service) ≡ false
      → targets send_to (i.connected p.service) ≡ some ts
      → fragment_payload_size < length payload
      → p.packet_id_tracker + 1 < u64_mod
      → (fragments : List (ℕ × Payload)) × (schedule i b p reliability send_to payload time
          ≡ done
              (scheduled p (
                i.with_scheduler p.service (
                  with_fragments p.packet_id_tracker time reliability
                    (length fragments)
                    ts
                    fragments
                    (i.scheduler p.service))))
              (p.packet_id_tracker + 1))
        × (fragments ≡ enumerate 0 (map (λ e. e.1) fragments))
        × (concat (map (λ e. e.1) fragments) ≡ payload)
        × All
            (λ (chunk : Payload). (0 < length chunk) × (length chunk ≤ fragment_payload_size))
            (map (λ e. e.1) fragments)
  schedule_fragments_queued b p reliability send_to payload time some_peer known long small =
      let cut = chunks fragment_payload_size payload in
      let same = map-enumerate 0 cut in
      (
        enumerate 0 cut,
        schedule-chunks b p reliability send_to payload time some_peer known long small,
        ap (enumerate 0) (sym same),
        rw same (concat-chunks fragment_payload_size payload (omega arith)),
        rw same (chunks_short fragment_payload_size payload (omega arith)),
      )

  -- A payload that is not empty and fits a fragment is queued as one data transfer for each target
  -- that is connected, whole, behind what the scheduler held; nothing else changes but the packet
  -- id, which grows by one and is the answer.
  pub schedule_data_transfer_queued :
      (b : Build) (p : Protocol S) (reliability : ReliabilityType) (send_to : SendTo)
      (payload : Payload) (time : Duration) {ts : List Target}
      → is_empty (i.connected p.service) ≡ false
      → targets send_to (i.connected p.service) ≡ some ts
      → 0 < length payload
      → length payload ≤ fragment_payload_size
      → p.packet_id_tracker + 1 < u64_mod
      → schedule i b p reliability send_to payload time
        ≡ done
            (scheduled p (
              i.with_scheduler p.service (
                with_data_transfers p.packet_id_tracker time reliability ts payload
                  (i.scheduler p.service))))
            (p.packet_id_tracker + 1)
  unfolding schedule schedule_helper schedule_fragments enumerate
  schedule_data_transfer_queued b p reliability send_to payload time some_peer known some_byte short
        small =
      rw
        (
          some_peer,
          chunks_single fragment_payload_size payload some_byte short,
          schedule_round-data_transfer i p.service send_to reliability p.packet_id_tracker time 0
              payload known,
        )
        (answered b p _ small)

  -- A payload that is not empty, or a heartbeat, for one peer that is not connected, while another
  -- peer is, is refused with the id of that peer, and nothing changes.
  pub schedule_not_connected :
      (b : Build) (p : Protocol S) (reliability : ReliabilityType) (connection_id : ConnectionId)
      (payload : Payload) (time : Duration)
      → is_empty (i.connected p.service) ≡ false
      → get connection_id (i.connected p.service) ≡ none
      → 0 < length payload
      → (schedule i b p reliability (single connection_id) payload time
          ≡ failed p (scheduled_not_connected connection_id))
        × (heartbeat i b p reliability (single connection_id) time
            ≡ failed p (scheduled_not_connected connection_id))
  unfolding schedule schedule_helper schedule_fragments schedule_round heartbeat heartbeat_helper
      next_packet_id chunks chunks_fuel enumerate
  schedule_not_connected b p reliability connection_id [] time some_peer unknown some_byte =
      absurd (omega arith)
  schedule_not_connected b p reliability connection_id (byte ∷ payload) time some_peer unknown
        some_byte =
      let absent : address_of connection_id (i.connected p.service) ≡ none =
        rw (address_of, unknown) refl in
      (rw (some_peer, absent) refl, rw (some_peer, absent) refl)

  -- An empty payload queues nothing, even for a peer that is not connected, and still takes a
  -- packet id.
  pub schedule_empty :
      (b : Build) (p : Protocol S) (reliability : ReliabilityType) (send_to : SendTo)
      (time : Duration)
      → is_empty (i.connected p.service) ≡ false
      → p.packet_id_tracker + 1 < u64_mod
      → schedule i b p reliability send_to [] time
        ≡ done (scheduled p p.service) (p.packet_id_tracker + 1)
  unfolding schedule schedule_helper schedule_fragments chunks chunks_fuel enumerate
  schedule_empty b p reliability send_to time some_peer small =
      rw some_peer (answered b p p.service small)
