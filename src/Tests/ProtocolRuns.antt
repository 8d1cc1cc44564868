-- ===== src/Tests/ProtocolRuns.antt =====
-- `schedule` and `heartbeat` of antarc-protocol/src/lib.rs at concrete inputs.
use antarc.Shared.{
  ℕ, zero, suc, ◌<◌, ◌≤◌, ◌≡◌, refl, ap, [], ◌∷◌, List, arith, length, map, concat, All,
}
use antarc.Shared.HashMap.{get}
use antarc.Base.Errors.{scheduled_not_connected}
use antarc.Base.Results.{done, failed}
use antarc.Packets.Message.{Payload}
use antarc.Packets.Scheduled.{ReliabilityType}
use antarc.Peers.{single, broadcast}
use antarc.Client.{Client, new_client}
use antarc.Service.{client_service}
use antarc.Protocol.{Protocol, schedule, heartbeat, fragment_payload_size}
use antarc.Protocol.Chunks.{enumerate}
use antarc.Protocol.Targets.{with_fragments, with_data_transfers, with_heartbeats}
use antarc.Protocol.Heartbeats.{heartbeat_queued}
use antarc.Protocol.Queued.{
  scheduled, schedule_fragments_queued, schedule_data_transfer_queued, schedule_not_connected,
}
use antarc.Tests.Data.{release, peer}

abbrev lone_client : Protocol Client
lone_client = record {
  packet_id_tracker = 41;
  service = new_client;
  receiver_pipe = [];
  reliable_ttl = 30;
}

-- A client that is connected to one server.
abbrev client : Protocol Client
client = record lone_client { service = record new_client { connected = (6, peer) ∷ [] } }

abbrev pub zeros : ℕ → Payload
zeros zero = []
zeros (suc n) = 0 ∷ zeros n

pub length-zeros : (n : ℕ) → length (zeros n) ≡ n
length-zeros zero = refl
length-zeros (suc n) = ap suc (length-zeros n)

schedule_fragments_queued_example :
    (fragments : List (ℕ × Payload)) × (schedule client_service release client
        ReliabilityType.reliable
        (single 6)
        (zeros 2000)
        100
      ≡ done
          (scheduled client_service client (
            client_service.with_scheduler client.service (
              with_fragments 41 100 ReliabilityType.reliable
                (length fragments)
                ((6, 77) ∷ [])
                fragments
                (client_service.scheduler client.service))))
          42)
    × (fragments ≡ enumerate 0 (map (λ e. e.1) fragments))
    × (concat (map (λ e. e.1) fragments) ≡ zeros 2000)
    × All
        (λ (chunk : Payload). (0 < length chunk) × (length chunk ≤ fragment_payload_size))
        (map (λ e. e.1) fragments)
unfolding get
schedule_fragments_queued_example =
    schedule_fragments_queued client_service release client ReliabilityType.reliable (single 6)
      (zeros 2000) 100 refl refl (omega (arith, length-zeros 2000)) (omega arith)

schedule_data_transfer_queued_example :
    schedule client_service release client ReliabilityType.unreliable broadcast (1 ∷ 2 ∷ []) 100
    ≡ done
        (scheduled client_service client (
          client_service.with_scheduler client.service (
            with_data_transfers 41 100 ReliabilityType.unreliable
              ((6, 77) ∷ [])
              (1 ∷ 2 ∷ [])
              (client_service.scheduler client.service))))
        42
schedule_data_transfer_queued_example =
    schedule_data_transfer_queued client_service release client ReliabilityType.unreliable broadcast
      (1 ∷ 2 ∷ []) 100 refl refl (omega arith) (omega arith) (omega arith)

schedule_not_connected_example :
    (schedule client_service release client ReliabilityType.reliable (single 7) (1 ∷ []) 100
      ≡ failed client (scheduled_not_connected 7))
    × (heartbeat client_service release client ReliabilityType.reliable (single 7) 100
        ≡ failed client (scheduled_not_connected 7))
unfolding get
schedule_not_connected_example =
    schedule_not_connected client_service release client ReliabilityType.reliable 7 (1 ∷ []) 100
      refl refl (omega arith)

heartbeat_queued_example :
    heartbeat client_service release client ReliabilityType.reliable (single 6) 100
    ≡ done
        (scheduled client_service client (
          client_service.with_scheduler client.service (
            with_heartbeats 41 100 ReliabilityType.reliable
              ((6, 77) ∷ [])
              (client_service.scheduler client.service))))
        42
unfolding get
heartbeat_queued_example =
    heartbeat_queued client_service release client ReliabilityType.reliable (single 6) 100 refl refl
      (omega arith)
