-- ===== src/Tests/LargeRuns.antt =====
-- A payload of two fragments, from `schedule` of antarc/src/lib.rs to the event of the server.
use antarc.Shared.HashMap.{get}
use antarc.Service.{client_service}
use antarc.Protocol.Chunks.{chunks, chunks_fuel}
use antarc.Protocol.{fragment_payload_size}
use antarc.Events.{ProtocolEvent}
use antarc.Net.Arrival.{receive_each}
use antarc.Net.Polls.{poll_reliable_fragment}
use antarc.Base.Results.{ok, done}
use antarc.Peers.{single}
use antarc.Packets.Scheduled.{ReliabilityType}
use antarc.Packets.Message.{Payload}
use antarc.Packets.Packet.{RawPacket}
use antarc.Server.{Server, new_server}
use antarc.Client.{Client, new_client}
use antarc.Net.{AntarcNet}
use antarc.Tests.Host.{LogHost, log_host, log_host_sends}
use antarc.Tests.Data.{release, release-IsCrc32, peer}
use antarc.Base.Words.{IsByte}
use antarc.Shared.{ℕ, zero, suc, ◌≡◌, refl, List, [], ◌∷◌, ◌++◌, ◌<◌, ◌≤◌, length, arith, All}
use antarc.Tests.LoopRuns.{busy, busy_client, listening}
use antarc.Tests.ProtocolRuns.{zeros, length-zeros}
use antarc.Tests.PeerRuns.{peer-GroupsFit}
use antarc.Net.LargePayload.{large_payload_arrives}
use antarc.Net.Polls

abbrev idle : AntarcNet Client LogHost
idle = record busy {
  antarc = record busy.antarc {
    service = record busy_client {
      scheduler = record busy_client.scheduler { list_scheduled_reliable_fragment = [] };
    };
  };
}

zeros-IsByte : (n : ℕ) → All IsByte (zeros n)
zeros-IsByte zero = tt
zeros-IsByte (suc n) = (omega arith, zeros-IsByte n)

two_chunks : length (chunks fragment_payload_size (zeros 1600)) ≡ 2
unfolding chunks chunks_fuel
two_chunks = refl

large_payload_arrives_example :
    (n₁ : AntarcNet Client LogHost) × (n₂ : AntarcNet Client LogHost) × (datagrams : List RawPacket)
    × (s' : Server) × (reported : Payload) × (lost : Payload) × (Polls.schedule client_service
          log_host release idle ReliabilityType.reliable
          (single 6)
          (zeros 1600)
        ≡ done n₁ 7)
    × (poll_reliable_fragment client_service log_host release n₁ ≡ ok n₂)
    × (n₂.socket.outgoing ≡ [] ++ datagrams)
    × (receive_each release listening 88 0 300 datagrams ≡ done s' tt)
    × (s'.api ≡ [] ++ (ProtocolEvent.data_transfer 6 reported ∷ []))
    × (zeros 1600 ≡ reported ++ lost)
    × (0 < length lost)
    × (length lost ≤ fragment_payload_size)
unfolding get new_client new_server
large_payload_arrives_example =
    large_payload_arrives log_host_sends release idle 6 peer (zeros 1600) listening peer 88 0 300
      release-IsCrc32 refl refl refl refl (omega arith, omega arith)
      (omega (arith, length-zeros 1600)) (omega (arith, two_chunks)) (zeros-IsByte 1600)
      (omega arith) (omega arith) (omega arith) (omega arith) refl peer-GroupsFit refl
