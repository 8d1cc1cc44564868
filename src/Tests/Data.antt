-- ===== src/Tests/Data.antt =====
-- The builds, packets and peers of the runs.
use antarc.Packets.RoundTrip.{IsData}
use antarc.Shared.{refl, ℕ, ◌+◌, ◌*◌, ◌%◌, List, [], ◌∷◌, false, foldl, arith}
use antarc.Base.Words.{Build, IsCrc32, u32_mod}
use antarc.Packets.PacketType.{
  data_transfer_type, fragment_type, heartbeat_type, connection_request_type,
  connection_accepted_type,
}
use antarc.Packets.Delivery.{ToSend, Received}
use antarc.Packets.Message.{
  ConnectionRequest, ConnectionAccepted, DataTransfer, Fragment, Heartbeat,
}
use antarc.Packets.Packet.{Packet}
use antarc.Peers.{Peer, Connected, AwaitingConnectionAck}

-- A release build with a checksum that reads every byte.
abbrev pub release : Build
release = record {
  debug_assertions = false;
  crc32 = λ bytes. foldl (λ h x. h * 31 + x) 7 bytes % u32_mod;
}

pub release-IsCrc32 : IsCrc32 release
release-IsCrc32 bytes = omega arith

abbrev pub to_send : {M : Type 0} → M → Packet ToSend M
to_send message = record {
  delivery = record { id = 5; meta = record { time = 100; address = 77 } };
  sequence = 3;
  ack = 2;
  message = message;
}

abbrev pub received : {M : Type 0} → ℕ → M → Packet Received M
received sequence message = record {
  delivery = record { meta = record { time = 200; address = 77 } };
  sequence = sequence;
  ack = 1;
  message = message;
}

abbrev pub hello : DataTransfer
hello = record {
  meta = record { packet_type = data_transfer_type };
  connection_id = 6;
  payload = 104 ∷ 105 ∷ [];
}

pub hello-IsData : IsData hello
hello-IsData = record {
  typed = refl;
  id_range = (omega arith, omega arith);
  payload_range = (omega arith, (omega arith, tt));
}

abbrev pub part : ℕ → List ℕ → Fragment
part index payload = record {
  meta = record { packet_type = fragment_type };
  connection_id = 6;
  index = index;
  total = 3;
  payload = payload;
}

abbrev pub beat : Heartbeat
beat = record { meta = record { packet_type = heartbeat_type }; connection_id = 6 }

abbrev pub request : ConnectionRequest
request = record { meta = record { packet_type = connection_request_type } }

abbrev pub acceptance : ConnectionAccepted
acceptance = record { meta = record { packet_type = connection_accepted_type }; connection_id = 6 }

-- The first two parts of a payload, as they wait for the third.
abbrev pub two_parts : List (Packet Received Fragment)
two_parts = received 4 (part 0 (1 ∷ 2 ∷ [])) ∷ received 4 (part 1 (3 ∷ [])) ∷ []

abbrev pub peer_with : List (ℕ × List (Packet Received Fragment)) → Peer Connected
peer_with groups = record {
  sequence_tracker = 9;
  remote_ack_tracker = 3;
  local_ack_tracker = 1;
  address = 77;
  connection = record {
    meta = record {
      time_entered_state = 10;
      latest_sent_packet_id = 0;
      latest_sent_packet_time = 0;
    };
    connection_id = 6;
    rtt = 0;
    reassembler = groups;
  };
}

abbrev pub peer : Peer Connected
peer = peer_with ((4, two_parts) ∷ [])

abbrev pub waiting_peer : Peer AwaitingConnectionAck
waiting_peer = record {
  sequence_tracker = 2;
  remote_ack_tracker = 1;
  local_ack_tracker = 0;
  address = 88;
  connection = record {
    meta = record {
      time_entered_state = 10;
      latest_sent_packet_id = 0;
      latest_sent_packet_time = 0;
    };
    attempts = 0;
  };
}
