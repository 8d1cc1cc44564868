-- ===== src/Tests/LoopRuns.antt =====
-- What the loops of antarc/src/lib.rs send, at concrete inputs.
use antarc.Net.Unreported.{client_receives, data_transfers_unreported}
use antarc.Net.Fragments.{group_packets}
use antarc.Net.FragmentPolls.{poll_reliable_fragment_sends}
use antarc.Net.FragmentSenders.{client-FragmentSending}
use antarc.Net.Sending.{numbered}
use antarc.Net.Sent.{HasSent}
use antarc.Events.{ProtocolEvent}
use antarc.Net.Delivery.{payload_arrives}
use antarc.Packets.Delivery.{ToSend, from_secs}
use antarc.Client.Connects.{awaiting}
use antarc.Packets.Packet.{Packet, RawPacket, sent}
use antarc.Peers.{Peer, Connected, single, new_peer}
use antarc.Service.Agreement.{Agree, on_fragment_alike}
use antarc.Scheduler.{new_scheduler}
use antarc.Shared.HashMap.{get}
use antarc.Packets.Message.{ConnectionRequest, Fragment, DataTransfer, Heartbeat}
use antarc.Shared.{length, some, ℕ, ◌≡◌, refl, List, [], ◌∷◌, ◌++◌, arith}
use antarc.Base.Results.{ok, done}
use antarc.Packets.Encode.{fragment_encoder, data_transfer_encoder, heartbeat_encoder}
use antarc.Packets.Scheduled.{ReliabilityType, Scheduled, Reliable, Unreliable}
use antarc.Net.{AntarcNet}
use antarc.Net.ClientLoop
use antarc.Net.Polls
use antarc.Server.Handle
use antarc.Client.Handle as ClientHandle
use antarc.Net.Polls.{
  poll_reliable_fragment, poll_reliable_data_transfer, poll_unreliable_heartbeat,
  poll_unreliable_data_transfer,
}
use antarc.Net.Senders.{client_sending}
use antarc.Net.TransferPolls.{poll_reliable_data_transfer_sends, poll_unreliable_heartbeat_sends}
use antarc.Net.Arrival.{data_transfers_arrive, receive_each, payload_events}
use antarc.Service.{server_service, client_service}
use antarc.Server.{Server, new_server}
use antarc.Client.{client_scheduler, Client, new_client}
use antarc.Tests.Host.{LogHost, log_host, log_host_sends}
use antarc.Tests.Data.{
  hello-IsData, to_send, received, part, request, release, release-IsCrc32, hello, beat, peer,
}

abbrev quiet : LogHost
quiet = record { clock = 100; outgoing = []; incoming = [] }

abbrev hellos : {R : Type 0} → R → List (Scheduled R DataTransfer)
hellos reliability =
    record { packet_id = 4; address = 77; time = 90; reliability = reliability; message = hello }
    ∷ record { packet_id = 5; address = 77; time = 95; reliability = reliability; message = hello }
    ∷ []

abbrev beats : List (Scheduled Unreliable Heartbeat)
beats =
    record {
      packet_id = 4;
      address = 77;
      time = 90;
      reliability = Unreliable.unreliable;
      message = beat;
    }
    ∷ []

abbrev to_part : ℕ → Scheduled Reliable Fragment
to_part index = record {
  packet_id = 4;
  address = 77;
  time = 90;
  reliability = Reliable.reliable;
  message = part index (7 ∷ []);
}

abbrev first_parts : List (Scheduled Reliable Fragment)
first_parts = to_part 0 ∷ to_part 1 ∷ []

abbrev last_part : Scheduled Reliable Fragment
last_part = to_part 2

-- A client that is connected, with two data transfers of each kind and a heartbeat to send.
abbrev pub busy_client : Client
busy_client = record new_client {
  connected = (6, peer) ∷ [];
  scheduler = record (new_scheduler 32) {
    list_scheduled_reliable_data_transfer = hellos Reliable.reliable;
    list_scheduled_unreliable_data_transfer = hellos Unreliable.unreliable;
    list_scheduled_unreliable_heartbeat = beats;
    list_scheduled_reliable_fragment = first_parts ++ (last_part ∷ []);
  };
}

abbrev pub busy : AntarcNet Client LogHost
busy = record {
  antarc = record {
    packet_id_tracker = 6;
    service = busy_client;
    receiver_pipe = [];
    reliable_ttl = 30;
  };
  address = 88;
  socket = quiet;
  recv_buffer = [];
}

poll_reliable_data_transfer_sends_example :
    (n' : AntarcNet Client LogHost) × (poll_reliable_data_transfer client_service log_host release
        busy
      ≡ ok n')
    × HasSent client_sending log_host_sends release 6 77 busy peer
        (numbered 9 3 (hellos Reliable.reliable))
        2
        (record busy_client.scheduler { list_scheduled_reliable_data_transfer = [] })
        n'
unfolding get new_client
poll_reliable_data_transfer_sends_example =
    poll_reliable_data_transfer_sends client_sending log_host_sends release refl 6 77 busy peer refl
      refl
      (
        record { same_id = refl; same_address = refl },
        (record { same_id = refl; same_address = refl }, tt),
      )
      (omega arith)

poll_unreliable_heartbeat_sends_example :
    (n' : AntarcNet Client LogHost) × (poll_unreliable_heartbeat client_service log_host release
        busy
      ≡ ok n')
    × HasSent client_sending log_host_sends release 6 77 busy peer
        (numbered 9 3 beats)
        1
        (record busy_client.scheduler { list_scheduled_unreliable_heartbeat = [] })
        n'
unfolding get new_client
poll_unreliable_heartbeat_sends_example =
    poll_unreliable_heartbeat_sends client_sending log_host_sends release refl 6 77 busy peer refl
      refl (record { same_id = refl; same_address = refl }, tt) (omega arith)

-- A server that is connected to the client.
abbrev pub listening : Server
listening = record (new_server 8) { connected = (6, peer) ∷ [] }

data_transfers_arrive_example :
    (n' : AntarcNet Client LogHost) × (datagrams : List RawPacket) × (s' : Server)
    × (poll_unreliable_data_transfer client_service log_host release busy ≡ ok n')
    × (n'.socket.outgoing ≡ [] ++ datagrams)
    × (receive_each release listening 88 0 300 datagrams ≡ done s' tt)
    × (s'.api ≡ [] ++ payload_events (hellos Unreliable.unreliable))
unfolding get new_client new_server
data_transfers_arrive_example =
    data_transfers_arrive log_host_sends release 6 77 88 busy peer listening 0 300 release-IsCrc32
      refl refl refl
      (
        record { same_id = refl; same_address = refl },
        (record { same_id = refl; same_address = refl }, tt),
      )
      (hello-IsData, (hello-IsData, tt)) (omega arith) (omega arith) (omega arith) (λ e. cc)

-- A client that sends two requests, and waits for more than 1000 seconds after a poll.
abbrev asking_client : Client
asking_client = record new_client {
  requesting_connection = (77, new_peer 100 77 0) ∷ (78, new_peer 100 78 0) ∷ [];
}

abbrev second_request : Packet ToSend ConnectionRequest
second_request = record (to_send request) {
  delivery = record { id = 6; meta = record { time = 100; address = 78 } };
}

abbrev asked_client : Client
asked_client = awaiting asking_client 77 (sent (to_send request) 100 30) 100 100

abbrev asked_twice_client : Client
asked_twice_client = awaiting asked_client 78 (sent second_request 110 30) 100 110

abbrev waiting_client : Client
waiting_client = record asked_twice_client {
  reliability_handler = record asked_twice_client.reliability_handler {
    service = record { list_sent_connection_request = sent second_request 110 30 ∷ [] };
  };
}

abbrev waiting : AntarcNet Client LogHost
waiting = record busy {
  antarc = record busy.antarc { service = waiting_client };
  socket = record quiet { clock = from_secs 1000 };
}

on_fragment_alike_example :
    Agree listening busy_client
      (Handle.on_fragment listening (received 4 (part 2 (9 ∷ []))) 300)
      (ClientHandle.on_fragment busy_client (received 4 (part 2 (9 ∷ []))) 300)
unfolding get new_client new_server
on_fragment_alike_example =
    on_fragment_alike listening busy_client (received 4 (part 2 (9 ∷ []))) 300 peer refl refl

payload_arrives_example :
    (n₁ : AntarcNet Client LogHost) × (n₂ : AntarcNet Client LogHost) × (datagrams : List RawPacket)
    × (s' : Server) × (Polls.schedule client_service log_host release busy
          ReliabilityType.unreliable
          (single 6)
          (7 ∷ 8 ∷ [])
        ≡ done n₁ 7)
    × (poll_unreliable_data_transfer client_service log_host release n₁ ≡ ok n₂)
    × (n₂.socket.outgoing ≡ [] ++ datagrams)
    × (receive_each release listening 88 0 300 datagrams ≡ done s' tt)
    × (s'.api
        ≡ []
          ++ (payload_events (hellos Unreliable.unreliable)
              ++ (ProtocolEvent.data_transfer 6 (7 ∷ 8 ∷ []) ∷ [])))
unfolding get new_client new_server
payload_arrives_example =
    payload_arrives log_host_sends release busy 6 peer (7 ∷ 8 ∷ []) listening 88 0 300
      release-IsCrc32 refl refl refl
      (
        record { same_id = refl; same_address = refl },
        (record { same_id = refl; same_address = refl }, tt),
      )
      (hello-IsData, (hello-IsData, tt)) (omega arith, omega arith) (omega arith) (omega arith)
      (omega arith, (omega arith, tt)) (omega arith) (omega arith) (omega arith) (omega arith)
      (λ e. cc)

poll_reliable_fragment_sends_example :
    (n' : AntarcNet Client LogHost) × (poll_reliable_fragment client_service log_host release busy
      ≡ ok n')
    × HasSent client_sending log_host_sends release 6 77 busy peer
        (group_packets 9 3 (first_parts ++ (last_part ∷ [])))
        1
        (record busy_client.scheduler { list_scheduled_reliable_fragment = [] })
        n'
unfolding get new_client
poll_reliable_fragment_sends_example =
    poll_reliable_fragment_sends client_sending log_host_sends release
      (client-FragmentSending release) refl 6 77 busy peer refl refl (omega arith) first_parts
      last_part refl
      (
        record {
          to = record { same_id = refl; same_address = refl };
          some_total = omega arith;
          not_last = λ e. omega arith;
        },
        (
          record {
            to = record { same_id = refl; same_address = refl };
            some_total = omega arith;
            not_last = λ e. omega arith;
          },
          tt,
        ),
      )
      (record {
        to = record { same_id = refl; same_address = refl };
        some_total = omega arith;
        last = refl;
      })

abbrev busy_server_net : AntarcNet Server LogHost
busy_server_net = record {
  antarc = record {
    packet_id_tracker = 6;
    service = record listening {
      scheduler = record listening.scheduler {
        list_scheduled_unreliable_data_transfer = hellos Unreliable.unreliable;
      };
    };
    receiver_pipe = [];
    reliable_ttl = 30;
  };
  address = 88;
  socket = quiet;
  recv_buffer = [];
}

data_transfers_unreported_example :
    (n' : AntarcNet Server LogHost) × (datagrams : List RawPacket) × (c' : Client) × (known' : Peer
      Connected)
    × (poll_unreliable_data_transfer server_service log_host release busy_server_net ≡ ok n')
    × (n'.socket.outgoing ≡ [] ++ datagrams)
    × (length datagrams ≡ 2)
    × (client_receives release busy_client 88 300 datagrams ≡ done c' tt)
    × (c'.api ≡ busy_client.api)
    × (get 6 c'.connected ≡ some known')
unfolding get new_client new_server
data_transfers_unreported_example =
    data_transfers_unreported log_host_sends release 6 77 88 busy_server_net peer peer busy_client
      300 release-IsCrc32 refl refl
      (
        record { same_id = refl; same_address = refl },
        (record { same_id = refl; same_address = refl }, tt),
      )
      (hello-IsData, (hello-IsData, tt)) (omega arith) (omega arith) (omega arith) refl
