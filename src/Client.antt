-- ===== src/Client.antt =====
-- antarc-protocol/src/client/service.rs: the state of a client and its operations.
pub mod Reassemble
pub mod Handle
pub mod Tables
pub mod Invariant
pub mod Asks
pub mod Sends
pub mod Reach
pub mod Connects
use antarc.Shared.{
  ℕ, ◌+◌, ◌≡◌, Bool, true, false, List, [], ◌∷◌, Option, none, some, ◌||◌, ◌==◌, if◌then◌else◌, any,
}
use antarc.Shared.HashMap.{HashMap, get, insert, remove, values, contains_key}
use antarc.Base.Errors.{SocketAddr, already_connecting_to_peer}
use antarc.Base.Results.{Result, ok, err, panic, ◌>>=◌, unwrap, Reply, done, failed}
use antarc.Base.Words.{Build, checked_difference}
use antarc.Packets.Delivery.{Duration, PacketId, ToSend, Sent}
use antarc.Packets.Message.{ConnectionId, ConnectionRequest, DataTransfer, Fragment, Heartbeat}
use antarc.Packets.Packet.{Packet, sent}
use antarc.Packets.Scheduled.{
  Scheduled, Reliable, ReliabilityType, into_packet, new_connection_request,
}
use antarc.Peers
use antarc.Peers.{
  Peer, RequestingConnection, AwaitingConnectionAck, Connected, new_peer, await_connection_ack,
  advance, next_sequence,
}
use antarc.Events.{ProtocolEvent, ClientEvent}
use antarc.Reliability.{
  ServiceReliability, ReliabilityHandler, polls, remove_first, retry, new_handler,
}
use antarc.Scheduler.{ServiceScheduler, Scheduler, push, new_scheduler}

pub record ClientScheduler : Type 0 where
  pub list_scheduled_connection_request : List (Scheduled Reliable ConnectionRequest)

instance abbrev pub client_scheduler : ServiceScheduler ClientScheduler
client_scheduler = record { new = λ capacity. record { list_scheduled_connection_request = [] } }

pub record ClientReliabilityHandler : Type 0 where
  pub list_sent_connection_request : List (Packet Sent ConnectionRequest)

-- `ClientReliabilityHandler::poll`
unfoldable pub poll_requests : ClientReliabilityHandler → Duration → Result ClientReliabilityHandler
unfolding polls
poll_requests handler now = do
  first_sent ← polls handler.list_sent_connection_request now
  ok (
      if first_sent
      then record {
        list_sent_connection_request = remove_first handler.list_sent_connection_request;
      }
      else handler)

instance abbrev pub client_reliability : ServiceReliability ClientReliabilityHandler
client_reliability = record {
  new = λ capacity. record { list_sent_connection_request = [] };
  poll = poll_requests;
}

pub record Client : Type 0 where
  pub api : List (ProtocolEvent ClientEvent)
  pub last_sent_time : Duration
  pub requesting_connection : HashMap (Peer RequestingConnection)
  pub awaiting_connection_ack : HashMap (Peer AwaitingConnectionAck)
  pub connected : HashMap (Peer Connected)
  pub scheduler : Scheduler ClientScheduler
  pub reliability_handler : ReliabilityHandler ClientReliabilityHandler

-- `Client::new`
unfoldable pub new_client : Client
unfolding new_scheduler new_handler
new_client = record {
  api = [];
  last_sent_time = 0;
  requesting_connection = [];
  awaiting_connection_ack = [];
  connected = [];
  scheduler = new_scheduler 32;
  reliability_handler = new_handler 32;
}

-- The head of the three `sent_` methods: a peer that awaits an ack at the address of the packet
-- becomes connected under the packet's connection id.
unfoldable pub connect_awaiting : Client → SocketAddr → ConnectionId → Duration → Client
unfolding Peers.connected
connect_awaiting c address connection_id time = elim (get address c.awaiting_connection_ack) [
  | some peer ↦ record c {
    awaiting_connection_ack = remove address c.awaiting_connection_ack;
    connected = insert connection_id (Peers.connected peer time connection_id) c.connected;
  }
  | none ↦ c
]

-- `Service::sent_data_transfer`
unfoldable pub sent_data_transfer :
    Client → Packet ToSend DataTransfer → Duration → ReliabilityType → Duration → Result Client
unfolding sent advance connect_awaiting
sent_data_transfer c packet time reliability ttl = do
  let packet' = sent packet time ttl
  let c' = connect_awaiting c packet'.delivery.meta.address packet'.message.connection_id time
  connected ← advance packet'.message.connection_id c'.connected
  let c'' : Client = record c' { connected = connected }
  elim reliability [
    | ReliabilityType.reliable ↦ ok (record c'' {
      reliability_handler = record c''.reliability_handler {
        list_sent_reliable_data_transfer =
            push c''.reliability_handler.list_sent_reliable_data_transfer packet';
      };
    })
    | ReliabilityType.unreliable ↦ ok c''
  ]

-- `Service::sent_fragment`
unfoldable pub sent_fragment :
    Build → Client → Packet ToSend Fragment → Duration → ReliabilityType → Duration → Result Client
unfolding sent advance connect_awaiting checked_difference
sent_fragment b c packet time reliability ttl = do
  let packet' = sent packet time ttl
  let c' = connect_awaiting c packet'.delivery.meta.address packet'.message.connection_id time
  last_index ← checked_difference b 256 packet'.message.total 1
  connected ←
      if packet'.message.index == last_index
      then advance packet'.message.connection_id c'.connected
      else ok c'.connected
  let c'' : Client = record c' { connected = connected }
  elim reliability [
    | ReliabilityType.reliable ↦ ok (record c'' {
      reliability_handler = record c''.reliability_handler {
        list_sent_reliable_fragment =
            push c''.reliability_handler.list_sent_reliable_fragment packet';
      };
    })
    | ReliabilityType.unreliable ↦ ok c''
  ]

-- `Service::sent_heartbeat`
unfoldable pub sent_heartbeat :
    Client → Packet ToSend Heartbeat → Duration → ReliabilityType → Duration → Result Client
unfolding sent advance connect_awaiting
sent_heartbeat c packet time reliability ttl = do
  let packet' = sent packet time ttl
  let c' = connect_awaiting c packet'.delivery.meta.address packet'.message.connection_id time
  connected ← advance packet'.message.connection_id c'.connected
  let c'' : Client = record c' { connected = connected }
  elim reliability [
    | ReliabilityType.reliable ↦ ok (record c'' {
      reliability_handler = record c''.reliability_handler {
        list_sent_reliable_heartbeat =
            push c''.reliability_handler.list_sent_reliable_heartbeat packet';
      };
    })
    | ReliabilityType.unreliable ↦ ok c''
  ]

-- `Client::create_connection_request`
unfoldable pub create_connection_request :
    Client
    → Scheduled Reliable ConnectionRequest
    → Duration
    → Result (Packet ToSend ConnectionRequest)
unfolding into_packet
create_connection_request c scheduled time = do
  peer ← unwrap (get scheduled.address c.requesting_connection)
  ok (into_packet scheduled peer.sequence_tracker peer.remote_ack_tracker time)

-- `Client::sent_connection_request`
unfoldable pub sent_connection_request :
    Client → Packet ToSend ConnectionRequest → Duration → Duration → Result Client
unfolding sent next_sequence await_connection_ack
sent_connection_request c packet time ttl = do
  let packet' = sent packet time ttl
  let address = packet'.delivery.meta.address
  peer ← unwrap (get address c.requesting_connection)
  peer' ← next_sequence peer
  ok (record c {
    requesting_connection = remove address c.requesting_connection;
    reliability_handler = record c.reliability_handler {
      service = record {
        list_sent_connection_request =
            push c.reliability_handler.service.list_sent_connection_request packet';
      };
    };
    awaiting_connection_ack =
        insert address (await_connection_ack peer' time) c.awaiting_connection_ack;
  })

-- `Client::known_peer`
unfoldable pub known_peer : Client → SocketAddr → Bool
known_peer c remote_address =
    contains_key remote_address c.requesting_connection
    || (contains_key remote_address c.awaiting_connection_ack
        || any (λ peer. peer.address == remote_address) (values c.connected))

-- `Client::connect`
unfoldable pub connect : Client → SocketAddr → PacketId → Duration → Reply Client (Unit {0})
unfolding known_peer new_peer new_connection_request
connect c remote_address packet_id time =
    if known_peer c remote_address
    then failed c (already_connecting_to_peer remote_address)
    else done
        (record c {
          scheduler = record c.scheduler {
            service = record {
              list_scheduled_connection_request =
                  push c.scheduler.service.list_scheduled_connection_request
                    (new_connection_request packet_id remote_address time);
            };
          };
          requesting_connection =
              insert remote_address (new_peer time remote_address 0) c.requesting_connection;
        })
        tt

-- `Client::resend_reliable_connection_request`
unfoldable pub resend_reliable_connection_request :
    Client → Duration → Result (Client × Option (Packet ToSend ConnectionRequest))
unfolding retry
resend_reliable_connection_request c time = do
  (rest, packet) ← retry c.reliability_handler.service.list_sent_connection_request time
  ok (
    record c {
      reliability_handler = record c.reliability_handler {
        service = record { list_sent_connection_request = rest };
      };
    },
    packet,
  )
