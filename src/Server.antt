-- ===== src/Server.antt =====
-- antarc-protocol/src/server/service.rs: the state of a server and its operations.
pub mod Handle
pub mod Tables
pub mod Requests
pub mod Invariant
pub mod Poll
pub mod Sends
pub mod Reach
pub mod Reports
pub mod Fragments
pub mod Exhausted
use antarc.Shared.{
  ℕ, ◌+◌, ◌≡◌, Bool, true, false, List, [], ◌∷◌, Option, none, some, ◌||◌, ltb, ◌==◌, if◌then◌else◌,
  any,
}
use antarc.Shared.HashMap.{HashMap, get, insert, remove, values}
use antarc.Base.Errors.{SocketAddr, ProtocolError, not_found, banned, peer_in_another_state}
use antarc.Base.Results.{Result, ok, err, panic, Reply, done, ◌>>=◌, unwrap, lift}
use antarc.Base.Words.{Build, checked_sum, checked_difference, u32_mod, u16_mod}
use antarc.Packets.PacketType.{connection_accepted_type}
use antarc.Packets.Delivery.{Duration, PacketId, ToSend, Sent, Received}
use antarc.Packets.Message.{
  ConnectionId, ConnectionRequest, ConnectionAccepted, DataTransfer, Fragment, Heartbeat,
}
use antarc.Packets.Packet.{Packet, sent}
use antarc.Packets.Scheduled.{Scheduled, Reliable, ReliabilityType, into_packet}
use antarc.Peers
use antarc.Peers.{
  Peer, RequestingConnection, AwaitingConnectionAck, Connected, new_peer, await_connection_ack,
  advance,
}
use antarc.Events.{ProtocolEvent, fail, ServerEvent}
use antarc.Reliability.{
  ServiceReliability, ReliabilityHandler, polls, remove_first, retry, new_handler,
}
use antarc.Scheduler.{ServiceScheduler, Scheduler, push, new_scheduler}

pub record ServerScheduler : Type 0 where
  pub list_scheduled_connection_accepted : List (Scheduled Reliable ConnectionAccepted)

instance abbrev pub server_scheduler : ServiceScheduler ServerScheduler
server_scheduler = record { new = λ capacity. record { list_scheduled_connection_accepted = [] } }

pub record ServerReliabilityHandler : Type 0 where
  pub list_sent_connection_accepted : List (Packet Sent ConnectionAccepted)

-- `ServerReliabilityHandler::poll`
unfoldable pub poll_accepted : ServerReliabilityHandler → Duration → Result ServerReliabilityHandler
unfolding polls
poll_accepted handler now = do
  first_sent ← polls handler.list_sent_connection_accepted now
  ok (
      if first_sent
      then record {
        list_sent_connection_accepted = remove_first handler.list_sent_connection_accepted;
      }
      else handler)

instance abbrev pub server_reliability : ServiceReliability ServerReliabilityHandler
server_reliability = record {
  new = λ capacity. record { list_sent_connection_accepted = [] };
  poll = poll_accepted;
}

pub record Server : Type 0 where
  pub api : List (ProtocolEvent ServerEvent)
  pub last_antarc_schedule_check : Duration
  pub connection_id_tracker : ConnectionId
  pub requesting_connection : HashMap (Peer RequestingConnection)
  pub awaiting_connection_ack : HashMap (Peer AwaitingConnectionAck)
  pub connected : HashMap (Peer Connected)
  pub ban_list : List SocketAddr
  pub scheduler : Scheduler ServerScheduler
  pub reliability_handler : ReliabilityHandler ServerReliabilityHandler

-- `Server::new`
unfoldable pub new_server : ℕ → Server
unfolding new_scheduler new_handler
new_server capacity = record {
  api = [];
  last_antarc_schedule_check = 0;
  connection_id_tracker = 1;
  requesting_connection = [];
  awaiting_connection_ack = [];
  connected = [];
  ban_list = [];
  scheduler = new_scheduler capacity;
  reliability_handler = new_handler capacity;
}

-- `Service::sent_data_transfer`
unfoldable pub sent_data_transfer :
    Server → Packet ToSend DataTransfer → Duration → ReliabilityType → Duration → Result Server
unfolding sent advance
sent_data_transfer s packet time reliability ttl = do
  let packet' = sent packet time ttl
  connected ← advance packet'.message.connection_id s.connected
  let s' : Server = record s { connected = connected }
  elim reliability [
    | ReliabilityType.reliable ↦ ok (record s' {
      reliability_handler = record s'.reliability_handler {
        list_sent_reliable_data_transfer =
            push s'.reliability_handler.list_sent_reliable_data_transfer packet';
      };
    })
    | ReliabilityType.unreliable ↦ ok s'
  ]

-- `Service::sent_fragment`: only the last part of a group moves the sequence on.
unfoldable pub sent_fragment :
    Build → Server → Packet ToSend Fragment → Duration → ReliabilityType → Duration → Result Server
unfolding sent advance checked_difference
sent_fragment b s packet time reliability ttl = do
  let packet' = sent packet time ttl
  last_index ← checked_difference b 256 packet'.message.total 1
  connected ←
      if packet'.message.index == last_index
      then advance packet'.message.connection_id s.connected
      else ok s.connected
  let s' : Server = record s { connected = connected }
  elim reliability [
    | ReliabilityType.reliable ↦ ok (record s' {
      reliability_handler = record s'.reliability_handler {
        list_sent_reliable_fragment =
            push s'.reliability_handler.list_sent_reliable_fragment packet';
      };
    })
    | ReliabilityType.unreliable ↦ ok s'
  ]

-- `Service::sent_heartbeat`
unfoldable pub sent_heartbeat :
    Server → Packet ToSend Heartbeat → Duration → ReliabilityType → Duration → Result Server
unfolding sent advance
sent_heartbeat s packet time reliability ttl = do
  let packet' = sent packet time ttl
  connected ← advance packet'.message.connection_id s.connected
  let s' : Server = record s { connected = connected }
  elim reliability [
    | ReliabilityType.reliable ↦ ok (record s' {
      reliability_handler = record s'.reliability_handler {
        list_sent_reliable_heartbeat =
            push s'.reliability_handler.list_sent_reliable_heartbeat packet';
      };
    })
    | ReliabilityType.unreliable ↦ ok s'
  ]

-- `Server::connection_request_another_state`
unfoldable pub connection_request_another_state : Server → SocketAddr → Bool
connection_request_another_state s address =
    any (λ peer. peer.address == address) (values s.awaiting_connection_ack)
    || any (λ peer. peer.address == address) (values s.connected)

-- `Server::unexpected_connection`
unfoldable pub unexpected_connection : Server → SocketAddr → Result (Unit {0})
unfolding connection_request_another_state
unexpected_connection s address =
    if connection_request_another_state s address
    then err (peer_in_another_state address)
    else if any (λ other. other == address) s.ban_list
    then err (banned address)
    else ok tt

-- `Server::accept_connection`
unfoldable pub accept_connection : Server → ConnectionId → PacketId → Duration → Server
accept_connection s connection_id packet_id time =
    elim (get connection_id s.requesting_connection) [
      | some peer ↦ record s {
        requesting_connection = remove connection_id s.requesting_connection;
        scheduler = record s.scheduler {
          service = record {
            list_scheduled_connection_accepted =
                push s.scheduler.service.list_scheduled_connection_accepted (record {
                  packet_id = packet_id;
                  address = peer.address;
                  time = time;
                  reliability = Reliable.reliable;
                  message = record {
                    meta = record { packet_type = connection_accepted_type };
                    connection_id = connection_id;
                  };
                });
          };
        };
        awaiting_connection_ack =
            insert connection_id (await_connection_ack peer time) s.awaiting_connection_ack;
      }
      | none ↦ record s { api = push s.api (fail (not_found connection_id)) }
    ]

-- `Server::sent_connection_accepted`
unfoldable pub sent_connection_accepted :
    Server → Packet ToSend ConnectionAccepted → Duration → Duration → Result Server
unfolding sent advance
sent_connection_accepted s packet time ttl = do
  let packet' = sent packet time ttl
  awaiting ← advance packet'.message.connection_id s.awaiting_connection_ack
  ok (record s {
    awaiting_connection_ack = awaiting;
    reliability_handler = record s.reliability_handler {
      service = record {
        list_sent_connection_accepted =
            push s.reliability_handler.service.list_sent_connection_accepted packet';
      };
    };
  })

-- `Server::create_connection_accepted`
unfoldable pub create_connection_accepted :
    Server
    → Scheduled Reliable ConnectionAccepted
    → Duration
    → Result (Packet ToSend ConnectionAccepted)
unfolding into_packet
create_connection_accepted s scheduled time = do
  peer ← unwrap (get scheduled.message.connection_id s.awaiting_connection_ack)
  ok (into_packet scheduled peer.sequence_tracker peer.remote_ack_tracker time)

-- `Server::retry_reliable_connection_accepted`
unfoldable pub retry_reliable_connection_accepted :
    Server → Duration → Result (Server × Option (Packet ToSend ConnectionAccepted))
unfolding retry
retry_reliable_connection_accepted s time = do
  (rest, packet) ← retry s.reliability_handler.service.list_sent_connection_accepted time
  ok (
    record s {
      reliability_handler = record s.reliability_handler {
        service = record { list_sent_connection_accepted = rest };
      };
    },
    packet,
  )
