-- ===== src/Peers.antt =====
-- antarc-protocol/src/peers.rs: a peer in each of its states, and the moves between them.
pub mod Reassemble
pub mod Groups
pub mod Poll
pub mod Advance
pub mod Transfer
use antarc.Shared.{ℕ, ◌+◌, ◌≡◌, List, [], ◌∷◌, Option, none, some, ltb, if◌then◌else◌}
use antarc.Shared.HashMap.{insert, HashMap, get, remove, values}
use antarc.Base.Errors.{SocketAddr}
use antarc.Base.Results.{Result, ok, ◌>>=◌, unwrap}
use antarc.Base.Words.{checked_succ}
use antarc.Packets.Delivery.{Duration, PacketId, Received, from_secs}
use antarc.Packets.Message.{Sequence, Ack, ConnectionId, Fragment}
use antarc.Packets.Packet.{Packet}

pub record Peer (Connection : Type 0) : Type 0 where
  pub sequence_tracker : Sequence
  pub remote_ack_tracker : Ack
  pub local_ack_tracker : Ack
  pub address : SocketAddr
  pub connection : Connection

pub data SendTo : Type 0 where
  single : (connection_id : ConnectionId) → SendTo
  broadcast : SendTo

pub record MetaConnection : Type 0 where
  pub time_entered_state : Duration
  pub latest_sent_packet_id : PacketId
  pub latest_sent_packet_time : Duration

pub record RequestingConnection : Type 0 where
  pub meta : MetaConnection
  pub attempts : ℕ

pub record AwaitingConnectionAck : Type 0 where
  pub meta : MetaConnection
  pub attempts : ℕ

pub record Connected : Type 0 where
  pub meta : MetaConnection
  pub connection_id : ConnectionId
  pub rtt : Duration
  pub reassembler : HashMap (List (Packet Received Fragment))

-- `Peer::<RequestingConnection>::new`
unfoldable pub new_peer : Duration → SocketAddr → ℕ → Peer RequestingConnection
new_peer time_entered_state address remote_ack_tracker = record {
  sequence_tracker = 1;
  remote_ack_tracker = remote_ack_tracker;
  local_ack_tracker = 0;
  address = address;
  connection = record {
    meta = record {
      time_entered_state = time_entered_state;
      latest_sent_packet_id = 0;
      latest_sent_packet_time = 0;
    };
    attempts = 0;
  };
}

unfoldable pub await_connection_ack :
    Peer RequestingConnection → Duration → Peer AwaitingConnectionAck
await_connection_ack peer time_entered_state = record {
  sequence_tracker = peer.sequence_tracker;
  remote_ack_tracker = peer.remote_ack_tracker;
  local_ack_tracker = peer.local_ack_tracker;
  address = peer.address;
  connection = record {
    meta = record {
      time_entered_state = time_entered_state;
      latest_sent_packet_id = peer.connection.meta.latest_sent_packet_id;
      latest_sent_packet_time = peer.connection.meta.latest_sent_packet_time;
    };
    attempts = 0;
  };
}

-- `Peer::<AwaitingConnectionAck>::connected`
unfoldable pub connected : Peer AwaitingConnectionAck → Duration → ConnectionId → Peer Connected
connected peer time_entered_state connection_id = record {
  sequence_tracker = peer.sequence_tracker;
  remote_ack_tracker = peer.remote_ack_tracker;
  local_ack_tracker = peer.local_ack_tracker;
  address = peer.address;
  connection = record {
    meta = record {
      time_entered_state = time_entered_state;
      latest_sent_packet_id = peer.connection.meta.latest_sent_packet_id;
      latest_sent_packet_time = peer.connection.meta.latest_sent_packet_time;
    };
    connection_id = connection_id;
    rtt = 0;
    reassembler = [];
  };
}

module _ {C : Type 0} where
  -- The two assignments with which both services record a packet from a peer.
  unfoldable pub track : Peer C → Sequence → Ack → Peer C
  track peer sequence ack = record peer { remote_ack_tracker = sequence; local_ack_tracker = ack }

  -- `peer.sequence_tracker = peer.sequence_tracker.checked_add(1).unwrap()`
  unfoldable pub next_sequence : Peer C → Result (Peer C)
  unfolding checked_succ
  next_sequence peer = do
    sequence ← unwrap (checked_succ peer.sequence_tracker)
    ok (record peer { sequence_tracker = sequence })

-- The same on a map of peers, where the peer is found: `if let Some(peer) = map.get_mut(id)`.
unfoldable pub advance : {C : Type 0} → ConnectionId → HashMap (Peer C) → Result (HashMap (Peer C))
unfolding next_sequence
advance connection_id peers = elim (get connection_id peers) [
  | none ↦ ok peers
  | some peer ↦ do peer' ← next_sequence peer; ok (insert connection_id peer' peers)
]

unfoldable pub last : {A : Type 0} → List A → Option A
last [] = none
last (x ∷ xs) = elim (last xs) [ none ↦ some x | some y ↦ some y ]

-- The fragments that the `filter_map` of `Peer::poll` lets through, in iteration order.
unfoldable pub dropped : Duration → List (List (Packet Received Fragment)) → Result (List Sequence)
unfolding last
dropped now [] = ok []
dropped now (fragments ∷ groups) = do
  fragment ← unwrap (last fragments)
  rest ← dropped now groups
  ok (
      if ltb now (fragment.delivery.meta.time + from_secs 1)
      then fragment.sequence ∷ rest
      else rest)

-- The `if let` behind it: the last of them is removed.
unfoldable pub drop_group : Peer Connected → List Sequence → Result (Peer Connected)
unfolding last
drop_group peer drop_fragments = elim (last drop_fragments) [
  | none ↦ ok peer
  | some fragment_id ↦ do
    _ ← unwrap (get fragment_id peer.connection.reassembler)
    ok (record peer {
      connection = record peer.connection {
        reassembler = remove fragment_id peer.connection.reassembler;
      };
    })
]

-- `Peer::<Connected>::poll`
unfoldable pub poll : Peer Connected → Duration → Result (Peer Connected)
unfolding dropped drop_group
poll peer now = dropped now (values peer.connection.reassembler) >>= drop_group peer
